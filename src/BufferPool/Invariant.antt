-- ===== src/BufferPool/Invariant.antt =====
-- BufferPool.h: what holds of the pool between its calls.
use apgitproj.Base.{
  ℕ, zero, suc, ◌+◌, ◌*◌, ◌≤◌, ◌≡◌, refl, ap, ◌∙◌, sym, true, false, none, some, none-some, [], ℤ,
  pos, arith, get_or-replicate, length-replicate, take, take-all, length, ltb, ◌==◌, if◌then◌else◌,
}
use apgitproj.HashMap.{get}
use apgitproj.HashMap.Hashing.{int_key}
use apgitproj.HashMap.Invariant.{IsHashed, new_map-IsHashed, get-new_map}
use apgitproj.Schema.{page_size}
use apgitproj.Page.{Page, blank_page}
use apgitproj.DoublyLinkedList.{new_list}
use apgitproj.DoublyLinkedList.Segments.{Cells, uses, nil}
use apgitproj.DoublyLinkedList.Front.{Represents}
use apgitproj.BufferPool.{
  BufferPool, FrameInfo, page_of, info_of, node_of, key_of, free_stack, new_pool,
}
use apgitproj.BufferPool.Frames.{frames, copies, address}

-- A frame in use: it is found under the key of its page, and holds a page with that number.
pub record Slot (p : BufferPool) (f : ℕ) : Type 0 where
  pub mapped : get p.frame_map (key_of (info_of p f)) ≡ some f
  pub valid : (page_of p f).is_valid ≡ true
  pub number : (page_of p f).page_id ≡ pos (info_of p f).page_id
  pub size : length (page_of p f).bytes ≡ page_size

-- The frames are in use, free, or held by the call that is running, each exactly once; those in use
-- are in the list, in the map and in their slots.
pub record Keeps (p : BufferPool) (cells : Cells ℕ) (held : ℕ → ℕ) : Type 0 where
  pub pages_length : length p.pages ≡ p.capacity
  pub infos_length : length p.frame_infos ≡ p.capacity
  pub nodes_length : length p.lru_nodes ≡ p.capacity
  pub free_length : p.free_count ≤ length p.free_frames
  pub hashed : IsHashed p.frame_map
  pub order : Represents p.lru_list cells
  pub nodes : (f : ℕ) → node_of p f ≡ address f cells
  pub slots : (f : ℕ) → 1 ≤ frames f cells → Slot p f
  pub idle : (f : ℕ) → frames f cells ≡ 0 → (page_of p f).is_valid ≡ false
  pub found :
      (k : ℤ) (f : ℕ)
      → get p.frame_map k ≡ some f
      → (key_of (info_of p f) ≡ k) × (1 ≤ frames f cells)
  pub balance :
      (f : ℕ)
      → frames f cells + copies f (take p.free_count p.free_frames) + held f
        ≡ (if ltb f p.capacity then 1 else 0)

abbrev pub nothing : ℕ → ℕ
nothing f = 0

abbrev pub just : ℕ → ℕ → ℕ
just g f = if g == f then 1 else 0

length-free_stack : (n : ℕ) → length (free_stack n) ≡ n
unfolding free_stack
length-free_stack zero = refl
length-free_stack (suc n) = ap suc (length-free_stack n)

copies-free_stack : (n f : ℕ) → copies f (free_stack n) ≡ (if ltb f n then 1 else 0)
unfolding free_stack copies
copies-free_stack zero f = ground arith
copies-free_stack (suc n) f = ground (arith, copies-free_stack n f)

pub new_list-Represents : Represents (new_list {T = ℕ}) []
unfolding uses
new_list-Represents = record {
  seg = nil;
  at_head = refl;
  at_tail = refl;
  once = λ p. omega arith;
  stale = λ p h. refl;
}

-- A slot whose page, description and entry are as before.
pub Slot-same :
    (p q : BufferPool) (f : ℕ)
    → page_of q f ≡ page_of p f
    → info_of q f ≡ info_of p f
    → get q.frame_map (key_of (info_of p f)) ≡ some f
    → Slot p f
    → Slot q f
Slot-same p q f same_page same_info there s = record {
  mapped = ap (λ i. get q.frame_map (key_of i)) same_info ∙ there;
  valid = ap (λ (g : Page). g.is_valid) same_page ∙ s.valid;
  number =
      ap (λ (g : Page). g.page_id) same_page
      ∙ s.number
      ∙ ap (λ (i : FrameInfo). pos i.page_id) (sym same_info);
  size = ap (λ (g : Page). length g.bytes) same_page ∙ s.size;
}

-- A new pool of at least one frame has them all free.
pub new_pool-Keeps : (capacity : ℕ) → 1 ≤ capacity → Keeps (new_pool capacity) [] nothing
unfolding new_pool frames address blank_page
new_pool-Keeps capacity h = record {
  pages_length = length-replicate capacity _;
  infos_length = length-replicate capacity _;
  nodes_length = length-replicate capacity _;
  free_length = omega (arith, length-free_stack capacity);
  hashed = new_map-IsHashed (capacity * 4) (omega arith);
  order = new_list-Represents;
  nodes = λ f. get_or-replicate capacity f none;
  slots = λ f u. absurd (omega arith);
  idle = λ f u. ap (λ (g : Page). g.is_valid) (get_or-replicate capacity f blank_page);
  found = λ k f e. absurd (none-some f (sym (get-new_map (capacity * 4) k) ∙ e));
  balance = λ f.
      rw (take-all capacity (free_stack capacity) (omega (arith, length-free_stack capacity)))
        (omega (arith, copies-free_stack capacity f));
}
