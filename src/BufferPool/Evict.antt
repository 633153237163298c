-- ===== src/BufferPool/Evict.antt =====
-- BufferPool.h: a frame is taken from the free ones or from the page used least recently.
use apgitproj.Base.{
  ℕ, suc, ◌+◌, ◌≤◌, ◌<◌, ◌≡◌, ◌≢◌, inl, inr, refl, ap, ◌∙◌, sym, Bool, true, false, Option, none,
  some, [], ◌∷◌, ◌++◌, ℤ, arith, get_or, set, length-set, get_or-set, take, length, ◌==◌, ==_iff,
  if◌then◌else◌, Bool-cases, none-some,
}
use apgitproj.HashMap.{get, remove}
use apgitproj.HashMap.Hashing.{int_key, int_equal, int_equal_iff}
use apgitproj.HashMap.Invariant.{IsHashed}
use apgitproj.HashMap.Methods.{remove-IsHashed, get-remove}
use apgitproj.Page.{Page, blank_page}
use apgitproj.DoublyLinkedList.{pop_tail}
use apgitproj.DoublyLinkedList.Segments.{Cells}
use apgitproj.DoublyLinkedList.Methods.{pop_tail-Represents}
use apgitproj.BufferPool.{BufferPool, page_of, info_of, node_of, key_of}
use apgitproj.BufferPool.Frames.{
  frames, copies, address, frames-append, address-append, address-none, copies-take,
  get_or-set_other,
}
use apgitproj.BufferPool.Invariant.{Slot, Slot-same, Keeps, nothing, just}

-- A frame that is not in the list is not the one of a slot.
module _ (p : BufferPool) (cells : Cells ℕ) where
  -- Two frames in use have different keys.
  pub keys_apart :
      (f g : ℕ)
      → Slot p f
      → Slot p g
      → f ≢ g
      → int_equal (key_of (info_of p f)) (key_of (info_of p g)) ≡ false
  keys_apart f g s t n =
      elim (Bool-cases (int_equal (key_of (info_of p f)) (key_of (info_of p g)))) [
        | inl e ↦
            let same = (int_equal_iff (key_of (info_of p f)) (key_of (info_of p g))).0 e in
            let mapped : some f ≡ some g = sym s.mapped ∙ ap (get p.frame_map) same ∙ t.mapped in
            absurd (n cc)
        | inr e ↦ e
      ]

  -- A call that takes a free frame holds it.
  pub pop_free-Keeps :
      (n : ℕ)
      → Keeps p cells nothing
      → p.free_count ≡ suc n
      → Keeps (record p { free_count = n }) cells (just (get_or p.free_frames n 0))
  pop_free-Keeps n v e =
      let room : n < length p.free_frames = omega (arith, v.free_length) in
      record {
        pages_length = v.pages_length;
        infos_length = v.infos_length;
        nodes_length = v.nodes_length;
        free_length = omega arith;
        hashed = v.hashed;
        order = v.order;
        nodes = v.nodes;
        slots = λ f u.
            let s = v.slots f u in
            record { mapped = s.mapped; valid = s.valid; number = s.number; size = s.size };
        idle = v.idle;
        found = v.found;
        balance = λ f.
            let count : copies f (take p.free_count p.free_frames)
                ≡ copies f (take (suc n) p.free_frames) =
              ap (λ m. copies f (take m p.free_frames)) e in
            omega (arith, v.balance f, copies-take f n p.free_frames room, count);
      }

  -- The frame that is held is one of the pool, and is not in use.
  pub held_inside : (f : ℕ) → Keeps p cells (just f) → (f < p.capacity) × (frames f cells ≡ 0)
  held_inside f v = ground (arith, v.balance f)

  -- A frame in use is one of the pool, once.
  pub used_inside :
      (f : ℕ) (h : ℕ → ℕ)
      → Keeps p cells h
      → 1 ≤ frames f cells
      → (f < p.capacity) × (frames f cells ≡ 1)
  used_inside f h v u = ground (arith, v.balance f)

pub true-false : true ≢ false
true-false e = cc

module _ (p : BufferPool) where
  -- The pool after the eviction of a frame.
  abbrev pub evicted : ℕ → BufferPool
  evicted g = record p {
    pages = set p.pages g blank_page;
    lru_nodes = set p.lru_nodes g none;
    lru_list = (pop_tail 0 p.lru_list).1;
    frame_map = (remove p.frame_map (key_of (info_of p g))).0;
    eviction_count = suc p.eviction_count;
  }

  -- A key without a frame has none after it.
  pub evicted-miss :
      (g : ℕ) (k : ℤ)
      → IsHashed p.frame_map
      → get p.frame_map k ≡ none
      → get (evicted g).frame_map k ≡ none
  evicted-miss g k hashed miss =
      let key = key_of (info_of p g) in
      get-remove p.frame_map hashed key k ∙ rw miss (either (int_equal key k))
    where
      either : (b : Bool) → ◌≡◌ {A = Option ℕ} (if b then none else none) none
      either b = ground arith

  -- The last frame of the list is evicted.
  module _ (xs : Cells ℕ) (node g : ℕ) (v : Keeps p (xs ++ (node, g) ∷ []) nothing) where
    abbrev cells : Cells ℕ
    cells = xs ++ (node, g) ∷ []

    pub frames-cells : (f : ℕ) → frames f cells ≡ frames f xs + (if g == f then 1 else 0)
    unfolding frames
    frames-cells f = omega (arith, frames-append f xs ((node, g) ∷ []))

    pub last_used : (g < p.capacity) × (frames g cells ≡ 1)
    last_used = used_inside p cells g nothing v (ground (arith, frames-cells g))

    last_gone : frames g xs ≡ 0
    last_gone = ground (arith, frames-cells g, last_used.1)

    evicted-nodes : (f : ℕ) → node_of (evicted g) f ≡ address f xs
    unfolding address
    evicted-nodes f =
        get_or-set p.lru_nodes g f none none (omega (arith, last_used.0, v.nodes_length))
        ∙ ground (
          arith,
          v.nodes f,
          address-append f xs ((node, g) ∷ []),
          address-none g xs last_gone,
          ==_iff g f,
        )

    pub still_used : (f : ℕ) → 1 ≤ frames f xs → (1 ≤ frames f cells) × (g ≢ f)
    still_used f u =
        (omega (arith, frames-cells f), λ e. omega (arith, last_gone, ap (λ h. frames h xs) e))

    pub evicted-page_other : (f : ℕ) → 1 ≤ frames f xs → page_of (evicted g) f ≡ page_of p f
    evicted-page_other f u =
        get_or-set_other p.pages g blank_page blank_page
          (omega (arith, last_used.0, v.pages_length)) f (still_used f u).1

    evicted-slots : (f : ℕ) → 1 ≤ frames f xs → Slot (evicted g) f
    evicted-slots f u =
        let w = still_used f u in
        let k = key_of (info_of p g) in
        let slot = v.slots f w.0 in
        let apart = keys_apart p cells g f (v.slots g (omega (arith, last_used.1))) slot w.1 in
        Slot-same p (evicted g) f (evicted-page_other f u) refl
          (get-remove p.frame_map v.hashed k (key_of (info_of p f)) ∙ rw apart (slot.mapped)) slot

    evicted-idle : (f : ℕ) → frames f xs ≡ 0 → (page_of (evicted g) f).is_valid ≡ false
    unfolding blank_page
    evicted-idle f u =
        ap (λ (q : Page). q.is_valid)
          (get_or-set p.pages g f blank_page blank_page
            (omega (arith, last_used.0, v.pages_length)))
        ∙ ground (arith, v.idle f, frames-cells f)

    evicted-found :
        (k : ℤ) (f : ℕ)
        → get (evicted g).frame_map k ≡ some f
        → (key_of (info_of p f) ≡ k) × (1 ≤ frames f xs)
    evicted-found k f e =
        let key = key_of (info_of p g) in
        let both = sym (get-remove p.frame_map v.hashed key k) ∙ e in
        elim (Bool-cases (int_equal key k)) [
          | inl same ↦ absurd (none-some f (rw same at both))
          | inr apart ↦
              let w = v.found k f (rw apart at both) in
              let n : g ≢ f = λ q.
                let same = (int_equal_iff key k).1 (ap (λ h. key_of (info_of p h)) q ∙ w.0) in
                absurd (true-false (sym same ∙ apart)) in
              (w.0, ground (arith, frames-cells f, w.1, n))
        ]

    -- `evictLRU` empties the last frame of the list, and the call holds it.
    pub evicted-Keeps : Keeps (evicted g) xs (just g)
    evicted-Keeps = record {
      pages_length = length-set p.pages g _ ∙ v.pages_length;
      infos_length = v.infos_length;
      nodes_length = length-set p.lru_nodes g _ ∙ v.nodes_length;
      free_length = v.free_length;
      hashed = (remove-IsHashed p.frame_map v.hashed (key_of (info_of p g))).0;
      order = (pop_tail-Represents 0 p.lru_list xs node g v.order).1;
      nodes = evicted-nodes;
      slots = evicted-slots;
      idle = evicted-idle;
      found = evicted-found;
      balance = λ f. ground (arith, v.balance f, frames-cells f);
    }
