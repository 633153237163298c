-- ===== src/BufferPool/Take.antt =====
-- BufferPool.h: how fetchPage comes to a frame for a page.
use apgitproj.Base.{
  ℕ, zero, suc, ◌≤◌, ◌≡◌, inl, inr, refl, ap, sym, subst, none, [], ◌∷◌, ◌++◌, ℤ, arith, get_or,
  take, if◌then◌else◌,
}
use apgitproj.HashMap.{get}
use apgitproj.HashMap.Hashing.{int_key}
use apgitproj.Disk.{write_page}
use apgitproj.DoublyLinkedList.Segments.{Cells}
use apgitproj.DoublyLinkedList.Front.{Represents}
use apgitproj.DoublyLinkedList.Methods.{pop_tail-Represents}
use apgitproj.BufferPool.{Store, page_of, info_of, evict_lru, take_frame}
use apgitproj.BufferPool.Frames.{frames, copies, snoc_cases}
use apgitproj.BufferPool.Evict.{pop_free-Keeps, evicted, evicted-miss, evicted-Keeps}
use apgitproj.BufferPool.Invariant.{Keeps, nothing, just}

-- How fetchPage comes to a frame: from the stack, or by the eviction of the last one in the list.
abbrev pub popped : Store → ℕ → Store
popped s n = record s { pool = record s.pool { free_count = n } }

abbrev pub spilled : Store → ℕ → Store
spilled s g =
    let page = page_of s.pool g in
    record {
      pool = evicted s.pool g;
      disk =
          if page.is_dirty then (write_page s.disk (info_of s.pool g).file_path page).1 else s.disk;
    }

pub data Taken (s : Store) (cells : Cells ℕ) : ℕ × Store → Cells ℕ → Type 0 where
  from_stack :
      (n : ℕ)
      → s.pool.free_count ≡ suc n
      → Taken s cells (get_or s.pool.free_frames n 0, popped s n) cells
  from_list :
      (xs : Cells ℕ) (node g : ℕ)
      → s.pool.free_count ≡ 0
      → cells ≡ xs ++ (node, g) ∷ []
      → Taken s cells (g, spilled s g) xs

module _ (s : Store) (cells : Cells ℕ) (v : Keeps s.pool cells nothing) where
  evict_lru-last :
      (xs : Cells ℕ) (node g : ℕ) → cells ≡ xs ++ (node, g) ∷ [] → evict_lru s ≡ (g, spilled s g)
  unfolding evict_lru
  evict_lru-last xs node g e =
      let order = subst (Represents s.pool.lru_list) e v.order in
      rw ((pop_tail-Represents 0 s.pool.lru_list xs node g order).0)

  take_frame-count :
      1 ≤ s.pool.capacity
      → (n : ℕ) → s.pool.free_count ≡ n
      → (rest : Cells ℕ) × Taken s cells (take_frame n s) rest
  unfolding take_frame frames copies
  take_frame-count h (suc n) e = (cells, from_stack n e)
  take_frame-count h zero e = elim (snoc_cases cells) [
    | inl z ↦
        let free = ap (λ m. copies 0 (take m s.pool.free_frames)) e in
        absurd (ground (arith, v.balance 0, ap (frames 0) z, free))
    | inr (xs, (node, g), q) ↦ (
      xs,
      subst (λ r. Taken s cells r xs) (sym (evict_lru-last xs node g q)) (from_list xs node g e q),
    )
  ]

  -- A pool of at least one frame has a frame for every page.
  pub take_frame-Taken :
      1 ≤ s.pool.capacity → (rest : Cells ℕ) × Taken s cells (take_frame s.pool.free_count s) rest
  take_frame-Taken h = take_frame-count h s.pool.free_count refl

  -- The frame that was taken is held.
  pub Taken-Keeps :
      (t : ℕ × Store) (rest : Cells ℕ) → Taken s cells t rest → Keeps t.1.pool rest (just t.0)
  Taken-Keeps t rest (from_stack n e) = pop_free-Keeps s.pool cells n v e
  Taken-Keeps t rest (from_list xs node g z e) =
      evicted-Keeps s.pool xs node g (subst (λ cs. Keeps s.pool cs nothing) e v)

  -- A key that had no frame has none in the pool afterwards.
  pub Taken-miss :
      (t : ℕ × Store) (rest : Cells ℕ) (k : ℤ)
      → Taken s cells t rest
      → get s.pool.frame_map k ≡ none
      → get t.1.pool.frame_map k ≡ none
  Taken-miss t rest k (from_stack n e) miss = miss
  Taken-miss t rest k (from_list xs node g z e) miss = evicted-miss s.pool g k v.hashed miss
