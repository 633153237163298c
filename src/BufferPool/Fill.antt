-- ===== src/BufferPool/Fill.antt =====
-- BufferPool.h: loading a page into a frame loses no page.
use apgitproj.Base.{
  ℕ, ◌≤◌, ◌≡◌, ◌≢◌, inl, inr, refl, ap, ap₂, ◌∙◌, sym, subst, none, some, ◌∷◌, ℤ, Text, arith,
  Bool-cases, Option-cases,
}
use apgitproj.HashMap.{get}
use apgitproj.HashMap.Hashing.{int_key, int_equal, int_equal_iff}
use apgitproj.Page.{Page}
use apgitproj.Disk.Blocks.{block}
use apgitproj.DoublyLinkedList.{push_front}
use apgitproj.DoublyLinkedList.Segments.{Cells}
use apgitproj.BufferPool.{Store, page_of, info_of}
use apgitproj.BufferPool.Frames.{frames, same_or_not}
use apgitproj.BufferPool.Invariant.{Keeps, just}
use apgitproj.BufferPool.Load.{IsPage}
use apgitproj.BufferPool.Evict.{held_inside}
use apgitproj.BufferPool.Register.{
  filled, filled-page, filled-page_other, filled-info, filled-info_other, filled-get,
}
use apgitproj.BufferPool.View.{Naming, key_at, view, IsNamed, Synced, Sees, view-get, IsNamed-same}

module _ (naming : Naming) (s : Store) (cells : Cells ℕ) (path : Text) (page_id f : ℕ) (page : Page)
    (v : Keeps s.pool cells (just f)) (is_page : IsPage page page_id)
    (miss : get s.pool.frame_map (key_at naming path page_id) ≡ none)
    (synced : Synced naming s cells) (known : naming.Known path page_id)
    (file : block s.disk path page_id ≡ some page.bytes) where
  abbrev hash : ℕ
  hash = naming.hash_of path

  -- The store with the page in its frame.
  abbrev after : Store
  after = record s { pool = filled s.pool path hash page_id f page }

  abbrev node : ℕ
  node = (push_front f s.pool.lru_list).1

  new-IsNamed : IsNamed naming after.disk (info_of after.pool f) (page_of after.pool f)
  new-IsNamed =
      let fi = filled-info s.pool cells path hash page_id f page v is_page miss in
      let pg = filled-page s.pool cells path hash page_id f page v is_page miss in
      rw (fi, pg, naming.short known) (record { known = known; hashed = refl; clean = λ c. file })

  old_used : (g : ℕ) → f ≢ g → 1 ≤ frames g ((node, f) ∷ cells) → 1 ≤ frames g cells
  unfolding frames
  old_used g n u = ground arith

  pub filled-Synced : Synced naming after ((node, f) ∷ cells)
  filled-Synced g u = elim (same_or_not f g) [
    | inl e ↦
        subst (λ h. IsNamed naming after.disk (info_of after.pool h) (page_of after.pool h)) e
          new-IsNamed
    | inr n ↦
        let old = synced g (old_used g n u) in
        IsNamed-same naming s.disk after.disk (info_of s.pool g) (info_of after.pool g)
          (page_of s.pool g) (page_of after.pool g)
          (filled-info_other s.pool cells path hash page_id f page v is_page miss g n)
          (filled-page_other s.pool cells path hash page_id f page v is_page miss g n) old.clean old
  ]

  -- The frame held is none that the map gives.
  held_new : (k : ℤ) (g : ℕ) → get s.pool.frame_map k ≡ some g → f ≢ g
  held_new k g e q =
      omega (arith, (v.found k g e).1, (held_inside s.pool cells f v).1, ap (λ h. frames h cells) q)

  pub filled-Sees : Sees naming s after
  filled-Sees other i bytes named e =
      let key = key_at naming path page_id in
      let k = key_at naming other i in
      let now = filled-get s.pool cells path hash page_id f page v is_page miss k in
      elim (Bool-cases (int_equal key k)) [
        | inl same ↦
            let name = naming.apart known named ((int_equal_iff key k).0 same) in
            view-get naming after other i (some f) (now ∙ rw same refl)
            ∙ ap (λ (q : Page). some q.bytes)
                (filled-page s.pool cells path hash page_id f page v is_page miss)
            ∙ sym file
            ∙ sym (view-get naming s path page_id none miss)
            ∙ ap₂ (view naming s) name.0 name.1
            ∙ e
        | inr differ ↦ elim (Option-cases (get s.pool.frame_map k)) [
          | inl none_there ↦
              view-get naming after other i none (now ∙ rw differ none_there)
              ∙ sym (view-get naming s other i none none_there)
              ∙ e
          | inr (g, there) ↦
              view-get naming after other i (some g) (now ∙ rw differ there)
              ∙ ap (λ (q : Page). some q.bytes)
                  (filled-page_other s.pool cells path hash page_id f page v is_page miss g
                    (held_new k g there))
              ∙ sym (view-get naming s other i (some g) there)
              ∙ e
        ]
      ]
