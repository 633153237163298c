-- ===== src/BufferPool/Spill.antt =====
-- BufferPool.h: an eviction loses no page.
use apgitproj.Base.{
  ℕ, ◌≤◌, ◌≡◌, ◌≢◌, inl, inr, refl, ap, ap₂, ◌∙◌, sym, none, some, none-some, List, [], ◌∷◌, ◌++◌,
  Text, arith, Bool-cases, Option-cases,
}
use apgitproj.HashMap.{get}
use apgitproj.HashMap.Hashing.{int_key, int_equal_iff}
use apgitproj.HashMap.Methods.{get-remove}
use apgitproj.Page.{Page}
use apgitproj.Disk.Files.{IsWritable}
use apgitproj.Disk.Blocks.{block, block-write_page, block-write_page_apart}
use apgitproj.DoublyLinkedList.Segments.{Cells}
use apgitproj.BufferPool.{FrameInfo, Store, page_of, info_of, key_of}
use apgitproj.BufferPool.Frames.{frames, same_or_not}
use apgitproj.BufferPool.Invariant.{Slot, Keeps, nothing}
use apgitproj.BufferPool.Evict.{
  keys_apart, last_used, still_used, evicted-miss, evicted-page_other, frames-cells,
}
use apgitproj.BufferPool.Take.{spilled}
use apgitproj.BufferPool.View.{
  Naming, key_at, view, IsNamed, Synced, Sees, view-get, key_of-named, IsNamed-same, name_key,
  names_apart,
}

module _ (naming : Naming) (s : Store) (xs : Cells ℕ) (node g : ℕ)
    (v : Keeps s.pool (xs ++ (node, g) ∷ []) nothing)
    (synced : Synced naming s (xs ++ (node, g) ∷ [])) where
  abbrev cells : Cells ℕ
  cells = xs ++ (node, g) ∷ []

  abbrev fi : FrameInfo
  fi = info_of s.pool g

  used : 1 ≤ frames g cells
  used = ground (arith, last_used s.pool xs node g v)

  slot : Slot s.pool g
  slot = v.slots g used

  named : IsNamed naming s.disk fi (page_of s.pool g)
  named = synced g used

  writable : IsWritable (page_of s.pool g) fi.page_id
  writable = record { number = slot.number; size = slot.size }

  -- The file has the page that was evicted.
  spilled-victim : block (spilled s g).disk fi.file_path fi.page_id ≡ some (page_of s.pool g).bytes
  spilled-victim = elim (Bool-cases (page_of s.pool g).is_dirty) [
    | inl d ↦ rw d (block-write_page s.disk fi.file_path (page_of s.pool g) fi.page_id writable)
    | inr d ↦ rw d (named.clean d)
  ]

  -- The files have the other pages that they had.
  spilled-other :
      (path : Text) (i : ℕ) (bytes : List ℕ)
      → block s.disk path i ≡ some bytes
      → (fi.file_path ≡ path → fi.page_id ≢ i)
      → block (spilled s g).disk path i ≡ some bytes
  spilled-other path i bytes e n = elim (Bool-cases (page_of s.pool g).is_dirty) [
    | inl d ↦ rw d (
        block-write_page_apart s.disk fi.file_path path (page_of s.pool g) fi.page_id i bytes
          writable e n)
    | inr d ↦ rw d e
  ]

  pub spilled-Synced : Synced naming (spilled s g) xs
  spilled-Synced f u =
      let w = still_used s.pool xs node g v f u in
      let n = synced f w.0 in
      let old = info_of s.pool f in
      let page = page_of s.pool f in
      IsNamed-same naming s.disk (spilled s g).disk old old page (page_of (spilled s g).pool f) refl
        (evicted-page_other s.pool xs node g v f u)
        (λ c.
          spilled-other old.file_path old.page_id page.bytes (n.clean c)
            (names_apart naming s cells nothing v synced g f used w.0 w.1))
        n

  -- The name of the victim is read from the file now.
  sees_victim :
      (path : Text) (i : ℕ)
      → naming.Known path i
      → key_of fi ≡ key_at naming path i
      → view naming (spilled s g) path i ≡ some (page_of s.pool g).bytes
  sees_victim path i known same =
      let k = key_at naming path i in
      let here = (int_equal_iff (key_of fi) k).1 same in
      let name =
        naming.apart named.known known
          (sym (key_of-named naming s.disk fi (page_of s.pool g) named) ∙ same) in
      view-get naming (spilled s g) path i none
        (get-remove s.pool.frame_map v.hashed (key_of fi) k ∙ rw here refl)
      ∙ ap₂ (block (spilled s g).disk) (sym name.0) (sym name.1)
      ∙ spilled-victim

  -- Another frame in use is left.
  sees_other :
      (path : Text) (i f : ℕ)
      → get s.pool.frame_map (key_at naming path i) ≡ some f
      → g ≢ f
      → view naming (spilled s g) path i ≡ some (page_of s.pool f).bytes
  sees_other path i f hit n =
      let k = key_at naming path i in
      let w = v.found k f hit in
      let left : 1 ≤ frames f xs = ground (arith, frames-cells s.pool xs node g v f, w.1) in
      let apart = keys_apart s.pool cells g f slot (v.slots f w.1) n in
      view-get naming (spilled s g) path i (some f) (
        get-remove s.pool.frame_map v.hashed (key_of fi) k
        ∙ rw (← w.0, apart) (v.slots f w.1).mapped)
      ∙ ap (λ (q : Page). some q.bytes) (evicted-page_other s.pool xs node g v f left)

  pub spilled-Sees : Sees naming s (spilled s g)
  spilled-Sees path i bytes known e =
      let k = key_at naming path i in
      elim (Option-cases (get s.pool.frame_map k)) [
        | inl miss ↦
            let file = sym (view-get naming s path i none miss) ∙ e in
            let apart : fi.file_path ≡ path → fi.page_id ≢ i = λ a b.
              none-some g (sym miss ∙ name_key naming s cells nothing v synced g used path i a b) in
            view-get naming (spilled s g) path i none (evicted-miss s.pool g k v.hashed miss)
            ∙ spilled-other path i bytes file apart
        | inr (f, hit) ↦
            let there = sym (view-get naming s path i (some f) hit) ∙ e in
            elim (same_or_not g f) [
              | inl q ↦
                  sees_victim path i known
                    (ap (λ h. key_of (info_of s.pool h)) q ∙ (v.found k f hit).0)
                  ∙ ap (λ h. some (page_of s.pool h).bytes) q
                  ∙ there
              | inr n ↦ sees_other path i f hit n ∙ there
            ]
      ]
