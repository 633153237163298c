-- ===== src/BufferPool/Flush.antt =====
-- BufferPool.h: the write of one frame.
use apgitproj.Base.{
  ℕ, ◌≤◌, ◌≡◌, ◌≢◌, inl, inr, refl, ap, ◌∙◌, sym, subst, false, none, some, none-some, Option-cases,
}
use apgitproj.HashMap.{get}
use apgitproj.HashMap.Hashing.{int_key}
use apgitproj.Page.{Page}
use apgitproj.Disk.{write_page}
use apgitproj.Disk.Files.{IsWritable}
use apgitproj.Disk.Blocks.{block-write_page, block-write_page_apart}
use apgitproj.DoublyLinkedList.Segments.{Cells}
use apgitproj.BufferPool.{FrameInfo, Store, page_of, info_of}
use apgitproj.BufferPool.Frames.{frames, same_or_not}
use apgitproj.BufferPool.Invariant.{Slot, nothing}
use apgitproj.BufferPool.Change.{
  with_page, page_of-with_page, page_of-with_page_other, with_page-Keeps,
}
use apgitproj.BufferPool.View.{
  Naming, key_at, IsNamed, Synced, Sees, view-get, IsNamed-same, name_key, names_apart,
}
use apgitproj.BufferPool.Transparent.{IsSound}

abbrev pub cleaned : Page → Page
cleaned page = record page { is_dirty = false }

-- The store after the write of one frame.
abbrev pub flushed : Store → ℕ → Store
flushed s g = record {
  pool = with_page s.pool g (cleaned (page_of s.pool g));
  disk = (write_page s.disk (info_of s.pool g).file_path (page_of s.pool g)).1;
}

module _ (naming : Naming) (s : Store) (cells : Cells ℕ) (v : IsSound naming s cells) (g : ℕ)
    (used : 1 ≤ frames g cells) where
  abbrev page : Page
  page = page_of s.pool g

  abbrev fi : FrameInfo
  fi = info_of s.pool g

  slot : Slot s.pool g
  slot = v.keeps.slots g used

  writable : IsWritable page fi.page_id
  writable = record { number = slot.number; size = slot.size }

  pub flushed-page : page_of (flushed s g).pool g ≡ cleaned page
  flushed-page = page_of-with_page s.pool cells v.keeps g used (cleaned page)

  pub flushed-page_other : (f : ℕ) → g ≢ f → page_of (flushed s g).pool f ≡ page_of s.pool f
  flushed-page_other f n = page_of-with_page_other s.pool cells v.keeps g used (cleaned page) f n

  -- The bytes in the frames stay.
  flushed-bytes : (f : ℕ) → (page_of (flushed s g).pool f).bytes ≡ (page_of s.pool f).bytes
  flushed-bytes f = elim (same_or_not g f) [
    | inl e ↦
        subst (λ h. (page_of (flushed s g).pool h).bytes ≡ (page_of s.pool h).bytes) e
          (ap (λ (q : Page). q.bytes) flushed-page)
    | inr n ↦ ap (λ (q : Page). q.bytes) (flushed-page_other f n)
  ]

  flushed-Synced : Synced naming (flushed s g) cells
  flushed-Synced f u = elim (same_or_not g f) [
    | inl e ↦
        let old = v.synced g used in
        let d = (flushed s g).disk in
        let new : IsNamed naming d fi (cleaned page) = record {
          known = old.known;
          hashed = old.hashed;
          clean = λ c. block-write_page s.disk fi.file_path page fi.page_id writable;
        } in
        subst (λ h. IsNamed naming d (info_of s.pool h) (page_of (flushed s g).pool h)) e
          (subst (IsNamed naming d fi) (sym flushed-page) new)
    | inr n ↦
        let old = v.synced f u in
        let fj = info_of s.pool f in
        let other = page_of s.pool f in
        IsNamed-same naming s.disk (flushed s g).disk fj fj other (page_of (flushed s g).pool f)
          refl (flushed-page_other f n)
          (λ c.
            block-write_page_apart s.disk fi.file_path fj.file_path page fi.page_id fj.page_id
              other.bytes writable (old.clean c)
              (names_apart naming s cells nothing v.keeps v.synced g f used u n))
          old
  ]

  pub flushed-IsSound : IsSound naming (flushed s g) cells
  flushed-IsSound = record {
    keeps =
        with_page-Keeps s.pool cells v.keeps g used (cleaned page)
          (record { valid = slot.valid; number = slot.number; size = slot.size });
    synced = flushed-Synced;
  }

  pub flushed-Sees : Sees naming s (flushed s g)
  flushed-Sees path i bytes known e =
      let k = key_at naming path i in
      elim (Option-cases (get s.pool.frame_map k)) [
        | inl miss ↦
            view-get naming (flushed s g) path i none miss
            ∙ block-write_page_apart s.disk fi.file_path path page fi.page_id i bytes writable
                (sym (view-get naming s path i none miss) ∙ e)
                (λ a b.
                  none-some g
                    (sym miss ∙ name_key naming s cells nothing v.keeps v.synced g used path i a b))
        | inr (f, hit) ↦
            view-get naming (flushed s g) path i (some f) hit
            ∙ ap some (flushed-bytes f)
            ∙ sym (view-get naming s path i (some f) hit)
            ∙ e
      ]
