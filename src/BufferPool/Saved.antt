-- ===== src/BufferPool/Saved.antt =====
-- BufferPool.h: flushing writes the dirty pages to their files and loses none.
use apgitproj.Base.{
  ℕ, zero, suc, ◌-◌, ◌≤◌, ◌<◌, ◌≡◌, inl, inr, refl, ap, ap₂, ◌∙◌, ◌==◌, ==_iff, sym, subst, Bool,
  true, false, ◌&&◌, none, some, List, Text, arith, Option-cases, Bool-cases,
}
use apgitproj.HashMap.{get}
use apgitproj.HashMap.Hashing.{int_key}
use apgitproj.Page.{Page}
use apgitproj.Disk.Blocks.{block}
use apgitproj.DoublyLinkedList.Segments.{Cells}
use apgitproj.BufferPool.{
  FrameInfo, Store, page_of, info_of, flush_frame, flush_frames, flush_all, flush_table,
}
use apgitproj.BufferPool.Frames.{frames, same_or_not}
use apgitproj.BufferPool.Invariant.{nothing}
use apgitproj.BufferPool.Evict.{used_inside}
use apgitproj.BufferPool.View.{Naming, key_at, view, Sees, view-get, key_of-named}
use apgitproj.BufferPool.Transparent.{IsSound}
use apgitproj.BufferPool.Flush.{
  flushed, flushed-page, flushed-page_other, flushed-IsSound, flushed-Sees,
}

-- The frames in use below a number are clean, if they are meant.
abbrev Clean : (FrameInfo → Bool) → Store → Cells ℕ → ℕ → Type 0
Clean meant s cells n =
    (f : ℕ)
    → f < n
    → 1 ≤ frames f cells
    → meant (info_of s.pool f) ≡ true
    → (page_of s.pool f).is_dirty ≡ false

-- What flushing the frames below a number does.
record IsFlushed (naming : Naming) (meant : FrameInfo → Bool) (s : Store) (cells : Cells ℕ) (n : ℕ)
    (t : Store) : Type 0 where
  sound : IsSound naming t cells
  sees : Sees naming s t
  capacity : t.pool.capacity ≡ s.pool.capacity
  clean : Clean meant t cells n

middle-false : (a b c : Bool) → (a && b && c) ≡ false → a ≡ true → c ≡ true → b ≡ false
middle-false a b c e h k = ground arith

module _ (naming : Naming) (meant : FrameInfo → Bool) (cells : Cells ℕ) where
  flush_frame-IsFlushed :
      (s : Store) (i : ℕ)
      → IsSound naming s cells
      → Clean meant s cells i
      → IsFlushed naming meant s cells (suc i) (flush_frame meant i s)
  unfolding flush_frame
  flush_frame-IsFlushed s i v clean =
      let page = page_of s.pool i in
      let test = page.is_valid && page.is_dirty && meant (info_of s.pool i) in
      elim (Bool-cases test) [
        | inl b ↦
            let used : 1 ≤ frames i cells = ground (arith, v.keeps.idle i) in
            rw b (record {
              sound = flushed-IsSound naming s cells v i used;
              sees = flushed-Sees naming s cells v i used;
              capacity = refl;
              clean = λ f h u m. elim (same_or_not i f) [
                | inl e ↦
                    subst (λ j. (page_of (flushed s i).pool j).is_dirty ≡ false) e
                      (ap (λ (q : Page). q.is_dirty) (flushed-page naming s cells v i used))
                | inr n ↦
                    ap (λ (q : Page). q.is_dirty) (flushed-page_other naming s cells v i used f n)
                    ∙ clean f (ground arith) u m
              ];
            })
        | inr b ↦ rw b (record {
          sound = v;
          sees = λ path k bytes known e. e;
          capacity = refl;
          clean = λ f h u m. elim (same_or_not i f) [
            | inl e ↦
                let used = subst (λ j. 1 ≤ frames j cells) (sym e) u in
                let named = subst (λ j. meant (info_of s.pool j) ≡ true) (sym e) m in
                subst (λ j. (page_of s.pool j).is_dirty ≡ false) e
                  (middle-false page.is_valid page.is_dirty (meant (info_of s.pool i)) b
                    (v.keeps.slots i used).valid named)
            | inr n ↦ clean f (ground arith) u m
          ];
        })
      ]

  flush_frames-IsFlushed :
      (left : ℕ) (s : Store)
      → left ≤ s.pool.capacity
      → IsSound naming s cells
      → Clean meant s cells (s.pool.capacity - left)
      → IsFlushed naming meant s cells s.pool.capacity (flush_frames meant left s)
  unfolding flush_frames
  flush_frames-IsFlushed zero s h v clean = record {
    sound = v;
    sees = λ path k bytes known e. e;
    capacity = refl;
    clean = λ f k. clean f (omega arith);
  }
  flush_frames-IsFlushed (suc left) s h v clean =
      let i = s.pool.capacity - suc left in
      let one = flush_frame-IsFlushed s i v clean in
      let t = flush_frame meant i s in
      let same = one.capacity in
      let rest =
        flush_frames-IsFlushed left t (omega arith) one.sound (λ f k. one.clean f (omega arith)) in
      record {
        sound = rest.sound;
        sees = λ path k bytes known e. rest.sees path k bytes known (one.sees path k bytes known e);
        capacity = rest.capacity ∙ same;
        clean = λ f k. rest.clean f (omega arith);
      }

  -- The pages that are meant are in their files afterwards.
  flush_frames-saved :
      (s : Store)
      → IsSound naming s cells
      → (path : Text) (i : ℕ) (bytes : List ℕ) → naming.Known path i
      → ((fi : FrameInfo) → fi.table_hash ≡ naming.hash_of path → meant fi ≡ true)
      → view naming s path i ≡ some bytes
      → block (flush_frames meant s.pool.capacity s).disk path i ≡ some bytes
  flush_frames-saved s v path i bytes known m e =
      let done =
        flush_frames-IsFlushed s.pool.capacity s (omega arith) v (λ f k. absurd (omega arith)) in
      let t = flush_frames meant s.pool.capacity s in
      let k = key_at naming path i in
      let seen = done.sees path i bytes known e in
      elim (Option-cases (get t.pool.frame_map k)) [
        | inl miss ↦ sym (view-get naming t path i none miss) ∙ seen
        | inr (f, hit) ↦
            let w = done.sound.keeps.found k f hit in
            let fi = info_of t.pool f in
            let page = page_of t.pool f in
            let name = done.sound.synced f w.1 in
            let same =
              naming.apart name.known known (sym (key_of-named naming t.disk fi page name) ∙ w.0) in
            let inside = used_inside t.pool cells f nothing done.sound.keeps w.1 in
            let clean =
              done.clean f (omega (arith, inside.0, done.capacity)) w.1
                (m fi (name.hashed ∙ ap naming.hash_of same.0)) in
            ap₂ (block t.disk) (sym same.0) (sym same.1)
            ∙ name.clean clean
            ∙ sym (view-get naming t path i (some f) hit)
            ∙ seen
      ]

module _ (naming : Naming) (s : Store) (cells : Cells ℕ) (v : IsSound naming s cells) where
  -- After `flushAll` every page that a client sees is in its file.
  pub flush_all-saved :
      (path : Text) (i : ℕ) (bytes : List ℕ)
      → naming.Known path i
      → view naming s path i ≡ some bytes
      → block (flush_all s).disk path i ≡ some bytes
  unfolding flush_all
  flush_all-saved path i bytes known e =
      flush_frames-saved naming (λ fi. true) cells s v path i bytes known (λ fi h. refl) e

  -- After `flushTable` every page of the table is in its file.
  pub flush_table-saved :
      (path : Text) (i : ℕ) (bytes : List ℕ)
      → naming.Known path i
      → view naming s path i ≡ some bytes
      → block (flush_table (naming.hash_of path) s).disk path i ≡ some bytes
  unfolding flush_table
  flush_table-saved path i bytes known e =
      flush_frames-saved naming (λ fi. fi.table_hash == naming.hash_of path) cells s v path i bytes
        known (λ fi h. (==_iff fi.table_hash (naming.hash_of path)).1 h) e
