-- ===== src/BufferPool/Update.antt =====
-- BufferPool.h: a client writes to a page that it fetched, and marks it dirty.
use apgitproj.Base.{
  ℕ, ◌≤◌, ◌≡◌, ◌≢◌, inl, inr, refl, ap, ◌∙◌, sym, subst, true, pos, none, some, Text, Option-cases,
}
use apgitproj.HashMap.{get}
use apgitproj.HashMap.Hashing.{int_key}
use apgitproj.Page.{Page}
use apgitproj.DoublyLinkedList.Segments.{Cells}
use apgitproj.BufferPool.{BufferPool, Store, page_of, info_of, key_of, make_page_key, mark_dirty}
use apgitproj.BufferPool.Frames.{frames, same_or_not}
use apgitproj.BufferPool.Evict.{true-false}
use apgitproj.BufferPool.Load.{IsPage}
use apgitproj.BufferPool.Change.{
  with_page, page_of-with_page, page_of-with_page_other, with_page-Keeps,
}
use apgitproj.BufferPool.View.{
  Naming, key_at, view, IsNamed, Synced, view-get, IsNamed-same, key_of-named,
}
use apgitproj.BufferPool.Transparent.{IsSound}

-- The store with another page in a frame, which is dirty.
abbrev pub dirtied : Store → ℕ → Page → Store
dirtied s f page = record s { pool = with_page s.pool f (record page { is_dirty = true }) }

-- The frame of a page that is in the pool.
module _ (naming : Naming) (s : Store) (cells : Cells ℕ) (v : IsSound naming s cells) (path : Text)
    (page_id f : ℕ) (known : naming.Known path page_id)
    (hit : get s.pool.frame_map (key_at naming path page_id) ≡ some f) where
  used : 1 ≤ frames f cells
  used = (v.keeps.found (key_at naming path page_id) f hit).1

  name : (info_of s.pool f).file_path ≡ path × ((info_of s.pool f).page_id ≡ page_id)
  name =
      let n = v.synced f used in
      naming.apart n.known known (
        sym (key_of-named naming s.disk (info_of s.pool f) (page_of s.pool f) n)
        ∙ (v.keeps.found (key_at naming path page_id) f hit).0)

  pub found-IsPage : IsPage (page_of s.pool f) page_id
  found-IsPage =
      let slot = v.keeps.slots f used in
      record { valid = slot.valid; number = slot.number ∙ ap pos name.1; size = slot.size }

module _ (naming : Naming) (s : Store) (cells : Cells ℕ) (v : IsSound naming s cells) (path : Text)
    (page_id f : ℕ) (known : naming.Known path page_id)
    (hit : get s.pool.frame_map (key_at naming path page_id) ≡ some f) (page : Page)
    (is_page : IsPage page page_id) where
  abbrev new : Page
  new = record page { is_dirty = true }

  abbrev t : Store
  t = dirtied s f page

  used_here : 1 ≤ frames f cells
  used_here = used naming s cells v path page_id f known hit

  new-IsPage : IsPage new (info_of s.pool f).page_id
  new-IsPage = record {
    valid = is_page.valid;
    number = is_page.number ∙ ap pos (sym (name naming s cells v path page_id f known hit).1);
    size = is_page.size;
  }

  dirtied-page : page_of t.pool f ≡ new
  dirtied-page = page_of-with_page s.pool cells v.keeps f used_here new

  dirtied-page_other : (g : ℕ) → f ≢ g → page_of t.pool g ≡ page_of s.pool g
  dirtied-page_other g n = page_of-with_page_other s.pool cells v.keeps f used_here new g n

  dirtied-Synced : Synced naming t cells
  dirtied-Synced g u = elim (same_or_not f g) [
    | inl e ↦
        let old = v.synced f used_here in
        let fi = info_of s.pool f in
        let named : IsNamed naming s.disk fi new = record {
          known = old.known;
          hashed = old.hashed;
          clean = λ c. absurd (true-false c);
        } in
        subst (λ h. IsNamed naming s.disk (info_of s.pool h) (page_of t.pool h)) e
          (subst (IsNamed naming s.disk fi) (sym dirtied-page) named)
    | inr n ↦
        let old = v.synced g u in
        IsNamed-same naming s.disk s.disk (info_of s.pool g) (info_of s.pool g) (page_of s.pool g)
          (page_of t.pool g) refl (dirtied-page_other g n) old.clean old
  ]

  -- The client's write: the page has the new bytes, and the others are as they were.
  pub record IsUpdated : Type 0 where
    pub sound : IsSound naming t cells
    pub now : view naming t path page_id ≡ some page.bytes
    pub others :
        (other : Text) (i : ℕ)
        → naming.Known other i
        → (path ≡ other → page_id ≢ i)
        → view naming t other i ≡ view naming s other i

  dirtied-others :
      (other : Text) (i : ℕ)
      → naming.Known other i
      → (path ≡ other → page_id ≢ i)
      → view naming t other i ≡ view naming s other i
  dirtied-others other i named n =
      let k = key_at naming other i in
      elim (Option-cases (get s.pool.frame_map k)) [
        | inl miss ↦ view-get naming t other i none miss ∙ sym (view-get naming s other i none miss)
        | inr (g, there) ↦
            let apart : f ≢ g = λ e.
              let same =
                sym (v.keeps.found (key_at naming path page_id) f hit).0
                ∙ ap (λ h. key_of (info_of s.pool h)) e
                ∙ (v.keeps.found k g there).0 in
              let both = naming.apart known named same in n both.0 both.1 in
            view-get naming t other i (some g) there
            ∙ ap (λ (q : Page). some q.bytes) (dirtied-page_other g apart)
            ∙ sym (view-get naming s other i (some g) there)
      ]

  pub dirtied-IsUpdated : IsUpdated
  dirtied-IsUpdated = record {
    sound = record {
      keeps = with_page-Keeps s.pool cells v.keeps f used_here new new-IsPage;
      synced = dirtied-Synced;
    };
    now =
        view-get naming t path page_id (some f) hit ∙ ap (λ (q : Page). some q.bytes) dirtied-page;
    others = dirtied-others;
  }

-- `markDirty` of a page in the pool marks its frame.
pub mark_dirty-hit :
    (p : BufferPool) (table_hash page_id f : ℕ)
    → get p.frame_map (make_page_key table_hash page_id) ≡ some f
    → mark_dirty table_hash page_id p ≡ with_page p f (record (page_of p f) { is_dirty = true })
unfolding mark_dirty
mark_dirty-hit p table_hash page_id f e = rw (e, mark_dirty) refl
