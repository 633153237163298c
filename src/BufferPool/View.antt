-- ===== src/BufferPool/View.antt =====
-- BufferPool.h: what a client of the pool sees: the bytes of the pages of the files, wherever they
-- are kept.
use apgitproj.Base.{
  some-injective, ℕ, ◌≤◌, ◌≡◌, ◌≢◌, refl, ap, ap₂, ◌∙◌, sym, subst, false, Option, none, some, List,
  ℤ, Text, truncate,
}
use apgitproj.HashMap.{get}
use apgitproj.HashMap.Hashing.{int_key}
use apgitproj.Page.{Page}
use apgitproj.Disk.{Disk}
use apgitproj.Disk.Blocks.{block}
use apgitproj.DoublyLinkedList.Segments.{Cells}
use apgitproj.BufferPool.{FrameInfo, Store, page_of, info_of, key_of, make_page_key}
use apgitproj.BufferPool.Frames.{frames}
use apgitproj.BufferPool.Invariant.{Keeps}

-- How clients name pages: a file has one hash, its name is short enough for a frame, and no two
-- pages that are in use have one key.
pub record Naming : Type 1 where
  pub Known : Text → ℕ → Type 0
  pub hash_of : Text → ℕ
  pub short : {path : Text} {i : ℕ} → Known path i → truncate 256 path ≡ path
  pub apart :
      {path other : Text} {i j : ℕ}
      → Known path i
      → Known other j
      → make_page_key (hash_of path) i ≡ make_page_key (hash_of other) j
      → (path ≡ other) × (i ≡ j)

abbrev pub view_at : Store → Text → ℕ → Option ℕ → Option (List ℕ)
view_at s path page_id none = block s.disk path page_id
view_at s path page_id (some f) = some (page_of s.pool f).bytes

module _ (naming : Naming) where
  abbrev pub key_at : Text → ℕ → ℤ
  key_at path page_id = make_page_key (naming.hash_of path) page_id

  -- The bytes of a page: those in the pool, and otherwise those of the file.
  unfoldable pub view : Store → Text → ℕ → Option (List ℕ)
  view s path page_id = view_at s path page_id (get s.pool.frame_map (key_at path page_id))

  -- A frame in use has a name, and if it is clean the file has its bytes.
  pub record IsNamed (d : Disk) (fi : FrameInfo) (page : Page) : Type 0 where
    pub known : naming.Known fi.file_path fi.page_id
    pub hashed : fi.table_hash ≡ naming.hash_of fi.file_path
    pub clean : page.is_dirty ≡ false → block d fi.file_path fi.page_id ≡ some page.bytes

  abbrev pub Synced : Store → Cells ℕ → Type 0
  Synced s cells =
      (f : ℕ) → 1 ≤ frames f cells → IsNamed s.disk (info_of s.pool f) (page_of s.pool f)

  -- No page is lost from one state to another.
  abbrev pub Sees : Store → Store → Type 0
  Sees s t =
      (path : Text) (page_id : ℕ) (bytes : List ℕ)
      → naming.Known path page_id
      → view s path page_id ≡ some bytes
      → view t path page_id ≡ some bytes

  pub view-get :
      (s : Store) (path : Text) (page_id : ℕ) (o : Option ℕ)
      → get s.pool.frame_map (key_at path page_id) ≡ o
      → view s path page_id ≡ view_at s path page_id o
  unfolding view
  view-get s path page_id o e = ap (view_at s path page_id) e

  -- The key of a frame that has a name.
  pub key_of-named :
      (d : Disk) (fi : FrameInfo) (page : Page)
      → IsNamed d fi page
      → key_of fi ≡ key_at fi.file_path fi.page_id
  key_of-named d fi page n = ap (λ h. make_page_key h fi.page_id) n.hashed

  pub IsNamed-same :
      (d e : Disk) (fi fj : FrameInfo) (page other : Page)
      → fj ≡ fi
      → other ≡ page
      → (page.is_dirty ≡ false → block e fi.file_path fi.page_id ≡ some page.bytes)
      → IsNamed d fi page
      → IsNamed e fj other
  IsNamed-same d e fi fj page other same_info same_page clean n =
      subst (λ q. IsNamed e q other) (sym same_info)
        (subst (IsNamed e fi) (sym same_page)
          (record { known = n.known; hashed = n.hashed; clean = clean }))

  -- A page that has the name of a frame in use is found there.
  pub name_key :
      (s : Store) (cells : Cells ℕ) (h : ℕ → ℕ)
      → Keeps s.pool cells h
      → Synced s cells
      → (g : ℕ) → 1 ≤ frames g cells
      → (path : Text) (i : ℕ) → (info_of s.pool g).file_path ≡ path
      → (info_of s.pool g).page_id ≡ i
      → get s.pool.frame_map (key_at path i) ≡ some g
  name_key s cells h v synced g u path i a b =
      let same = key_of-named s.disk (info_of s.pool g) (page_of s.pool g) (synced g u) in
      ap (get s.pool.frame_map) (ap₂ key_at (sym a) (sym b) ∙ sym same) ∙ (v.slots g u).mapped

  -- Two frames in use have two names.
  pub names_apart :
      (s : Store) (cells : Cells ℕ) (h : ℕ → ℕ)
      → Keeps s.pool cells h
      → Synced s cells
      → (g f : ℕ) → 1 ≤ frames g cells
      → 1 ≤ frames f cells
      → g ≢ f
      → (info_of s.pool g).file_path ≡ (info_of s.pool f).file_path
      → (info_of s.pool g).page_id ≢ (info_of s.pool f).page_id
  names_apart s cells h v synced g f u w n a b =
      let fj = info_of s.pool f in
      let mine = name_key s cells h v synced f w fj.file_path fj.page_id refl refl in
      n (some-injective (sym (name_key s cells h v synced g u fj.file_path fj.page_id a b) ∙ mine))
