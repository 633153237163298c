-- ===== src/BufferPool/Register.antt =====
-- BufferPool.h: a frame that is held is registered for a page.
use apgitproj.Base.{
  ℕ, ◌≤◌, ◌<◌, ◌≡◌, ◌≢◌, inl, inr, refl, ap, ◌∙◌, sym, subst, false, none, some, ◌∷◌, ℤ, pos, arith,
  set, length-set, get_or-set, length, if◌then◌else◌, Bool-cases, none-some, Text, truncate,
}
use apgitproj.HashMap.{get, put}
use apgitproj.HashMap.Hashing.{int_key, int_equal, int_equal_iff}
use apgitproj.HashMap.Methods.{put-IsHashed, get-put}
use apgitproj.Page.{Page}
use apgitproj.DoublyLinkedList.{push_front}
use apgitproj.DoublyLinkedList.Segments.{Cells}
use apgitproj.DoublyLinkedList.Front.{push_front-Represents}
use apgitproj.BufferPool.{BufferPool, FrameInfo, page_of, info_of, node_of, key_of, make_page_key}
use apgitproj.BufferPool.Frames.{same_or_not, frames, address, get_or-set_same, get_or-set_other}
use apgitproj.BufferPool.Load.{IsPage}
use apgitproj.BufferPool.Evict.{held_inside}
use apgitproj.BufferPool.Invariant.{Slot, Slot-same, Keeps, nothing, just}

-- The pool after a page was put into a frame.
abbrev pub filled : BufferPool → Text → ℕ → ℕ → ℕ → Page → BufferPool
filled p path table_hash page_id f page =
    let fi : FrameInfo = record {
      frame_index = f;
      table_hash = table_hash;
      page_id = page_id;
      file_path = truncate 256 path;
    } in
    record p {
      pages = set p.pages f page;
      frame_infos = set p.frame_infos f fi;
      frame_map = put p.frame_map (make_page_key table_hash page_id) f;
      lru_list = (push_front f p.lru_list).0;
      lru_nodes = set p.lru_nodes f (some (push_front f p.lru_list).1);
    }

module _ (p : BufferPool) (cells : Cells ℕ) (path : Text) (table_hash page_id f : ℕ) (page : Page)
    (v : Keeps p cells (just f)) (is_page : IsPage page page_id)
    (miss : get p.frame_map (make_page_key table_hash page_id) ≡ none) where
  abbrev after : BufferPool
  after = filled p path table_hash page_id f page

  abbrev new_node : ℕ
  new_node = (push_front f p.lru_list).1

  inside : f < p.capacity
  inside = (held_inside p cells f v).0

  pub filled-page : page_of after f ≡ page
  filled-page = get_or-set_same p.pages f page _ (omega (arith, inside, v.pages_length))

  pub filled-page_other : (g : ℕ) → f ≢ g → page_of after g ≡ page_of p g
  filled-page_other g n =
      get_or-set_other p.pages f page _ (omega (arith, inside, v.pages_length)) g n

  pub filled-info_other : (g : ℕ) → f ≢ g → info_of after g ≡ info_of p g
  filled-info_other g n =
      get_or-set_other p.frame_infos f _ _ (omega (arith, inside, v.infos_length)) g n

  pub filled-info : info_of after f ≡ record {
    frame_index = f;
    table_hash = table_hash;
    page_id = page_id;
    file_path = truncate 256 path;
  }
  filled-info = get_or-set_same p.frame_infos f _ _ (omega (arith, inside, v.infos_length))

  pub filled-get :
      (k : ℤ)
      → get after.frame_map k
        ≡ (if int_equal (make_page_key table_hash page_id) k then some f else get p.frame_map k)
  filled-get k = get-put p.frame_map v.hashed (make_page_key table_hash page_id) f k

  pub filled-mapped : get after.frame_map (make_page_key table_hash page_id) ≡ some f
  filled-mapped =
      filled-get (make_page_key table_hash page_id)
      ∙ rw
          ((int_equal_iff (make_page_key table_hash page_id) (make_page_key table_hash page_id)).1
            refl)
          refl

  used_other : (g : ℕ) → f ≢ g → 1 ≤ frames g ((new_node, f) ∷ cells) → 1 ≤ frames g cells
  unfolding frames
  used_other g n u = ground arith

  -- A key that the map had is another one than the new key.
  old_key :
      (k : ℤ) (g : ℕ)
      → get p.frame_map k ≡ some g
      → int_equal (make_page_key table_hash page_id) k ≡ false
  old_key k g e = elim (Bool-cases (int_equal (make_page_key table_hash page_id) k)) [
    | inl same ↦
        let q = (int_equal_iff (make_page_key table_hash page_id) k).0 same in
        absurd (none-some g (sym miss ∙ ap (get p.frame_map) q ∙ e))
    | inr apart ↦ apart
  ]

  filled-nodes : (g : ℕ) → node_of after g ≡ address g ((new_node, f) ∷ cells)
  unfolding address
  filled-nodes g =
      get_or-set p.lru_nodes f g (some new_node) none (omega (arith, inside, v.nodes_length))
      ∙ ground (arith, v.nodes g)

  filled-Slot_new : Slot after f
  filled-Slot_new = record {
    mapped = ap (λ i. get after.frame_map (key_of i)) filled-info ∙ filled-mapped;
    valid = ap (λ (g : Page). g.is_valid) filled-page ∙ is_page.valid;
    number =
        ap (λ (g : Page). g.page_id) filled-page
        ∙ is_page.number
        ∙ ap (λ (i : FrameInfo). pos i.page_id) (sym filled-info);
    size = ap (λ (g : Page). length g.bytes) filled-page ∙ is_page.size;
  }

  filled-slots : (g : ℕ) → 1 ≤ frames g ((new_node, f) ∷ cells) → Slot after g
  filled-slots g u = elim (same_or_not f g) [
    | inl e ↦ subst (Slot after) e filled-Slot_new
    | inr n ↦
        let slot = v.slots g (used_other g n u) in
        Slot-same p after g (filled-page_other g n) (filled-info_other g n)
          (filled-get (key_of (info_of p g))
            ∙ rw (old_key (key_of (info_of p g)) g slot.mapped) slot.mapped)
          slot
  ]

  filled-idle : (g : ℕ) → frames g ((new_node, f) ∷ cells) ≡ 0 → (page_of after g).is_valid ≡ false
  unfolding frames
  filled-idle g u =
      let n : f ≢ g = λ e. ground arith in
      ap (λ (q : Page). q.is_valid) (filled-page_other g n) ∙ v.idle g (ground arith)

  filled-found :
      (k : ℤ) (g : ℕ)
      → get after.frame_map k ≡ some g
      → (key_of (info_of after g) ≡ k) × (1 ≤ frames g ((new_node, f) ∷ cells))
  unfolding frames
  filled-found k g e =
      let key = make_page_key table_hash page_id in
      let both = sym (filled-get k) ∙ e in
      elim (Bool-cases (int_equal key k)) [
        | inl same ↦
            let there : some f ≡ some g = rw same at both in
            let e : f ≡ g = cc in
            (
              ap (λ h. key_of (info_of after h)) (sym e)
                  ∙ ap key_of filled-info
                  ∙ (int_equal_iff key k).0 same,
              ground arith,
            )
        | inr apart ↦
            let w = v.found k g (rw apart at both) in
            let n : f ≢ g =
              λ q. omega (arith, w.1, (held_inside p cells f v).1, ap (λ h. frames h cells) q) in
            (ap key_of (filled-info_other g n) ∙ w.0, omega (arith, w.1))
      ]

  -- The frame is in use afterwards, before all others.
  pub filled-Keeps : Keeps after ((new_node, f) ∷ cells) nothing
  unfolding frames
  filled-Keeps = record {
    pages_length = length-set p.pages f _ ∙ v.pages_length;
    infos_length = length-set p.frame_infos f _ ∙ v.infos_length;
    nodes_length = length-set p.lru_nodes f _ ∙ v.nodes_length;
    free_length = v.free_length;
    hashed = put-IsHashed p.frame_map v.hashed (make_page_key table_hash page_id) f;
    order = push_front-Represents f p.lru_list cells v.order;
    nodes = filled-nodes;
    slots = filled-slots;
    idle = λ g u. filled-idle g u;
    found = filled-found;
    balance = λ g. ground (arith, v.balance g);
  }
