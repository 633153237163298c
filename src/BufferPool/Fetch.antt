-- ===== src/BufferPool/Fetch.antt =====
-- BufferPool.h: fetchPage keeps the invariant of the pool and makes its page the most recent.
use apgitproj.Base.{
  ℕ, ◌≤◌, ◌≡◌, inl, inr, refl, ap, ◌∙◌, sym, subst, none, some, ◌∷◌, ◌++◌, ℤ, arith, Option-cases,
  Text,
}
use apgitproj.HashMap.{get}
use apgitproj.HashMap.Hashing.{int_key}
use apgitproj.DoublyLinkedList.{push_front, move_to_front}
use apgitproj.DoublyLinkedList.Segments.{Cells}
use apgitproj.DoublyLinkedList.Front.{Represents}
use apgitproj.DoublyLinkedList.Methods.{move_to_front-Represents}
use apgitproj.BufferPool.{
  Store, page_of, node_of, make_page_key, touch, take_frame, load_page, register_frame, fetch_page,
}
use apgitproj.BufferPool.Frames.{frames, address, frames-moved, address-moved, Place, place}
use apgitproj.BufferPool.Load.{load_page-IsPage}
use apgitproj.BufferPool.Take.{take_frame-Taken, Taken-Keeps, Taken-miss}
use apgitproj.BufferPool.Register.{filled-Keeps, filled-mapped}
use apgitproj.BufferPool.Invariant.{Keeps, nothing}

-- The result of fetchPage: its frame comes first in the order of use and is found under the key.
pub record Fetched (path : Text) (table_hash page_id : ℕ) (s : Store) (r : ℕ × Store) : Type 0 where
  pub node : ℕ
  pub rest : Cells ℕ
  pub keeps : Keeps r.1.pool ((node, r.0) ∷ rest) nothing
  pub mapped : get r.1.pool.frame_map (make_page_key table_hash page_id) ≡ some r.0

module _ (path : Text) (table_hash page_id : ℕ) (s : Store) (cells : Cells ℕ)
    (v : Keeps s.pool cells nothing) where
  abbrev key : ℤ
  key = make_page_key table_hash page_id

  pub fetch_hit :
      (f : ℕ)
      → get s.pool.frame_map key ≡ some f
      → fetch_page path table_hash page_id s ≡ (
        f,
        record s { pool = record s.pool { lru_list = touch (node_of s.pool f) s.pool.lru_list } },
      )
  unfolding fetch_page
  fetch_hit f e = rw (e, fetch_page) refl

  pub fetch_miss :
      get s.pool.frame_map key ≡ none
      → fetch_page path table_hash page_id s ≡ (
          let t = take_frame s.pool.free_count s in
          (t.0, register_frame path table_hash page_id t.0 t.1))
  unfolding fetch_page
  fetch_miss e = rw (e, fetch_page) refl

  -- A page that is there is moved to the front.
  pub touched-Keeps :
      (f : ℕ) (at : Place f cells)
      → Keeps
          (record s.pool { lru_list = move_to_front at.node s.pool.lru_list })
          ((at.node, f) ∷ at.before ++ at.behind)
          nothing
  touched-Keeps f at =
      let p = s.pool in
      let c : ℕ × ℕ = (at.node, f) in
      let order = subst (Represents p.lru_list) at.parts v.order in
      let same : (g : ℕ) → frames g (c ∷ at.before ++ at.behind) ≡ frames g cells =
        λ g. frames-moved at.before at.behind c g ∙ ap (frames g) (sym at.parts) in
      let once : frames f (at.before ++ c ∷ at.behind) ≤ 1 =
        ground (arith, v.balance f, ap (frames f) at.parts) in
      record {
        pages_length = v.pages_length;
        infos_length = v.infos_length;
        nodes_length = v.nodes_length;
        free_length = v.free_length;
        hashed = v.hashed;
        order = move_to_front-Represents at.before at.behind at.node f p.lru_list order;
        nodes = λ g.
            v.nodes g ∙ ap (address g) at.parts ∙ sym (address-moved at.before at.behind c g once);
        slots = λ g u.
            let w = v.slots g (omega (arith, same g)) in
            record { mapped = w.mapped; valid = w.valid; number = w.number; size = w.size };
        idle = λ g u. v.idle g (omega (arith, same g));
        found = λ k g e. let w = v.found k g e in (w.0, omega (arith, same g, w.1));
        balance = λ g. omega (arith, same g, v.balance g);
      }

  hit-Fetched :
      (f : ℕ)
      → get s.pool.frame_map key ≡ some f
      → Fetched path table_hash page_id s (fetch_page path table_hash page_id s)
  hit-Fetched f e =
      let at = place f cells (v.found key f e).1 in
      let node : node_of s.pool f ≡ some at.node = v.nodes f ∙ at.at in
      rw (fetch_hit f e, node)
        (record {
          node = at.node;
          rest = at.before ++ at.behind;
          keeps = touched-Keeps f at;
          mapped = e;
        })

  miss-Fetched :
      1 ≤ s.pool.capacity
      → get s.pool.frame_map key ≡ none
      → Fetched path table_hash page_id s (fetch_page path table_hash page_id s)
  unfolding register_frame
  miss-Fetched h e =
      let t = take_frame s.pool.free_count s in
      let taken = take_frame-Taken s cells v h in
      let held = Taken-Keeps s cells v t taken.0 taken.1 in
      let page = load_page t.1.disk path page_id (page_of t.1.pool t.0) in
      let is_page = load_page-IsPage t.1.disk path page_id (page_of t.1.pool t.0) in
      let miss = Taken-miss s cells v t taken.0 key taken.1 e in
      let keeps =
        filled-Keeps t.1.pool taken.0 path table_hash page_id t.0 page held is_page miss in
      rw (fetch_miss e) (record {
        node = (push_front t.0 t.1.pool.lru_list).1;
        rest = taken.0;
        keeps = keeps;
        mapped = filled-mapped t.1.pool taken.0 path table_hash page_id t.0 page held is_page miss;
      })

  -- `fetchPage` keeps the invariant, and the page that it gives is the most recent one.
  pub fetch_page-Fetched :
      1 ≤ s.pool.capacity → Fetched path table_hash page_id s (fetch_page path table_hash page_id s)
  fetch_page-Fetched h = elim (Option-cases (get s.pool.frame_map key)) [
    | inl e ↦ miss-Fetched h e
    | inr (f, e) ↦ hit-Fetched f e
  ]
