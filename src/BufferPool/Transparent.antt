-- ===== src/BufferPool/Transparent.antt =====
-- BufferPool.h: fetchPage gives the page that its client expects, and loses none.
use apgitproj.Base.{
  some-injective, ℕ, ◌≤◌, ◌≡◌, inl, inr, ap, ◌∙◌, sym, subst, none, some, List, ◌∷◌, ◌++◌, Text,
  arith, Option-cases,
}
use apgitproj.HashMap.{get}
use apgitproj.HashMap.Hashing.{int_key}
use apgitproj.Page.{Page}
use apgitproj.Disk.Blocks.{block, block-InFile}
use apgitproj.DoublyLinkedList.{push_front}
use apgitproj.DoublyLinkedList.Segments.{Cells}
use apgitproj.BufferPool.{
  Store, page_of, node_of, take_frame, load_page, register_frame, fetch_page,
}
use apgitproj.BufferPool.Frames.{frames, place, frames-moved}
use apgitproj.BufferPool.Invariant.{Keeps, nothing}
use apgitproj.BufferPool.Load.{load_page-InFile, load_page-IsPage}
use apgitproj.BufferPool.Take.{
  Taken, from_stack, from_list, take_frame-Taken, Taken-Keeps, Taken-miss,
}
use apgitproj.BufferPool.Register.{filled-Keeps, filled-page, filled-mapped}
use apgitproj.BufferPool.Fetch.{fetch_hit, fetch_miss, touched-Keeps}
use apgitproj.BufferPool.View.{Naming, key_at, view, Synced, Sees, view-get}
use apgitproj.BufferPool.Spill.{spilled-Synced, spilled-Sees}
use apgitproj.BufferPool.Fill.{filled-Synced, filled-Sees}

-- A store whose pool keeps its invariant, with the order of use, and that agrees with the disk.
pub record IsSound (naming : Naming) (s : Store) (cells : Cells ℕ) : Type 0 where
  pub keeps : Keeps s.pool cells nothing
  pub synced : Synced naming s cells

-- What fetchPage of a page leaves: the frame is first in the order of use and holds the page.
pub record IsServed (naming : Naming) (s : Store) (path : Text) (page_id : ℕ) (content : List ℕ)
    (r : ℕ × Store) : Type 0 where
  pub node : ℕ
  pub rest : Cells ℕ
  pub sound : IsSound naming r.1 ((node, r.0) ∷ rest)
  pub mapped : get r.1.pool.frame_map (key_at naming path page_id) ≡ some r.0
  pub holds : (page_of r.1.pool r.0).bytes ≡ content
  pub sees : Sees naming s r.1

module _ (naming : Naming) (s : Store) (cells : Cells ℕ) (v : IsSound naming s cells) where
  Taken-Synced :
      (t : ℕ × Store) (rest : Cells ℕ)
      → Taken s cells t rest
      → Synced naming t.1 rest × Sees naming s t.1
  unfolding view
  Taken-Synced t rest (from_stack n e) = (v.synced, λ other i bytes k w. w)
  Taken-Synced t rest (from_list xs node g z e) =
      let keeps = subst (λ cs. Keeps s.pool cs nothing) e v.keeps in
      let synced = subst (Synced naming s) e v.synced in
      (spilled-Synced naming s xs node g keeps synced, spilled-Sees naming s xs node g keeps synced)

  module _ (path : Text) (page_id : ℕ) (content : List ℕ) (known : naming.Known path page_id)
      (there : view naming s path page_id ≡ some content) where
    abbrev hash : ℕ
    hash = naming.hash_of path

    hit-IsServed :
        (f : ℕ)
        → get s.pool.frame_map (key_at naming path page_id) ≡ some f
        → IsServed naming s path page_id content (fetch_page path hash page_id s)
    unfolding view
    hit-IsServed f e =
        let at = place f cells (v.keeps.found (key_at naming path page_id) f e).1 in
        let node : node_of s.pool f ≡ some at.node = v.keeps.nodes f ∙ at.at in
        let c : ℕ × ℕ = (at.node, f) in
        let same : (g : ℕ) → frames g (c ∷ at.before ++ at.behind) ≡ frames g cells =
          λ g. frames-moved at.before at.behind c g ∙ ap (frames g) (sym at.parts) in
        rw (fetch_hit path hash page_id s cells v.keeps f e, node)
          (record {
            node = at.node;
            rest = at.before ++ at.behind;
            sound = record {
              keeps = touched-Keeps path hash page_id s cells v.keeps f at;
              synced = λ g u. v.synced g (omega (arith, same g));
            };
            mapped = e;
            holds = some-injective (sym (view-get naming s path page_id (some f) e) ∙ there);
            sees = λ other i bytes k w. w;
          })

    miss-IsServed :
        1 ≤ s.pool.capacity
        → get s.pool.frame_map (key_at naming path page_id) ≡ none
        → IsServed naming s path page_id content (fetch_page path hash page_id s)
    unfolding register_frame
    miss-IsServed h e =
        let t = take_frame s.pool.free_count s in
        let taken = take_frame-Taken s cells v.keeps h in
        let held = Taken-Keeps s cells v.keeps t taken.0 taken.1 in
        let kept = Taken-Synced t taken.0 taken.1 in
        let page = load_page t.1.disk path page_id (page_of t.1.pool t.0) in
        let is_page = load_page-IsPage t.1.disk path page_id (page_of t.1.pool t.0) in
        let miss = Taken-miss s cells v.keeps t taken.0 (key_at naming path page_id) taken.1 e in
        let file : block t.1.disk path page_id ≡ some content =
          sym (view-get naming t.1 path page_id none miss)
          ∙ kept.1 path page_id content known there in
        let bytes : page.bytes ≡ content =
          ap (λ (q : Page). q.bytes)
            (load_page-InFile t.1.disk path page_id (page_of t.1.pool t.0) content
              (block-InFile t.1.disk path page_id content file)) in
        let found = file ∙ ap some (sym bytes) in
        rw (fetch_miss path hash page_id s cells v.keeps e) (record {
          node = (push_front t.0 t.1.pool.lru_list).1;
          rest = taken.0;
          sound = record {
            keeps = filled-Keeps t.1.pool taken.0 path hash page_id t.0 page held is_page miss;
            synced =
                filled-Synced naming t.1 taken.0 path page_id t.0 page held is_page miss kept.0
                  known found;
          };
          mapped = filled-mapped t.1.pool taken.0 path hash page_id t.0 page held is_page miss;
          holds =
              ap (λ (q : Page). q.bytes)
                (filled-page t.1.pool taken.0 path hash page_id t.0 page held is_page miss)
              ∙ bytes;
          sees = λ other i b k w.
              filled-Sees naming t.1 taken.0 path page_id t.0 page held is_page miss kept.0 known
                found other i b k (kept.1 other i b k w);
        })

    -- A page that is in the pool or in its file is given to the client, and every page is as before.
    pub fetch_page-IsServed :
        1 ≤ s.pool.capacity
        → IsServed naming s path page_id content (fetch_page path hash page_id s)
    fetch_page-IsServed h =
        elim (Option-cases (get s.pool.frame_map (key_at naming path page_id))) [
          | inl e ↦ miss-IsServed h e
          | inr (f, e) ↦ hit-IsServed f e
        ]
