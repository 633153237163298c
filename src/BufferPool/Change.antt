-- ===== src/BufferPool/Change.antt =====
-- BufferPool.h: another page in a frame in use.
use apgitproj.Base.{ℕ, ◌≤◌, ◌<◌, ◌≡◌, ◌≢◌, inl, inr, ap, ◌∙◌, subst, arith, length, set, length-set}
use apgitproj.HashMap.Hashing.{int_key}
use apgitproj.Page.{Page}
use apgitproj.DoublyLinkedList.Segments.{Cells}
use apgitproj.BufferPool.{BufferPool, page_of, info_of}
use apgitproj.BufferPool.Frames.{frames, same_or_not, get_or-set_same, get_or-set_other}
use apgitproj.BufferPool.Invariant.{Slot, Keeps, nothing}
use apgitproj.BufferPool.Load.{IsPage}
use apgitproj.BufferPool.Evict.{used_inside}

-- The pool with another page in a frame.
abbrev pub with_page : BufferPool → ℕ → Page → BufferPool
with_page p g page = record p { pages = set p.pages g page }

module _ (p : BufferPool) (cells : Cells ℕ) (v : Keeps p cells nothing) (g : ℕ)
    (used : 1 ≤ frames g cells) (page : Page) where
  in_pages : g < length p.pages
  in_pages = omega (arith, (used_inside p cells g nothing v used).0, v.pages_length)

  pub page_of-with_page : page_of (with_page p g page) g ≡ page
  page_of-with_page = get_or-set_same p.pages g page _ in_pages

  pub page_of-with_page_other : (f : ℕ) → g ≢ f → page_of (with_page p g page) f ≡ page_of p f
  page_of-with_page_other f n = get_or-set_other p.pages g page _ in_pages f n

  module _ (is_page : IsPage page (info_of p g).page_id) where
    with_page-slots : (f : ℕ) → 1 ≤ frames f cells → Slot (with_page p g page) f
    with_page-slots f u = elim (same_or_not g f) [
      | inl e ↦
          let old = v.slots g used in
          subst (Slot (with_page p g page)) e (record {
            mapped = old.mapped;
            valid = ap (λ (q : Page). q.is_valid) page_of-with_page ∙ is_page.valid;
            number = ap (λ (q : Page). q.page_id) page_of-with_page ∙ is_page.number;
            size = ap (λ (q : Page). length q.bytes) page_of-with_page ∙ is_page.size;
          })
      | inr n ↦
          let old = v.slots f u in
          let same = page_of-with_page_other f n in
          record {
            mapped = old.mapped;
            valid = ap (λ (q : Page). q.is_valid) same ∙ old.valid;
            number = ap (λ (q : Page). q.page_id) same ∙ old.number;
            size = ap (λ (q : Page). length q.bytes) same ∙ old.size;
          }
    ]

    -- A page with the number of the old one keeps the invariant.
    pub with_page-Keeps : Keeps (with_page p g page) cells nothing
    with_page-Keeps = record {
      pages_length = length-set p.pages g page ∙ v.pages_length;
      infos_length = v.infos_length;
      nodes_length = v.nodes_length;
      free_length = v.free_length;
      hashed = v.hashed;
      order = v.order;
      nodes = v.nodes;
      slots = with_page-slots;
      idle = λ f u.
          ap (λ (q : Page). q.is_valid)
            (page_of-with_page_other f (λ e. omega (arith, used, u, ap (λ h. frames h cells) e)))
          ∙ v.idle f u;
      found = v.found;
      balance = v.balance;
    }
