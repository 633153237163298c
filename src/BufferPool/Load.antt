-- ===== src/BufferPool/Load.antt =====
-- BufferPool.h: what fetchPage puts into a frame.
use apgitproj.Base.{
  ℕ, zero, suc, ◌*◌, ◌/◌, ◌≡◌, refl, ap, ◌∙◌, sym, inl, inr, true, Option, none, some, List, pos,
  negsuc, arith, subst, replicate, ltb→lt, lt→ltb, length, length-replicate, ltb, Text, Bool-cases,
  Option-cases,
}
use apgitproj.Memory.{read_bytes}
use apgitproj.Schema.{page_size}
use apgitproj.Page.{Page, init, write_int}
use apgitproj.Page.Header.{length-write_int}
use apgitproj.Disk.{Disk, page_count}
use apgitproj.Disk.Files.{read_page-whole, loaded}
use apgitproj.Disk.Blocks.{InFile}
use apgitproj.BufferPool.{load_page}

-- A valid page of the page size with a number.
pub record IsPage (page : Page) (pid : ℕ) : Type 0 where
  pub valid : page.is_valid ≡ true
  pub number : page.page_id ≡ pos pid
  pub size : length page.bytes ≡ page_size

pub length-read_bytes : (bytes : List ℕ) (off n : ℕ) → length (read_bytes bytes off n) ≡ n
unfolding read_bytes
length-read_bytes bytes off zero = refl
length-read_bytes bytes off (suc n) = ap suc (length-read_bytes bytes (suc off) n)

pub init-IsPage : (page : Page) (pid : ℕ) → IsPage (init page (pos pid)) pid
unfolding init
init-IsPage page pid = record {
  valid = refl;
  number = refl;
  size =
      length-write_int (write_int (write_int (replicate page_size 0) 0 (pos pid)) 4 (pos 0)) 8
        (negsuc 0)
      ∙ length-write_int (write_int (replicate page_size 0) 0 (pos pid)) 4 (pos 0)
      ∙ length-write_int (replicate page_size 0) 0 (pos pid)
      ∙ length-replicate {A = ℕ} page_size 0;
}

-- The number of pages in a file that there is.
pub page_count-some :
    (d : Disk) (path : Text) (bytes : List ℕ)
    → d path ≡ some bytes
    → page_count d path ≡ length bytes / page_size
unfolding page_count
page_count-some d path bytes e =
    ap (λ (o : Option (List ℕ)). elim o [ none ↦ 0 | some b ↦ length b / page_size ]) e

page_count-none : (d : Disk) (path : Text) → d path ≡ none → page_count d path ≡ 0
unfolding page_count
page_count-none d path e =
    ap (λ (o : Option (List ℕ)). elim o [ none ↦ 0 | some b ↦ length b / page_size ]) e

-- A page that is counted is whole in the file.
counted-InFile :
    (d : Disk) (path : Text) (pid : ℕ)
    → ltb pid (page_count d path) ≡ true
    → (content : List ℕ) × InFile d path pid content
counted-InFile d path pid h =
    let lt = ltb→lt pid (page_count d path) h in
    elim (Option-cases (d path)) [
      | inl e ↦ absurd (omega (arith, page_count-none d path e, lt))
      | inr (bytes, e) ↦ (
        read_bytes bytes (pid * page_size) page_size,
        record {
          bytes = bytes;
          there = e;
          whole = omega (arith, page_count-some d path bytes e, lt);
          same = refl;
        },
      )
    ]

InFile-counted :
    (d : Disk) (path : Text) (pid : ℕ) (content : List ℕ)
    → InFile d path pid content
    → ltb pid (page_count d path) ≡ true
InFile-counted d path pid content f =
    lt→ltb pid (page_count d path) (omega (arith, page_count-some d path f.bytes f.there, f.whole))

-- A page that is whole in the file is loaded, clean.
pub load_page-InFile :
    (d : Disk) (path : Text) (pid : ℕ) (page : Page) (content : List ℕ)
    → InFile d path pid content
    → load_page d path pid page ≡ loaded pid content
unfolding load_page
load_page-InFile d path pid page content f = rw (InFile-counted d path pid content f) (
    ap (λ r. r.1) (read_page-whole d path pid (init page (pos pid)) f.bytes f.there f.whole)
    ∙ ap (loaded pid) f.same)

pub load_page-IsPage :
    (d : Disk) (path : Text) (pid : ℕ) (page : Page) → IsPage (load_page d path pid page) pid
unfolding load_page
load_page-IsPage d path pid page = elim (Bool-cases (ltb pid (page_count d path))) [
  | inl h ↦
      let (content, f) = counted-InFile d path pid h in
      subst (λ q. IsPage q pid) (sym (load_page-InFile d path pid page content f))
        (record {
          valid = refl;
          number = refl;
          size = ap length (sym f.same) ∙ length-read_bytes f.bytes (pid * page_size) page_size;
        })
  | inr h ↦ rw h (init-IsPage page pid)
]
