-- ===== src/Disk/Blocks.antt =====
-- DiskManager.h: the pages that a file has whole.
use apgitproj.Base.{
  some-injective, ℕ, Bool, ◌+◌, ◌*◌, ◌≤◌, ◌≡◌, ◌≢◌, inl, inr, refl, ap, ◌∙◌, sym, subst, true,
  false, Option, none, some, none-some, List, length, leb, if◌then◌else◌, Text, str_eq,
  eq_of_str_eq, arith, Bool-cases, Option-cases,
}
use apgitproj.Memory.{read_bytes}
use apgitproj.Schema.{page_size}
use apgitproj.Page.{Page}
use apgitproj.Disk.{Disk, set_file, write_page}
use apgitproj.Disk.Files.{
  IsWritable, after_write, after_write-longer, write_page-file, length-after_write, read_page-whole,
  read_page-write_page, read_page-write_page_apart,
}

abbrev block_in : List ℕ → ℕ → Option (List ℕ)
block_in bytes pid =
    if leb (pid * page_size + page_size) (length bytes)
    then some (read_bytes bytes (pid * page_size) page_size)
    else none

-- The bytes of a page that is whole in its file.
unfoldable pub block : Disk → Text → ℕ → Option (List ℕ)
block d path pid = elim (d path) [ none ↦ none | some bytes ↦ block_in bytes pid ]

block-file :
    (d : Disk) (path : Text) (pid : ℕ) (bytes : List ℕ)
    → d path ≡ some bytes
    → block d path pid ≡ block_in bytes pid
unfolding block
block-file d path pid bytes e =
    ap (λ (o : Option (List ℕ)). elim o [ none ↦ none | some b ↦ block_in b pid ]) e

-- A page is whole in its file.
pub record InFile (d : Disk) (path : Text) (pid : ℕ) (content : List ℕ) : Type 0 where
  pub bytes : List ℕ
  pub there : d path ≡ some bytes
  pub whole : pid * page_size + page_size ≤ length bytes
  pub same : read_bytes bytes (pid * page_size) page_size ≡ content

pub block-InFile :
    (d : Disk) (path : Text) (pid : ℕ) (content : List ℕ)
    → block d path pid ≡ some content
    → InFile d path pid content
unfolding block
block-InFile d path pid content e = elim (Option-cases (d path)) [
  | inl n ↦ absurd (none-some content (rw (n, block) at e))
  | inr (bytes, h) ↦
      let f : block_in bytes pid ≡ some content = sym (block-file d path pid bytes h) ∙ e in
      elim (Bool-cases (leb (pid * page_size + page_size) (length bytes))) [
        | inl w ↦ record {
          bytes = bytes;
          there = h;
          whole = ground arith;
          same = some-injective (rw w at f);
        }
        | inr w ↦ absurd (none-some content (rw w at f))
      ]
]

pub InFile-block :
    (d : Disk) (path : Text) (pid : ℕ) (content : List ℕ)
    → InFile d path pid content
    → block d path pid ≡ some content
InFile-block d path pid content f =
    let w : leb (pid * page_size + page_size) (length f.bytes) ≡ true = ground (arith, f.whole) in
    block-file d path pid f.bytes f.there ∙ rw w (ap some f.same)

pub block-write_page :
    (d : Disk) (path : Text) (page : Page) (pid : ℕ)
    → IsWritable page pid
    → block (write_page d path page).1 path pid ≡ some page.bytes
block-write_page d path page pid v =
    let new = (write_page d path page).1 in
    let file = write_page-file d path page pid v in
    let long = length-after_write d path page pid in
    let r = read_page-whole new path pid page (after_write d path page pid) file long in
    InFile-block new path pid page.bytes (record {
      bytes = after_write d path page pid;
      there = file;
      whole = long;
      same =
          ap (λ (q : Bool × Page). q.1.bytes) (sym r ∙ read_page-write_page d path page page pid v);
    })

-- Another page of the same file.
block-same_file :
    (d : Disk) (path : Text) (page : Page) (pid i : ℕ) (content : List ℕ)
    → IsWritable page pid
    → block d path i ≡ some content
    → pid ≢ i
    → block (write_page d path page).1 path i ≡ some content
block-same_file d path page pid i content v e n =
    let f = block-InFile d path i content e in
    let new = (write_page d path page).1 in
    let file = write_page-file d path page pid v in
    let whole : i * page_size + page_size ≤ length (after_write d path page pid) =
      omega (arith, f.whole, after_write-longer d path page pid f.bytes f.there) in
    let r = read_page-whole new path i page (after_write d path page pid) file whole in
    let kept = read_page-write_page_apart d path page page pid i f.bytes v f.there f.whole n in
    let old = read_page-whole d path i page f.bytes f.there f.whole in
    InFile-block new path i content (record {
      bytes = after_write d path page pid;
      there = file;
      whole = whole;
      same = ap (λ (q : Bool × Page). q.1.bytes) (sym r ∙ kept ∙ old) ∙ f.same;
    })

-- Another file.
write_page-other :
    (d : Disk) (path other : Text) (page : Page)
    → str_eq path other ≡ false
    → (write_page d path page).1 other ≡ d other
unfolding write_page set_file
write_page-other d path other page n = rw n refl

block-cong :
    (d e : Disk) (path : Text) (pid : ℕ) → e path ≡ d path → block e path pid ≡ block d path pid
unfolding block
block-cong d e path pid h =
    ap (λ (o : Option (List ℕ)). elim o [ none ↦ none | some b ↦ block_in b pid ]) h

pub block-write_page_apart :
    (d : Disk) (path other : Text) (page : Page) (pid i : ℕ) (content : List ℕ)
    → IsWritable page pid
    → block d other i ≡ some content
    → (path ≡ other → pid ≢ i)
    → block (write_page d path page).1 other i ≡ some content
block-write_page_apart d path other page pid i content v e apart =
    elim (Bool-cases (str_eq path other)) [
      | inr n ↦
          block-cong d (write_page d path page).1 other i (write_page-other d path other page n) ∙ e
      | inl s ↦
          let same = eq_of_str_eq path other s in
          subst (λ q. block (write_page d path page).1 q i ≡ some content) same
            (block-same_file d path page pid i content v
              (subst (λ q. block d q i ≡ some content) (sym same) e) (apart same))
    ]
