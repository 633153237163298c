-- ===== src/Disk/Files.antt =====
-- DiskManager: a page that was written is read back, and the other pages stay.
use native.Mathlib.Nat.{suc-mul, mul-le-mul_right}
use apgitproj.Base.{
  ℕ, zero, suc, ◌+◌, ◌-◌, ◌*◌, ◌≤◌, ◌<◌, ◌≡◌, ◌≢◌, ◌⊎◌, inl, inr, refl, ap, ap₂, ◌∙◌, sym, true,
  false, List, [], ◌∷◌, ◌++◌, pos, parts-pos, length, length-append, length-replicate, replicate,
  get_or, leb, Text, str_eq_refl, Option, none, some, arith,
}
use apgitproj.Memory.{
  write_bytes, read_bytes, length-write_bytes, read_bytes-write_bytes, read_bytes-write_bytes_apart,
}
use apgitproj.Schema.{page_size}
use apgitproj.Page.{Page}
use apgitproj.Disk.{Disk, set_file, opened, extend, write_page, read_file, read_page}

length-extend : (bytes : List ℕ) (size : ℕ) → size ≤ length (extend bytes size)
unfolding extend
length-extend bytes size = omega (
  arith,
  length-append bytes (replicate (size - length bytes) 0),
  length-replicate {A = ℕ} (size - length bytes) 0,
)

length-extend_old : (bytes : List ℕ) (size : ℕ) → length bytes ≤ length (extend bytes size)
unfolding extend
length-extend_old bytes size =
    omega (arith, length-append bytes (replicate (size - length bytes) 0))

get_or-append_left :
    (xs ys : List ℕ) (i : ℕ) → i < length xs → get_or (xs ++ ys) i 0 ≡ get_or xs i 0
get_or-append_left [] ys i h = absurd (omega arith)
get_or-append_left (x ∷ xs) ys zero h = refl
get_or-append_left (x ∷ xs) ys (suc i) h = get_or-append_left xs ys i (omega arith)

read_bytes-extend :
    (bytes : List ℕ) (size start n : ℕ)
    → start + n ≤ length bytes
    → read_bytes (extend bytes size) start n ≡ read_bytes bytes start n
unfolding read_bytes extend
read_bytes-extend bytes size start zero h = refl
read_bytes-extend bytes size start (suc n) h =
    ap₂ (λ x xs. x ∷ xs)
      (get_or-append_left bytes (replicate (size - length bytes) 0) start (omega arith))
      (read_bytes-extend bytes size (suc start) n (omega arith))

-- A page in memory that can be written: its number is natural and it has the page size.
pub record IsWritable (page : Page) (pid : ℕ) : Type 0 where
  pub number : page.page_id ≡ pos pid
  pub size : length page.bytes ≡ page_size

-- The file after a page was written.
abbrev pub after_write : Disk → Text → Page → ℕ → List ℕ
after_write d path page pid =
    write_bytes (extend (opened d path) (pid * page_size + page_size)) (pid * page_size) page.bytes

pub write_page-file :
    (d : Disk) (path : Text) (page : Page) (pid : ℕ)
    → IsWritable page pid
    → (write_page d path page).1 path ≡ some (after_write d path page pid)
unfolding write_page set_file
write_page-file d path page pid v = rw (str_eq_refl path, v.number, (parts-pos pid).0) refl

pub length-after_write :
    (d : Disk) (path : Text) (page : Page) (pid : ℕ)
    → pid * page_size + page_size ≤ length (after_write d path page pid)
length-after_write d path page pid = omega (
  arith,
  length-write_bytes (extend (opened d path) (pid * page_size + page_size)) (pid * page_size)
      page.bytes,
  length-extend (opened d path) (pid * page_size + page_size),
)

-- A file does not get shorter.
pub after_write-longer :
    (d : Disk) (path : Text) (page : Page) (pid : ℕ) (bytes : List ℕ)
    → d path ≡ some bytes
    → length bytes ≤ length (after_write d path page pid)
unfolding opened
after_write-longer d path page pid bytes e =
    let start : opened d path ≡ bytes =
      ap (λ (o : Option (List ℕ)). elim o [ none ↦ [] | some b ↦ b ]) e in
    let size = pid * page_size + page_size in
    omega (
      arith,
      ap length start,
      length-extend_old (opened d path) size,
      length-write_bytes (extend (opened d path) size) (pid * page_size) page.bytes,
    )

-- The page that a whole read leaves.
abbrev pub loaded : ℕ → List ℕ → Page
loaded pid bytes = record { page_id = pos pid; is_dirty = false; is_valid = true; bytes = bytes }

pub read_page-whole :
    (d : Disk) (path : Text) (pid : ℕ) (dest : Page) (bytes : List ℕ)
    → d path ≡ some bytes
    → pid * page_size + page_size ≤ length bytes
    → read_page d path pid dest ≡ (true, loaded pid (read_bytes bytes (pid * page_size) page_size))
unfolding read_page read_file
read_page-whole d path pid dest bytes e h =
    let whole : leb (pid * page_size + page_size) (length bytes) ≡ true = ground arith in
    ap (λ (o : Option (List ℕ)). elim o [ none ↦ (false, dest) | some b ↦ read_file b pid dest ]) e
    ∙ rw whole refl

-- A page of the page size that was written is read back, whole and clean.
pub read_page-write_page :
    (d : Disk) (path : Text) (page dest : Page) (pid : ℕ)
    → IsWritable page pid
    → read_page (write_page d path page).1 path pid dest ≡ (true, loaded pid page.bytes)
read_page-write_page d path page dest pid v =
    let offset = pid * page_size in
    let old = extend (opened d path) (offset + page_size) in
    read_page-whole (write_page d path page).1 path pid dest (after_write d path page pid)
      (write_page-file d path page pid v) (length-after_write d path page pid)
    ∙ ap (λ bytes. (true, loaded pid bytes))
        (ap (read_bytes (after_write d path page pid) offset) (sym v.size)
          ∙ read_bytes-write_bytes old offset page.bytes
              (omega (arith, length-extend (opened d path) (offset + page_size), v.size)))

-- Pages of one size do not overlap.
pages_apart : (size i j : ℕ) → i ≢ j → (i * size + size ≤ j * size) ⊎ (j * size + size ≤ i * size)
pages_apart size i j n = elim (order i j n) [
  | inl h ↦ inl (omega (arith, suc-mul i size, mul-le-mul_right size h))
  | inr h ↦ inr (omega (arith, suc-mul j size, mul-le-mul_right size h))
]
  where
    order : (i j : ℕ) → i ≢ j → (i < j) ⊎ (j < i)
    order i j n = ground arith

-- Writing a page leaves the other pages that are whole in the file as they were.
pub read_page-write_page_apart :
    (d : Disk) (path : Text) (page dest : Page) (pid other : ℕ) (bytes : List ℕ)
    → IsWritable page pid
    → d path ≡ some bytes
    → other * page_size + page_size ≤ length bytes
    → pid ≢ other
    → read_page (write_page d path page).1 path other dest ≡ read_page d path other dest
unfolding opened
read_page-write_page_apart d path page dest pid other bytes v e h n =
    let offset = pid * page_size in
    let old = extend (opened d path) (offset + page_size) in
    let start : opened d path ≡ bytes =
      ap (λ (o : Option (List ℕ)). elim o [ none ↦ [] | some b ↦ b ]) e in
    let enough : other * page_size + page_size ≤ length (opened d path) =
      omega (arith, ap length start) in
    let kept = length-write_bytes old offset page.bytes in
    let longer : length (opened d path) ≤ length old =
      length-extend_old (opened d path) (offset + page_size) in
    read_page-whole (write_page d path page).1 path other dest (after_write d path page pid)
      (write_page-file d path page pid v) (omega (arith, kept, longer, enough))
    ∙ ap (λ b. (true, loaded other b))
        (read_bytes-write_bytes_apart old offset page.bytes (other * page_size) page_size
            (omega (arith, length-extend (opened d path) (offset + page_size), v.size))
            (ground (arith, pages_apart page_size pid other n, v.size))
          ∙ read_bytes-extend (opened d path) (offset + page_size) (other * page_size) page_size
              enough
          ∙ ap (λ b. read_bytes b (other * page_size) page_size) start)
    ∙ sym (read_page-whole d path other dest bytes e h)
