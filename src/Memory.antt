-- ===== src/Memory.antt =====
-- The bytes of a page or buffer, as the code writes and reads them, and the `int` as four of them.
-- A byte is the number of its `unsigned char`.
use apgitproj.Base.{
  ℕ, zero, suc, ◌+◌, ◌-◌, ◌*◌, ◌/◌, ◌%◌, ◌≤◌, ◌<◌, ◌≡◌, ◌⊎◌, inl, refl, ap, ap₂, ◌∙◌, List, [], ◌∷◌,
  ℤ, pos, negsuc, pos_part, neg_part, length, length-set, get_or, get_or-set, set, ltb,
  if◌then◌else◌, arith,
}

-- `buf[off + j] = bs[j]`, for each j.
unfoldable pub write_bytes : List ℕ → ℕ → List ℕ → List ℕ
write_bytes mem off [] = mem
write_bytes mem off (b ∷ bs) = write_bytes (set mem off b) (suc off) bs

-- `buf[off .. off + n)`.
unfoldable pub read_bytes : List ℕ → ℕ → ℕ → List ℕ
read_bytes mem off zero = []
read_bytes mem off (suc n) = get_or mem off 0 ∷ read_bytes mem (suc off) n

pub length-write_bytes :
    (mem : List ℕ) (off : ℕ) (bs : List ℕ) → length (write_bytes mem off bs) ≡ length mem
unfolding write_bytes
length-write_bytes mem off [] = refl
length-write_bytes mem off (b ∷ bs) =
    length-write_bytes (set mem off b) (suc off) bs ∙ length-set mem off b

-- A write leaves the bytes before and after it.
pub get_or-write_bytes :
    (mem : List ℕ) (off : ℕ) (bs : List ℕ) (j : ℕ)
    → off + length bs ≤ length mem
    → (j < off) ⊎ (off + length bs ≤ j)
    → get_or (write_bytes mem off bs) j 0 ≡ get_or mem j 0
unfolding write_bytes
get_or-write_bytes mem off [] j h a = refl
get_or-write_bytes mem off (b ∷ bs) j h a =
    let same : length (set mem off b) ≡ length mem = length-set mem off b in
    get_or-write_bytes (set mem off b) (suc off) bs j (omega arith) (ground arith)
    ∙ get_or-set mem off j b 0 (omega arith)
    ∙ ground arith

pub read_bytes-write_bytes_apart :
    (mem : List ℕ) (off : ℕ) (bs : List ℕ) (at n : ℕ)
    → off + length bs ≤ length mem
    → (at + n ≤ off) ⊎ (off + length bs ≤ at)
    → read_bytes (write_bytes mem off bs) at n ≡ read_bytes mem at n
unfolding read_bytes
read_bytes-write_bytes_apart mem off bs at zero h a = refl
read_bytes-write_bytes_apart mem off bs at (suc n) h a =
    ap₂ (λ x xs. x ∷ xs) (get_or-write_bytes mem off bs at h (ground arith))
      (read_bytes-write_bytes_apart mem off bs (suc at) n h (ground arith))

pub read_bytes-write_bytes :
    (mem : List ℕ) (off : ℕ) (bs : List ℕ)
    → off + length bs ≤ length mem
    → read_bytes (write_bytes mem off bs) off (length bs) ≡ bs
unfolding read_bytes write_bytes
read_bytes-write_bytes mem off [] h = refl
read_bytes-write_bytes mem off (b ∷ bs) h =
    let same : length (set mem off b) ≡ length mem = length-set mem off b in
    ap₂ (λ x xs. x ∷ xs)
      (get_or-write_bytes (set mem off b) (suc off) bs off (omega arith) (inl (omega arith))
        ∙ get_or-set mem off off b 0 (omega arith)
        ∙ ground arith)
      (read_bytes-write_bytes (set mem off b) (suc off) bs (omega arith))

-- The bits of an `int`, in two's complement.
unfoldable pub bits_of : ℤ → ℕ
bits_of (pos n) = n % 4294967296
bits_of (negsuc n) = 4294967295 - n % 4294967296

unfoldable pub int_of : ℕ → ℤ
int_of u = if ltb u 2147483648 then pos u else negsuc (4294967295 - u)

-- IntField::serialize and Page::writeInt: the four bytes, the low one first.
unfoldable pub encode_int : ℤ → List ℕ
encode_int v =
    let u = bits_of v in u % 256 ∷ u / 256 % 256 ∷ u / 65536 % 256 ∷ u / 16777216 % 256 ∷ []

-- IntField::deserialize and Page::readInt.
unfoldable pub decode_int : List ℕ → ℤ
decode_int bs =
    int_of (get_or bs 0 0 + get_or bs 1 0 * 256 + get_or bs 2 0 * 65536 + get_or bs 3 0 * 16777216)

-- The range of `int`.
abbrev pub IsInt : ℤ → Type 0
IsInt v = (pos_part v < 2147483648) × (neg_part v ≤ 2147483648)

bits_of_bytes :
    (u : ℕ)
    → u < 4294967296
    → u % 256 + u / 256 % 256 * 256 + u / 65536 % 256 * 65536 + u / 16777216 % 256 * 16777216 ≡ u
bits_of_bytes u h = omega arith

bits_of_lt : (v : ℤ) → bits_of v < 4294967296
unfolding bits_of
bits_of_lt (pos n) = omega arith
bits_of_lt (negsuc n) = omega arith

int_of-bits_of : (v : ℤ) → IsInt v → int_of (bits_of v) ≡ v
unfolding bits_of int_of pos_part neg_part
int_of-bits_of (pos n) h = ground arith
int_of-bits_of (negsuc n) h = ground arith

-- Four bytes written for a value in the range of `int` are read back as that value.
pub decode_int-encode_int : (v : ℤ) → IsInt v → decode_int (encode_int v) ≡ v
unfolding decode_int encode_int
decode_int-encode_int v h =
    ap int_of (bits_of_bytes (bits_of v) (bits_of_lt v)) ∙ int_of-bits_of v h
