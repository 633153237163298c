-- ===== src/BufferPool/Keys.antt =====
-- BufferPool.h: the keys of the pages of one table.
use apgitproj.Base.{ℕ, ◌+◌, ◌*◌, ◌%◌, ◌^◌, ◌<◌, ◌≡◌, ap, arith, pos_part, neg_part}
use apgitproj.BufferPool.{wrap_int, make_page_key}

wrap_int-low : (a b : ℕ) → wrap_int a ≡ wrap_int b → a % 4294967296 ≡ b % 4294967296
unfolding wrap_int pos_part neg_part
wrap_int-low a b e = let p = ap pos_part e in let n = ap neg_part e in ground arith

-- Two pages of a table have different keys, although the product wraps around.
pub make_page_key-injective :
    (table_hash i j : ℕ)
    → i < 2 ^ 32
    → j < 2 ^ 32
    → make_page_key table_hash i ≡ make_page_key table_hash j
    → i ≡ j
unfolding make_page_key
make_page_key-injective table_hash i j a b e =
    let low = wrap_int-low (table_hash * 100000 + i) (table_hash * 100000 + j) e in
    omega (arith, low)
