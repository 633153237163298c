-- ===== src/Base/Int.antt =====
-- The C `int`, as an integer over the native numbers. An order between two integers is an order
-- between sums of their parts, which are numbers that the arithmetic tactics read.
use Prim.Native.Nat.{ℕ, suc, ◌+◌, ◌-◌, ◌≤◌, ◌<◌, compare, Ordering}
use mathlib.Core.Path.{◌≡◌, refl}
use mathlib.Core.Bool.{Bool}
use native.Mathlib.Omega.{arith}
use apgitproj.Base.Tests.{ltb, leb, if◌then◌else◌}

-- `negsuc n` is -(n + 1).
pub data ℤ : Type 0 where
  pos : ℕ → ℤ
  negsuc : ℕ → ℤ

-- The parts are shut, so that a tactic takes each for one unknown.
unfoldable pub pos_part : ℤ → ℕ
pos_part (pos n) = n
pos_part (negsuc n) = 0

unfoldable pub neg_part : ℤ → ℕ
neg_part (pos n) = 0
neg_part (negsuc n) = suc n

-- a - b, as an integer.
abbrev pub sub_ℕ : ℕ → ℕ → ℤ
sub_ℕ a b = if leb b a then pos (a - b) else negsuc (b - a - 1)

infixl 65 ◌+ℤ◌ ◌-ℤ◌
unfoldable pub ◌+ℤ◌ : ℤ → ℤ → ℤ
unfolding pos_part neg_part
a +ℤ b = sub_ℕ (pos_part a + pos_part b) (neg_part a + neg_part b)

unfoldable pub ◌-ℤ◌ : ℤ → ℤ → ℤ
unfolding pos_part neg_part
a -ℤ b = sub_ℕ (pos_part a + neg_part b) (neg_part a + pos_part b)

-- The outcome of `<`, `==` and `>` on two ints.
abbrev pub compare_ℤ : ℤ → ℤ → Ordering
compare_ℤ a b = compare (pos_part a + neg_part b) (pos_part b + neg_part a)

abbrev pub ltb_ℤ : ℤ → ℤ → Bool
ltb_ℤ a b = ltb (pos_part a + neg_part b) (pos_part b + neg_part a)

abbrev pub leb_ℤ : ℤ → ℤ → Bool
leb_ℤ a b = leb (pos_part a + neg_part b) (pos_part b + neg_part a)

infix 50 ◌<ℤ◌ ◌≤ℤ◌
abbrev pub ◌<ℤ◌ : ℤ → ℤ → Type 0
a <ℤ b = pos_part a + neg_part b < pos_part b + neg_part a

abbrev pub ◌≤ℤ◌ : ℤ → ℤ → Type 0
a ≤ℤ b = pos_part a + neg_part b ≤ pos_part b + neg_part a

pub eq_of_parts : (a b : ℤ) → pos_part a + neg_part b ≡ pos_part b + neg_part a → a ≡ b
unfolding pos_part neg_part
eq_of_parts a b h = ground arith

pub parts-pos : (n : ℕ) → (pos_part (pos n) ≡ n) × (neg_part (pos n) ≡ 0)
unfolding pos_part neg_part
parts-pos n = (refl, refl)

pub sub_add_one : (a : ℤ) → a -ℤ pos 1 +ℤ pos 1 ≡ a
unfolding ◌+ℤ◌ ◌-ℤ◌
sub_add_one a = ground arith

pub pos_add_one : (n : ℕ) → pos n +ℤ pos 1 ≡ pos (n + 1)
unfolding ◌+ℤ◌
pos_add_one n = ground arith

pub pos_sub_one : (n : ℕ) → pos (suc n) -ℤ pos 1 ≡ pos n
unfolding ◌-ℤ◌
pos_sub_one n = ground arith

-- The three outcomes of a comparison, each with what it says.
pub data Comparison (a b : ℤ) : Type 0 where
  less : compare_ℤ a b ≡ Ordering.lt → a <ℤ b → Comparison a b
  same : compare_ℤ a b ≡ Ordering.eq → a ≡ b → Comparison a b
  more : compare_ℤ a b ≡ Ordering.gt → b <ℤ a → Comparison a b

pub comparison : (a b : ℤ) → Comparison a b
comparison a b = split (compare_ℤ a b) refl
  where
    split : (o : Ordering) → compare_ℤ a b ≡ o → Comparison a b
    split Ordering.lt e = less e (ground arith)
    split Ordering.eq e = same e (eq_of_parts a b (ground arith))
    split Ordering.gt e = more e (ground arith)
