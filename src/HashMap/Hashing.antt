-- ===== src/HashMap/Hashing.antt =====
-- HashMap.h: the two key types with their comparison and their hash.
use apgitproj.Base.{
  ℕ, ◌+◌, ◌-◌, ◌*◌, ◌%◌, ◌^◌, ◌<◌, ◌≡◌, ◌↔◌, Bool, true, false, [], ◌∷◌, arith, ℤ, pos, negsuc,
  compare_ℤ, eq, eq_of_parts, Text, str_eq, str_eq_refl, eq_of_str_eq,
}

-- What the template text uses of a key: `strcmp(..) == 0` or `==`, and `hash`, which takes the
-- number of buckets.
pub record Key (K : Type 0) : Type 0 where
  pub equal : K → K → Bool
  pub hash : K → ℕ → ℕ
  pub equal_iff : (a b : K) → (equal a b ≡ true) ↔ (a ≡ b)
  pub hash-lt : (k : K) (n : ℕ) → 0 < n → hash k n < n

abbrev pub ulong_mod : ℕ
ulong_mod = 2 ^ 64

-- The loop of djb2: h = ((h << 5) + h) + c.
unfoldable pub djb2 : ℕ → Text → ℕ
djb2 h [] = h
djb2 h (c ∷ s) = djb2 ((h * 32 % ulong_mod + h + c) % ulong_mod) s

unfoldable pub hash_text : Text → ℕ → ℕ
unfolding djb2
hash_text k n = djb2 5381 k % n

pub text_equal_iff : (a b : Text) → (str_eq a b ≡ true) ↔ (a ≡ b)
text_equal_iff a b = (eq_of_str_eq a b, λ e. rw (← e) (str_eq_refl a))

pub hash_text-lt : (k : Text) (n : ℕ) → 0 < n → hash_text k n < n
unfolding hash_text
hash_text-lt k n h = omega arith

instance abbrev pub text_key : Key Text
text_key = record {
  equal = str_eq;
  hash = hash_text;
  equal_iff = text_equal_iff;
  hash-lt = hash_text-lt;
}

-- (unsigned int)key
unfoldable pub to_uint : ℤ → ℕ
to_uint (pos n) = n % 2 ^ 32
to_uint (negsuc n) = 2 ^ 32 - 1 - n % 2 ^ 32

unfoldable pub hash_int : ℤ → ℕ → ℕ
unfolding to_uint
hash_int k n = to_uint k * 2654435761 % 2 ^ 32 % n

unfoldable pub int_equal : ℤ → ℤ → Bool
int_equal a b = elim (compare_ℤ a b) [ eq ↦ true | _ ↦ false ]

pub int_equal_iff : (a b : ℤ) → (int_equal a b ≡ true) ↔ (a ≡ b)
unfolding int_equal
int_equal_iff a b = (λ e. eq_of_parts a b (ground arith), λ e. rw e (ground arith))

pub hash_int-lt : (k : ℤ) (n : ℕ) → 0 < n → hash_int k n < n
unfolding hash_int
hash_int-lt k n h = omega arith

instance abbrev pub int_key : Key ℤ
int_key = record {
  equal = int_equal;
  hash = hash_int;
  equal_iff = int_equal_iff;
  hash-lt = hash_int-lt;
}
