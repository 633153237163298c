-- ===== src/Tests.antt =====
-- Tests: the theorems applied to concrete trees, tables, queues, pages and queries.
pub mod Trees
pub mod Maps
pub mod Queues
pub mod Storage
pub mod Files
pub mod Graphs
pub mod Queries
pub mod Changes
pub mod Lists
pub mod Pool
pub mod Statements
use apgitproj.Base.{
  ℤ, pos, ◌+ℤ◌, ◌-ℤ◌, ltb_ℤ, leb_ℤ, sub_ℕ, pos_part, neg_part, ◌*◌, ◌+◌, ◌/◌, Bool, false, ◌&&◌,
  ◌||◌, not, if◌then◌else◌, List, [], ◌∷◌, Text,
}
use apgitproj.Doubles.{Doubles}
use apgitproj.HashMap.Hashing.{int_equal}
use apgitproj.Lexer.{atoi}

-- Whole numbers in place of doubles; the quotient is that of natural numbers.
abbrev pub wholes : Doubles
wholes = record {
  Double = ℤ;
  zero_d = pos 0;
  of_int = λ i. i;
  to_int = λ d. d;
  atof = atoi;
  plus = λ a b. a +ℤ b;
  minus = λ a b. a -ℤ b;
  times = λ a b.
      sub_ℕ (pos_part a * pos_part b + neg_part a * neg_part b)
        (pos_part a * neg_part b + neg_part a * pos_part b);
  divide = λ a b. pos (pos_part a / pos_part b);
  eq_d = int_equal;
  lt_d = λ a b. ltb_ℤ a b;
  le_d = λ a b. leb_ℤ a b;
}

-- Two values in place of doubles.
abbrev pub flags : Doubles
flags = record {
  Double = Bool;
  zero_d = false;
  of_int = λ i. leb_ℤ (pos 1) i;
  to_int = λ d. if d then pos 1 else pos 0;
  atof = λ s. leb_ℤ (pos 1) (atoi s);
  plus = λ a b. a || b;
  minus = λ a b. a && not b;
  times = λ a b. a && b;
  divide = λ a b. a;
  eq_d = λ a b. if a then b else not b;
  lt_d = λ a b. not a && b;
  le_d = λ a b. not a || b;
}
