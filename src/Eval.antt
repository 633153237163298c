-- ===== src/Eval.antt =====
-- src/executor/Executor.h and Executor.cpp: the values of expressions, and evalWhere, which runs
-- the postfix tokens of a WHERE clause on a row.
pub mod Meaning
use apgitproj.Base.{
  ℕ, zero, suc, ◌+◌, ◌-◌, ◌%◌, Bool, true, false, ◌&&◌, ◌||◌, not, List, [], ◌∷◌, ℤ, pos, negsuc,
  pos_part, neg_part, ◌-ℤ◌, leb_ℤ, ltb, ◌==◌, compare, Ordering, lt, eq, gt, if◌then◌else◌, Text,
  truncate, Option, none, some,
}
use apgitproj.Doubles.{Doubles}
use apgitproj.Token.{TokenType, Token, is_type, is_operator}
use apgitproj.Schema.{TableSchema, column_index}
use apgitproj.Row.{Field, int_field, float_field, string_field, Row, get_field}

pub data Kind : Type 0 where
  int_k float_k string_k bool_k : Kind

pub record EvalVal (D : Type 0) : Type 0 where
  pub kind : Kind
  pub ival : ℤ
  pub fval : D
  pub sval : Text
  pub bval : Bool

unfoldable pub is_string : Kind → Bool
is_string Kind.string_k = true
is_string _ = false

-- The order of the bytes as signed `char`s.
abbrev pub char_rank : ℕ → ℕ
char_rank b = (b + 128) % 256

-- The sign of `cmp` after the loop over two C strings.
unfoldable pub compare_text : Text → Text → Ordering
compare_text [] [] = eq
compare_text [] (y ∷ ys) = lt
compare_text (x ∷ xs) [] = gt
compare_text (x ∷ xs) (y ∷ ys) = elim (compare (char_rank x) (char_rank y)) [
  | lt ↦ lt
  | gt ↦ gt
  | eq ↦ compare_text xs ys
]

unfoldable pub is_zero : ℤ → Bool
is_zero (pos zero) = true
is_zero _ = false

-- `a % b` of two ints: the remainder takes the sign of `a`.
unfoldable pub rem_ℤ : ℤ → ℤ → ℤ
unfolding pos_part neg_part
rem_ℤ (pos n) b = pos (n % (pos_part b + neg_part b))
rem_ℤ (negsuc n) b = pos 0 -ℤ pos (suc n % (pos_part b + neg_part b))

-- The result of a comparison operator, by the sign of `cmp`.
unfoldable pub compare_op : TokenType → Ordering → Bool
compare_op TokenType.eq eq = true
compare_op TokenType.neq lt = true
compare_op TokenType.neq gt = true
compare_op TokenType.lt lt = true
compare_op TokenType.gt gt = true
compare_op TokenType.lte lt = true
compare_op TokenType.lte eq = true
compare_op TokenType.gte eq = true
compare_op TokenType.gte gt = true
compare_op _ _ = false

module _ (F : Doubles) where
  abbrev pub Val : Type 0
  Val = EvalVal F.Double

  abbrev pub blank_val : Val
  blank_val = record { kind = Kind.int_k; ival = pos 0; fval = F.zero_d; sval = []; bval = false }

  unfoldable pub from_int : ℤ → Val
  from_int v = record blank_val { kind = Kind.int_k; ival = v }

  unfoldable pub from_float : F.Double → Val
  from_float v = record blank_val { kind = Kind.float_k; fval = v }

  unfoldable pub from_str : Text → Val
  from_str s = record blank_val { kind = Kind.string_k; sval = truncate 256 s }

  unfoldable pub from_bool : Bool → Val
  from_bool b = record blank_val { kind = Kind.bool_k; bval = b }

  unfoldable pub as_num : Val → F.Double
  as_num v = elim v.kind [ Kind.int_k ↦ F.of_int v.ival | _ ↦ v.fval ]

  -- Whether a value counts as true.
  unfoldable pub truth : Val → Bool
  truth v = elim v.kind [
    | Kind.bool_k ↦ v.bval
    | _ ↦ not (is_zero v.ival) || not (F.eq_d v.fval F.zero_d)
  ]

  unfoldable pub field_to_val : Option (Field F.Double) → Val
  field_to_val none = from_int (pos 0)
  field_to_val (some (int_field v)) = from_int v
  field_to_val (some (float_field v)) = from_float v
  field_to_val (some (string_field s)) = from_str s

  unfoldable pub string_op : TokenType → Val → Val → Val
  string_op op l r =
      let ls = if is_string l.kind then l.sval else [] in
      let rs = if is_string r.kind then r.sval else [] in
      from_bool (compare_op op (compare_text ls rs))

  unfoldable pub numeric_op : TokenType → F.Double → F.Double → Val
  numeric_op TokenType.eq lv rv = from_bool (F.eq_d lv rv)
  numeric_op TokenType.neq lv rv = from_bool (not (F.eq_d lv rv))
  numeric_op TokenType.lt lv rv = from_bool (F.lt_d lv rv)
  numeric_op TokenType.gt lv rv = from_bool (F.lt_d rv lv)
  numeric_op TokenType.lte lv rv = from_bool (F.le_d lv rv)
  numeric_op TokenType.gte lv rv = from_bool (F.le_d rv lv)
  numeric_op TokenType.plus lv rv = from_float (F.plus lv rv)
  numeric_op TokenType.minus lv rv = from_float (F.minus lv rv)
  numeric_op TokenType.mul lv rv = from_float (F.times lv rv)
  numeric_op TokenType.div lv rv =
      if F.eq_d rv F.zero_d then from_float F.zero_d else from_float (F.divide lv rv)
  numeric_op TokenType.mod_op lv rv =
      let ri = F.to_int rv in from_int (if is_zero ri then pos 0 else rem_ℤ (F.to_int lv) ri)
  numeric_op _ lv rv = from_float F.zero_d

  unfoldable pub apply_op : TokenType → Val → Val → Val
  apply_op TokenType.and l r = from_bool (truth l && truth r)
  apply_op TokenType.or l r = from_bool (truth l || truth r)
  apply_op op l r =
      if is_string l.kind || is_string r.kind
      then string_op op l r
      else numeric_op op (as_num l) (as_num r)

  -- The value an operand token pushes.
  unfoldable pub operand_value : TableSchema → Row F.Double → Token F.Double → Val
  unfolding is_type
  operand_value schema row tok =
      if is_type tok.type TokenType.integer
      then from_int tok.int_val
      else if is_type tok.type TokenType.float_lit
      then from_float tok.float_val
      else if is_type tok.type TokenType.string_lit
      then from_str tok.lexeme
      else (let col_idx = column_index schema tok.lexeme in
          if leb_ℤ (pos 0) col_idx
          then field_to_val (get_field row col_idx)
          else from_str tok.lexeme)

  -- The two topmost values are replaced by the result; `none` is `return false`.
  unfoldable pub apply_top : TokenType → List Val → Option (List Val)
  apply_top op (right ∷ left ∷ rest) = some (apply_op op left right ∷ rest)
  apply_top op _ = none

  -- One round of the loop on the stack, the top first; `none` is `return false`.
  unfoldable pub eval_step :
      TableSchema → Row F.Double → List Val → Token F.Double → Option (List Val)
  unfolding is_type
  eval_step schema row stk tok =
      if is_type tok.type TokenType.integer
        || is_type tok.type TokenType.float_lit
        || is_type tok.type TokenType.string_lit
        || is_type tok.type TokenType.identifier
      then some (operand_value schema row tok ∷ stk)
      else if is_operator tok.type
      then apply_top tok.type stk
      else some stk

  unfoldable pub eval_loop :
      TableSchema → Row F.Double → List (Token F.Double) → List Val → Option (List Val)
  eval_loop schema row [] stk = some stk
  eval_loop schema row (tok ∷ postfix) stk = elim (eval_step schema row stk tok) [
    | none ↦ none
    | some stk' ↦ eval_loop schema row postfix stk'
  ]

  -- What is left on the stack decides.
  unfoldable pub result_of : List Val → Bool
  result_of [] = true
  result_of (v ∷ stk) = truth v

  unfoldable pub eval_where : Bool → List (Token F.Double) → Row F.Double → TableSchema → Bool
  eval_where has_where postfix row schema = if not has_where then true else elim postfix [
    | [] ↦ true
    | t ∷ ts ↦ elim (eval_loop schema row (t ∷ ts) []) [ none ↦ false | some stk ↦ result_of stk ]
  ]
