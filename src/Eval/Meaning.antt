-- ===== src/Eval/Meaning.antt =====
-- evalWhere on the output of shuntingYard: the meaning of the expression.
use apgitproj.Base.{
  ℕ, ◌≤◌, ◌≡◌, refl, ap, ◌∙◌, sym, true, false, List, [], ◌∷◌, ◌++◌, length, append_assoc,
  append-nil, Option, none, some, arith,
}
use apgitproj.Doubles.{Doubles}
use apgitproj.Token.{TokenType, Token, is_type, is_operator, is_operand}
use apgitproj.Schema.{TableSchema}
use apgitproj.Row.{Row}
use apgitproj.ShuntingYard.{shunting_yard}
use apgitproj.ShuntingYard.Expr.{Expr, operand, binary, group, infix_of, postfix_of, IsWellFormed}
use apgitproj.ShuntingYard.Correct.{shunting_yard-infix_of}
use apgitproj.Eval.{
  Val, apply_op, operand_value, apply_top, eval_step, eval_loop, truth, result_of, eval_where,
}

-- An operand and an operator are told apart.
operator_no : (t : TokenType) → is_operator t ≡ true → is_operand t ≡ false
unfolding is_operator is_operand is_type
operator_no TokenType.eq h = refl
operator_no TokenType.neq h = refl
operator_no TokenType.lt h = refl
operator_no TokenType.gt h = refl
operator_no TokenType.lte h = refl
operator_no TokenType.gte h = refl
operator_no TokenType.and h = refl
operator_no TokenType.or h = refl
operator_no TokenType.plus h = refl
operator_no TokenType.minus h = refl
operator_no TokenType.mul h = refl
operator_no TokenType.div h = refl
operator_no TokenType.mod_op h = refl
operator_no _ h = ground arith

module _ (F : Doubles) (schema : TableSchema) (row : Row F.Double) where
  -- The meaning of an expression, by its structure.
  unfoldable pub meaning : Expr F.Double → Val F
  meaning (operand t) = operand_value F schema row t
  meaning (binary op l r) = apply_op F op.type (meaning l) (meaning r)
  meaning (group lp rp e) = meaning e

  abbrev run : List (Token F.Double) → List (Val F) → Option (List (Val F))
  run = eval_loop F schema row

  eval_step-operand :
      (stk : List (Val F)) (t : Token F.Double)
      → is_operand t.type ≡ true
      → eval_step F schema row stk t ≡ some (operand_value F schema row t ∷ stk)
  unfolding eval_step is_operand
  eval_step-operand stk t h = rw h

  eval_step-operator :
      (stk : List (Val F)) (l r : Val F) (t : Token F.Double)
      → is_operator t.type ≡ true
      → eval_step F schema row (r ∷ l ∷ stk) t ≡ some (apply_op F t.type l r ∷ stk)
  unfolding eval_step apply_top is_operand is_type
  eval_step-operator stk l r t h = rw (operator_no t.type h, h)

  run_cons :
      (t : Token F.Double) (ts : List (Token F.Double)) (stk stk' : List (Val F))
      → eval_step F schema row stk t ≡ some stk'
      → run (t ∷ ts) stk ≡ run ts stk'
  unfolding eval_loop
  run_cons t ts stk stk' h =
      ap (λ (o : Option (List (Val F))). elim o [ none ↦ none | some s ↦ run ts s ]) h

  -- The postfix tokens of an expression push its meaning.
  run-postfix_of :
      (e : Expr F.Double) (rest : List (Token F.Double)) (stk : List (Val F))
      → IsWellFormed e
      → run (postfix_of e ++ rest) stk ≡ run rest (meaning e ∷ stk)
  unfolding postfix_of meaning
  run-postfix_of (operand t) rest stk w =
      run_cons t rest stk (operand_value F schema row t ∷ stk) (eval_step-operand stk t w)
  run-postfix_of (binary op l r) rest stk w =
      let x = meaning l in
      let y = meaning r in
      ap (λ ts. run ts stk)
        (append_assoc (postfix_of l ++ postfix_of r) (op ∷ []) rest
          ∙ append_assoc (postfix_of l) (postfix_of r) (op ∷ rest))
      ∙ run-postfix_of l (postfix_of r ++ op ∷ rest) stk w.3
      ∙ run-postfix_of r (op ∷ rest) (x ∷ stk) w.4
      ∙ run_cons op rest (y ∷ x ∷ stk) (apply_op F op.type x y ∷ stk)
          (eval_step-operator stk x y op w.0)
  run-postfix_of (group lp rp e) rest stk w = run-postfix_of e rest stk w.2

  eval_where-tokens :
      (ts : List (Token F.Double)) (v : Val F)
      → run ts [] ≡ some (v ∷ [])
      → eval_where F true ts row schema ≡ truth F v
  unfolding eval_where eval_loop result_of
  eval_where-tokens [] v h = ground arith
  eval_where-tokens (t ∷ ts) v h =
      ap (λ (o : Option (List (Val F))). elim o [ none ↦ false | some stk ↦ result_of F stk ]) h

  -- The postfix tokens of a well-formed expression decide by its meaning.
  pub eval_where-postfix_of :
      (e : Expr F.Double)
      → IsWellFormed e
      → eval_where F true (postfix_of e) row schema ≡ truth F (meaning e)
  unfolding eval_loop
  eval_where-postfix_of e w =
      eval_where-tokens (postfix_of e) (meaning e)
        (ap (λ ts. run ts []) (sym (append-nil (postfix_of e))) ∙ run-postfix_of e [] [] w)

  -- A well-formed expression whose postfix form fits into the array, converted by shuntingYard and
  -- run by evalWhere on a row, decides by its meaning.
  pub eval_where-meaning :
      (max_postfix str_max_len : ℕ) (e : Expr F.Double)
      → IsWellFormed e
      → length (postfix_of e) ≤ max_postfix
      → eval_where F true (shunting_yard max_postfix str_max_len (infix_of e)).tokens row schema
        ≡ truth F (meaning e)
  eval_where-meaning max_postfix str_max_len e w h =
      ap (λ ts. eval_where F true ts row schema)
        (shunting_yard-infix_of max_postfix str_max_len e w h)
      ∙ eval_where-postfix_of e w
