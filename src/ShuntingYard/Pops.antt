-- ===== src/ShuntingYard/Pops.antt =====
-- shuntingYard: the loops that pop operators.
use apgitproj.Base.{ℕ, ◌≤◌, ◌<◌, ◌≡◌, refl, true, false, List, [], ◌∷◌, ◌++◌, arith}
use apgitproj.Token.{TokenType, Token, is_type, is_operator, precedence, is_left_assoc, is_operand}
use apgitproj.ShuntingYard.{
  Output, Yard, push_out, pop_to_paren, goes_first, pop_operators, yard_step, discard_top, flush,
}

operator-left_assoc : (t : TokenType) → is_operator t ≡ true → is_left_assoc t ≡ true
unfolding is_operator is_left_assoc
operator-left_assoc TokenType.not_kw h = cc
operator-left_assoc _ h = refl

operator-not_paren : (t : TokenType) → is_operator t ≡ true → is_type t TokenType.lparen ≡ false
unfolding is_operator is_type
operator-not_paren TokenType.lparen h = cc
operator-not_paren _ h = refl

operator-not_rparen : (t : TokenType) → is_operator t ≡ true → is_type t TokenType.rparen ≡ false
unfolding is_operator is_type
operator-not_rparen TokenType.rparen h = cc
operator-not_rparen _ h = refl

operator-not_operand : (t : TokenType) → is_operator t ≡ true → is_operand t ≡ false
unfolding is_operator is_operand
operator-not_operand TokenType.integer h = cc
operator-not_operand TokenType.float_lit h = cc
operator-not_operand TokenType.string_lit h = cc
operator-not_operand TokenType.identifier h = cc
operator-not_operand _ h = refl

pub operator-precedence_pos : (t : TokenType) → is_operator t ≡ true → 0 < precedence t
unfolding is_operator precedence
operator-precedence_pos TokenType.eq h = omega arith
operator-precedence_pos TokenType.neq h = omega arith
operator-precedence_pos TokenType.lt h = omega arith
operator-precedence_pos TokenType.gt h = omega arith
operator-precedence_pos TokenType.lte h = omega arith
operator-precedence_pos TokenType.gte h = omega arith
operator-precedence_pos TokenType.and h = omega arith
operator-precedence_pos TokenType.or h = omega arith
operator-precedence_pos TokenType.plus h = omega arith
operator-precedence_pos TokenType.minus h = omega arith
operator-precedence_pos TokenType.mul h = omega arith
operator-precedence_pos TokenType.div h = omega arith
operator-precedence_pos TokenType.mod_op h = omega arith
operator-precedence_pos _ h = cc

module _ (tok top : TokenType) (h : is_operator tok ≡ true) where
  goes_first_yes :
      is_operator top ≡ true → precedence tok ≤ precedence top → goes_first tok top ≡ true
  unfolding goes_first
  goes_first_yes k p = rw (operator-left_assoc tok h, operator-not_paren top k, k) (ground arith)

  pub goes_first_no : precedence top < precedence tok → goes_first tok top ≡ false
  unfolding goes_first
  goes_first_no p = rw (operator-left_assoc tok h) (ground arith)

module _ {D : Type 0} where
  -- Operators that bind at least as tightly as `n`.
  abbrev pub AllOps : ℕ → List (Token D) → Type 0
  AllOps n [] = Unit
  AllOps n (t ∷ ts) = (is_operator t.type ≡ true) × (n ≤ precedence t.type) × AllOps n ts

  pub AllOps-le : (n m : ℕ) (ts : List (Token D)) → m ≤ n → AllOps n ts → AllOps m ts
  AllOps-le n m [] h a = tt
  AllOps-le n m (t ∷ ts) h a = (a.0, omega (arith, a.1), AllOps-le n m ts h a.2)

  pub AllOps-append :
      (n : ℕ) (ts us : List (Token D)) → AllOps n ts → AllOps n us → AllOps n (ts ++ us)
  AllOps-append n [] us a b = b
  AllOps-append n (t ∷ ts) us a b = (a.0, a.1, AllOps-append n ts us a.2 b)

module _ {D : Type 0} (max_postfix str_max_len : ℕ) where
  abbrev pub push_all : Output D → List (Token D) → Output D
  push_all o [] = o
  push_all o (t ∷ ts) = push_all (push_out max_postfix str_max_len o t) ts

  pub push_all-append :
      (o : Output D) (ts us : List (Token D)) → push_all o (ts ++ us) ≡ push_all (push_all o ts) us
  push_all-append o [] us = refl
  push_all-append o (t ∷ ts) us = push_all-append (push_out max_postfix str_max_len o t) ts us

  pub flush_lem :
      (ops : List (Token D)) (o : Output D) → flush max_postfix str_max_len ops o ≡ push_all o ops
  unfolding flush
  flush_lem [] o = refl
  flush_lem (t ∷ ops) o = flush_lem ops (push_out max_postfix str_max_len o t)

  -- All operators that bind as tightly as the new one go out.
  pub pop_operators-append :
      (tok : TokenType) (n : ℕ) (ops rest : List (Token D)) (o : Output D)
      → is_operator tok ≡ true
      → precedence tok ≤ n
      → AllOps n ops
      → pop_operators max_postfix str_max_len tok (ops ++ rest) o
        ≡ pop_operators max_postfix str_max_len tok rest (push_all o ops)
  unfolding pop_operators
  pop_operators-append tok n [] rest o h p a = refl
  pop_operators-append tok n (t ∷ ops) rest o h p a =
      rw (goes_first_yes tok t.type h a.0 (omega (arith, a.1)))
        (pop_operators-append tok n ops rest (push_out max_postfix str_max_len o t) h p a.2)

  -- Down to the opening parenthesis, all operators go out.
  pub pop_to_paren-append :
      (n : ℕ) (ops : List (Token D)) (lp : Token D) (rest : List (Token D)) (o : Output D)
      → lp.type ≡ TokenType.lparen
      → AllOps n ops
      → pop_to_paren max_postfix str_max_len (ops ++ lp ∷ rest) o
        ≡ record { ops = lp ∷ rest; out = push_all o ops }
  unfolding pop_to_paren
  pop_to_paren-append n [] lp rest o e a = rw e (unfold is_type in refl)
  pop_to_paren-append n (t ∷ ops) lp rest o e a =
      rw (operator-not_paren t.type a.0)
        (pop_to_paren-append n ops lp rest (push_out max_postfix str_max_len o t) e a.2)

  -- One round of the main loop, by the kind of the token.
  module _ (y : Yard D) (t : Token D) where
    pub yard_step_operand :
        is_operand t.type ≡ true
        → yard_step max_postfix str_max_len y t
          ≡ record y { out = push_out max_postfix str_max_len y.out t }
    unfolding yard_step
    yard_step_operand h = rw h

    pub yard_step_lparen :
        t.type ≡ TokenType.lparen
        → yard_step max_postfix str_max_len y t ≡ record y { ops = t ∷ y.ops }
    unfolding yard_step is_operand
    yard_step_lparen h = rw h

    pub yard_step_rparen :
        t.type ≡ TokenType.rparen
        → yard_step max_postfix str_max_len y t
          ≡ discard_top (pop_to_paren max_postfix str_max_len y.ops y.out)
    unfolding yard_step is_operand
    yard_step_rparen h = rw h

    pub yard_step_operator :
        is_operator t.type ≡ true
        → let z = pop_operators max_postfix str_max_len t.type y.ops y.out in
          yard_step max_postfix str_max_len y t ≡ record { ops = t ∷ z.ops; out = z.out }
    unfolding yard_step
    yard_step_operator h = rw (
      operator-not_operand t.type h,
      operator-not_paren t.type h,
      operator-not_rparen t.type h,
      h,
    )
