-- ===== src/ShuntingYard/Expr.antt =====
-- shuntingYard: the infix expressions that the grammar of precedences admits, with the order in
-- which an evaluator wants their tokens.
use apgitproj.Base.{ℕ, ◌≤◌, ◌<◌, ◌≡◌, true, List, [], ◌∷◌, ◌++◌, append_assoc, append-nil, refl}
use apgitproj.Token.{TokenType, Token, is_operator, precedence, is_operand}

-- An operand, two expressions joined by an operator, or an expression in parentheses.
pub data Expr (D : Type 0) : Type 0 where
  operand : Token D → Expr D
  binary : Token D → Expr D → Expr D → Expr D
  group : Token D → Token D → Expr D → Expr D

module _ {D : Type 0} where
  unfoldable pub infix_of : Expr D → List (Token D)
  infix_of (operand t) = t ∷ []
  infix_of (binary op l r) = infix_of l ++ op ∷ infix_of r
  infix_of (group lp rp e) = lp ∷ infix_of e ++ rp ∷ []

  unfoldable pub postfix_of : Expr D → List (Token D)
  postfix_of (operand t) = t ∷ []
  postfix_of (binary op l r) = postfix_of l ++ postfix_of r ++ op ∷ []
  postfix_of (group lp rp e) = postfix_of e

  -- How tightly the outermost operator binds; 7 is above every operator.
  abbrev pub level : Expr D → ℕ
  level (operand t) = 7
  level (binary op l r) = precedence op.type
  level (group lp rp e) = 7

  -- Each operator stands at its precedence, and operators of one precedence group to the left: so
  -- the tokens are read in one way.
  abbrev pub IsWellFormed : Expr D → Type 0
  IsWellFormed (operand t) = is_operand t.type ≡ true
  IsWellFormed (binary op l r) =
      (is_operator op.type ≡ true)
      × (precedence op.type ≤ level l)
      × (precedence op.type < level r)
      × IsWellFormed l
      × IsWellFormed r
  IsWellFormed (group lp rp e) =
      (lp.type ≡ TokenType.lparen) × (rp.type ≡ TokenType.rparen) × IsWellFormed e

  -- The operators still on the stack after the tokens of an expression, the top first.
  unfoldable pub pending : Expr D → List (Token D)
  pending (operand t) = []
  pending (binary op l r) = pending r ++ op ∷ []
  pending (group lp rp e) = []

  -- The tokens already written then.
  unfoldable pub emitted : Expr D → List (Token D)
  emitted (operand t) = t ∷ []
  emitted (binary op l r) = emitted l ++ pending l ++ emitted r
  emitted (group lp rp e) = postfix_of e

  pub emitted-append-pending : (e : Expr D) → emitted e ++ pending e ≡ postfix_of e
  unfolding emitted pending postfix_of
  emitted-append-pending (operand t) = refl
  emitted-append-pending (binary op l r) =
      rw (← emitted-append-pending l, ← emitted-append-pending r) (simp append_assoc)
  emitted-append-pending (group lp rp e) = append-nil (postfix_of e)
