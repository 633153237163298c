-- ===== src/Parser/Clauses.antt =====
-- Parser.cpp: the loops of the parser, the WHERE clause and the JOINs.
use apgitproj.Base.{
  ◌+◌, ◌≤◌, ◌<◌, ◌≡◌, refl, ap, ◌∙◌, sym, Bool, true, false, ◌||◌, List, [], ◌∷◌, ◌++◌, length,
  length-append, lt→ltb, Bool-cases, inl, inr, append_assoc, append-nil, if◌then◌else◌, arith,
}
use apgitproj.Doubles.{Doubles}
use apgitproj.Token.{TokenType, Token, is_type, is_operator, is_operand}
use apgitproj.Lexer.{Tok, end_token}
use apgitproj.ShuntingYard.{shunting_yard}
use apgitproj.ShuntingYard.Expr.{Expr, operand, binary, group, infix_of, postfix_of, IsWellFormed}
use apgitproj.ShuntingYard.Correct.{shunting_yard-infix_of}
use apgitproj.Parser.{
  WhereBuf, Query, Toks, max_postfix, advance, skip_until, where_step, ends_where, where_loop,
  parse_where,
}

operator_goes_on : (t : TokenType) → is_operator t ≡ true → ends_where t ≡ false
unfolding is_operator ends_where is_type
operator_goes_on TokenType.eq h = refl
operator_goes_on TokenType.neq h = refl
operator_goes_on TokenType.lt h = refl
operator_goes_on TokenType.gt h = refl
operator_goes_on TokenType.lte h = refl
operator_goes_on TokenType.gte h = refl
operator_goes_on TokenType.and h = refl
operator_goes_on TokenType.or h = refl
operator_goes_on TokenType.plus h = refl
operator_goes_on TokenType.minus h = refl
operator_goes_on TokenType.mul h = refl
operator_goes_on TokenType.div h = refl
operator_goes_on TokenType.mod_op h = refl
operator_goes_on _ h = ground arith

operand_goes_on : (t : TokenType) → is_operand t ≡ true → ends_where t ≡ false
unfolding is_operand ends_where is_type
operand_goes_on TokenType.integer h = refl
operand_goes_on TokenType.float_lit h = refl
operand_goes_on TokenType.string_lit h = refl
operand_goes_on TokenType.identifier h = refl
operand_goes_on _ h = ground arith

paren_goes_on : (t p : TokenType) → t ≡ p → ends_where p ≡ false → ends_where t ≡ false
paren_goes_on t p e h = ap ends_where e ∙ h

parens_go_on : (ends_where TokenType.lparen ≡ false) × (ends_where TokenType.rparen ≡ false)
unfolding ends_where is_type
parens_go_on = (refl, refl)

-- No token of the list passes the test.
abbrev pub NoneStops : {D : Type 0} → (TokenType → Bool) → List (Token D) → Type 0
NoneStops stop [] = Unit
NoneStops stop (t ∷ ts) = (stop t.type ≡ false) × NoneStops stop ts

NoneStops-append :
    {D : Type 0} (stop : TokenType → Bool) (ts us : List (Token D))
    → NoneStops stop ts
    → NoneStops stop us
    → NoneStops stop (ts ++ us)
NoneStops-append stop [] us h k = k
NoneStops-append stop (t ∷ ts) us h k = (h.0, NoneStops-append stop ts us h.1 k)

pub if_same : {A : Type 0} (b : Bool) (a : A) → (if b then a else a) ≡ a
if_same true a = refl
if_same false a = refl

module _ (F : Doubles) where
  infix_of_goes_on : (e : Expr F.Double) → IsWellFormed e → NoneStops ends_where (infix_of e)
  unfolding infix_of
  infix_of_goes_on (operand t) w = (operand_goes_on t.type w, tt)
  infix_of_goes_on (binary op l r) w =
      NoneStops-append ends_where (infix_of l) (op ∷ infix_of r) (infix_of_goes_on l w.3)
        (operator_goes_on op.type w.0, infix_of_goes_on r w.4)
  infix_of_goes_on (group lp rp e) w = (
    paren_goes_on lp.type TokenType.lparen w.0 parens_go_on.0,
    NoneStops-append ends_where (infix_of e) (rp ∷ []) (infix_of_goes_on e w.2)
        (paren_goes_on rp.type TokenType.rparen w.1 parens_go_on.1, tt),
  )

  length-postfix_of : (e : Expr F.Double) → length (postfix_of e) ≤ length (infix_of e)
  unfolding infix_of postfix_of
  length-postfix_of (operand t) = omega arith
  length-postfix_of (binary op l r) = omega (
    arith,
    length-postfix_of l,
    length-postfix_of r,
    length-append (postfix_of l ++ postfix_of r) (op ∷ []),
    length-append (postfix_of l) (postfix_of r),
    length-append (infix_of l) (op ∷ infix_of r),
  )
  length-postfix_of (group lp rp e) =
      omega (arith, length-postfix_of e, length-append (infix_of e) (rp ∷ []))

  where_loop-stop :
      (t : Tok F) (ts : Toks F) (w : WhereBuf F.Double)
      → ends_where t.type ≡ true
      → where_loop F (t ∷ ts) w ≡ w
  unfolding where_loop
  where_loop-stop t ts w h = rw h refl

  where_loop-go :
      (t : Tok F) (ts : Toks F) (w : WhereBuf F.Double)
      → ends_where t.type ≡ false
      → where_loop F (t ∷ ts) w ≡ where_loop F ts (where_step F w t)
  unfolding where_loop
  where_loop-go t ts w h = rw h refl

  where_step-tokens :
      (w : WhereBuf F.Double) (t : Tok F)
      → length w.tokens < max_postfix
      → (where_step F w t).tokens ≡ w.tokens ++ t ∷ []
  unfolding where_step
  where_step-tokens w t h = rw (lt→ltb (length w.tokens) max_postfix h) refl

  -- The tokens up to the end of the clause are collected, if there is room for them.
  where_loop-tokens :
      (ts : Toks F) (stop : Tok F) (rest : Toks F) (w : WhereBuf F.Double)
      → NoneStops ends_where ts
      → ends_where stop.type ≡ true
      → length w.tokens + length ts ≤ max_postfix
      → (where_loop F (ts ++ stop ∷ rest) w).tokens ≡ w.tokens ++ ts
  where_loop-tokens [] stop rest w n h k =
      ap (λ (z : WhereBuf F.Double). z.tokens) (where_loop-stop stop rest w h)
      ∙ sym (append-nil w.tokens)
  where_loop-tokens (t ∷ ts) stop rest w n h k =
      let w' = where_step F w t in
      let written : w'.tokens ≡ w.tokens ++ t ∷ [] = where_step-tokens w t (omega arith) in
      let size : length w'.tokens ≡ length w.tokens + 1 =
        ap length written ∙ length-append w.tokens (t ∷ []) in
      ap (λ (z : WhereBuf F.Double). z.tokens) (where_loop-go t (ts ++ stop ∷ rest) w n.0)
      ∙ where_loop-tokens ts stop rest w' n.1 h (omega arith)
      ∙ ap (λ us. us ++ ts) written
      ∙ append_assoc w.tokens (t ∷ []) ts

  -- A WHERE clause with a well-formed expression of at most 256 tokens is stored in postfix form.
  pub parse_where-postfix :
      (e : Expr F.Double) (stop : Tok F) (rest : Toks F) (q : Query F)
      → IsWellFormed e
      → ends_where stop.type ≡ true
      → length (infix_of e) ≤ max_postfix
      → (parse_where F (infix_of e ++ stop ∷ rest) q).1.postfix ≡ postfix_of e
  unfolding parse_where
  parse_where-postfix e stop rest q w h k =
      ap (λ ts. (shunting_yard max_postfix 1024 ts).tokens)
        (where_loop-tokens (infix_of e) stop rest (record { tokens = []; raw = [] })
          (infix_of_goes_on e w) h (omega arith))
      ∙ shunting_yard-infix_of max_postfix 1024 e w (omega (arith, length-postfix_of e))

  -- The tokens from the next on are skipped.
  abbrev pub skip : (TokenType → Bool) → Toks F → Tok F × Toks F
  skip stop ts = let next = advance F ts in skip_until F stop next.0 next.1

  skip_until-stop :
      (stop : TokenType → Bool) (t : Tok F) (ts : Toks F)
      → (stop t.type || is_type t.type TokenType.end_of_input) ≡ true
      → skip_until F stop t ts ≡ (t, ts)
  unfolding skip_until
  skip_until-stop stop t [] h = rw h refl
  skip_until-stop stop t (u ∷ us) h = rw h refl

  skip_until-go :
      (stop : TokenType → Bool) (t : Tok F) (ts : Toks F)
      → (stop t.type || is_type t.type TokenType.end_of_input) ≡ false
      → skip_until F stop t ts ≡ skip stop ts
  unfolding skip_until advance is_type
  skip_until-go stop t [] h =
      rw h (sym (if_same (stop TokenType.end_of_input || true) (end_token F, [])))
  skip_until-go stop t (u ∷ us) h = rw h refl

  -- What is skipped ends at the first token that is looked for.
  pub skip-append :
      (stop : TokenType → Bool) (ts us : Toks F)
      → NoneStops (λ k. stop k || is_type k TokenType.end_of_input) ts
      → (stop (advance F us).0.type || is_type (advance F us).0.type TokenType.end_of_input) ≡ true
      → skip stop (ts ++ us) ≡ advance F us
  unfolding advance
  skip-append stop [] us n h = skip_until-stop stop (advance F us).0 (advance F us).1 h
  skip-append stop (t ∷ ts) us n h =
      skip_until-go stop t (ts ++ us) n.0 ∙ skip-append stop ts us n.1 h

  pub length-skip_until :
      (stop : TokenType → Bool) (t : Tok F) (ts : Toks F)
      → length (skip_until F stop t ts).1 ≤ length ts
  unfolding skip_until
  length-skip_until stop t [] = ground arith
  length-skip_until stop t (u ∷ us) =
      elim (Bool-cases (stop t.type || is_type t.type TokenType.end_of_input)) [
        | inl h ↦ rw h (omega arith)
        | inr h ↦ rw h (omega (arith, length-skip_until stop u us))
      ]
