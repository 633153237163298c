-- ===== src/ShuntingYard/Correct.antt =====
-- shuntingYard: on a well-formed expression the output is its postfix form.
use apgitproj.Base.{
  ℕ, ◌+◌, ◌≤◌, ◌<◌, ◌≡◌, refl, ap, ap₂, sym, subst, ◌≡⟨◌⟩◌, ◌∎, ◌∙◌, true, false, List, [], ◌∷◌,
  ◌++◌, length, length-append, append_assoc, append-nil, arith, lt→ltb,
}
use apgitproj.Token.{TokenType, Token, is_type, is_operand, is_operator, precedence}
use apgitproj.ShuntingYard.{
  Output, Yard, push_out, pop_operators, discard_top, yard_step, yard_loop, flush, shunting_yard,
}
use apgitproj.ShuntingYard.Expr.{
  Expr, operand, binary, group, infix_of, postfix_of, level, IsWellFormed, pending, emitted,
  emitted-append-pending,
}
use apgitproj.ShuntingYard.Pops.{
  operator-precedence_pos, goes_first_no, AllOps, AllOps-le, AllOps-append, push_all,
  push_all-append, flush_lem, pop_operators-append, pop_to_paren-append, yard_step_operand,
  yard_step_lparen, yard_step_rparen, yard_step_operator,
}

module _ {D : Type 0} where
  -- How tightly the operator on top of the stack binds; 0 for none and for a parenthesis.
  abbrev top_level : List (Token D) → ℕ
  top_level [] = 0
  top_level (t ∷ ops) = precedence t.type

  top_level_paren :
      (lp : Token D) (ops : List (Token D)) → lp.type ≡ TokenType.lparen → top_level (lp ∷ ops) ≡ 0
  unfolding precedence
  top_level_paren lp ops h = ap precedence h

  level_pos : (e : Expr D) → IsWellFormed e → 0 < level e
  level_pos (operand t) w = omega arith
  level_pos (binary op l r) w = operator-precedence_pos op.type w.0
  level_pos (group lp rp e) w = omega arith

  AllOps-pending : (e : Expr D) → IsWellFormed e → AllOps (level e) (pending e)
  unfolding pending
  AllOps-pending (operand t) w = tt
  AllOps-pending (binary op l r) w =
      AllOps-append (precedence op.type) (pending r) (op ∷ [])
        (AllOps-le (level r) (precedence op.type) (pending r) (omega (arith, w.2))
          (AllOps-pending r w.4))
        (w.0, omega arith, tt)
  AllOps-pending (group lp rp e) w = tt

module _ {D : Type 0} (max_postfix str_max_len : ℕ) where
  abbrev loop : List (Token D) → Yard D → Yard D
  loop = yard_loop max_postfix str_max_len

  abbrev emit : Output D → List (Token D) → Output D
  emit = push_all max_postfix str_max_len

  -- Operators that bind less tightly stay on the stack.
  pop_operators_stop :
      (tok : TokenType) (ops : List (Token D)) (o : Output D)
      → is_operator tok ≡ true
      → top_level ops < precedence tok
      → pop_operators max_postfix str_max_len tok ops o ≡ record { ops = ops; out = o }
  unfolding pop_operators
  pop_operators_stop tok [] o h p = refl
  pop_operators_stop tok (t ∷ ops) o h p = rw (goes_first_no tok t.type h p)

  -- A round at an operator: those pending that bind as tightly go out, and it is pushed.
  step-operator :
      (op : Token D) (n : ℕ) (ts ops : List (Token D)) (o : Output D)
      → is_operator op.type ≡ true
      → AllOps n ts
      → precedence op.type ≤ n
      → top_level ops < precedence op.type
      → yard_step max_postfix str_max_len (record { ops = ts ++ ops; out = o }) op
        ≡ record { ops = op ∷ ops; out = emit o ts }
  step-operator op n ts ops o h a p q =
      yard_step_operator max_postfix str_max_len (record { ops = ts ++ ops; out = o }) op h
      ∙ ap (λ (z : Yard D). record { ops = op ∷ z.ops; out = z.out })
          (pop_operators-append max_postfix str_max_len op.type n ts ops o h p a
            ∙ pop_operators_stop op.type ops (emit o ts) h q)

  -- A round at a closing parenthesis: what is pending goes out, and the parentheses are dropped.
  step-rparen :
      (lp rp : Token D) (n : ℕ) (ts ops : List (Token D)) (o : Output D)
      → lp.type ≡ TokenType.lparen
      → rp.type ≡ TokenType.rparen
      → AllOps n ts
      → yard_step max_postfix str_max_len (record { ops = ts ++ lp ∷ ops; out = o }) rp
        ≡ record { ops = ops; out = emit o ts }
  unfolding discard_top
  step-rparen lp rp n ts ops o h k a =
      yard_step_rparen max_postfix str_max_len (record { ops = ts ++ lp ∷ ops; out = o }) rp k
      ∙ ap discard_top (pop_to_paren-append max_postfix str_max_len n ts lp ops o h a)

  emit_all :
      (o : Output D) (e : Expr D) → emit (emit o (emitted e)) (pending e) ≡ emit o (postfix_of e)
  emit_all o e =
      sym (push_all-append max_postfix str_max_len o (emitted e) (pending e))
      ∙ ap (emit o) (emitted-append-pending e)

  emit_three :
      (o : Output D) (l r : Expr D)
      → emit o (emitted l ++ pending l ++ emitted r)
        ≡ emit (emit (emit o (emitted l)) (pending l)) (emitted r)
  emit_three o l r =
      push_all-append max_postfix str_max_len o (emitted l ++ pending l) (emitted r)
      ∙ ap (λ z. emit z (emitted r))
          (push_all-append max_postfix str_max_len o (emitted l) (pending l))

  -- The loop over the tokens of an expression, under operators that bind less tightly.
  yard_loop-infix_of :
      (e : Expr D) (rest ops : List (Token D)) (o : Output D)
      → IsWellFormed e
      → top_level ops < level e
      → loop (infix_of e ++ rest) (record { ops = ops; out = o })
        ≡ loop rest (record { ops = pending e ++ ops; out = emit o (emitted e) })
  unfolding infix_of pending emitted yard_loop
  yard_loop-infix_of (operand t) rest ops o w p =
      ap (loop rest) (yard_step_operand max_postfix str_max_len (record { ops = ops; out = o }) t w)
  yard_loop-infix_of (binary op l r) rest ops o (h, p, q, wl, wr) t =
      let after_l = emit o (emitted l) in
      let after_op = emit after_l (pending l) in
      loop ((infix_of l ++ op ∷ infix_of r) ++ rest) (record { ops = ops; out = o })
      ≡⟨ ap (λ ts. loop ts (record { ops = ops; out = o }))
          (append_assoc (infix_of l) (op ∷ infix_of r) rest) ⟩
        loop (infix_of l ++ op ∷ (infix_of r ++ rest)) (record { ops = ops; out = o })
      ≡⟨ yard_loop-infix_of l (op ∷ (infix_of r ++ rest)) ops o wl (omega arith) ⟩
        loop (op ∷ (infix_of r ++ rest)) (record { ops = pending l ++ ops; out = after_l })
      ≡⟨ ap (loop (infix_of r ++ rest))
          (step-operator op (level l) (pending l) ops after_l h (AllOps-pending l wl) p t) ⟩
        loop (infix_of r ++ rest) (record { ops = op ∷ ops; out = after_op })
      ≡⟨ yard_loop-infix_of r rest (op ∷ ops) after_op wr q ⟩
        loop rest (record { ops = pending r ++ op ∷ ops; out = emit after_op (emitted r) })
      ≡⟨ ap₂ (λ ts z. loop rest (record { ops = ts; out = z }))
          (sym (append_assoc (pending r) (op ∷ []) ops)) (sym (emit_three o l r)) ⟩
        loop rest
          (record {
            ops = (pending r ++ op ∷ []) ++ ops;
            out = emit o (emitted l ++ pending l ++ emitted r);
          }) ∎
  yard_loop-infix_of (group lp rp e) rest ops o (h, k, w) t =
      loop (lp ∷ ((infix_of e ++ rp ∷ []) ++ rest)) (record { ops = ops; out = o })
      ≡⟨ ap₂ loop (append_assoc (infix_of e) (rp ∷ []) rest)
          (yard_step_lparen max_postfix str_max_len (record { ops = ops; out = o }) lp h) ⟩
        loop (infix_of e ++ rp ∷ rest) (record { ops = lp ∷ ops; out = o })
      ≡⟨ yard_loop-infix_of e (rp ∷ rest) (lp ∷ ops) o w
          (subst (λ n. n < level e) (sym (top_level_paren lp ops h)) (level_pos e w)) ⟩
        loop (rp ∷ rest) (record { ops = pending e ++ lp ∷ ops; out = emit o (emitted e) })
      ≡⟨ ap (loop rest) (
          step-rparen lp rp (level e) (pending e) ops (emit o (emitted e)) h k
            (AllOps-pending e w)) ⟩
        loop rest (record { ops = ops; out = emit (emit o (emitted e)) (pending e) })
      ≡⟨ ap (λ z. loop rest (record { ops = ops; out = z })) (emit_all o e) ⟩
        loop rest (record { ops = ops; out = emit o (postfix_of e) }) ∎

  push_out-tokens :
      (o : Output D) (t : Token D)
      → length o.tokens < max_postfix
      → (push_out max_postfix str_max_len o t).tokens ≡ o.tokens ++ t ∷ []
  unfolding push_out
  push_out-tokens o t h = rw (lt→ltb (length o.tokens) max_postfix h)

  -- Without overflow of `postfix`, what is written is appended.
  emit-tokens :
      (o : Output D) (ts : List (Token D))
      → length o.tokens + length ts ≤ max_postfix
      → (emit o ts).tokens ≡ o.tokens ++ ts
  emit-tokens o [] h = sym (append-nil o.tokens)
  emit-tokens o (t ∷ ts) h =
      let o' = push_out max_postfix str_max_len o t in
      let written : o'.tokens ≡ o.tokens ++ t ∷ [] = push_out-tokens o t (omega arith) in
      let size : length o'.tokens ≡ length o.tokens + 1 =
        ap length written ∙ length-append o.tokens (t ∷ []) in
      emit-tokens o' ts (omega arith)
      ∙ ap (λ us. us ++ ts) written
      ∙ append_assoc o.tokens (t ∷ []) ts

  abbrev start : Output D
  start = record { tokens = []; text = [] }

  -- The shunting yard turns the infix tokens of a well-formed expression into its postfix form, if
  -- that fits into the array.
  pub shunting_yard-infix_of :
      (e : Expr D)
      → IsWellFormed e
      → length (postfix_of e) ≤ max_postfix
      → (shunting_yard max_postfix str_max_len (infix_of e)).tokens ≡ postfix_of e
  unfolding shunting_yard yard_loop
  shunting_yard-infix_of e w h =
      ap (λ (y : Yard D). (flush max_postfix str_max_len y.ops y.out).tokens)
        (ap (λ ts. loop ts (record { ops = []; out = start })) (sym (append-nil (infix_of e)))
          ∙ yard_loop-infix_of e [] [] start w (level_pos e w))
      ∙ ap (λ (o : Output D). o.tokens)
          (flush_lem max_postfix str_max_len (pending e ++ []) (emit start (emitted e))
            ∙ ap (emit (emit start (emitted e))) (append-nil (pending e))
            ∙ emit_all start e)
      ∙ emit-tokens start (postfix_of e) (omega arith)

  -- A token that is no operand, parenthesis or operator, such as NOT, leaves no trace.
  yard_step-skip :
      (y : Yard D) (t : Token D)
      → is_operand t.type ≡ false
      → is_type t.type TokenType.lparen ≡ false
      → is_type t.type TokenType.rparen ≡ false
      → is_operator t.type ≡ false
      → yard_step max_postfix str_max_len y t ≡ y
  unfolding yard_step
  yard_step-skip y t a b c d = rw (a, b, c, d)

  yard_loop-skip :
      (t : Token D) (ts us : List (Token D)) (y : Yard D)
      → ((z : Yard D) → yard_step max_postfix str_max_len z t ≡ z)
      → loop (ts ++ t ∷ us) y ≡ loop (ts ++ us) y
  unfolding yard_loop
  yard_loop-skip t [] us y h = ap (loop us) (h y)
  yard_loop-skip t (u ∷ ts) us y h =
      yard_loop-skip t ts us (yard_step max_postfix str_max_len y u) h

  -- NOT is dropped: a clause with NOT has the postfix form of the clause without it.
  pub shunting_yard-not :
      (t : Token D) (ts us : List (Token D))
      → t.type ≡ TokenType.not_kw
      → shunting_yard max_postfix str_max_len (ts ++ t ∷ us)
        ≡ shunting_yard max_postfix str_max_len (ts ++ us)
  unfolding shunting_yard is_type is_operand is_operator
  shunting_yard-not t ts us h =
      ap (λ (y : Yard D). flush max_postfix str_max_len y.ops y.out)
        (yard_loop-skip t ts us (record { ops = []; out = start })
          (λ z.
            yard_step-skip z t (ap is_operand h) (ap (λ k. is_type k TokenType.lparen) h)
              (ap (λ k. is_type k TokenType.rparen) h) (ap is_operator h)))
