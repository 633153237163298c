-- ===== src/Parser/Fuel.antt =====
-- Parser.cpp: the loop over the JOINs comes to its end on any tokens.
use apgitproj.Base.{
  ℕ, suc, ◌+◌, ◌≤◌, ◌<◌, ◌≡◌, refl, ap, ◌∙◌, sym, true, false, ◌||◌, Bool-cases, inl, inr, [], ◌∷◌,
  length, arith,
}
use apgitproj.Doubles.{Doubles}
use apgitproj.Token.{TokenType, is_type}
use apgitproj.Lexer.{Tok, end_token}
use apgitproj.Parser.{
  Query, Toks, advance, skip_until, where_or_end, after_join, add_join, join_loop,
}
use apgitproj.Parser.Clauses.{if_same, skip, length-skip_until}
use apgitproj.Parser.Joins.{join_loop-last, join_loop-next}

end_is_no_join : is_type TokenType.end_of_input TokenType.join ≡ false
unfolding is_type
end_is_no_join = refl

module _ (F : Doubles) where
  length-advance : (ts : Toks F) → length (advance F ts).1 ≤ length ts
  unfolding advance
  length-advance [] = omega arith
  length-advance (t ∷ ts) = omega arith

  length-skip : (ts : Toks F) → length (skip F after_join ts).1 ≤ length ts
  length-skip ts =
      omega
        (arith, length-advance ts, length-skip_until F after_join (advance F ts).0 (advance F ts).1)

  -- After the end of the input the loop stops at once.
  skip-nil : skip F after_join [] ≡ (end_token F, [])
  unfolding advance skip_until
  skip-nil =
      if_same
        (after_join TokenType.end_of_input || is_type TokenType.end_of_input TokenType.end_of_input)
        (end_token F, [])

  join_loop-nil :
      (m : ℕ) (t : Tok F) (q : Query F)
      → is_type t.type TokenType.join ≡ true
      → join_loop F (suc m) t [] q ≡ where_or_end F (end_token F) [] (add_join F (end_token F) q)
  unfolding join_loop advance skip_until
  join_loop-nil m t q h = rw h (
      ap (λ (z : Tok F × Toks F). join_loop F m z.0 z.1 (add_join F (end_token F) q)) skip-nil
      ∙ join_loop-last F m (end_token F) [] (add_join F (end_token F) q) end_is_no_join)

  -- Once there is a round for each token, more rounds change nothing.
  join_loop_enough :
      (m n : ℕ) (t : Tok F) (ts : Toks F) (q : Query F)
      → length ts < m
      → length ts < n
      → join_loop F m t ts q ≡ join_loop F n t ts q
  join_loop_enough (suc m) (suc n) t [] q h k = elim (Bool-cases (is_type t.type TokenType.join)) [
    | inr e ↦ join_loop-last F (suc m) t [] q e ∙ sym (join_loop-last F (suc n) t [] q e)
    | inl e ↦ join_loop-nil m t q e ∙ sym (join_loop-nil n t q e)
  ]
  join_loop_enough (suc m) (suc n) t (u ∷ us) q h k =
      elim (Bool-cases (is_type t.type TokenType.join)) [
        | inr e ↦
            join_loop-last F (suc m) t (u ∷ us) q e ∙ sym (join_loop-last F (suc n) t (u ∷ us) q e)
        | inl e ↦
            let next = skip F after_join us in
            join_loop-next F m t u us q e
            ∙ join_loop_enough m n next.0 next.1 (add_join F u q) (omega (arith, length-skip us))
                (omega (arith, length-skip us))
            ∙ sym (join_loop-next F n t u us q e)
      ]
  join_loop_enough _ _ t ts q h k = absurd (omega arith)

  -- parseSelect gives the loop over the JOINs a round for each token after the table: whatever the
  -- tokens, any further rounds would change nothing.
  pub join_loop-advance :
      (ts : Toks F) (k : ℕ) (q : Query F)
      → let next = advance F ts in
        join_loop F (length ts) next.0 next.1 q ≡ join_loop F (length ts + k) next.0 next.1 q
  unfolding advance
  join_loop-advance [] k q =
      join_loop-last F 0 (end_token F) [] q end_is_no_join
      ∙ sym (join_loop-last F (0 + k) (end_token F) [] q end_is_no_join)
  join_loop-advance (t ∷ ts) k q =
      join_loop_enough (suc (length ts)) (suc (length ts) + k) t ts q (omega arith) (omega arith)
