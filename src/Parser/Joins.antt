-- ===== src/Parser/Joins.antt =====
-- Parser.cpp: parseSelect after the table: the JOINs and the WHERE clause.
use apgitproj.Base.{
  ℕ, zero, suc, ◌+◌, ◌≤◌, ◌<◌, ◌≡◌, refl, ap, ap₂, ◌∙◌, sym, subst, true, false, ◌||◌, List, [],
  ◌∷◌, ◌++◌, length, length-append, lt→ltb, append_assoc, append-nil, truncate, arith, Option, none,
  some,
}
use apgitproj.Doubles.{Doubles}
use apgitproj.Token.{TokenType, is_type}
use apgitproj.Lexer.{Tok, end_token}
use apgitproj.ShuntingYard.Expr.{Expr}
use apgitproj.Parser.{
  Query, Toks, max_join_tables, advance, ends_where, parse_where, where_or_end, after_join,
  add_join, join_loop,
}
use apgitproj.Parser.Clauses.{parse_where-postfix, skip, skip-append}
use apgitproj.Parser.Grammar.{
  Join, clause_tokens, join_tokens, JoinsFit, ClauseFits, tables_of, tail_tokens, Parsed,
}

pub end_stops : ends_where TokenType.end_of_input ≡ true
unfolding ends_where is_type
end_stops = refl

pub select_itself : is_type TokenType.select TokenType.select ≡ true
unfolding is_type
select_itself = refl

pub from_stops :
    (t : TokenType)
    → t ≡ TokenType.from
    → ((is_type t TokenType.from || is_type t TokenType.end_of_input) ≡ true)
      × (is_type t TokenType.end_of_input ≡ false)
unfolding is_type
from_stops t h = rw h (refl, refl)

pub join_itself : is_type TokenType.join TokenType.join ≡ true
unfolding is_type
join_itself = refl

pub identifier_itself : is_type TokenType.identifier TokenType.identifier ≡ true
unfolding is_type
identifier_itself = refl

pub join_stops :
    (t : TokenType) → t ≡ TokenType.join → (after_join t || is_type t TokenType.end_of_input) ≡ true
unfolding after_join is_type
join_stops t h = rw h refl

module _ (F : Doubles) where
  pub where_or_end-Parsed :
      (clause : Option (Tok F × Expr F.Double)) (q : Query F)
      → ClauseFits F clause
      → q.has_where ≡ false
      → let next = advance F (tail_tokens F clause) in
        Parsed F q.table_name q.join_tables clause (where_or_end F next.0 next.1 q)
  unfolding where_or_end advance clause_tokens is_type parse_where
  where_or_end-Parsed none q c h = record { accepted = refl; name = refl; joins = refl; clause = h }
  where_or_end-Parsed (some (w, e)) q c h =
      let is_where : is_type w.type TokenType.where_kw ≡ true =
        ap (λ k. is_type k TokenType.where_kw) (c.0) in
      rw is_where (record {
        accepted = refl;
        name = refl;
        joins = refl;
        clause = (refl, parse_where-postfix F e (end_token F) [] q c.1 end_stops c.2);
      })

  -- After the JOINs comes a token that the search for one stops at, and that is none.
  pub tail_stops :
      (clause : Option (Tok F × Expr F.Double))
      → ClauseFits F clause
      → let t = (advance F (tail_tokens F clause)).0.type in
        ((after_join t || is_type t TokenType.end_of_input) ≡ true)
        × (is_type t TokenType.join ≡ false)
  unfolding advance clause_tokens after_join is_type
  tail_stops none c = (refl, refl)
  tail_stops (some (w, e)) c = rw (c.0) (refl, refl)

  pub joins_stop :
      (js : List (Join F)) (clause : Option (Tok F × Expr F.Double))
      → JoinsFit F js
      → ClauseFits F clause
      → let t = (advance F (join_tokens F js (tail_tokens F clause))).0.type in
        (after_join t || is_type t TokenType.end_of_input) ≡ true
  unfolding join_tokens advance
  joins_stop [] clause f c = (tail_stops clause c).0
  joins_stop (j ∷ js) clause f c = join_stops j.keyword.type f.0

  pub join_loop-last :
      (fuel : ℕ) (t : Tok F) (ts : Toks F) (q : Query F)
      → is_type t.type TokenType.join ≡ false
      → join_loop F fuel t ts q ≡ where_or_end F t ts q
  unfolding join_loop
  join_loop-last zero t ts q h = refl
  join_loop-last (suc fuel) t ts q h = rw h refl

  -- A round of the loop over the JOINs.
  pub join_loop-next :
      (fuel : ℕ) (t table : Tok F) (ts : Toks F) (q : Query F)
      → is_type t.type TokenType.join ≡ true
      → let next = skip F after_join ts in
        join_loop F (suc fuel) t (table ∷ ts) q
        ≡ join_loop F fuel next.0 next.1 (add_join F table q)
  unfolding join_loop advance
  join_loop-next fuel t table ts q h = rw h refl

  pub add_join-room :
      (t : Tok F) (q : Query F)
      → is_type t.type TokenType.identifier ≡ true
      → length q.join_tables < max_join_tables
      → add_join F t q ≡ record q { join_tables = q.join_tables ++ truncate 64 t.lexeme ∷ [] }
  unfolding add_join
  add_join-room t q h k = rw (h, lt→ltb (length q.join_tables) max_join_tables k) refl

  pub join_loop-Parsed :
      (js : List (Join F)) (fuel : ℕ) (clause : Option (Tok F × Expr F.Double)) (q : Query F)
      → JoinsFit F js
      → ClauseFits F clause
      → length js ≤ fuel
      → length q.join_tables + length js ≤ max_join_tables
      → q.has_where ≡ false
      → let next = advance F (join_tokens F js (tail_tokens F clause)) in
        Parsed F q.table_name
          (q.join_tables ++ tables_of F js)
          clause
          (join_loop F fuel next.0 next.1 q)
  unfolding join_tokens advance
  join_loop-Parsed [] fuel clause q f c k r h =
      let next = advance F (tail_tokens F clause) in
      subst (λ z. Parsed F q.table_name (q.join_tables ++ []) clause z)
        (sym (join_loop-last fuel next.0 next.1 q (tail_stops clause c).1))
        (subst (λ ts. Parsed F q.table_name ts clause (where_or_end F next.0 next.1 q))
          (sym (append-nil q.join_tables)) (where_or_end-Parsed clause q c h))
  join_loop-Parsed (j ∷ js) zero clause q f c k r h = absurd (omega arith)
  join_loop-Parsed (j ∷ js) (suc fuel) clause q f c k r h =
      let rest = join_tokens F js (tail_tokens F clause) in
      let name = truncate 64 j.table.lexeme in
      let q' : Query F = record q { join_tables = q.join_tables ++ name ∷ [] } in
      let size : length q'.join_tables ≡ length q.join_tables + 1 =
        length-append q.join_tables (name ∷ []) in
      let round : join_loop F (suc fuel) j.keyword (j.table ∷ (j.condition ++ rest)) q
          ≡ join_loop F fuel (advance F rest).0 (advance F rest).1 q' =
        join_loop-next fuel j.keyword j.table (j.condition ++ rest) q
          (ap (λ t. is_type t TokenType.join) f.0 ∙ join_itself)
        ∙ ap₂ (λ (z : Tok F × Toks F) p. join_loop F fuel z.0 z.1 p)
            (skip-append F after_join j.condition rest f.2 (joins_stop js clause f.3 c))
            (add_join-room j.table q
              (ap (λ t. is_type t TokenType.identifier) f.1 ∙ identifier_itself) (omega arith)) in
      subst (λ z. Parsed F q.table_name (q.join_tables ++ name ∷ tables_of F js) clause z)
        (sym round)
        (subst
          (λ ts.
            Parsed F q.table_name ts clause
              (join_loop F fuel (advance F rest).0 (advance F rest).1 q'))
          (append_assoc q.join_tables (name ∷ []) (tables_of F js))
          (join_loop-Parsed js fuel clause q' f.3 c (omega arith) (omega arith) h))

  pub length-join_tokens :
      (js : List (Join F)) (after : Toks F) → length js ≤ length (join_tokens F js after)
  unfolding join_tokens
  length-join_tokens [] after = omega arith
  length-join_tokens (j ∷ js) after =
      omega (arith, length-join_tokens js after, length-append j.condition (join_tokens F js after))
