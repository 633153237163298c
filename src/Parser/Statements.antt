-- ===== src/Parser/Statements.antt =====
-- Parser.cpp: parseSelect on whole statements.
use apgitproj.Base.{
  ◌≡◌, refl, ap, ap₂, ◌∙◌, sym, subst, Bool, true, false, ◌||◌, [], ◌∷◌, ◌++◌, length,
  if◌then◌else◌, truncate, arith, some,
}
use apgitproj.Doubles.{Doubles}
use apgitproj.Token.{TokenType, is_type}
use apgitproj.Lexer.{Tok, end_token}
use apgitproj.Lexer.Print.{print_all, AllPrintable, tokens_of-print_all}
use apgitproj.ShuntingYard.Expr.{Expr}
use apgitproj.Schema.{TableSchema}
use apgitproj.Row.{Row}
use apgitproj.Parser.{
  QueryType, Query, Toks, new_query, advance, join_loop, parse_select, parse_tokens, parse,
}
use apgitproj.Parser.Clauses.{NoneStops, skip-append}
use apgitproj.Eval.{truth, eval_where}
use apgitproj.Eval.Meaning.{meaning, eval_where-postfix_of}
use apgitproj.Parser.Grammar.{
  Select, join_tokens, select_tokens, ClauseFits, SelectFits, tables_of, ClauseStored, tail_tokens,
  Parsed, select_tokens-append,
}
use apgitproj.Parser.Joins.{
  select_itself, from_stops, identifier_itself, join_loop-Parsed, length-join_tokens,
}

module _ (F : Doubles) where
  -- parseSelect from the FROM on.
  abbrev from_on : Tok F × Toks F → Query F → Bool × Query F
  from_on from q =
      let table = advance F from.1 in
      let next = advance F table.1 in
      if is_type from.0.type TokenType.end_of_input
      then (false, q)
      else if is_type table.0.type TokenType.identifier
      then join_loop F (length table.1) next.0 next.1
          (record q { table_name = truncate 64 table.0.lexeme })
      else (false, q)

  parse_select-columns :
      (columns : Toks F) (from table : Tok F) (rest : Toks F) (q : Query F)
      → NoneStops (λ k. is_type k TokenType.from || is_type k TokenType.end_of_input) columns
      → from.type ≡ TokenType.from
      → table.type ≡ TokenType.identifier
      → parse_select F (columns ++ from ∷ table ∷ rest) q
        ≡ join_loop F
            (length rest)
            (advance F rest).0
            (advance F rest).1
            (record q { table_name = truncate 64 table.lexeme })
  unfolding parse_select advance
  parse_select-columns columns from table rest q n f t =
      ap (λ z. from_on z q)
        (skip-append F (λ k. is_type k TokenType.from) columns (from ∷ table ∷ rest) n
          (from_stops from.type f).0)
      ∙ rw
          (
            (from_stops from.type f).1,
            ap (λ k. is_type k TokenType.identifier) t ∙ identifier_itself,
          )
          refl

  -- The tokens of a SELECT statement that follows the grammar, with at most 8 JOINs and a WHERE
  -- clause, if any, of a well-formed expression of at most 256 tokens, are accepted; the table and
  -- the joined tables are stored, and the clause in postfix form.
  pub parse_tokens-select :
      (s : Select F)
      → SelectFits F s
      → Parsed F
          (truncate 64 s.table.lexeme)
          (tables_of F s.joins)
          s.clause
          (parse_tokens F (select_tokens F s (end_token F ∷ [])))
  unfolding parse_tokens advance select_tokens new_query
  parse_tokens-select s v =
      let q : Query F = record (new_query F) { type = QueryType.select_q } in
      let q' : Query F = record q { table_name = truncate 64 s.table.lexeme } in
      let rest = join_tokens F s.joins (tail_tokens F s.clause) in
      rw (ap (λ k. is_type k TokenType.select) v.select ∙ select_itself) (
        subst (Parsed F (truncate 64 s.table.lexeme) (tables_of F s.joins) s.clause)
          (sym (parse_select-columns s.columns s.from s.table rest q v.columns v.from v.table))
          (join_loop-Parsed F s.joins (length rest) s.clause q' v.joins v.clause
            (length-join_tokens F s.joins (tail_tokens F s.clause)) (omega (arith, v.few_joins))
            refl))

  -- From the text of a SELECT statement to the choice of a row. If the tokens follow the grammar,
  -- with at most 8 JOINs and a WHERE clause of a well-formed expression of at most 256 tokens, and
  -- are printed with a blank behind each, then the text is accepted, the tables it names are
  -- stored, and evalWhere on the stored query and any row decides by the meaning of the expression.
  pub parse-meaning :
      (s : Select F) (w : Tok F) (e : Expr F.Double) (row : Row F.Double) (schema : TableSchema)
      → SelectFits F s
      → s.clause ≡ some (w, e)
      → AllPrintable F (select_tokens F s [])
      → let result = parse F (print_all F (select_tokens F s [])) in
        (result.0 ≡ true)
        × (result.1.table_name ≡ truncate 64 s.table.lexeme)
        × (result.1.join_tables ≡ tables_of F s.joins)
        × (eval_where F result.1.has_where result.1.postfix row schema
            ≡ truth F (meaning F schema row e))
  unfolding parse
  parse-meaning s w e row schema v c p =
      let same : parse F (print_all F (select_tokens F s []))
          ≡ parse_tokens F (select_tokens F s (end_token F ∷ [])) =
        ap (parse_tokens F) (
          tokens_of-print_all F (select_tokens F s []) p
          ∙ select_tokens-append F s (end_token F ∷ [])) in
      let result = parse F (print_all F (select_tokens F s [])) in
      let parsed : Parsed F (truncate 64 s.table.lexeme) (tables_of F s.joins) s.clause result =
        subst (Parsed F (truncate 64 s.table.lexeme) (tables_of F s.joins) s.clause) (sym same)
          (parse_tokens-select s v) in
      let stored = subst (λ k. ClauseStored F k result.1) c parsed.clause in
      let fits = subst (ClauseFits F) c v.clause in
      (
        parsed.accepted,
        parsed.name,
        parsed.joins,
        ap₂ (λ b ts. eval_where F b ts row schema) stored.0 stored.1
            ∙ eval_where-postfix_of F schema row e fits.1,
      )
