-- ===== src/Parser/Grammar.antt =====
-- Parser.cpp: the SELECT statements of the grammar, as tokens, and what a query stores of one.
use apgitproj.Base.{
  ◌≤◌, ◌≡◌, refl, ap, ◌∙◌, Bool, true, false, ◌||◌, List, [], ◌∷◌, ◌++◌, length, append_assoc,
  append-nil, Text, truncate, Option, none, some,
}
use apgitproj.Doubles.{Doubles}
use apgitproj.Token.{TokenType, is_type}
use apgitproj.Lexer.{Tok, end_token}
use apgitproj.ShuntingYard.Expr.{Expr, infix_of, postfix_of, IsWellFormed}
use apgitproj.Parser.{Query, Toks, max_postfix, max_join_tables, after_join}
use apgitproj.Parser.Clauses.{NoneStops}

module _ (F : Doubles) where
  -- JOIN table ON condition.
  pub record Join : Type 0 where
    pub keyword : Tok F
    pub table : Tok F
    pub condition : Toks F

  -- SELECT columns FROM table joins, and a WHERE clause or none.
  pub record Select : Type 0 where
    pub select : Tok F
    pub columns : Toks F
    pub from : Tok F
    pub table : Tok F
    pub joins : List Join
    pub clause : Option (Tok F × Expr F.Double)

  -- The tokens of the parts, without the end of the input.
  unfoldable pub clause_tokens : Option (Tok F × Expr F.Double) → Toks F
  clause_tokens none = []
  clause_tokens (some (w, e)) = w ∷ infix_of e

  unfoldable pub join_tokens : List Join → Toks F → Toks F
  join_tokens [] after = after
  join_tokens (j ∷ js) after = j.keyword ∷ j.table ∷ (j.condition ++ join_tokens js after)

  unfoldable pub select_tokens : Select → Toks F → Toks F
  select_tokens s after =
      s.select
      ∷ (s.columns ++ s.from ∷ s.table ∷ join_tokens s.joins (clause_tokens s.clause ++ after))

  abbrev pub JoinsFit : List Join → Type 0
  JoinsFit [] = Unit
  JoinsFit (j ∷ js) =
      (j.keyword.type ≡ TokenType.join)
      × (j.table.type ≡ TokenType.identifier)
      × NoneStops (λ k. after_join k || is_type k TokenType.end_of_input) j.condition
      × JoinsFit js

  abbrev pub ClauseFits : Option (Tok F × Expr F.Double) → Type 0
  ClauseFits none = Unit
  ClauseFits (some (w, e)) =
      (w.type ≡ TokenType.where_kw) × IsWellFormed e × (length (infix_of e) ≤ max_postfix)

  -- The tokens stand where the grammar wants them.
  pub record SelectFits (s : Select) : Type 0 where
    pub select : s.select.type ≡ TokenType.select
    pub columns :
        NoneStops (λ k. is_type k TokenType.from || is_type k TokenType.end_of_input) s.columns
    pub from : s.from.type ≡ TokenType.from
    pub table : s.table.type ≡ TokenType.identifier
    pub joins : JoinsFit s.joins
    pub few_joins : length s.joins ≤ max_join_tables
    pub clause : ClauseFits s.clause

  -- The tables named, as stored.
  abbrev pub tables_of : List Join → List Text
  tables_of [] = []
  tables_of (j ∷ js) = truncate 64 j.table.lexeme ∷ tables_of js

  -- What a WHERE clause leaves in the query.
  abbrev pub ClauseStored : Option (Tok F × Expr F.Double) → Query F → Type 0
  ClauseStored none q = q.has_where ≡ false
  ClauseStored (some (w, e)) q = (q.has_where ≡ true) × (q.postfix ≡ postfix_of e)

  abbrev pub tail_tokens : Option (Tok F × Expr F.Double) → Toks F
  tail_tokens clause = clause_tokens clause ++ end_token F ∷ []

  -- A statement that was accepted, with what it stored.
  pub record Parsed (table : Text) (tables : List Text)
      (where_part : Option (Tok F × Expr F.Double)) (result : Bool × Query F) : Type 0 where
    pub accepted : result.0 ≡ true
    pub name : result.1.table_name ≡ table
    pub joins : result.1.join_tables ≡ tables
    pub clause : ClauseStored where_part result.1

  pub join_tokens-append :
      (js : List Join) (after rest : Toks F)
      → join_tokens js after ++ rest ≡ join_tokens js (after ++ rest)
  unfolding join_tokens
  join_tokens-append [] after rest = refl
  join_tokens-append (j ∷ js) after rest =
      ap (λ ts. j.keyword ∷ j.table ∷ ts)
        (append_assoc j.condition (join_tokens js after) rest
          ∙ ap (λ ts. j.condition ++ ts) (join_tokens-append js after rest))

  pub select_tokens-append :
      (s : Select) (rest : Toks F) → select_tokens s [] ++ rest ≡ select_tokens s rest
  unfolding select_tokens
  select_tokens-append s rest =
      let clause = clause_tokens s.clause in
      ap (λ ts. s.select ∷ ts)
        (append_assoc s.columns (s.from ∷ s.table ∷ join_tokens s.joins (clause ++ [])) rest
          ∙ ap (λ ts. s.columns ++ s.from ∷ s.table ∷ ts)
              (join_tokens-append s.joins (clause ++ []) rest
                ∙ ap (λ ts. join_tokens s.joins (ts ++ rest)) (append-nil clause)))
