-- ===== src/Parser/Changes.antt =====
-- Parser.cpp: parseDelete and parseUpdate on whole statements.
use apgitproj.Base.{
  ◌≡◌, refl, ◌∙◌, sym, Bool, true, false, Bool-cases, inl, inr, ◌||◌, [], ◌∷◌, truncate, Option,
}
use apgitproj.Doubles.{Doubles}
use apgitproj.Token.{TokenType, is_type}
use apgitproj.Lexer.{Tok}
use apgitproj.ShuntingYard.Expr.{Expr}
use apgitproj.Parser.{
  QueryType, Query, Toks, new_query, advance, where_or_end, parse_where, set_value, parse_update,
  parse_delete, parse_tokens,
}
use apgitproj.Parser.Grammar.{ClauseFits, tail_tokens, Parsed}
use apgitproj.Parser.Joins.{where_or_end-Parsed}

is_delete :
    (t : TokenType)
    → t ≡ TokenType.delete
    → (is_type t TokenType.select ≡ false)
      × (is_type t TokenType.insert ≡ false)
      × (is_type t TokenType.update ≡ false)
      × (is_type t TokenType.delete ≡ true)
unfolding is_type
is_delete t e = rw e (refl, refl, refl, refl)

is_update :
    (t : TokenType)
    → t ≡ TokenType.update
    → (is_type t TokenType.select ≡ false)
      × (is_type t TokenType.insert ≡ false)
      × (is_type t TokenType.update ≡ true)
unfolding is_type
is_update t e = rw e (refl, refl, refl)

is_name : (t : TokenType) → t ≡ TokenType.identifier → is_type t TokenType.identifier ≡ true
unfolding is_type
is_name t e = rw e refl

is_from : (t : TokenType) → t ≡ TokenType.from → is_type t TokenType.from ≡ true
unfolding is_type
is_from t e = rw e refl

is_set : (t : TokenType) → t ≡ TokenType.set_kw → is_type t TokenType.set_kw ≡ true
unfolding is_type
is_set t e = rw e refl

module _ (F : Doubles) where
  -- DELETE FROM table, with a WHERE clause of a well-formed expression of at most 256 tokens or
  -- none, is accepted, and the table and the clause in postfix form are stored.
  pub parse_tokens-delete :
      (delete from table : Tok F) (clause : Option (Tok F × Expr F.Double))
      → delete.type ≡ TokenType.delete
      → from.type ≡ TokenType.from
      → table.type ≡ TokenType.identifier
      → ClauseFits F clause
      → Parsed F
          (truncate 64 table.lexeme)
          []
          clause
          (parse_tokens F (delete ∷ from ∷ table ∷ tail_tokens F clause))
  unfolding parse_tokens parse_delete advance new_query
  parse_tokens-delete delete from table clause a b c w =
      let q : Query F = record (new_query F) {
        type = QueryType.delete_q;
        table_name = truncate 64 table.lexeme;
      } in
      let kind = is_delete delete.type a in
      rw (kind.0, kind.1, kind.2, kind.3, is_from from.type b, is_name table.type c)
        (where_or_end-Parsed F clause q w refl)

  -- What an UPDATE stores of the column and the value.
  pub record Assigned (col val : Tok F) (result : Bool × Query F) : Type 0 where
    pub column : result.1.update_col ≡ truncate 64 col.lexeme
    pub value : result.1.update_val ≡ truncate 256 val.lexeme
    pub is_num :
        result.1.update_val_is_num
        ≡ (is_type val.type TokenType.integer || is_type val.type TokenType.float_lit)

  set_value-Assigned :
      (col val : Tok F) (q : Query F)
      → q.update_col ≡ truncate 64 col.lexeme
      → q.update_val_is_num ≡ false
      → Assigned col val (true, set_value F val q)
  unfolding set_value
  set_value-Assigned col val q a b =
      elim (Bool-cases
        (is_type val.type TokenType.integer || is_type val.type TokenType.float_lit)) [
          | inl n ↦ rw n (record { column = a; value = refl; is_num = sym n })
          | inr n ↦ rw n (record { column = a; value = refl; is_num = b ∙ sym n })
        ]

  -- A WHERE clause leaves the assignment.
  where_or_end-Assigned :
      (col val t : Tok F) (ts : Toks F) (q : Query F)
      → Assigned col val (true, q)
      → Assigned col val (where_or_end F t ts q)
  unfolding where_or_end parse_where
  where_or_end-Assigned col val t ts q v = elim (Bool-cases (is_type t.type TokenType.where_kw)) [
    | inl w ↦ rw w (record { column = v.column; value = v.value; is_num = v.is_num })
    | inr w ↦ rw w v
  ]

  set_value-keeps :
      (val : Tok F) (q : Query F)
      → ((set_value F val q).table_name ≡ q.table_name)
        × ((set_value F val q).join_tables ≡ q.join_tables)
        × ((set_value F val q).has_where ≡ q.has_where)
  unfolding set_value
  set_value-keeps val q =
      elim (Bool-cases
        (is_type val.type TokenType.integer || is_type val.type TokenType.float_lit)) [
          | inl n ↦ rw n (refl, refl, refl)
          | inr n ↦ rw n (refl, refl, refl)
        ]

  -- UPDATE table SET column = value, whatever the token between column and value, with a WHERE
  -- clause of a well-formed expression of at most 256 tokens or none, is accepted; the table, the
  -- column, the text of the value, whether it is a number, and the clause in postfix form are stored.
  pub parse_tokens-update :
      (update table set col assign val : Tok F) (clause : Option (Tok F × Expr F.Double))
      → update.type ≡ TokenType.update
      → table.type ≡ TokenType.identifier
      → set.type ≡ TokenType.set_kw
      → col.type ≡ TokenType.identifier
      → ClauseFits F clause
      → let result =
          parse_tokens F (update ∷ table ∷ set ∷ col ∷ assign ∷ val ∷ tail_tokens F clause) in
        Parsed F (truncate 64 table.lexeme) [] clause result × Assigned col val result
  unfolding parse_tokens parse_update advance new_query
  parse_tokens-update update table set col assign val clause a b c d w =
      let q : Query F = record (new_query F) {
        type = QueryType.update_q;
        table_name = truncate 64 table.lexeme;
        update_col = truncate 64 col.lexeme;
      } in
      let kind = is_update update.type a in
      let next = advance F (tail_tokens F clause) in
      let keeps = set_value-keeps val q in
      let parsed = where_or_end-Parsed F clause (set_value F val q) w (keeps.2) in
      rw (kind.0, kind.1, kind.2, is_name table.type b, is_set set.type c, is_name col.type d)
        (
          record {
            accepted = parsed.accepted;
            name = parsed.name ∙ keeps.0;
            joins = parsed.joins ∙ keeps.1;
            clause = parsed.clause;
          },
          where_or_end-Assigned col val next.0 next.1 (set_value F val q)
              (set_value-Assigned col val q refl refl),
        )
