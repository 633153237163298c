-- ===== src/Parser/Insert.antt =====
-- Parser.cpp: parseInsert on whole statements.
use apgitproj.Base.{
  ◌+◌, ◌≤◌, ◌<◌, ◌≡◌, refl, ap, ◌∙◌, sym, Bool, true, false, ◌||◌, List, [], ◌∷◌, ◌++◌, length,
  length-append, lt→ltb, Bool-cases, inl, inr, append_assoc, append-nil, if◌then◌else◌, Text,
  truncate, arith,
}
use apgitproj.Doubles.{Doubles}
use apgitproj.Token.{TokenType, is_type}
use apgitproj.Lexer.{Tok}
use apgitproj.Schema.{max_columns}
use apgitproj.Parser.{
  QueryType, Query, Toks, new_query, advance, add_column_name, add_value, list_loop, parse_values,
  parse_columns, parse_insert, parse_tokens,
}
use apgitproj.Parser.Clauses.{NoneStops}

-- What ends a list in parentheses.
abbrev pub ends_list : TokenType → Bool
ends_list t = is_type t TokenType.rparen || is_type t TokenType.end_of_input

-- The tests of the parser, at the types they ask for.
abbrev Accepts : TokenType → Type 0
Accepts k = (t : TokenType) → t ≡ k → is_type t k ≡ true

itself :
    Accepts TokenType.values
    × Accepts TokenType.lparen
    × Accepts TokenType.into
    × Accepts TokenType.identifier
unfolding is_type
itself = (λ t e. rw e refl, λ t e. rw e refl, λ t e. rw e refl, λ t e. rw e refl)

closes : (t : TokenType) → t ≡ TokenType.rparen → ends_list t ≡ true
unfolding is_type
closes t e = rw e refl

is_insert :
    (t : TokenType)
    → t ≡ TokenType.insert
    → (is_type t TokenType.select ≡ false) × (is_type t TokenType.insert ≡ true)
unfolding is_type
is_insert t e = rw e (refl, refl)

module _ (F : Doubles) where
  -- The names among the tokens of a list of columns, as stored.
  unfoldable pub names_of : Toks F → List Text
  names_of [] = []
  names_of (t ∷ ts) =
      let rest = names_of ts in
      if is_type t.type TokenType.identifier then truncate 64 t.lexeme ∷ rest else rest

  -- The texts of the values: of each token but the commas, as stored.
  unfoldable pub values_of : Toks F → List Text
  values_of [] = []
  values_of (t ∷ ts) =
      let rest = values_of ts in
      if is_type t.type TokenType.comma then rest else truncate 256 t.lexeme ∷ rest

  unfoldable pub add_each : (Tok F → Query F → Query F) → Toks F → Query F → Query F
  add_each add [] q = q
  add_each add (t ∷ ts) q = add_each add ts (add t q)

  list_loop-add_each :
      (add : Tok F → Query F → Query F) (ts : Toks F) (close : Tok F) (rest : Toks F) (q : Query F)
      → NoneStops ends_list ts
      → ends_list close.type ≡ true
      → list_loop F add (ts ++ close ∷ rest) q ≡ (rest, add_each add ts q)
  unfolding list_loop add_each
  list_loop-add_each add [] close rest q n h = rw h refl
  list_loop-add_each add (t ∷ ts) close rest q n h =
      rw (n.0) (list_loop-add_each add ts close rest (add t q) n.1 h)

  add_column_name-room :
      (t : Tok F) (q : Query F)
      → is_type t.type TokenType.identifier ≡ true
      → length q.insert_cols < max_columns
      → add_column_name F t q
        ≡ record q { insert_cols = q.insert_cols ++ truncate 64 t.lexeme ∷ [] }
  unfolding add_column_name
  add_column_name-room t q h k = rw (h, lt→ltb (length q.insert_cols) max_columns k) refl

  add_column_name-other :
      (t : Tok F) (q : Query F)
      → is_type t.type TokenType.identifier ≡ false
      → add_column_name F t q ≡ q
  unfolding add_column_name
  add_column_name-other t q h = rw h refl

  add_value-room :
      (t : Tok F) (q : Query F)
      → is_type t.type TokenType.comma ≡ false
      → length q.insert_vals < max_columns
      → add_value F t q ≡ record q { insert_vals = q.insert_vals ++ truncate 256 t.lexeme ∷ [] }
  unfolding add_value
  add_value-room t q h k = rw (h, lt→ltb (length q.insert_vals) max_columns k) refl

  add_value-comma :
      (t : Tok F) (q : Query F) → is_type t.type TokenType.comma ≡ true → add_value F t q ≡ q
  unfolding add_value
  add_value-comma t q h = rw h refl

  names_of-cons :
      (t : Tok F) (ts : Toks F) (b : Bool)
      → is_type t.type TokenType.identifier ≡ b
      → names_of (t ∷ ts) ≡ (if b then truncate 64 t.lexeme ∷ names_of ts else names_of ts)
  unfolding names_of
  names_of-cons t ts b h = rw h refl

  values_of-cons :
      (t : Tok F) (ts : Toks F) (b : Bool)
      → is_type t.type TokenType.comma ≡ b
      → values_of (t ∷ ts) ≡ (if b then values_of ts else truncate 256 t.lexeme ∷ values_of ts)
  unfolding values_of
  values_of-cons t ts b h = rw h refl

  -- With room for them, all the names are stored.
  add_each-names :
      (ts : Toks F) (q : Query F)
      → length q.insert_cols + length (names_of ts) ≤ max_columns
      → add_each (add_column_name F) ts q ≡ record q { insert_cols = q.insert_cols ++ names_of ts }
  unfolding add_each names_of
  add_each-names [] q h = ap (λ cs. record q { insert_cols = cs }) (sym (append-nil q.insert_cols))
  add_each-names (t ∷ ts) q h = elim (Bool-cases (is_type t.type TokenType.identifier)) [
    | inl e ↦
        let name = truncate 64 t.lexeme in
        let here = names_of-cons t ts true e in
        let q' : Query F = record q { insert_cols = q.insert_cols ++ name ∷ [] } in
        let size : length q'.insert_cols ≡ length q.insert_cols + 1 =
          length-append q.insert_cols (name ∷ []) in
        ap (add_each (add_column_name F) ts)
          (add_column_name-room t q e (omega (arith, ap length here)))
        ∙ add_each-names ts q' (omega (arith, ap length here))
        ∙ ap (λ cs. record q { insert_cols = cs })
            (append_assoc q.insert_cols (name ∷ []) (names_of ts)
              ∙ ap (λ cs. q.insert_cols ++ cs) (sym here))
    | inr e ↦
        let here = names_of-cons t ts false e in
        ap (add_each (add_column_name F) ts) (add_column_name-other t q e)
        ∙ add_each-names ts q (omega (arith, ap length here))
        ∙ ap (λ cs. record q { insert_cols = q.insert_cols ++ cs }) (sym here)
  ]

  -- With room for them, all the values are stored.
  add_each-values :
      (ts : Toks F) (q : Query F)
      → length q.insert_vals + length (values_of ts) ≤ max_columns
      → add_each (add_value F) ts q ≡ record q { insert_vals = q.insert_vals ++ values_of ts }
  unfolding add_each values_of
  add_each-values [] q h = ap (λ vs. record q { insert_vals = vs }) (sym (append-nil q.insert_vals))
  add_each-values (t ∷ ts) q h = elim (Bool-cases (is_type t.type TokenType.comma)) [
    | inr e ↦
        let val = truncate 256 t.lexeme in
        let here = values_of-cons t ts false e in
        let q' : Query F = record q { insert_vals = q.insert_vals ++ val ∷ [] } in
        let size : length q'.insert_vals ≡ length q.insert_vals + 1 =
          length-append q.insert_vals (val ∷ []) in
        ap (add_each (add_value F) ts) (add_value-room t q e (omega (arith, ap length here)))
        ∙ add_each-values ts q' (omega (arith, ap length here))
        ∙ ap (λ vs. record q { insert_vals = vs })
            (append_assoc q.insert_vals (val ∷ []) (values_of ts)
              ∙ ap (λ vs. q.insert_vals ++ vs) (sym here))
    | inl e ↦
        let here = values_of-cons t ts true e in
        ap (add_each (add_value F) ts) (add_value-comma t q e)
        ∙ add_each-values ts q (omega (arith, ap length here))
        ∙ ap (λ vs. record q { insert_vals = q.insert_vals ++ vs }) (sym here)
  ]

  -- INSERT INTO table (columns) VALUES (values).
  pub record Insert : Type 0 where
    pub insert : Tok F
    pub into : Tok F
    pub table : Tok F
    pub open_columns : Tok F
    pub columns : Toks F
    pub close_columns : Tok F
    pub values : Tok F
    pub open_values : Tok F
    pub vals : Toks F
    pub close_values : Tok F

  abbrev pub value_tokens : Insert → Toks F → Toks F
  value_tokens s after = s.values ∷ s.open_values ∷ (s.vals ++ s.close_values ∷ after)

  abbrev pub insert_tokens : Insert → Toks F → Toks F
  insert_tokens s after =
      s.insert
      ∷ s.into
      ∷ s.table
      ∷ s.open_columns
      ∷ (s.columns ++ s.close_columns ∷ value_tokens s after)

  -- The tokens stand where the grammar wants them, and the arrays have room.
  pub record InsertFits (s : Insert) : Type 0 where
    pub insert : s.insert.type ≡ TokenType.insert
    pub into : s.into.type ≡ TokenType.into
    pub table : s.table.type ≡ TokenType.identifier
    pub open_columns : s.open_columns.type ≡ TokenType.lparen
    pub columns : NoneStops ends_list s.columns
    pub close_columns : s.close_columns.type ≡ TokenType.rparen
    pub values : s.values.type ≡ TokenType.values
    pub open_values : s.open_values.type ≡ TokenType.lparen
    pub vals : NoneStops ends_list s.vals
    pub close_values : s.close_values.type ≡ TokenType.rparen
    pub few_columns : length (names_of s.columns) ≤ max_columns
    pub few_values : length (values_of s.vals) ≤ max_columns

  parse_values-lem :
      (values paren : Tok F) (vals : Toks F) (close : Tok F) (rest : Toks F) (q : Query F)
      → values.type ≡ TokenType.values
      → paren.type ≡ TokenType.lparen
      → close.type ≡ TokenType.rparen
      → NoneStops ends_list vals
      → q.insert_vals ≡ []
      → length (values_of vals) ≤ max_columns
      → parse_values F values (paren ∷ (vals ++ close ∷ rest)) q
        ≡ (true, record q { insert_vals = values_of vals })
  unfolding parse_values advance
  parse_values-lem values paren vals close rest q a b c n e h =
      rw (itself.0 values.type a, itself.1 paren.type b)
        (ap (λ (z : Toks F × Query F). (true, z.1))
            (list_loop-add_each (add_value F) vals close rest q n (closes close.type c))
          ∙ ap (λ (p : Query F). (true, p))
              (add_each-values vals q (omega (arith, ap length e))
                ∙ ap (λ vs. record q { insert_vals = vs ++ values_of vals }) e))

  -- An INSERT statement that follows the grammar, with at most 32 columns and values, is accepted;
  -- the table, the names and the texts of the values are stored in the order of the statement.
  pub parse_tokens-insert :
      (s : Insert) (after : Toks F)
      → InsertFits s
      → parse_tokens F (insert_tokens s after) ≡ (
        true,
        record (new_query F) {
          type = QueryType.insert_q;
          table_name = truncate 64 s.table.lexeme;
          insert_cols = names_of s.columns;
          insert_vals = values_of s.vals;
        },
      )
  unfolding parse_tokens parse_insert parse_columns advance new_query
  parse_tokens-insert s after v =
      let q : Query F = record (new_query F) {
        type = QueryType.insert_q;
        table_name = truncate 64 s.table.lexeme;
      } in
      let named : Query F = record q { insert_cols = names_of s.columns } in
      rw
        (
          (is_insert s.insert.type v.insert).0,
          (is_insert s.insert.type v.insert).1,
          itself.2 s.into.type v.into,
          itself.3 s.table.type v.table,
          itself.1 s.open_columns.type v.open_columns,
        )
        (ap (λ (z : Toks F × Query F). parse_values F (advance F z.0).0 (advance F z.0).1 z.1)
            (list_loop-add_each (add_column_name F) s.columns s.close_columns (value_tokens s after)
                q v.columns (closes s.close_columns.type v.close_columns)
              ∙ ap (λ (p : Query F). (value_tokens s after, p))
                  (add_each-names s.columns q (omega (arith, v.few_columns))))
          ∙ parse_values-lem s.values s.open_values s.vals s.close_values after named v.values
              v.open_values v.close_values v.vals refl v.few_values)
