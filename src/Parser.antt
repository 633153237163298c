-- ===== src/Parser.antt =====
-- src/parser/Parser.h and Parser.cpp: from tokens to queries. The state of the lexer is the list of
-- the tokens that nextToken is still to return (Lexer.Stream.tokens_of_next); past the end of the
-- input it returns the end again.
pub mod Clauses
pub mod Grammar
pub mod Joins
pub mod Statements
pub mod Fuel
pub mod Insert
pub mod Changes
use apgitproj.Base.{
  ℕ, zero, suc, ◌+◌, ◌-◌, Bool, true, false, ◌&&◌, ◌||◌, not, List, [], ◌∷◌, ◌++◌, length, ltb,
  if◌then◌else◌, Text, truncate, ℤ,
}
use apgitproj.Doubles.{Doubles}
use apgitproj.Token.{TokenType, Token, is_type}
use apgitproj.Lexer.{Tok, end_token}
use apgitproj.Lexer.Stream.{tokens_of}
use apgitproj.Schema.{max_columns}
use apgitproj.ShuntingYard.{Output, shunting_yard}

pub data QueryType : Type 0 where
  select_q insert_q update_q delete_q unknown_q : QueryType

abbrev pub max_join_tables : ℕ
max_join_tables = 8

abbrev pub max_postfix : ℕ
max_postfix = 256

-- The arrays hold their used part: `join_tables` is `joinTables[0 .. joinCount)`, `postfix` is
-- `postfix[0 .. postfixLen)`, and `insert_vals` are the values written.
pub record ParsedQuery (D : Type 0) : Type 0 where
  pub type : QueryType
  pub table_name : Text
  pub join_tables : List Text
  pub has_where : Bool
  pub where_raw : Text
  pub postfix : List (Token D)
  pub postfix_str : Text
  pub insert_cols : List Text
  pub insert_vals : List Text
  pub update_col : Text
  pub update_val : Text
  pub update_val_is_num : Bool
  pub update_num_val : D

-- `whereTokens[0 .. wcount)` and `rawBuf[0 .. rawLen)`.
pub record WhereBuf (D : Type 0) : Type 0 where
  pub tokens : List (Token D)
  pub raw : Text

-- What ends a WHERE clause, and, with the end of the input, the condition of a JOIN.
unfoldable pub ends_where : TokenType → Bool
ends_where t =
    is_type t TokenType.end_of_input || is_type t TokenType.semicolon || is_type t TokenType.order

unfoldable pub after_join : TokenType → Bool
after_join t =
    is_type t TokenType.join || is_type t TokenType.where_kw || is_type t TokenType.semicolon

module _ (F : Doubles) where
  abbrev pub Query : Type 0
  Query = ParsedQuery F.Double

  abbrev pub Toks : Type 0
  Toks = List (Tok F)

  unfoldable pub new_query : Query
  new_query = record {
    type = QueryType.unknown_q;
    table_name = [];
    join_tables = [];
    has_where = false;
    where_raw = [];
    postfix = [];
    postfix_str = [];
    insert_cols = [];
    insert_vals = [];
    update_col = [];
    update_val = [];
    update_val_is_num = false;
    update_num_val = F.zero_d;
  }

  -- `lex.nextToken()`.
  unfoldable pub advance : Toks → Tok F × Toks
  advance [] = (end_token F, [])
  advance (t ∷ ts) = (t, ts)

  -- `while (!stop(t)) t = lex.nextToken()`, with the end among the stops.
  unfoldable pub skip_until : (TokenType → Bool) → Tok F → Toks → Tok F × Toks
  skip_until stop t [] =
      if stop t.type || is_type t.type TokenType.end_of_input then (t, []) else (end_token F, [])
  skip_until stop t (u ∷ us) =
      let rest = skip_until stop u us in
      if stop t.type || is_type t.type TokenType.end_of_input then (t, u ∷ us) else rest

  -- The token is added, and its text if that fits into `rawBuf`.
  unfoldable pub where_step : WhereBuf F.Double → Tok F → WhereBuf F.Double
  where_step w t = record {
    tokens = if ltb (length w.tokens) max_postfix then w.tokens ++ t ∷ [] else w.tokens;
    raw =
        if ltb (length w.raw) 510
        then (if ltb (length w.raw + length t.lexeme + 1) 510
            then w.raw ++ t.lexeme ++ 32 ∷ []
            else w.raw)
        else w.raw;
  }

  unfoldable pub where_loop : Toks → WhereBuf F.Double → WhereBuf F.Double
  where_loop [] w = w
  where_loop (t ∷ ts) w =
      let rest = where_loop ts (where_step w t) in if ends_where t.type then w else rest

  unfoldable pub parse_where : Toks → Query → Bool × Query
  parse_where ts q =
      let w = where_loop ts (record { tokens = []; raw = [] }) in
      let out = shunting_yard max_postfix 1024 w.tokens in
      (
        true,
        record q {
          has_where = true;
          where_raw = truncate 512 w.raw;
          postfix = out.tokens;
          postfix_str = truncate 1024 out.text;
        },
      )

  -- `if (t.type == WHERE) return parseWhere(lex, q); return true;`
  unfoldable pub where_or_end : Tok F → Toks → Query → Bool × Query
  where_or_end t ts q = if is_type t.type TokenType.where_kw then parse_where ts q else (true, q)

  unfoldable pub add_join : Tok F → Query → Query
  add_join t q =
      if is_type t.type TokenType.identifier && ltb (length q.join_tables) max_join_tables
      then record q { join_tables = q.join_tables ++ truncate 64 t.lexeme ∷ [] }
      else q

  -- The loop over the JOINs. Each round takes a token, so as many rounds as tokens are enough.
  unfoldable pub join_loop : ℕ → Tok F → Toks → Query → Bool × Query
  join_loop zero t ts q = where_or_end t ts q
  join_loop (suc fuel) t ts q =
      let table = advance ts in
      let on = advance table.1 in
      let next = skip_until after_join on.0 on.1 in
      let rest = join_loop fuel next.0 next.1 (add_join table.0 q) in
      if is_type t.type TokenType.join then rest else where_or_end t ts q

  unfoldable pub parse_select : Toks → Query → Bool × Query
  parse_select ts q =
      let first = advance ts in
      let from = skip_until (λ t. is_type t TokenType.from) first.0 first.1 in
      let table = advance from.1 in
      let next = advance table.1 in
      if is_type from.0.type TokenType.end_of_input
      then (false, q)
      else if is_type table.0.type TokenType.identifier
      then join_loop (length table.1) next.0 next.1
          (record q { table_name = truncate 64 table.0.lexeme })
      else (false, q)

  unfoldable pub add_column_name : Tok F → Query → Query
  add_column_name t q =
      if is_type t.type TokenType.identifier && ltb (length q.insert_cols) max_columns
      then record q { insert_cols = q.insert_cols ++ truncate 64 t.lexeme ∷ [] }
      else q

  unfoldable pub add_value : Tok F → Query → Query
  add_value t q =
      if not (is_type t.type TokenType.comma) && ltb (length q.insert_vals) max_columns
      then record q { insert_vals = q.insert_vals ++ truncate 256 t.lexeme ∷ [] }
      else q

  -- Each token up to the closing parenthesis is added; with the tokens that follow.
  unfoldable pub list_loop : (Tok F → Query → Query) → Toks → Query → Toks × Query
  list_loop add [] q = ([], q)
  list_loop add (t ∷ ts) q =
      let rest = list_loop add ts (add t q) in
      if is_type t.type TokenType.rparen || is_type t.type TokenType.end_of_input
      then (ts, q)
      else rest

  -- From the token after the column names, or after the table.
  unfoldable pub parse_values : Tok F → Toks → Query → Bool × Query
  parse_values t ts q =
      let next = if is_type t.type TokenType.values then advance ts else (t, ts) in
      if is_type next.0.type TokenType.lparen
      then (true, (list_loop add_value next.1 q).1)
      else (true, q)

  unfoldable pub parse_columns : Tok F → Toks → Query → Bool × Query
  parse_columns t ts q =
      let columns = list_loop add_column_name ts q in
      let next = advance columns.0 in
      if is_type t.type TokenType.lparen
      then parse_values next.0 next.1 columns.1
      else parse_values t ts q

  unfoldable pub parse_insert : Toks → Query → Bool × Query
  parse_insert ts q =
      let into = advance ts in
      let table = advance into.1 in
      let next = advance table.1 in
      if not (is_type into.0.type TokenType.into)
      then (false, q)
      else if not (is_type table.0.type TokenType.identifier)
      then (false, q)
      else parse_columns next.0 next.1 (record q { table_name = truncate 64 table.0.lexeme })

  unfoldable pub set_value : Tok F → Query → Query
  set_value t q =
      let q' = record q { update_val = truncate 256 t.lexeme } in
      if is_type t.type TokenType.integer || is_type t.type TokenType.float_lit
      then record q' {
        update_val_is_num = true;
        update_num_val =
            if is_type t.type TokenType.float_lit then t.float_val else F.of_int t.int_val;
      }
      else q'

  unfoldable pub parse_update : Toks → Query → Bool × Query
  parse_update ts q =
      let table = advance ts in
      let set = advance table.1 in
      let col = advance set.1 in
      let assign = advance col.1 in
      let val = advance assign.1 in
      let next = advance val.1 in
      let q1 = record q { table_name = truncate 64 table.0.lexeme } in
      let q2 = record q1 { update_col = truncate 64 col.0.lexeme } in
      if not (is_type table.0.type TokenType.identifier)
      then (false, q)
      else if not (is_type set.0.type TokenType.set_kw)
      then (false, q1)
      else if not (is_type col.0.type TokenType.identifier)
      then (false, q1)
      else where_or_end next.0 next.1 (set_value val.0 q2)

  unfoldable pub parse_delete : Toks → Query → Bool × Query
  parse_delete ts q =
      let first = advance ts in
      let table = if is_type first.0.type TokenType.from then advance first.1 else first in
      let next = advance table.1 in
      if not (is_type table.0.type TokenType.identifier)
      then (false, q)
      else where_or_end next.0 next.1 (record q { table_name = truncate 64 table.0.lexeme })

  unfoldable pub parse_tokens : Toks → Bool × Query
  parse_tokens ts =
      let first = advance ts in
      if is_type first.0.type TokenType.select
      then parse_select first.1 (record new_query { type = QueryType.select_q })
      else if is_type first.0.type TokenType.insert
      then parse_insert first.1 (record new_query { type = QueryType.insert_q })
      else if is_type first.0.type TokenType.update
      then parse_update first.1 (record new_query { type = QueryType.update_q })
      else if is_type first.0.type TokenType.delete
      then parse_delete first.1 (record new_query { type = QueryType.delete_q })
      else (false, new_query)

  unfoldable pub parse : Text → Bool × Query
  parse sql = parse_tokens (tokens_of F sql)
