-- ===== src/Tests/Changes.antt =====
-- INSERT INTO people (id, name) VALUES (5, ann), DELETE FROM people WHERE id < 5, and
-- UPDATE people SET id = 5.
use apgitproj.Base.{◌≡◌, refl, true, [], ◌∷◌, ℤ, pos, Text, codes, truncate, Option, some, arith}
use apgitproj.Token.{TokenType, is_type, is_operand, is_operator, precedence}
use apgitproj.Lexer.{Tok, end_token}
use apgitproj.ShuntingYard.Expr.{Expr, operand, binary, infix_of}
use apgitproj.Parser.{QueryType, new_query, parse_tokens}
use apgitproj.Parser.Grammar.{ClauseFits, tail_tokens, Parsed}
use apgitproj.Parser.Insert.{
  Insert, InsertFits, insert_tokens, names_of, values_of, parse_tokens-insert,
}
use apgitproj.Parser.Changes.{Assigned, parse_tokens-update}
use apgitproj.Tests.{wholes}

abbrev tok : TokenType → Text → Tok wholes
tok t lex = record { type = t; lexeme = lex; int_val = pos 5; float_val = pos 0 }

abbrev id : Tok wholes
id = tok TokenType.identifier (codes "id")

abbrev comma : Tok wholes
comma = tok TokenType.comma (codes ",")

abbrev five : Tok wholes
five = tok TokenType.integer (codes "5")

abbrev people : Tok wholes
people = tok TokenType.identifier (codes "people")

abbrev statement : Insert wholes
statement = record {
  insert = tok TokenType.insert (codes "INSERT");
  into = tok TokenType.into (codes "INTO");
  table = people;
  open_columns = tok TokenType.lparen (codes "(");
  columns = id ∷ comma ∷ tok TokenType.identifier (codes "name") ∷ [];
  close_columns = tok TokenType.rparen (codes ")");
  values = tok TokenType.values (codes "VALUES");
  open_values = tok TokenType.lparen (codes "(");
  vals = five ∷ comma ∷ tok TokenType.string_lit (codes "ann") ∷ [];
  close_values = tok TokenType.rparen (codes ")");
}

statement_fits : InsertFits wholes statement
unfolding is_type names_of values_of
statement_fits = record {
  insert = refl;
  into = refl;
  table = refl;
  open_columns = refl;
  columns = (refl, (refl, (refl, tt)));
  close_columns = refl;
  values = refl;
  open_values = refl;
  vals = (refl, (refl, (refl, tt)));
  close_values = refl;
  few_columns = omega arith;
  few_values = omega arith;
}

parse_tokens-insert_example :
    parse_tokens wholes (insert_tokens wholes statement (end_token wholes ∷ [])) ≡ (
      true,
      record (new_query wholes) {
        type = QueryType.insert_q;
        table_name = truncate 64 (codes "people");
        insert_cols = names_of wholes statement.columns;
        insert_vals = values_of wholes statement.vals;
      },
    )
parse_tokens-insert_example =
    parse_tokens-insert wholes statement (end_token wholes ∷ []) statement_fits

abbrev clause : Option (Tok wholes × Expr ℤ)
clause = some (
  tok TokenType.where_kw (codes "WHERE"),
  binary (tok TokenType.lt (codes "<")) (operand id) (operand five),
)

clause_fits : ClauseFits wholes clause
unfolding is_operand is_operator is_type precedence infix_of
clause_fits = (refl, (refl, omega arith, omega arith, refl, refl), omega arith)

parse_tokens-update_example :
    let result = parse_tokens wholes (
      tok TokenType.update (codes "UPDATE")
      ∷ people
      ∷ tok TokenType.set_kw (codes "SET")
      ∷ id
      ∷ tok TokenType.assign (codes "=")
      ∷ five
      ∷ tail_tokens wholes clause) in
    Parsed wholes (truncate 64 (codes "people")) [] clause result × Assigned wholes id five result
parse_tokens-update_example =
    parse_tokens-update wholes (tok TokenType.update (codes "UPDATE")) people
      (tok TokenType.set_kw (codes "SET")) id (tok TokenType.assign (codes "=")) five clause refl
      refl refl refl clause_fits
