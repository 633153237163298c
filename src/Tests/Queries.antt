-- ===== src/Tests/Queries.antt =====
-- Queries: SELECT id FROM people JOIN orders ON id WHERE id < 5, from its text to its meaning.
use apgitproj.Base.{
  ◌+◌, ℕ, ◌≤◌, ◌≡◌, refl, true, [], ◌∷◌, ◌++◌, map, ℤ, pos, length, Text, codes, str_eq, truncate,
  none, some, arith, if◌then◌else◌,
}
use apgitproj.Token.{TokenType, token, is_type, is_operand, is_operator, precedence}
use apgitproj.Lexer.{
  Tok, is_digit, is_alpha, in_number, in_word, starts_word, match_keyword, keywords, to_upper,
  has_point, atoi, next_token,
}
use apgitproj.Lexer.Stream.{tokens_of, tokens_of_next}
use apgitproj.Lexer.Print.{
  Printable, word_token, integer_token, symbol_token, AllPrintable, done, more, print_all,
}
use apgitproj.ShuntingYard.{shunting_yard}
use apgitproj.ShuntingYard.Expr.{Expr, operand, binary, infix_of, postfix_of, IsWellFormed}
use apgitproj.ShuntingYard.Correct.{shunting_yard-infix_of, shunting_yard-not}
use apgitproj.Row.{Row, int_field}
use apgitproj.Eval.{truth, eval_where}
use apgitproj.Eval.Meaning.{meaning, eval_where-meaning}
use apgitproj.Parser.{advance, join_loop, parse, new_query, after_join}
use apgitproj.Parser.Grammar.{
  Select, SelectFits, select_tokens, join_tokens, clause_tokens, tables_of,
}
use apgitproj.Parser.Fuel.{join_loop-advance}
use apgitproj.Parser.Statements.{parse-meaning}
use apgitproj.Tests.{wholes}
use apgitproj.Tests.Storage.{people}

-- A name or a keyword, by its first character and the others.
abbrev word : ℕ → Text → Tok wholes
word c w = token (pos 0) (match_keyword keywords (map to_upper (c ∷ w))) (c ∷ w)

abbrev id : Tok wholes
id = word 105 (codes "d")

abbrev five : Tok wholes
five = record (token (pos 0) TokenType.integer (codes "5")) { int_val = atoi (codes "5") }

abbrev less : Tok wholes
less = token (pos 0) TokenType.lt (codes "<")

-- id < 5
abbrev young : Expr ℤ
young = binary less (operand id) (operand five)

young-IsWellFormed : IsWellFormed young
unfolding is_operand is_operator is_type precedence token match_keyword str_eq to_upper
young-IsWellFormed = (refl, omega arith, omega arith, refl, refl)

young_size : length (infix_of young) ≤ 256
unfolding infix_of
young_size = omega arith

young_postfix_size : length (postfix_of young) ≤ 256
unfolding postfix_of
young_postfix_size = omega arith

abbrev statement : Select wholes
statement = record {
  select = word 83 (codes "ELECT");
  columns = id ∷ [];
  from = word 70 (codes "ROM");
  table = word 112 (codes "eople");
  joins =
      record {
        keyword = word 74 (codes "OIN");
        table = word 111 (codes "rders");
        condition = word 79 (codes "N") ∷ id ∷ [];
      }
      ∷ [];
  clause = some (word 87 (codes "HERE"), young);
}

statement_fits : SelectFits wholes statement
unfolding is_type token match_keyword str_eq to_upper after_join
statement_fits = record {
  select = refl;
  columns = (refl, tt);
  from = refl;
  table = refl;
  joins = (refl, refl, (refl, (refl, tt)), tt);
  few_joins = omega arith;
  clause = (refl, young-IsWellFormed, young_size);
}

shunting_yard-infix_of_example : (shunting_yard 256 1024 (infix_of young)).tokens ≡ postfix_of young
shunting_yard-infix_of_example =
    shunting_yard-infix_of 256 1024 young young-IsWellFormed young_postfix_size

abbrev denied : Tok wholes
denied = token (pos 0) TokenType.not_kw (codes "NOT")

denied_type : denied.type ≡ TokenType.not_kw
unfolding token
denied_type = refl

shunting_yard-not_example :
    shunting_yard 256 1024 ([] ++ denied ∷ id ∷ []) ≡ shunting_yard 256 1024 ([] ++ id ∷ [])
shunting_yard-not_example = shunting_yard-not 256 1024 denied [] (id ∷ []) denied_type

abbrev row : Row ℤ
row = some (int_field (pos 3)) ∷ none ∷ none ∷ []

eval_where-meaning_example :
    eval_where wholes true (shunting_yard 256 1024 (infix_of young)).tokens row people
    ≡ truth wholes (meaning wholes people row young)
eval_where-meaning_example =
    eval_where-meaning wholes people row 256 1024 young young-IsWellFormed young_postfix_size

-- The parts of the text.
id_print : Printable wholes id
unfolding starts_word is_alpha in_word is_digit
id_print = word_token 105 (codes "d") refl (refl, tt) (omega arith)

five_print : Printable wholes five
unfolding is_digit in_number has_point
five_print = integer_token 53 [] refl tt refl (omega arith)

statement_print : AllPrintable wholes (select_tokens wholes statement [])
unfolding select_tokens join_tokens clause_tokens infix_of starts_word is_alpha in_word in_number
    is_digit has_point
statement_print =
    (more _ _
      (word_token 83 (codes "ELECT") refl (refl, (refl, (refl, (refl, (refl, tt))))) (omega arith))
      (more _ _ id_print (
        more _ _ (word_token 70 (codes "ROM") refl (refl, (refl, (refl, tt))) (omega arith)) (
          more _ _
            (word_token 112 (codes "eople") refl (refl, (refl, (refl, (refl, (refl, tt)))))
              (omega arith))
            (more _ _ (word_token 74 (codes "OIN") refl (refl, (refl, (refl, tt))) (omega arith)) (
              more _ _
                (word_token 111 (codes "rders") refl (refl, (refl, (refl, (refl, (refl, tt)))))
                  (omega arith))
                (more _ _ (word_token 79 (codes "N") refl (refl, tt) (omega arith)) (
                  more _ _ id_print (
                    more _ _
                      (word_token 87 (codes "HERE") refl (refl, (refl, (refl, (refl, tt))))
                        (omega arith))
                      (more _ _ id_print (
                        more _ _ (symbol_token TokenType.lt (omega arith))
                          (more _ _ five_print done))))))))))))

parse-meaning_example :
    let result = parse wholes (print_all wholes (select_tokens wholes statement [])) in
    (result.0 ≡ true)
    × (result.1.table_name ≡ truncate 64 statement.table.lexeme)
    × (result.1.join_tables ≡ tables_of wholes statement.joins)
    × (eval_where wholes result.1.has_where result.1.postfix row people
        ≡ truth wholes (meaning wholes people row young))
parse-meaning_example =
    parse-meaning wholes statement (word 87 (codes "HERE")) young row people statement_fits refl
      statement_print

-- The text "<x".
tokens_of_next_example : tokens_of wholes (codes "<x") ≡ (
    if is_type (next_token wholes (codes "<x")).0.type TokenType.end_of_input
    then (next_token wholes (codes "<x")).0 ∷ []
    else (next_token wholes (codes "<x")).0 ∷ tokens_of wholes (next_token wholes (codes "<x")).1)
tokens_of_next_example = tokens_of_next wholes (codes "<x")

join_loop-advance_example :
    join_loop wholes 2 id (five ∷ []) (new_query wholes)
    ≡ join_loop wholes (2 + 9) id (five ∷ []) (new_query wholes)
unfolding advance
join_loop-advance_example = join_loop-advance wholes (id ∷ five ∷ []) 9 (new_query wholes)
