-- ===== src/Token.antt =====
-- src/parser/Token.h: the tokens of the query language.
use apgitproj.Base.{ℕ, Bool, true, false, ◌||◌, not, ◌==◌, ℤ, pos, Text, truncate}

pub data TokenType : Type 0 where
  select from where_kw insert into values update set_kw delete join on order by_kw : TokenType
  and or not_kw : TokenType
  eq neq lt gt lte gte : TokenType
  plus minus mul div mod_op : TokenType
  lparen rparen comma semicolon dot assign : TokenType
  integer float_lit string_lit : TokenType
  identifier end_of_input unknown : TokenType

-- The number of each enumerator.
unfoldable pub code_of : TokenType → ℕ
code_of TokenType.select = 0
code_of TokenType.from = 1
code_of TokenType.where_kw = 2
code_of TokenType.insert = 3
code_of TokenType.into = 4
code_of TokenType.values = 5
code_of TokenType.update = 6
code_of TokenType.set_kw = 7
code_of TokenType.delete = 8
code_of TokenType.join = 9
code_of TokenType.on = 10
code_of TokenType.order = 11
code_of TokenType.by_kw = 12
code_of TokenType.and = 13
code_of TokenType.or = 14
code_of TokenType.not_kw = 15
code_of TokenType.eq = 16
code_of TokenType.neq = 17
code_of TokenType.lt = 18
code_of TokenType.gt = 19
code_of TokenType.lte = 20
code_of TokenType.gte = 21
code_of TokenType.plus = 22
code_of TokenType.minus = 23
code_of TokenType.mul = 24
code_of TokenType.div = 25
code_of TokenType.mod_op = 26
code_of TokenType.lparen = 27
code_of TokenType.rparen = 28
code_of TokenType.comma = 29
code_of TokenType.semicolon = 30
code_of TokenType.dot = 31
code_of TokenType.assign = 32
code_of TokenType.integer = 33
code_of TokenType.float_lit = 34
code_of TokenType.string_lit = 35
code_of TokenType.identifier = 36
code_of TokenType.end_of_input = 37
code_of TokenType.unknown = 38

-- `type == t`.
unfoldable pub is_type : TokenType → TokenType → Bool
unfolding code_of
is_type s t = code_of s == code_of t

-- `Token`; `D` is `double`.
pub record Token (D : Type 0) : Type 0 where
  pub type : TokenType
  pub lexeme : Text
  pub int_val : ℤ
  pub float_val : D

-- `Token(t, lex)`, with the zero of `double`.
unfoldable pub token : {D : Type 0} → D → TokenType → Text → Token D
token zero_d t lex = record {
  type = t;
  lexeme = truncate 256 lex;
  int_val = pos 0;
  float_val = zero_d;
}

unfoldable pub is_operator : TokenType → Bool
is_operator TokenType.eq = true
is_operator TokenType.neq = true
is_operator TokenType.lt = true
is_operator TokenType.gt = true
is_operator TokenType.lte = true
is_operator TokenType.gte = true
is_operator TokenType.and = true
is_operator TokenType.or = true
is_operator TokenType.plus = true
is_operator TokenType.minus = true
is_operator TokenType.mul = true
is_operator TokenType.div = true
is_operator TokenType.mod_op = true
is_operator _ = false

unfoldable pub precedence : TokenType → ℕ
precedence TokenType.or = 1
precedence TokenType.and = 2
precedence TokenType.not_kw = 3
precedence TokenType.eq = 4
precedence TokenType.neq = 4
precedence TokenType.lt = 4
precedence TokenType.gt = 4
precedence TokenType.lte = 4
precedence TokenType.gte = 4
precedence TokenType.plus = 5
precedence TokenType.minus = 5
precedence TokenType.mul = 6
precedence TokenType.div = 6
precedence TokenType.mod_op = 6
precedence _ = 0

unfoldable pub is_left_assoc : TokenType → Bool
unfolding is_type
is_left_assoc t = not (is_type t TokenType.not_kw)

-- The tokens that `shuntingYard` copies to its output.
unfoldable pub is_operand : TokenType → Bool
unfolding is_type
is_operand t =
    is_type t TokenType.integer
    || is_type t TokenType.float_lit
    || is_type t TokenType.string_lit
    || is_type t TokenType.identifier
