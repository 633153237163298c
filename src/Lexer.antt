-- ===== src/Lexer.antt =====
-- src/parser/Lexer.cpp: from characters to tokens. The lexer's state is the text from `pos_` on.
pub mod Stream
pub mod Chars
pub mod Print
use apgitproj.Base.{
  ℕ, zero, suc, ◌+◌, ◌-◌, ◌*◌, Bool, true, false, ◌&&◌, ◌||◌, not, List, [], ◌∷◌, ◌++◌, map, ℤ, pos,
  negsuc, ◌-ℤ◌, length, take, ltb, leb, ◌==◌, if◌then◌else◌, Text, codes, str_eq, truncate,
}
use apgitproj.Doubles.{Doubles}
use apgitproj.Token.{TokenType, Token, token, is_type}

unfoldable pub is_space : ℕ → Bool
is_space c = c == 32 || c == 9 || c == 10 || c == 13

unfoldable pub is_quote : ℕ → Bool
is_quote c = c == 34 || c == 39

unfoldable pub is_digit : ℕ → Bool
is_digit c = leb 48 c && leb c 57

unfoldable pub is_alpha : ℕ → Bool
is_alpha c = leb 65 c && leb c 90 || leb 97 c && leb c 122

-- `isdigit(c) || c == '.'`, and `isalnum(c) || c == '_'`.
unfoldable pub in_number : ℕ → Bool
in_number c = is_digit c || c == 46

unfoldable pub in_word : ℕ → Bool
in_word c = is_alpha c || is_digit c || c == 95

unfoldable pub starts_word : ℕ → Bool
starts_word c = is_alpha c || c == 95

-- The characters that the loops `while (pos_ < len_ && p(src_[pos_])) ++pos_` run over, and what
-- is left.
unfoldable pub span : (ℕ → Bool) → Text → Text × Text
span p [] = ([], [])
span p (c ∷ s) = let next = span p s in if p c then (c ∷ next.0, next.1) else ([], c ∷ s)

unfoldable pub skip_whitespace : Text → Text
skip_whitespace s = (span is_space s).1

unfoldable pub to_upper : ℕ → ℕ
to_upper c = if leb 97 c && leb c 122 then c - 32 else c

-- `atoi`: blanks, a sign, digits. A number that does not fit into an `int` is not wrapped here.
unfoldable pub digits_value : ℕ → Text → ℕ
digits_value n [] = n
digits_value n (c ∷ s) =
    let next = digits_value (n * 10 + (c - 48)) s in if is_digit c then next else n

unfoldable pub atoi : Text → ℤ
atoi s = elim (skip_whitespace s) [
  | [] ↦ pos 0
  | c ∷ rest ↦
      if c == 45
      then pos 0 -ℤ pos (digits_value 0 rest)
      else if c == 43
      then pos (digits_value 0 rest)
      else pos (digits_value 0 (c ∷ rest))
]

abbrev pub keywords : List (Text × TokenType)
keywords =
    (codes "SELECT", TokenType.select)
    ∷ (codes "FROM", TokenType.from)
    ∷ (codes "WHERE", TokenType.where_kw)
    ∷ (codes "INSERT", TokenType.insert)
    ∷ (codes "INTO", TokenType.into)
    ∷ (codes "VALUES", TokenType.values)
    ∷ (codes "UPDATE", TokenType.update)
    ∷ (codes "SET", TokenType.set_kw)
    ∷ (codes "DELETE", TokenType.delete)
    ∷ (codes "JOIN", TokenType.join)
    ∷ (codes "ON", TokenType.on)
    ∷ (codes "ORDER", TokenType.order)
    ∷ (codes "BY", TokenType.by_kw)
    ∷ (codes "AND", TokenType.and)
    ∷ (codes "OR", TokenType.or)
    ∷ (codes "NOT", TokenType.not_kw)
    ∷ []

-- The chain of `strcmp`s.
unfoldable pub match_keyword : List (Text × TokenType) → Text → TokenType
match_keyword [] upper = TokenType.identifier
match_keyword ((word, t) ∷ rest) upper = if str_eq upper word then t else match_keyword rest upper

-- The operator at the start of a text that begins with `c`, then `c2`, and its length.
unfoldable pub operator_at : ℕ → ℕ → TokenType × Text × ℕ
operator_at c c2 =
    if c == 40
    then (TokenType.lparen, codes "(", 1)
    else if c == 41
    then (TokenType.rparen, codes ")", 1)
    else if c == 44
    then (TokenType.comma, codes ",", 1)
    else if c == 59
    then (TokenType.semicolon, codes ";", 1)
    else if c == 46
    then (TokenType.dot, codes ".", 1)
    else if c == 43
    then (TokenType.plus, codes "+", 1)
    else if c == 45
    then (TokenType.minus, codes "-", 1)
    else if c == 42
    then (TokenType.mul, codes "*", 1)
    else if c == 47
    then (TokenType.div, codes "/", 1)
    else if c == 37
    then (TokenType.mod_op, codes "%", 1)
    else if c == 61
    then (if c2 == 61 then (TokenType.eq, codes "==", 2) else (TokenType.assign, codes "=", 1))
    else if c == 33
    then (if c2 == 61 then (TokenType.neq, codes "!=", 2) else (TokenType.unknown, c ∷ [], 1))
    else if c == 60
    then (if c2 == 61 then (TokenType.lte, codes "<=", 2) else (TokenType.lt, codes "<", 1))
    else if c == 62
    then (if c2 == 61 then (TokenType.gte, codes ">=", 2) else (TokenType.gt, codes ">", 1))
    else (TokenType.unknown, c ∷ [], 1)

-- `src_[pos_ + 1]`, or zero past the end.
unfoldable pub first_of : Text → ℕ
first_of [] = 0
first_of (d ∷ s) = d

unfoldable pub drop_one : Text → Text
drop_one [] = []
drop_one (d ∷ s) = s

-- The text after an operator of that length, of which the first character is gone.
unfoldable pub after : ℕ → Text → Text
after len s = if len == 2 then drop_one s else s

module _ (F : Doubles) where
  abbrev pub Tok : Type 0
  Tok = Token F.Double

  abbrev pub end_token : Tok
  end_token = record {
    type = TokenType.end_of_input;
    lexeme = [];
    int_val = pos 0;
    float_val = F.zero_d;
  }

  -- After the opening quote; the closing quote, if there, is skipped.
  unfoldable pub read_string : Text → Tok × Text
  read_string s =
      let read = span (λ c. not (is_quote c)) s in
      (token F.zero_d TokenType.string_lit (take 255 read.0), drop_one read.1)

  -- Whether a point was read.
  unfoldable pub has_point : Text → Bool
  has_point [] = false
  has_point (c ∷ s) = c == 46 || has_point s

  unfoldable pub read_number : Text → Tok × Text
  read_number s =
      let read = span in_number s in
      let buf = take 63 read.0 in
      (
        if has_point read.0
            then record (token F.zero_d TokenType.float_lit buf) { float_val = F.atof buf }
            else record (token F.zero_d TokenType.integer buf) { int_val = atoi buf },
        read.1,
      )

  unfoldable pub read_ident_or_keyword : Text → Tok × Text
  read_ident_or_keyword s =
      let read = span in_word s in
      let buf = take 255 read.0 in
      (token F.zero_d (match_keyword keywords (map to_upper buf)) buf, read.1)

  -- The token at a character that is no blank.
  unfoldable pub token_at : ℕ → Text → Tok × Text
  token_at c rest =
      if is_quote c
      then read_string rest
      else if is_digit c
      then read_number (c ∷ rest)
      else if starts_word c
      then read_ident_or_keyword (c ∷ rest)
      else (let op = operator_at c (first_of rest) in (token F.zero_d op.0 op.1, after op.2 rest))

  -- The token at the start of a text without leading blanks.
  unfoldable pub first_token : Text → Tok × Text
  first_token [] = (end_token, [])
  first_token (c ∷ rest) = token_at c rest

  unfoldable pub next_token : Text → Tok × Text
  next_token s = first_token (skip_whitespace s)

  unfoldable pub peek_token : Text → Tok
  peek_token s = (next_token s).0

  -- At most `max_out` tokens; the last is the end of the input, if it was reached.
  unfoldable pub tokenize : ℕ → Text → List Tok
  tokenize zero s = []
  tokenize (suc max_out) s =
      let next = next_token s in
      let rest = tokenize max_out next.1 in
      if is_type next.0.type TokenType.end_of_input then next.0 ∷ [] else next.0 ∷ rest
