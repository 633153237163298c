-- ===== src/Lexer/Chars.antt =====
-- Lexer.cpp: the runs of characters of a token, and how keywords and operators are told apart.
use apgitproj.Base.{
  ℕ, ◌≡◌, refl, ap, Bool, true, false, List, [], ◌∷◌, ◌++◌, Bool-cases, inl, inr, Text, str_eq,
  codes, arith,
}
use apgitproj.Token.{TokenType, is_type}
use apgitproj.Lexer.{
  is_space, is_quote, is_digit, is_alpha, in_number, in_word, starts_word, span, skip_whitespace,
  match_keyword, keywords,
}

-- Each character passes.
abbrev pub AllPass : (ℕ → Bool) → Text → Type 0
AllPass p [] = Unit
AllPass p (c ∷ s) = (p c ≡ true) × AllPass p s

pub span_lem :
    (p : ℕ → Bool) (w : Text) (d : ℕ) (s : Text)
    → AllPass p w
    → p d ≡ false
    → span p (w ++ d ∷ s) ≡ (w, d ∷ s)
unfolding span
span_lem p [] d s a h = rw h
span_lem p (c ∷ w) d s a h =
    rw (a.0) (ap (λ (z : Text × Text). (c ∷ z.0, z.1)) (span_lem p w d s a.1 h))

pub starts_word_no :
    (c : ℕ)
    → starts_word c ≡ true
    → (is_space c ≡ false) × (is_quote c ≡ false) × (is_digit c ≡ false)
unfolding starts_word is_alpha is_space is_quote is_digit
starts_word_no c h = (ground arith, ground arith, ground arith)

pub digit_no : (c : ℕ) → is_digit c ≡ true → (is_space c ≡ false) × (is_quote c ≡ false)
unfolding is_digit is_space is_quote
digit_no c h = (ground arith, ground arith)

pub quote_no : is_space 34 ≡ false
unfolding is_space
quote_no = refl

pub blank_no : (in_word 32 ≡ false) × (in_number 32 ≡ false)
unfolding in_word in_number is_digit is_alpha
blank_no = (refl, refl)

-- How operators and punctuation are written.
abbrev pub symbol_text : TokenType → Text
symbol_text TokenType.eq = codes "=="
symbol_text TokenType.neq = codes "!="
symbol_text TokenType.lt = codes "<"
symbol_text TokenType.gt = codes ">"
symbol_text TokenType.lte = codes "<="
symbol_text TokenType.gte = codes ">="
symbol_text TokenType.plus = codes "+"
symbol_text TokenType.minus = codes "-"
symbol_text TokenType.mul = codes "*"
symbol_text TokenType.div = codes "/"
symbol_text TokenType.mod_op = codes "%"
symbol_text TokenType.lparen = codes "("
symbol_text TokenType.rparen = codes ")"
symbol_text TokenType.comma = codes ","
symbol_text TokenType.semicolon = codes ";"
symbol_text TokenType.dot = codes "."
symbol_text TokenType.assign = codes "="
symbol_text _ = []

pub span_stop : (p : ℕ → Bool) (c : ℕ) (s : Text) → p c ≡ false → span p (c ∷ s) ≡ ([], c ∷ s)
unfolding span
span_stop p c s h = rw h

pub skip_first : (c : ℕ) (s : Text) → is_space c ≡ false → skip_whitespace (c ∷ s) ≡ c ∷ s
unfolding skip_whitespace
skip_first c s h = ap (λ (z : Text × Text). z.1) (span_stop is_space c s h)

-- No entry of a table of keywords passes a test, nor does an identifier.
abbrev pub NonePass : (TokenType → Bool) → List (Text × TokenType) → Type 0
NonePass p [] = Unit
NonePass p ((word, t) ∷ rest) = (p t ≡ false) × NonePass p rest

pub match_keyword_no :
    (p : TokenType → Bool) (table : List (Text × TokenType)) (upper : Text)
    → NonePass p table
    → p TokenType.identifier ≡ false
    → p (match_keyword table upper) ≡ false
unfolding match_keyword
match_keyword_no p [] upper a h = h
match_keyword_no p ((word, t) ∷ rest) upper a h = elim (Bool-cases (str_eq upper word)) [
  | inl e ↦ rw e (a.0)
  | inr e ↦ rw e (match_keyword_no p rest upper a.1 h)
]

pub keyword_no_string :
    (upper : Text) → is_type (match_keyword keywords upper) TokenType.string_lit ≡ false
unfolding is_type
keyword_no_string upper =
    match_keyword_no (λ t. is_type t TokenType.string_lit) keywords upper
      (
        refl,
        (
          refl,
          (
            refl,
            (
              refl,
              (
                refl,
                (
                  refl,
                  (
                    refl,
                    (refl, (refl, (refl, (refl, (refl, (refl, (refl, (refl, (refl, tt))))))))),
                  ),
                ),
              ),
            ),
          ),
        ),
      )
      refl

pub keyword_no_end :
    (upper : Text) → is_type (match_keyword keywords upper) TokenType.end_of_input ≡ false
unfolding is_type
keyword_no_end upper =
    match_keyword_no (λ t. is_type t TokenType.end_of_input) keywords upper
      (
        refl,
        (
          refl,
          (
            refl,
            (
              refl,
              (
                refl,
                (
                  refl,
                  (
                    refl,
                    (refl, (refl, (refl, (refl, (refl, (refl, (refl, (refl, (refl, tt))))))))),
                  ),
                ),
              ),
            ),
          ),
        ),
      )
      refl
