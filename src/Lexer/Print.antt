-- ===== src/Lexer/Print.antt =====
-- The lexer reads back what a printer of tokens writes.
use apgitproj.Base.{
  ℕ, ◌≤◌, ◌<◌, ◌≡◌, refl, ap, ◌∙◌, sym, true, false, not, List, [], ◌∷◌, ◌++◌, map, length, take,
  take-all, ℤ, pos, append_assoc, if◌then◌else◌, Text, truncate, arith,
}
use apgitproj.Doubles.{Doubles}
use apgitproj.Token.{TokenType, is_type, token}
use apgitproj.Lexer.{
  is_space, is_quote, is_digit, is_alpha, in_number, in_word, starts_word, span, skip_whitespace,
  drop_one, after, first_of, operator_at, Tok, end_token, read_string, read_number,
  read_ident_or_keyword, token_at, first_token, next_token, tokenize, has_point, atoi,
  match_keyword, keywords, to_upper,
}
use apgitproj.Lexer.Stream.{tokens_of, tokens_of_next, digit-in_number, starts_word-in_word}
use apgitproj.Lexer.Chars.{
  AllPass, span_lem, starts_word_no, digit_no, quote_no, blank_no, symbol_text, skip_first,
  keyword_no_string, keyword_no_end,
}

module _ (F : Doubles) where
  -- The tokens the lexer can produce, but for the end and those of unknown characters: names and
  -- keywords, numbers, quoted strings, and operators.
  pub data Printable : Tok F → Type 0 where
    word_token :
        (c : ℕ) (w : Text)
        → starts_word c ≡ true
        → AllPass in_word w
        → length w ≤ 254
        → Printable (token F.zero_d (match_keyword keywords (map to_upper (c ∷ w))) (c ∷ w))
    integer_token :
        (c : ℕ) (w : Text)
        → is_digit c ≡ true
        → AllPass in_number w
        → has_point F (c ∷ w) ≡ false
        → length w ≤ 62
        → Printable (record (token F.zero_d TokenType.integer (c ∷ w)) { int_val = atoi (c ∷ w) })
    float_token :
        (c : ℕ) (w : Text)
        → is_digit c ≡ true
        → AllPass in_number w
        → has_point F (c ∷ w) ≡ true
        → length w ≤ 62
        → Printable
            (record (token F.zero_d TokenType.float_lit (c ∷ w)) { float_val = F.atof (c ∷ w) })
    string_token :
        (w : Text)
        → AllPass (λ c. not (is_quote c)) w
        → length w ≤ 255
        → Printable (token F.zero_d TokenType.string_lit w)
    symbol_token :
        (t : TokenType) → 0 < length (symbol_text t) → Printable (token F.zero_d t (symbol_text t))

  -- A token as source text: a string in quotes, all else as it is.
  unfoldable pub print : Tok F → Text
  print t = if is_type t.type TokenType.string_lit then 34 ∷ t.lexeme ++ 34 ∷ [] else t.lexeme

  next_token-first : (c : ℕ) (s : Text) → is_space c ≡ false → next_token F (c ∷ s) ≡ token_at F c s
  unfolding next_token first_token
  next_token-first c s h = ap (first_token F) (skip_first c s h)

  next_token-blank : (s : Text) → next_token F (32 ∷ s) ≡ next_token F s
  unfolding next_token skip_whitespace span is_space
  next_token-blank s = refl

  next_token-word :
      (c : ℕ) (w s : Text)
      → starts_word c ≡ true
      → AllPass in_word w
      → length w ≤ 254
      → next_token F (c ∷ w ++ 32 ∷ s)
        ≡ (token F.zero_d (match_keyword keywords (map to_upper (c ∷ w))) (c ∷ w), 32 ∷ s)
  unfolding token_at read_ident_or_keyword
  next_token-word c w s h a k =
      let no = starts_word_no c h in
      next_token-first c (w ++ 32 ∷ s) no.0
      ∙ rw (no.1, no.2, h)
          (ap
              (λ (z : Text × Text). (
                token F.zero_d (match_keyword keywords (map to_upper (take 255 z.0)))
                    (take 255 z.0),
                z.1,
              ))
              (span_lem in_word (c ∷ w) 32 s (starts_word-in_word c h, a) blank_no.0)
            ∙ ap (λ b. (token F.zero_d (match_keyword keywords (map to_upper b)) b, 32 ∷ s))
                (take-all 255 (c ∷ w) (omega arith)))

  next_token-number :
      (c : ℕ) (w s : Text)
      → is_digit c ≡ true
      → AllPass in_number w
      → length w ≤ 62
      → next_token F (c ∷ w ++ 32 ∷ s) ≡ (
        if has_point F (c ∷ w)
            then record (token F.zero_d TokenType.float_lit (c ∷ w)) { float_val = F.atof (c ∷ w) }
            else record (token F.zero_d TokenType.integer (c ∷ w)) { int_val = atoi (c ∷ w) },
        32 ∷ s,
      )
  unfolding token_at read_number
  next_token-number c w s h a k =
      let no = digit_no c h in
      next_token-first c (w ++ 32 ∷ s) no.0
      ∙ rw (no.1, h)
          (ap
              (λ (z : Text × Text). (
                if has_point F z.0
                    then record (token F.zero_d TokenType.float_lit (take 63 z.0)) {
                      float_val = F.atof (take 63 z.0);
                    }
                    else record (token F.zero_d TokenType.integer (take 63 z.0)) {
                      int_val = atoi (take 63 z.0);
                    },
                z.1,
              ))
              (span_lem in_number (c ∷ w) 32 s (digit-in_number c h, a) blank_no.1)
            ∙ ap
                (λ b. (
                  if has_point F (c ∷ w)
                      then record (token F.zero_d TokenType.float_lit b) { float_val = F.atof b }
                      else record (token F.zero_d TokenType.integer b) { int_val = atoi b },
                  32 ∷ s,
                ))
                (take-all 63 (c ∷ w) (omega arith)))

  next_token-string :
      (w s : Text)
      → AllPass (λ c. not (is_quote c)) w
      → length w ≤ 255
      → next_token F (34 ∷ w ++ 34 ∷ s) ≡ (token F.zero_d TokenType.string_lit w, s)
  unfolding token_at read_string drop_one is_quote
  next_token-string w s a k =
      next_token-first 34 (w ++ 34 ∷ s) quote_no
      ∙ ap (λ (z : Text × Text). (token F.zero_d TokenType.string_lit (take 255 z.0), drop_one z.1))
          (span_lem (λ c. not (is_quote c)) w 34 s a refl)
      ∙ ap (λ b. (token F.zero_d TokenType.string_lit b, s)) (take-all 255 w k)

  next_token-symbol :
      (t : TokenType) (s : Text)
      → 0 < length (symbol_text t)
      → next_token F (symbol_text t ++ 32 ∷ s) ≡ (token F.zero_d t (symbol_text t), 32 ∷ s)
  unfolding next_token skip_whitespace span is_space first_token token_at is_quote is_digit is_alpha
      starts_word operator_at first_of after drop_one
  next_token-symbol TokenType.eq s h = refl
  next_token-symbol TokenType.neq s h = refl
  next_token-symbol TokenType.lt s h = refl
  next_token-symbol TokenType.gt s h = refl
  next_token-symbol TokenType.lte s h = refl
  next_token-symbol TokenType.gte s h = refl
  next_token-symbol TokenType.plus s h = refl
  next_token-symbol TokenType.minus s h = refl
  next_token-symbol TokenType.mul s h = refl
  next_token-symbol TokenType.div s h = refl
  next_token-symbol TokenType.mod_op s h = refl
  next_token-symbol TokenType.lparen s h = refl
  next_token-symbol TokenType.rparen s h = refl
  next_token-symbol TokenType.comma s h = refl
  next_token-symbol TokenType.semicolon s h = refl
  next_token-symbol TokenType.dot s h = refl
  next_token-symbol TokenType.assign s h = refl
  next_token-symbol _ s h = absurd (omega arith)

  symbol_plain :
      (t : TokenType)
      → 0 < length (symbol_text t)
      → (is_type t TokenType.string_lit ≡ false)
        × (is_type t TokenType.end_of_input ≡ false)
        × (length (symbol_text t) ≤ 2)
  unfolding is_type
  symbol_plain TokenType.eq h = (refl, refl, omega arith)
  symbol_plain TokenType.neq h = (refl, refl, omega arith)
  symbol_plain TokenType.lt h = (refl, refl, omega arith)
  symbol_plain TokenType.gt h = (refl, refl, omega arith)
  symbol_plain TokenType.lte h = (refl, refl, omega arith)
  symbol_plain TokenType.gte h = (refl, refl, omega arith)
  symbol_plain TokenType.plus h = (refl, refl, omega arith)
  symbol_plain TokenType.minus h = (refl, refl, omega arith)
  symbol_plain TokenType.mul h = (refl, refl, omega arith)
  symbol_plain TokenType.div h = (refl, refl, omega arith)
  symbol_plain TokenType.mod_op h = (refl, refl, omega arith)
  symbol_plain TokenType.lparen h = (refl, refl, omega arith)
  symbol_plain TokenType.rparen h = (refl, refl, omega arith)
  symbol_plain TokenType.comma h = (refl, refl, omega arith)
  symbol_plain TokenType.semicolon h = (refl, refl, omega arith)
  symbol_plain TokenType.dot h = (refl, refl, omega arith)
  symbol_plain TokenType.assign h = (refl, refl, omega arith)
  symbol_plain _ h = absurd (omega arith)

  -- The text of a token that stands as it is.
  print-plain :
      (t : TokenType) (w : Text) (i : ℤ) (d : F.Double)
      → is_type t TokenType.string_lit ≡ false
      → length w ≤ 255
      → print (record { type = t; lexeme = truncate 256 w; int_val = i; float_val = d }) ≡ w
  unfolding print truncate
  print-plain t w i d h k = rw h (take-all 255 w k)

  print-string :
      (w : Text)
      → length w ≤ 255
      → print (token F.zero_d TokenType.string_lit w) ≡ 34 ∷ w ++ 34 ∷ []
  unfolding print token truncate is_type
  print-string w k = ap (λ z. 34 ∷ z ++ 34 ∷ []) (take-all 255 w k)

  next_token-print :
      (t : Tok F) (s : Text) → Printable t → next_token F (print t ++ 32 ∷ s) ≡ (t, 32 ∷ s)
  unfolding token is_type
  next_token-print _ s (word_token c w h a k) =
      ap (λ z. next_token F (z ++ 32 ∷ s))
        (print-plain (match_keyword keywords (map to_upper (c ∷ w))) (c ∷ w) (pos 0) F.zero_d
          (keyword_no_string (map to_upper (c ∷ w))) (omega arith))
      ∙ next_token-word c w s h a k
  next_token-print _ s (integer_token c w h a q k) =
      ap (λ z. next_token F (z ++ 32 ∷ s))
        (print-plain TokenType.integer (c ∷ w) (atoi (c ∷ w)) F.zero_d refl (omega arith))
      ∙ next_token-number c w s h a k
      ∙ rw q refl
  next_token-print _ s (float_token c w h a q k) =
      ap (λ z. next_token F (z ++ 32 ∷ s))
        (print-plain TokenType.float_lit (c ∷ w) (pos 0) (F.atof (c ∷ w)) refl (omega arith))
      ∙ next_token-number c w s h a k
      ∙ rw q refl
  next_token-print _ s (string_token w a k) =
      ap (λ z. next_token F (z ++ 32 ∷ s)) (print-string w k)
      ∙ ap (λ z. next_token F (34 ∷ z)) (append_assoc w (34 ∷ []) (32 ∷ s))
      ∙ next_token-string w (32 ∷ s) a k
  next_token-print _ s (symbol_token t h) =
      let plain = symbol_plain t h in
      ap (λ z. next_token F (z ++ 32 ∷ s))
        (print-plain t (symbol_text t) (pos 0) F.zero_d plain.0 (omega arith))
      ∙ next_token-symbol t s h

  not_end : (t : Tok F) → Printable t → is_type t.type TokenType.end_of_input ≡ false
  unfolding token is_type
  not_end _ (word_token c w h a k) = keyword_no_end (map to_upper (c ∷ w))
  not_end _ (integer_token c w h a q k) = refl
  not_end _ (float_token c w h a q k) = refl
  not_end _ (string_token w a k) = refl
  not_end _ (symbol_token t h) = (symbol_plain t h).1

  pub data AllPrintable : List (Tok F) → Type 0 where
    done : AllPrintable []
    more : (t : Tok F) (ts : List (Tok F)) → Printable t → AllPrintable ts → AllPrintable (t ∷ ts)

  -- The tokens one after the other, a blank behind each.
  unfoldable pub print_all : List (Tok F) → Text
  print_all [] = []
  print_all (t ∷ ts) = print t ++ 32 ∷ print_all ts

  tokens_of-blank : (s : Text) → tokens_of F (32 ∷ s) ≡ tokens_of F s
  tokens_of-blank s =
      tokens_of_next F (32 ∷ s) ∙ rw (next_token-blank s) refl ∙ sym (tokens_of_next F s)

  tokens_of-nil : tokens_of F [] ≡ end_token F ∷ []
  unfolding tokens_of tokenize next_token skip_whitespace span first_token is_type
  tokens_of-nil = refl

  pub tokens_of-print_all :
      (ts : List (Tok F)) → AllPrintable ts → tokens_of F (print_all ts) ≡ ts ++ end_token F ∷ []
  unfolding print_all
  tokens_of-print_all [] done = tokens_of-nil
  tokens_of-print_all _ (more t ts h hs) =
      tokens_of_next F (print t ++ 32 ∷ print_all ts)
      ∙ rw (next_token-print t (print_all ts) h, not_end t h) refl
      ∙ ap (λ us. t ∷ us) (tokens_of-blank (print_all ts) ∙ tokens_of-print_all ts hs)
