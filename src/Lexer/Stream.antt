-- ===== src/Lexer/Stream.antt =====
-- nextToken makes progress, so reading to the end takes no more rounds than there are characters.
use apgitproj.Base.{
  ℕ, zero, suc, ◌≤◌, ◌<◌, ◌≡◌, refl, ap, sym, Bool, true, false, not, List, [], ◌∷◌, length, take,
  inl, inr, Bool-cases, if◌then◌else◌, Text, arith,
}
use apgitproj.Doubles.{Doubles}
use apgitproj.Token.{TokenType, is_type}
use apgitproj.Lexer.{
  is_space, is_quote, is_digit, in_number, in_word, starts_word, span, skip_whitespace, drop_one,
  after, first_of, operator_at, Tok, read_string, read_number, read_ident_or_keyword, token_at,
  first_token, next_token, tokenize,
}

length-span : (p : ℕ → Bool) (s : Text) → length (span p s).1 ≤ length s
unfolding span
length-span p [] = omega arith
length-span p (c ∷ s) = ground (arith, length-span p s)

-- A character that passes is taken.
span_first : (p : ℕ → Bool) (c : ℕ) (s : Text) → p c ≡ true → (span p (c ∷ s)).1 ≡ (span p s).1
unfolding span
span_first p c s h = rw h

length-drop_one : (s : Text) → length (drop_one s) ≤ length s
unfolding drop_one
length-drop_one [] = omega arith
length-drop_one (d ∷ s) = omega arith

length-after : (n : ℕ) (s : Text) → length (after n s) ≤ length s
unfolding after
length-after n s = ground (arith, length-drop_one s)

pub digit-in_number : (c : ℕ) → is_digit c ≡ true → in_number c ≡ true
unfolding in_number
digit-in_number c h = rw h

pub starts_word-in_word : (c : ℕ) → starts_word c ≡ true → in_word c ≡ true
unfolding starts_word in_word
starts_word-in_word c h = ground arith

take-nil : {A : Type 0} (n : ℕ) → take {A = A} n [] ≡ []
take-nil zero = refl
take-nil (suc n) = refl

module _ (F : Doubles) where
  -- The rest after a token is no longer than the rest after its first character.
  length-token_at : (c : ℕ) (s : Text) → length (token_at F c s).1 ≤ length s
  unfolding token_at read_string read_number read_ident_or_keyword
  length-token_at c s = elim (Bool-cases (is_quote c)) [
    | inl q ↦ rw q (
        omega (
          arith,
          length-drop_one (span (λ d. not (is_quote d)) s).1,
          length-span (λ d. not (is_quote d)) s,
        ))
    | inr q ↦ elim (Bool-cases (is_digit c)) [
      | inl d ↦ rw (q, d, span_first in_number c s (digit-in_number c d)) (length-span in_number s)
      | inr d ↦ elim (Bool-cases (starts_word c)) [
        | inl w ↦
            rw (q, d, w, span_first in_word c s (starts_word-in_word c w)) (length-span in_word s)
        | inr w ↦ rw (q, d, w) (length-after (operator_at c (first_of s)).2 s)
      ]
    ]
  ]

  first_token-shorter :
      (s : Text)
      → is_type (first_token F s).0.type TokenType.end_of_input ≡ false
      → length (first_token F s).1 < length s
  unfolding first_token is_type
  first_token-shorter [] h = ground arith
  first_token-shorter (c ∷ rest) h = omega (arith, length-token_at c rest)

  -- A token that is not the end takes at least one character.
  pub next_token-shorter :
      (s : Text)
      → is_type (next_token F s).0.type TokenType.end_of_input ≡ false
      → length (next_token F s).1 < length s
  unfolding next_token skip_whitespace
  next_token-shorter s h =
      omega (arith, first_token-shorter (span is_space s).1 h, length-span is_space s)

  -- Once there is room for a token per character and the end, more room changes nothing.
  pub tokenize_enough :
      (m n : ℕ) (s : Text) → length s < m → length s < n → tokenize F m s ≡ tokenize F n s
  unfolding tokenize
  tokenize_enough (suc m) (suc n) s h k =
      elim (Bool-cases (is_type (next_token F s).0.type TokenType.end_of_input)) [
        | inl stop ↦ rw stop refl
        | inr go ↦
            let shorter = next_token-shorter s go in
            rw (go, tokenize_enough m n (next_token F s).1 (omega arith) (omega arith)) refl
      ]
  tokenize_enough _ _ s h k = absurd (omega arith)

  -- All the tokens of a text, the end included.
  unfoldable pub tokens_of : Text → List (Tok F)
  tokens_of s = tokenize F (suc (length s)) s

  -- The tokens of a text are those that nextToken returns, one after the other, up to the end.
  pub tokens_of_next :
      (s : Text)
      → tokens_of s ≡ (
          if is_type (next_token F s).0.type TokenType.end_of_input
          then (next_token F s).0 ∷ []
          else (next_token F s).0 ∷ tokens_of (next_token F s).1)
  unfolding tokens_of tokenize
  tokens_of_next s = elim (Bool-cases (is_type (next_token F s).0.type TokenType.end_of_input)) [
    | inl stop ↦ rw stop refl
    | inr go ↦
        rw
          (
            go,
            tokenize_enough (length s) (suc (length (next_token F s).1)) (next_token F s).1
                (next_token-shorter s go) (omega arith),
          )
          refl
  ]

  -- Into an array of `max_out` tokens goes a prefix of them: all, if they fit.
  pub tokenize-take : (max_out : ℕ) (s : Text) → tokenize F max_out s ≡ take max_out (tokens_of s)
  unfolding tokenize
  tokenize-take zero s = refl
  tokenize-take (suc m) s =
      elim (Bool-cases (is_type (next_token F s).0.type TokenType.end_of_input)) [
        | inl stop ↦
            rw (stop, tokens_of_next s, stop)
              (ap (λ ts. (next_token F s).0 ∷ ts) (sym (take-nil m)))
        | inr go ↦
            rw (go, tokens_of_next s, go)
              (ap (λ ts. (next_token F s).0 ∷ ts) (tokenize-take m (next_token F s).1))
      ]
