-- ===== src/ShuntingYard.antt =====
-- src/parser/Parser.cpp, shuntingYard: from infix to postfix. The operator stack is the list of its
-- tokens, the top first: `Stack` grows as needed, so its capacity has no effect (Stack.pop-push).
pub mod Expr
pub mod Pops
pub mod Correct
use apgitproj.Base.{
  ℕ, ◌+◌, ◌-◌, Bool, true, false, ◌&&◌, ◌||◌, not, List, [], ◌∷◌, ◌++◌, length, ltb, leb,
  if◌then◌else◌, Text,
}
use apgitproj.Token.{TokenType, Token, is_type, is_operator, precedence, is_left_assoc, is_operand}

-- `postfix[0 .. outCount)` and `strBuf[0 .. strLen)`.
pub record Output (D : Type 0) : Type 0 where
  pub tokens : List (Token D)
  pub text : Text

-- The operator stack and the output.
pub record Yard (D : Type 0) : Type 0 where
  pub ops : List (Token D)
  pub out : Output D

unfoldable pub append_to_str : ℕ → Text → Text → Text
append_to_str str_max_len str word =
    if ltb (length str + length word + 2) (str_max_len - 1) then str ++ word ++ b' ' ∷ [] else str

-- Whether the operator on the stack goes out before `tok` is pushed.
unfoldable pub goes_first : TokenType → TokenType → Bool
goes_first tok top =
    not (is_type top TokenType.lparen)
    && (is_operator top
        && ((is_left_assoc tok && leb (precedence tok) (precedence top))
            || (not (is_left_assoc tok) && ltb (precedence tok) (precedence top))))

-- `if (!opStack.isEmpty()) opStack.pop()`.
unfoldable pub discard_top : {D : Type 0} → Yard D → Yard D
discard_top y = elim y.ops [ [] ↦ y | t ∷ ops ↦ record { ops = ops; out = y.out } ]

module _ {D : Type 0} (max_postfix str_max_len : ℕ) where
  unfoldable pub push_out : Output D → Token D → Output D
  push_out o tk =
      if ltb (length o.tokens) max_postfix
      then record {
        tokens = o.tokens ++ tk ∷ [];
        text = append_to_str str_max_len o.text tk.lexeme;
      }
      else o

  -- Pops down to an opening parenthesis, which stays.
  unfoldable pub pop_to_paren : List (Token D) → Output D → Yard D
  pop_to_paren [] o = record { ops = []; out = o }
  pop_to_paren (t ∷ ops) o =
      if is_type t.type TokenType.lparen
      then record { ops = t ∷ ops; out = o }
      else pop_to_paren ops (push_out o t)

  unfoldable pub pop_operators : TokenType → List (Token D) → Output D → Yard D
  pop_operators tok [] o = record { ops = []; out = o }
  pop_operators tok (t ∷ ops) o =
      if goes_first tok t.type
      then pop_operators tok ops (push_out o t)
      else record { ops = t ∷ ops; out = o }

  -- One round of the main loop.
  unfoldable pub yard_step : Yard D → Token D → Yard D
  yard_step y tok =
      if is_operand tok.type
      then record y { out = push_out y.out tok }
      else if is_type tok.type TokenType.lparen
      then record y { ops = tok ∷ y.ops }
      else if is_type tok.type TokenType.rparen
      then discard_top (pop_to_paren y.ops y.out)
      else if is_operator tok.type
      then (let z = pop_operators tok.type y.ops y.out in record { ops = tok ∷ z.ops; out = z.out })
      else y

  unfoldable pub yard_loop : List (Token D) → Yard D → Yard D
  yard_loop [] y = y
  yard_loop (tok ∷ infix_tokens) y = yard_loop infix_tokens (yard_step y tok)

  unfoldable pub flush : List (Token D) → Output D → Output D
  flush [] o = o
  flush (t ∷ ops) o = flush ops (push_out o t)

  unfoldable pub shunting_yard : List (Token D) → Output D
  shunting_yard infix_tokens =
      let y =
        yard_loop infix_tokens (record { ops = []; out = record { tokens = []; text = [] } }) in
      flush y.ops y.out
