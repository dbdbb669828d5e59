-- ===== src/Json/Token.antt =====
-- Tokens of a JSON text, and the positions of the scanner inside one.
use mcp_attest.Base.{ℕ, Option}
use mcp_attest.Base.Text.{Text}
use mcp_attest.Errors.{Result}
use mcp_attest.Value.{Value}

module _ (F : Type 0) where
  pub data Token : Type 0 where
    lbrace rbrace lbrack rbrack comma colon : Token
    text : Text → Token
    -- null, true, false and the numbers
    scalar : Value F → Token

-- The part of a number that the scanner is in: behind the minus sign, behind a leading zero, in the
-- whole part, behind the point, in the fraction, behind `e`, behind its sign, in the exponent.
pub data Phase : Type 0 where
  sign zero_digit whole point fraction mark mark_sign exponent : Phase

module _ (F : Type 0) where
  pub data Mode : Type 0 where
    between : Mode
    -- the letters to come of a word, and its value
    word : Text → Result (Value F) → Mode
    number : Phase → Text → Mode
    -- In a string: a high surrogate just read as an escape, the text before it.
    chars : Option ℕ → Text → Mode
    backslash : Option ℕ → Text → Mode
    -- behind `\u`, with the number of digits read and their value
    unicode : Option ℕ → Text → ℕ → ℕ → Mode

  -- What the scanner does with a character: go on, end a token with it, end a token before it.
  pub data Step : Type 0 where
    go : Mode → Step
    closed : Result (Token F) → Step
    ended : Result (Token F) → Step
    refused : Step
