-- ===== src/Json/Encode.antt =====
-- The JSON encoder, on a value whose dicts are in the order to be written.
use mcp_attest.Base.{ℕ, ◌/◌, ◌%◌, Bool, true, false, [], ◌∷◌, ◌++◌, ltb, ◌==◌, if◌then◌else◌}
use mcp_attest.Base.Hex.{hex_digit}
use mcp_attest.Base.Text.{Text, codes}
use mcp_attest.Errors.{Result, ok, raised, ◌>>=◌, value_error, type_error}
use mcp_attest.Runtime.{Runtime}
use mcp_attest.Value.{
  Value, Items, no_items, item, Fields, no_fields, field, null, bool, int, float, str, list, tuple,
  dict, foreign,
}
use mcp_attest.Value.Convert.Repr.{int_repr}

-- ensure_ascii=False escapes the quote, the backslash and the characters below the space only.
unfoldable pub escape_char : ℕ → Text
escape_char c =
    if c == b'"'
    then b'\\' ∷ b'"' ∷ []
    else if c == b'\\'
    then b'\\' ∷ b'\\' ∷ []
    else if c == 8
    then b'\\' ∷ b'b' ∷ []
    else if c == 12
    then b'\\' ∷ b'f' ∷ []
    else if c == 10
    then b'\\' ∷ b'n' ∷ []
    else if c == 13
    then b'\\' ∷ b'r' ∷ []
    else if c == 9
    then b'\\' ∷ b't' ∷ []
    else if ltb c 32
    then b'\\' ∷ b'u' ∷ b'0' ∷ b'0' ∷ hex_digit (c / 16) ∷ hex_digit (c % 16) ∷ []
    else c ∷ []

-- The escaped characters and the closing quote.
unfoldable pub escape : Text → Text
escape [] = b'"' ∷ []
escape (c ∷ s) = escape_char c ++ escape s

unfoldable pub quoted : Text → Text
quoted s = b'"' ∷ escape s

abbrev pub comma_unless : Bool → Text
comma_unless first = if first then [] else b',' ∷ []

module _ (R : Runtime) where
  -- allow_nan=False
  unfoldable pub encode_float : R.Float → Result Text
  encode_float x = if R.is_finite x then ok (R.float_repr x) else raised value_error

  unfoldable mutual
    pub encode : Value R.Float → Result Text
    encode null = ok (codes "null")
    encode (bool b) = ok (if b then codes "true" else codes "false")
    encode (int n) = int_repr n
    encode (float x) = encode_float x
    encode (str s) = ok (quoted s)
    encode (list xs) = do s ← encode_items xs true; ok (b'[' ∷ s)
    encode (tuple xs) = do s ← encode_items xs true; ok (b'[' ∷ s)
    encode (dict fs) = do s ← encode_fields fs true; ok (b'{' ∷ s)
    encode (foreign s) = raised type_error

    -- The items with the commas before all but the first, and the closing bracket.
    pub encode_items : Items R.Float → Bool → Result Text
    encode_items no_items first = ok (b']' ∷ [])
    encode_items (item v xs) first = do
      s ← encode v
      t ← encode_items xs false
      ok (comma_unless first ++ (s ++ t))

    pub encode_fields : Fields R.Float → Bool → Result Text
    encode_fields no_fields first = ok (b'}' ∷ [])
    encode_fields (field k v fs) first = do
      s ← encode v
      t ← encode_fields fs false
      ok (comma_unless first ++ (quoted k ++ (b':' ∷ (s ++ t))))
