-- ===== src/Value/Convert/Repr.antt =====
-- `repr` of a value.
use mcp_attest.Base.{
  ℕ, zero, suc, ◌/◌, ◌%◌, ◌^◌, Bool, true, false, ◌||◌, ◌&&◌, not, [], ◌∷◌, ◌++◌, ltb, leb, ◌==◌,
  if◌then◌else◌, length,
}
use mcp_attest.Base.Int.{ℤ, pos, negsuc}
use mcp_attest.Base.Text.{Text, codes}
use mcp_attest.Base.Hex.{hex_digit}
use mcp_attest.Base.Decimal.{decimal}
use mcp_attest.Errors.{Result, ok, raised, ◌>>=◌, value_error}
use mcp_attest.Runtime.{Runtime}
use mcp_attest.Value.{
  Value, Items, no_items, item, Fields, no_fields, field, null, bool, int, float, str, list, tuple,
  dict, foreign,
}

-- sys.get_int_max_str_digits(), at its default.
abbrev pub max_digits : ℕ
max_digits = 4300

-- str.isspace of one code point.
unfoldable pub is_space : ℕ → Bool
is_space c =
    (leb 9 c && leb c 13)
    || (leb 28 c && leb c 32)
    || c == 0x85
    || c == 0xa0
    || c == 0x1680
    || (leb 0x2000 c && leb c 0x200a)
    || c == 0x2028
    || c == 0x2029
    || c == 0x202f
    || c == 0x205f
    || c == 0x3000

-- int.__repr__, which refuses a number with more than `max_digits` digits.
unfoldable pub int_repr : ℤ → Result Text
int_repr (pos n) =
    let ds = decimal n in if ltb max_digits (length ds) then raised value_error else ok ds
int_repr (negsuc n) =
    let ds = decimal (suc n) in
    if ltb max_digits (length ds) then raised value_error else ok (b'-' ∷ ds)

abbrev has_char : ℕ → Text → Bool
has_char c [] = false
has_char c (d ∷ s) = c == d || has_char c s

-- The `width` hexadecimal digits of `n`.
abbrev pub hex_padded : ℕ → ℕ → Text
hex_padded zero n = []
hex_padded (suc width) n = hex_digit (n / 16 ^ width % 16) ∷ hex_padded width n

module _ (R : Runtime) where
  repr_char : ℕ → ℕ → Text
  repr_char quote c =
      if c == quote || c == b'\\'
      then b'\\' ∷ c ∷ []
      else if c == 9
      then codes "\\t"
      else if c == 10
      then codes "\\n"
      else if c == 13
      then codes "\\r"
      else if R.is_printable c
      then c ∷ []
      else if ltb c 0x100
      then codes "\\x" ++ hex_padded 2 c
      else if ltb c 0x10000
      then codes "\\u" ++ hex_padded 4 c
      else codes "\\U" ++ hex_padded 8 c

  repr_chars : ℕ → Text → Text
  repr_chars quote [] = quote ∷ []
  repr_chars quote (c ∷ s) = repr_char quote c ++ repr_chars quote s

  -- str.__repr__: double quotes if the text holds a single quote and no double one.
  str_repr : Text → Text
  str_repr s =
      let quote = if has_char b'\'' s && not (has_char b'"' s) then b'"' else b'\'' in
      quote ∷ repr_chars quote s

  abbrev separator : Bool → Text
  separator first = if first then [] else codes ", "

  unfoldable mutual
    unfolding str_repr repr_chars repr_char int_repr

    pub repr : Value R.Float → Result Text
    repr null = ok (codes "None")
    repr (bool b) = ok (if b then codes "True" else codes "False")
    repr (int n) = int_repr n
    repr (float x) = ok (R.float_repr x)
    repr (str s) = ok (str_repr s)
    repr (list xs) = do s ← repr_items xs true; ok (b'[' ∷ s ++ b']' ∷ [])
    repr (tuple no_items) = ok (codes "()")
    repr (tuple (item v no_items)) = do s ← repr v; ok (b'(' ∷ s ++ codes ",)")
    repr (tuple (item v xs)) = do
      s ← repr v
      t ← repr_items xs false
      ok (b'(' ∷ s ++ t ++ b')' ∷ [])
    repr (dict fs) = do s ← repr_fields fs true; ok (b'{' ∷ s ++ b'}' ∷ [])
    repr (foreign s) = ok s

    pub repr_items : Items R.Float → Bool → Result Text
    repr_items no_items first = ok []
    repr_items (item v xs) first = do
      s ← repr v
      t ← repr_items xs false
      ok (separator first ++ s ++ t)

    pub repr_fields : Fields R.Float → Bool → Result Text
    repr_fields no_fields first = ok []
    repr_fields (field k v fs) first = do
      s ← repr v
      t ← repr_fields fs false
      ok (separator first ++ str_repr k ++ codes ": " ++ s ++ t)
