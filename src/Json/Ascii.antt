-- ===== src/Json/Ascii.antt =====
-- The standard library's `json.dumps` with `ensure_ascii` and `allow_nan` at their defaults, as the example
-- server and the scripts call it, on a value whose dicts are in the order to be written.
pub mod Agrees
pub mod Check
use mcp_attest.Base.{
  ℕ, ◌+◌, ◌-◌, ◌/◌, ◌%◌, Bool, true, false, ◌&&◌, [], ◌∷◌, ◌++◌, ltb, leb, ◌==◌, if◌then◌else◌,
}
use mcp_attest.Base.Text.{Text, codes, text_eq}
use mcp_attest.Errors.{Result, ok, raised, ◌>>=◌, type_error}
use mcp_attest.Runtime.{Runtime}
use mcp_attest.Value.{
  Value, Items, no_items, item, Fields, no_fields, field, null, bool, int, float, str, list, tuple,
  dict, foreign,
}
use mcp_attest.Value.Convert.Repr.{int_repr, hex_padded}

abbrev pub unicode_escape : ℕ → Text
unicode_escape c = b'\\' ∷ b'u' ∷ hex_padded 4 c

-- A character beyond 0xffff is written as two surrogates.
unfoldable pub ascii_char : ℕ → Text
ascii_char c =
    if c == b'"'
    then b'\\' ∷ b'"' ∷ []
    else if c == b'\\'
    then b'\\' ∷ b'\\' ∷ []
    else if leb 32 c && leb c 126
    then c ∷ []
    else if c == 8
    then b'\\' ∷ b'b' ∷ []
    else if c == 12
    then b'\\' ∷ b'f' ∷ []
    else if c == 10
    then b'\\' ∷ b'n' ∷ []
    else if c == 13
    then b'\\' ∷ b'r' ∷ []
    else if c == 9
    then b'\\' ∷ b't' ∷ []
    else if ltb c 0x10000
    then unicode_escape c
    else unicode_escape (0xd800 + (c - 0x10000) / 0x400)
      ++ unicode_escape (0xdc00 + (c - 0x10000) % 0x400)

unfoldable pub ascii : Text → Text
ascii [] = b'"' ∷ []
ascii (c ∷ s) = ascii_char c ++ ascii s

unfoldable pub ascii_quoted : Text → Text
ascii_quoted s = b'"' ∷ ascii s

-- `separators`
pub record Separators : Type 0 where
  pub between_items : Text
  pub behind_key : Text

abbrev pub default_separators : Separators
default_separators = record { between_items = codes ", "; behind_key = codes ": " }

abbrev pub compact_separators : Separators
compact_separators = record { between_items = codes ","; behind_key = codes ":" }

abbrev pub separator_unless : Separators → Bool → Text
separator_unless separators first = if first then [] else separators.between_items

module _ (R : Runtime) where
  -- allow_nan=True. The floats that are not finite are told apart by their `repr`.
  unfoldable pub float_text : R.Float → Text
  float_text x =
      if R.is_finite x
      then R.float_repr x
      else if text_eq (R.float_repr x) (codes "inf")
      then codes "Infinity"
      else if text_eq (R.float_repr x) (codes "-inf")
      then codes "-Infinity"
      else codes "NaN"

  module _ (separators : Separators) where
    unfoldable mutual
      pub ascii_encode : Value R.Float → Result Text
      ascii_encode null = ok (codes "null")
      ascii_encode (bool b) = ok (if b then codes "true" else codes "false")
      ascii_encode (int n) = int_repr n
      ascii_encode (float x) = ok (float_text x)
      ascii_encode (str s) = ok (ascii_quoted s)
      ascii_encode (list xs) = do s ← ascii_items xs true; ok (b'[' ∷ s)
      ascii_encode (tuple xs) = do s ← ascii_items xs true; ok (b'[' ∷ s)
      ascii_encode (dict fs) = do s ← ascii_fields fs true; ok (b'{' ∷ s)
      ascii_encode (foreign s) = raised type_error

      pub ascii_items : Items R.Float → Bool → Result Text
      ascii_items no_items first = ok (b']' ∷ [])
      ascii_items (item v xs) first = do
        s ← ascii_encode v
        t ← ascii_items xs false
        ok (separator_unless separators first ++ (s ++ t))

      pub ascii_fields : Fields R.Float → Bool → Result Text
      ascii_fields no_fields first = ok (b'}' ∷ [])
      ascii_fields (field k v fs) first = do
        s ← ascii_encode v
        t ← ascii_fields fs false
        ok (
            separator_unless separators first
            ++ (ascii_quoted k ++ (separators.behind_key ++ (s ++ t))))
