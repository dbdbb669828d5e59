-- ===== src/Value/Convert.antt =====
-- `str`, `int` and `float` applied to a value, and `str.strip`.
pub mod Repr
use mcp_attest.Base.{
  ℕ, ◌+◌, ◌*◌, ◌-◌, Bool, true, false, ◌||◌, ◌&&◌, Option, none, some, List, [], ◌∷◌, ◌++◌, ltb,
  leb, ◌==◌, if◌then◌else◌, length,
}
use mcp_attest.Base.Int.{ℤ, pos, negsuc, negate}
use mcp_attest.Base.Text.{Text, codes}
use mcp_attest.Base.Decimal.{decimal}
use mcp_attest.Errors.{Result, ok, raised, ◌>>=◌, or_raise, value_error, type_error, overflow_error}
use mcp_attest.Runtime.{Runtime}
use mcp_attest.Value.{Value, null, bool, int, float, str, list, tuple, dict, foreign}
use mcp_attest.Value.Convert.Repr.{repr, max_digits, is_space}
use mathlib.Core.List.{reverse}

unfoldable pub drop_space : Text → Text
drop_space [] = []
drop_space (c ∷ s) = if is_space c then drop_space s else c ∷ s

-- s.strip()
unfoldable pub strip : Text → Text
unfolding drop_space
strip s = reverse (drop_space (reverse (drop_space s)))

module _ (R : Runtime) where
  -- Digits of any script, with single underscores between them. `ready` is false where an underscore
  -- or the end may not come: at the start and behind an underscore.
  unfoldable pub read_digits : Bool → ℕ → ℕ → Text → Result ℕ
  read_digits ready count n [] =
      if ready
      then (if ltb max_digits count then raised value_error else ok n)
      else raised value_error
  read_digits ready count n (c ∷ s) = elim (c == b'_') [
    | true ↦ if ready then read_digits false count n s else raised value_error
    | false ↦ elim (R.digit_value c) [
      | none ↦ raised value_error
      | some d ↦ read_digits true (count + 1) (n * 10 + d) s
    ]
  ]

  unfoldable pub read_signed : Text → Result ℤ
  unfolding read_digits
  read_signed [] = raised value_error
  read_signed (c ∷ s) =
      if c == b'-'
      then (do n ← read_digits false 0 0 s; ok (negate n))
      else if c == b'+'
      then (do n ← read_digits false 0 0 s; ok (pos n))
      else (do n ← read_digits false 0 0 (c ∷ s); ok (pos n))

  -- int(v)
  unfoldable pub to_int : Value R.Float → Result ℤ
  unfolding read_signed strip
  to_int null = raised type_error
  to_int (bool b) = ok (pos (if b then 1 else 0))
  to_int (int n) = ok n
  to_int (float x) = R.int_of_float x
  to_int (str s) = read_signed (strip s)
  to_int (list xs) = raised type_error
  to_int (tuple xs) = raised type_error
  to_int (dict fs) = raised type_error
  to_int (foreign s) = raised type_error

  -- float(v)
  unfoldable pub to_float : Value R.Float → Result R.Float
  to_float null = raised type_error
  to_float (bool b) = or_raise overflow_error (R.float_of_int (pos (if b then 1 else 0)))
  to_float (int n) = or_raise overflow_error (R.float_of_int n)
  to_float (float x) = ok x
  to_float (str s) = or_raise value_error (R.float_of_text s)
  to_float (list xs) = raised type_error
  to_float (tuple xs) = raised type_error
  to_float (dict fs) = raised type_error
  to_float (foreign s) = raised type_error

  -- str(v)
  unfoldable pub to_str : Value R.Float → Result Text
  to_str (str s) = ok s
  to_str v = repr R v
