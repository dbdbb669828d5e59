-- ===== src/Runtime.antt =====
-- What the package takes from CPython and does not implement: IEEE doubles and the Unicode database.
-- They are parameters; `IsLawful` states the documented facts about `repr` that proofs rely on.
use mcp_attest.Base.{
  ℕ, ◌<◌, ◌≡◌, Bool, true, Option, some, List, [], ◌∷◌, ◌++◌, map, if◌then◌else◌, All,
}
use mcp_attest.Base.Int.{ℤ}
use mcp_attest.Base.Text.{Text}
use mcp_attest.Base.Decimal.{decimal, digit_char}
use mcp_attest.Errors.{Result}

pub record Runtime : Type 1 where
  pub Float : Type 0
  -- math.isfinite
  pub is_finite : Float → Bool
  -- float.__repr__
  pub float_repr : Float → Text
  -- float(s); `none` stands for its ValueError
  pub float_of_text : Text → Option Float
  -- float(n); `none` stands for its OverflowError
  pub float_of_int : ℤ → Option Float
  -- int(x): ValueError for a NaN, OverflowError for an infinity
  pub int_of_float : Float → Result ℤ
  -- str.isprintable of one code point
  pub is_printable : ℕ → Bool
  -- the value of a decimal digit of any script
  pub digit_value : ℕ → Option ℕ

abbrev pub IsDigit : ℕ → Type 0
IsDigit d = d < 10

-- What follows the whole part in the `repr` of a finite float.
pub data Tail : Type 0 where
  fraction : ℕ → List ℕ → Tail
  exponent : Bool → ℕ → List ℕ → Tail
  fraction_exponent : ℕ → List ℕ → Bool → ℕ → List ℕ → Tail

abbrev pub exponent_sign : Bool → Text
exponent_sign negative = (if negative then b'-' else b'+') ∷ []

abbrev pub digit_chars : ℕ → List ℕ → Text
digit_chars d ds = digit_char d ∷ map digit_char ds

abbrev pub render_tail : Tail → Text
render_tail (fraction d ds) = b'.' ∷ digit_chars d ds
render_tail (exponent negative e es) = b'e' ∷ (exponent_sign negative ++ digit_chars e es)
render_tail (fraction_exponent d ds negative e es) =
    b'.' ∷ (digit_chars d ds ++ (b'e' ∷ (exponent_sign negative ++ digit_chars e es)))

abbrev pub IsTail : Tail → Type 0
IsTail (fraction d ds) = IsDigit d × All IsDigit ds
IsTail (exponent negative e es) = IsDigit e × All IsDigit es
IsTail (fraction_exponent d ds negative e es) =
    (IsDigit d × All IsDigit ds) × (IsDigit e × All IsDigit es)

abbrev pub minus : Bool → Text → Text
minus negative s = if negative then b'-' ∷ s else s

-- `repr` writes a finite float as a number with a point or an exponent, and `float` reads it back.
pub record IsLawful (R : Runtime) : Type 0 where
  pub repr_shape :
      (x : R.Float)
      → R.is_finite x ≡ true
      → (negative : Bool) × (whole : ℕ) × (tail : Tail) × IsTail tail
        × (R.float_repr x ≡ minus negative (decimal whole ++ render_tail tail))
  pub repr_read : (x : R.Float) → R.is_finite x ≡ true → R.float_of_text (R.float_repr x) ≡ some x
