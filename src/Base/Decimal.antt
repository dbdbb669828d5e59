-- ===== src/Base/Decimal.antt =====
-- Decimal digits of a number, as `int.__repr__` writes them and `int` reads them.
use Prim.Native.Nat.{ℕ, zero, suc, ◌+◌, ◌-◌, ◌*◌, ◌/◌, ◌%◌, ◌≤◌, ◌<◌}
use mathlib.Core.Path.{◌≡◌, refl}
use mathlib.Core.Logic.{inl, inr}
use mathlib.Core.Bool.{Bool, ◌&&◌}
use mathlib.Core.List.{[], ◌∷◌}
use native.Mathlib.Omega.{arith}
use mcp_attest.Base.Tests.{leb, ltb, ltb→lt, if◌then◌else◌, Bool-cases}
use mcp_attest.Base.Lists.{All}
use mcp_attest.Base.Text.{Text}

abbrev pub digit_char : ℕ → ℕ
digit_char d = b'0' + d

abbrev pub is_digit : ℕ → Bool
is_digit c = leb b'0' c && leb c b'9'

-- The digits of `n` before `out`; each round divides `n` by ten, and `n + 1` rounds are enough.
unfoldable pub digits_onto : ℕ → ℕ → Text → Text
digits_onto zero n out = out
digits_onto (suc fuel) n out =
    let more = digits_onto fuel (n / 10) (digit_char (n % 10) ∷ out) in
    if ltb n 10 then digit_char n ∷ out else more

unfoldable pub decimal : ℕ → Text
unfolding digits_onto
decimal n = digits_onto (suc n) n []

-- The number that the digits `ds` stand for behind a number `n` already read.
unfoldable pub digits_value : ℕ → Text → ℕ
digits_value n [] = n
digits_value n (c ∷ ds) = digits_value (n * 10 + (c - b'0')) ds

digits_value-digits_onto :
    (fuel n : ℕ) (out : Text)
    → n < fuel
    → digits_value 0 (digits_onto fuel n out) ≡ digits_value n out
unfolding digits_onto digits_value
digits_value-digits_onto zero n out h = absurd (omega arith)
digits_value-digits_onto (suc fuel) n out h =
    ground (arith, digits_value-digits_onto fuel (n / 10) (digit_char (n % 10) ∷ out))

-- Reading the decimal print of a number gives the number.
pub digits_value-decimal : (n : ℕ) → digits_value 0 (decimal n) ≡ n
unfolding decimal digits_value
digits_value-decimal n = digits_value-digits_onto (suc n) n [] (omega arith)

abbrev pub IsDigitChar : ℕ → Type 0
IsDigitChar c = (b'0' ≤ c) × (c ≤ b'9')

-- A positive number begins with a digit other than zero.
pub record Leading (s : Text) : Type 0 where
  pub first : ℕ
  pub others : Text
  pub eq : s ≡ first ∷ others
  pub lower : b'1' ≤ first
  pub upper : first ≤ b'9'
  pub digits : All IsDigitChar others

digits_onto-Leading :
    (fuel n : ℕ) (out : Text)
    → n < fuel
    → 0 < n
    → All IsDigitChar out
    → Leading (digits_onto fuel n out)
unfolding digits_onto
digits_onto-Leading zero n out h p a = absurd (omega arith)
digits_onto-Leading (suc fuel) n out h p a = elim (Bool-cases (ltb n 10)) [
  | inl small ↦ rw small record {
    first = digit_char n;
    others = out;
    eq = refl;
    lower = omega arith;
    upper = omega (arith, ltb→lt n 10 small);
    digits = a;
  }
  | inr large ↦
      let big : 9 < n = ground arith in
      rw large (
        digits_onto-Leading fuel (n / 10) (digit_char (n % 10) ∷ out) (omega arith) (omega arith)
          ((omega arith, omega arith), a))
]

pub decimal-Leading : (n : ℕ) → 0 < n → Leading (decimal n)
unfolding decimal
decimal-Leading n p = digits_onto-Leading (suc n) n [] (omega arith) p tt

pub decimal-zero : decimal 0 ≡ b'0' ∷ []
unfolding decimal
decimal-zero = refl
