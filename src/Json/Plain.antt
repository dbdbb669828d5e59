-- ===== src/Json/Plain.antt =====
-- Encoded numbers are plain ASCII.
use mcp_attest.Base.{
  ℕ, zero, suc, ◌≤◌, ◌<◌, ◌≡◌, Bool, true, false, List, [], ◌∷◌, ◌++◌, arith, All, All-append,
}
use mcp_attest.Base.Int.{ℤ, pos, negsuc}
use mcp_attest.Base.Hex.{hex_digit}
use mcp_attest.Base.Decimal.{decimal, IsDigitChar, decimal-Leading, decimal-zero}
use mcp_attest.Base.Text.{Text}
use mcp_attest.Errors.{ok}
use mcp_attest.Runtime.{
  Runtime, IsLawful, IsDigit, Tail, fraction, exponent, fraction_exponent, IsTail, render_tail,
  digit_chars, exponent_sign, minus,
}
use mcp_attest.Value.Convert.Repr.{int_repr}
use mcp_attest.Json.Encode.{encode_float}
use mcp_attest.Json.Lex.Digits.{int_repr-pos, int_repr-negsuc, All-digit_chars}
use mcp_attest.Json.Lex.Numbers.{encode_float_finite}

-- The ASCII characters from the space to the tilde.
abbrev pub IsPlain : ℕ → Type 0
IsPlain c = (32 ≤ c) × (c < 127)

pub digits-IsPlain : (s : Text) → All IsDigitChar s → All IsPlain s
digits-IsPlain [] h = tt
digits-IsPlain (c ∷ s) (h, hs) = (ground arith, digits-IsPlain s hs)

pub decimal-IsPlain : (n : ℕ) → All IsPlain (decimal n)
decimal-IsPlain zero = rw decimal-zero (ground arith, tt)
decimal-IsPlain (suc n) =
    let l = decimal-Leading (suc n) (ground arith) in
    rw l.eq (ground (arith, l.lower, l.upper), digits-IsPlain l.others l.digits)

pub digit_chars-IsPlain :
    (d : ℕ) (ds : List ℕ) → IsDigit d → All IsDigit ds → All IsPlain (digit_chars d ds)
digit_chars-IsPlain d ds h hs = (ground arith, digits-IsPlain _ (All-digit_chars ds hs))

pub exponent_sign-IsPlain : (negative : Bool) → All IsPlain (exponent_sign negative)
exponent_sign-IsPlain true = (ground arith, tt)
exponent_sign-IsPlain false = (ground arith, tt)

pub exponent-IsPlain :
    (negative : Bool) (e : ℕ) (es : List ℕ)
    → IsDigit e
    → All IsDigit es
    → All IsPlain (exponent_sign negative ++ digit_chars e es)
exponent-IsPlain negative e es h hs =
    All-append IsPlain (exponent_sign negative) (digit_chars e es) (exponent_sign-IsPlain negative)
      (digit_chars-IsPlain e es h hs)

pub render_tail-IsPlain : (t : Tail) → IsTail t → All IsPlain (render_tail t)
render_tail-IsPlain (fraction d ds) (h, hs) = (ground arith, digit_chars-IsPlain d ds h hs)
render_tail-IsPlain (exponent negative e es) (h, hs) =
    (ground arith, exponent-IsPlain negative e es h hs)
render_tail-IsPlain (fraction_exponent d ds negative e es) ((h, hs), (k, ks)) = (
  ground arith,
  All-append IsPlain (digit_chars d ds) (b'e' ∷ (exponent_sign negative ++ digit_chars e es))
      (digit_chars-IsPlain d ds h hs) (ground arith, exponent-IsPlain negative e es k ks),
)

pub minus-IsPlain : (negative : Bool) (s : Text) → All IsPlain s → All IsPlain (minus negative s)
minus-IsPlain true s h = (ground arith, h)
minus-IsPlain false s h = h

pub int_repr-IsPlain : (z : ℤ) (s : Text) → int_repr z ≡ ok s → All IsPlain s
int_repr-IsPlain (pos n) s h = rw (← (int_repr-pos n s h).0) (decimal-IsPlain n)
int_repr-IsPlain (negsuc n) s h =
    rw (← (int_repr-negsuc n s h).0) (ground arith, decimal-IsPlain (suc n))

pub hex_digit-IsPlain : (d : ℕ) → d < 16 → IsPlain (hex_digit d)
unfolding hex_digit
hex_digit-IsPlain d h = ground (arith, h)

module _ (R : Runtime) (L : IsLawful R) where
  pub encode_float-IsPlain : (x : R.Float) (s : Text) → encode_float R x ≡ ok s → All IsPlain s
  encode_float-IsPlain x s h =
      let (finite, written) = encode_float_finite R x s h in
      let (negative, n, tail, shape, e) = L.repr_shape x finite in
      rw (← written, e)
        (minus-IsPlain negative (decimal n ++ render_tail tail) (
          All-append IsPlain (decimal n) (render_tail tail) (decimal-IsPlain n)
            (render_tail-IsPlain tail shape)))
