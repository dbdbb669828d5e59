-- ===== src/Json/Lex/Digits.antt =====
-- Digits of a number, its phases in the scanner, and where it ends.
use mcp_attest.Base.{
  ℕ, zero, suc, ◌≤◌, ◌≡◌, refl, sym, ap, ◌∙◌, true, ◌||◌, List, [], ◌∷◌, arith, ◌==◌, All, length,
  map,
}
use mcp_attest.Base.Int.{pos, negsuc, negate, negate-suc}
use mcp_attest.Base.Decimal.{
  decimal, digit_char, IsDigitChar, decimal-Leading, digits_value-decimal, digits_value,
}
use mcp_attest.Base.Text.{Text}
use mcp_attest.Errors.{ok, ◌>>=◌}
use mcp_attest.Runtime.{IsDigit, Tail, fraction, exponent, fraction_exponent}
use mcp_attest.Value.Convert.Repr.{int_repr, max_digits}
use mcp_attest.Json.Token.{Phase, zero_digit, whole}
use mcp_attest.Json.Lex.{advance, next, stop, number_int, digits_int}

-- A number in an encoded text ends before a comma, a closing bracket or the end.
abbrev pub Delimited : Text → Type 0
Delimited [] = Unit
Delimited (c ∷ s) = (c == b',' || c == b']' || c == b'}') ≡ true

abbrev pub whole_phase : ℕ → Phase
whole_phase zero = zero_digit
whole_phase (suc n) = whole

abbrev pub tail_phase : Tail → Phase
tail_phase (fraction d ds) = Phase.fraction
tail_phase (exponent negative e es) = Phase.exponent
tail_phase (fraction_exponent d ds negative e es) = Phase.exponent

-- The phases in which a number may end, and end before a delimiter.
pub data CanEnd : Phase → Type 0 where
  at_zero : CanEnd zero_digit
  at_whole : CanEnd whole
  at_fraction : CanEnd Phase.fraction
  at_exponent : CanEnd Phase.exponent

pub whole_phase-CanEnd : (n : ℕ) → CanEnd (whole_phase n)
whole_phase-CanEnd zero = at_zero
whole_phase-CanEnd (suc n) = at_whole

pub tail_phase-CanEnd : (t : Tail) → CanEnd (tail_phase t)
tail_phase-CanEnd (fraction d ds) = at_fraction
tail_phase-CanEnd (exponent negative e es) = at_exponent
tail_phase-CanEnd (fraction_exponent d ds negative e es) = at_exponent

pub advance_delimiter :
    (p : Phase) (c : ℕ)
    → CanEnd p
    → (c == b',' || c == b']' || c == b'}') ≡ true
    → advance p c ≡ stop
unfolding advance
advance_delimiter p c at_zero h = ground arith
advance_delimiter p c at_whole h = ground arith
advance_delimiter p c at_fraction h = ground arith
advance_delimiter p c at_exponent h = ground arith

pub IsDigitChar-digit_char : (d : ℕ) → IsDigit d → IsDigitChar (digit_char d)
IsDigitChar-digit_char d h = (omega arith, omega arith)

pub All-digit_chars : (ds : List ℕ) → All IsDigit ds → All IsDigitChar (map digit_char ds)
All-digit_chars [] h = tt
All-digit_chars (d ∷ ds) (h, hs) = (IsDigitChar-digit_char d h, All-digit_chars ds hs)

-- The phases that a digit does not end.
abbrev pub Loops : Phase → Type 0
Loops p = (c : ℕ) → IsDigitChar c → advance p c ≡ next p

pub whole-Loops : Loops whole
unfolding advance
whole-Loops c h = ground arith

pub fraction-Loops : Loops Phase.fraction
unfolding advance
fraction-Loops c h = ground arith

pub exponent-Loops : Loops Phase.exponent
unfolding advance
exponent-Loops c h = ground arith

pub digits_int-decimal : (n : ℕ) → length (decimal n) ≤ max_digits → digits_int (decimal n) ≡ ok n
unfolding digits_int
digits_int-decimal n h = ground (arith, digits_value-decimal n)

pub number_int-unsigned :
    (c : ℕ) (s : Text) → b'0' ≤ c → number_int (c ∷ s) ≡ (do n ← digits_int (c ∷ s); ok (pos n))
unfolding number_int
number_int-unsigned c s h = ground arith

pub number_int-decimal :
    (n : ℕ) → length (decimal n) ≤ max_digits → number_int (decimal n) ≡ ok (pos n)
unfolding number_int
number_int-decimal zero h = unfold decimal digits_int digits_value in refl
number_int-decimal (suc n) h =
    let l = decimal-Leading (suc n) (omega arith) in
    let e = digits_int-decimal (suc n) h in
    ap number_int l.eq
    ∙ number_int-unsigned l.first l.others (omega (arith, l.lower))
    ∙ ap (λ ds. do m ← digits_int ds; ok (pos m)) (sym l.eq)
    ∙ ap (λ r. do m ← r; ok (pos m)) e

pub number_int-negative :
    (n : ℕ)
    → length (decimal (suc n)) ≤ max_digits
    → number_int (b'-' ∷ decimal (suc n)) ≡ ok (negsuc n)
unfolding number_int
number_int-negative n h =
    ap (λ r. do m ← r; ok (negate m)) (digits_int-decimal (suc n) h) ∙ ap ok (negate-suc n)

-- A printed integer has its digits and not too many of them.
pub int_repr-pos :
    (n : ℕ) (t : Text)
    → int_repr (pos n) ≡ ok t
    → (decimal n ≡ t) × (length (decimal n) ≤ max_digits)
unfolding int_repr
int_repr-pos n t h = ground arith

pub int_repr-negsuc :
    (n : ℕ) (t : Text)
    → int_repr (negsuc n) ≡ ok t
    → (b'-' ∷ decimal (suc n) ≡ t) × (length (decimal (suc n)) ≤ max_digits)
unfolding int_repr
int_repr-negsuc n t h = ground arith
