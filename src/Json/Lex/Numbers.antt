-- ===== src/Json/Lex/Numbers.antt =====
-- The scanner reads encoded integers and floats back.
use mcp_attest.Base.{
  ℕ, zero, suc, ◌≡◌, refl, sym, ap, ◌∙◌, Bool, true, false, some, ◌∷◌, ◌++◌, append_assoc, arith,
}
use mcp_attest.Base.Int.{ℤ, pos, negsuc}
use mcp_attest.Base.Decimal.{decimal}
use mcp_attest.Base.Text.{Text}
use mcp_attest.Errors.{ok}
use mcp_attest.Runtime.{
  Runtime, IsLawful, Tail, fraction, exponent, fraction_exponent, IsTail, render_tail, minus,
}
use mcp_attest.Value.{int, float}
use mcp_attest.Value.Convert.Repr.{int_repr}
use mcp_attest.Json.Encode.{encode_float}
use mcp_attest.Json.Token.{scalar, between, whole}
use mcp_attest.Json.Lex.{push, lex, number_value, number_int}
use mcp_attest.Json.Lex.Digits.{
  Delimited, whole_phase, tail_phase, whole_phase-CanEnd, tail_phase-CanEnd, number_int-decimal,
  number_int-negative, int_repr-pos, int_repr-negsuc, at_whole,
}
use mcp_attest.Json.Lex.Phases.{lex-decimal, lex-minus, lex-tail, lex-end}

module _ (R : Runtime) where
  whole_value :
      (n : ℕ) (acc : Text) (z : ℤ)
      → number_int acc ≡ ok z
      → number_value R (whole_phase n) acc ≡ ok (scalar (int z))
  unfolding number_value
  whole_value zero acc z h = rw h
  whole_value (suc n) acc z h = rw h

  tail_value :
      (t : Tail) (acc : Text) (x : R.Float)
      → R.float_of_text acc ≡ some x
      → number_value R (tail_phase t) acc ≡ ok (scalar (float x))
  unfolding number_value
  tail_value (fraction d ds) acc x h = rw h
  tail_value (exponent negative e es) acc x h = rw h
  tail_value (fraction_exponent d ds negative e es) acc x h = rw h

  -- An integer that can be printed is read back, before any delimiter.
  pub lex-int :
      (z : ℤ) (t s : Text)
      → int_repr z ≡ ok t
      → Delimited s
      → lex R between (t ++ s) ≡ push R (ok (scalar (int z))) (lex R between s)
  lex-int (pos n) t s h d =
      let (e, k) = int_repr-pos n t h in
      rw (← e) (
        lex-decimal R n s
        ∙ lex-end R (whole_phase n) (decimal n) s (whole_phase-CanEnd n) d
        ∙ ap (λ v. push R v (lex R between s))
            (whole_value n (decimal n) (pos n) (number_int-decimal n k)))
  lex-int (negsuc n) t s h d =
      let (e, k) = int_repr-negsuc n t h in
      rw (← e) (
        lex-minus R true (suc n) s
        ∙ lex-end R whole (b'-' ∷ decimal (suc n)) s at_whole d
        ∙ ap (λ v. push R v (lex R between s))
            (whole_value (suc n) (b'-' ∷ decimal (suc n)) (negsuc n) (number_int-negative n k)))

  minus-append : (negative : Bool) (s t : Text) → minus negative (s ++ t) ≡ minus negative s ++ t
  minus-append true s t = refl
  minus-append false s t = refl

  lex_shaped :
      (negative : Bool) (n : ℕ) (tail : Tail) (x : R.Float) (s : Text)
      → IsTail tail
      → R.float_of_text (minus negative (decimal n ++ render_tail tail)) ≡ some x
      → Delimited s
      → lex R between (minus negative (decimal n ++ render_tail tail) ++ s)
        ≡ push R (ok (scalar (float x))) (lex R between s)
  lex_shaped negative n tail x s shape read d =
      let whole_part = minus negative (decimal n) in
      let joined = minus-append negative (decimal n) (render_tail tail) in
      ap (λ u. lex R between (u ++ s)) joined
      ∙ ap (lex R between) (append_assoc whole_part (render_tail tail) s)
      ∙ ap (lex R between) (sym (minus-append negative (decimal n) (render_tail tail ++ s)))
      ∙ lex-minus R negative n (render_tail tail ++ s)
      ∙ lex-tail R n whole_part tail s shape
      ∙ lex-end R (tail_phase tail) (whole_part ++ render_tail tail) s (tail_phase-CanEnd tail) d
      ∙ ap (λ v. push R v (lex R between s))
          (tail_value tail (whole_part ++ render_tail tail) x
            (ap R.float_of_text (sym joined) ∙ read))

  pub encode_float_finite :
      (x : R.Float) (t : Text)
      → encode_float R x ≡ ok t
      → (R.is_finite x ≡ true) × (R.float_repr x ≡ t)
  unfolding encode_float
  encode_float_finite x t h = ground arith

  -- So is a finite float.
  pub lex-float :
      IsLawful R
      → (x : R.Float) (t s : Text) → encode_float R x ≡ ok t
      → Delimited s
      → lex R between (t ++ s) ≡ push R (ok (scalar (float x))) (lex R between s)
  lex-float L x t s h d =
      let (finite, written) = encode_float_finite x t h in
      let (negative, n, tail, shape, e) = L.repr_shape x finite in
      rw (← written, e)
        (lex_shaped negative n tail x s shape (ap R.float_of_text (sym e) ∙ L.repr_read x finite) d)
