-- ===== src/Json/Lex/Phases.antt =====
-- How the scanner runs through the digits, the sign and the tail of a number.
use mcp_attest.Base.{
  ℕ, zero, suc, ◌≤◌, ◌≡◌, refl, sym, ap, ◌∙◌, Bool, true, false, [], ◌∷◌, ◌++◌, append_assoc,
  append-nil, arith, All, map,
}
use mcp_attest.Base.Decimal.{decimal, digit_char, IsDigitChar, decimal-Leading, decimal-zero}
use mcp_attest.Base.Text.{Text}
use mcp_attest.Runtime.{
  Runtime, IsDigit, Tail, fraction, exponent, fraction_exponent, IsTail, render_tail, digit_chars,
  exponent_sign, minus,
}
use mcp_attest.Json.Token.{
  between, number, go, Phase, sign, zero_digit, whole, point, mark, mark_sign,
}
use mcp_attest.Json.Lex.{push, step, start, lex, advance, next, stop, number_value}
use mcp_attest.Json.Lex.Strings.{lex-go}
use mcp_attest.Json.Lex.Digits.{
  Delimited, whole_phase, tail_phase, CanEnd, advance_delimiter, All-digit_chars, Loops,
  whole-Loops, fraction-Loops, exponent-Loops,
}

module _ (R : Runtime) where
  pub lex-next :
      (p q : Phase) (acc : Text) (c : ℕ) (s : Text)
      → advance p c ≡ next q
      → lex R (number p acc) (c ∷ s) ≡ lex R (number q (acc ++ (c ∷ []))) s
  unfolding step
  lex-next p q acc c s h = lex-go R _ _ c s (ground arith)

  pub lex-digits :
      (p : Phase) (acc ds s : Text)
      → Loops p
      → All IsDigitChar ds
      → lex R (number p acc) (ds ++ s) ≡ lex R (number p (acc ++ ds)) s
  lex-digits p acc [] s loops h = ap (λ t. lex R (number p t) s) (sym (append-nil acc))
  lex-digits p acc (c ∷ ds) s loops (h, hs) =
      lex-next p p acc c (ds ++ s) (loops c h)
      ∙ lex-digits p (acc ++ (c ∷ [])) ds s loops hs
      ∙ ap (λ t. lex R (number p t) s) (append_assoc acc (c ∷ []) ds)

  -- One character into a phase, and the digits that it takes.
  pub lex-run :
      (p q : Phase) (acc : Text) (c : ℕ) (ds s : Text)
      → advance p c ≡ next q
      → Loops q
      → All IsDigitChar ds
      → lex R (number p acc) (c ∷ (ds ++ s)) ≡ lex R (number q (acc ++ (c ∷ ds))) s
  lex-run p q acc c ds s h loops hs =
      lex-next p q acc c (ds ++ s) h
      ∙ lex-digits q (acc ++ (c ∷ [])) ds s loops hs
      ∙ ap (λ t. lex R (number q t) s) (append_assoc acc (c ∷ []) ds)

  pub start_digit : (c : ℕ) → b'1' ≤ c → c ≤ b'9' → start R c ≡ go (number whole (c ∷ []))
  unfolding start
  start_digit c h k = ground arith

  pub sign_digit : (c : ℕ) → b'1' ≤ c → c ≤ b'9' → advance sign c ≡ next whole
  unfolding advance
  sign_digit c h k = ground arith

  pub lex-decimal :
      (n : ℕ) (s : Text)
      → lex R between (decimal n ++ s) ≡ lex R (number (whole_phase n) (decimal n)) s
  unfolding step start
  lex-decimal zero s =
      rw decimal-zero (lex-go R between (number zero_digit (b'0' ∷ [])) b'0' s refl)
  lex-decimal (suc n) s =
      let l = decimal-Leading (suc n) (omega arith) in
      rw l.eq (
        lex-go R between (number whole (l.first ∷ [])) l.first (l.others ++ s)
          (start_digit l.first l.lower l.upper)
        ∙ lex-digits whole (l.first ∷ []) l.others s whole-Loops l.digits)

  pub lex-decimal_signed :
      (n : ℕ) (acc s : Text)
      → lex R (number sign acc) (decimal n ++ s)
        ≡ lex R (number (whole_phase n) (acc ++ decimal n)) s
  unfolding advance
  lex-decimal_signed zero acc s = rw decimal-zero (lex-next sign zero_digit acc b'0' s refl)
  lex-decimal_signed (suc n) acc s =
      let l = decimal-Leading (suc n) (omega arith) in
      rw l.eq (
        lex-run sign whole acc l.first l.others s (sign_digit l.first l.lower l.upper) whole-Loops
          l.digits)

  -- The digits of a number and its sign.
  pub lex-minus :
      (negative : Bool) (n : ℕ) (s : Text)
      → lex R between (minus negative (decimal n ++ s))
        ≡ lex R (number (whole_phase n) (minus negative (decimal n))) s
  unfolding step start
  lex-minus false n s = lex-decimal n s
  lex-minus true n s =
      lex-go R between (number sign (b'-' ∷ [])) b'-' (decimal n ++ s) refl
      ∙ lex-decimal_signed n (b'-' ∷ []) s

  pub lex-exponent :
      (p : Phase) (acc : Text) (negative : Bool) (e : ℕ) (es s : Text)
      → advance p b'e' ≡ next mark
      → IsDigit e
      → All IsDigit es
      → lex R (number p acc) (b'e' ∷ (exponent_sign negative ++ (digit_chars e es ++ s)))
        ≡ lex R
            (number Phase.exponent (acc ++ (b'e' ∷ (exponent_sign negative ++ digit_chars e es))))
            s
  unfolding advance
  lex-exponent p acc negative e es s h d ds =
      lex-next p mark acc b'e' _ h
      ∙ lex-next mark mark_sign (acc ++ (b'e' ∷ [])) _ _ (ground arith)
      ∙ lex-run mark_sign Phase.exponent ((acc ++ (b'e' ∷ [])) ++ exponent_sign negative)
          (digit_char e) (map digit_char es) s (ground arith) exponent-Loops (All-digit_chars es ds)
      ∙ ap (λ t. lex R (number Phase.exponent t) s)
          (append_assoc (acc ++ (b'e' ∷ [])) (exponent_sign negative) (digit_chars e es)
            ∙ append_assoc acc (b'e' ∷ []) (exponent_sign negative ++ digit_chars e es))

  pub lex-fraction :
      (n : ℕ) (acc : Text) (d : ℕ) (ds s : Text)
      → IsDigit d
      → All IsDigit ds
      → lex R (number (whole_phase n) acc) (b'.' ∷ (digit_chars d ds ++ s))
        ≡ lex R (number Phase.fraction (acc ++ (b'.' ∷ digit_chars d ds))) s
  unfolding advance
  lex-fraction n acc d ds s h hs =
      lex-next (whole_phase n) point acc b'.' _ (whole_point n)
      ∙ lex-run point Phase.fraction (acc ++ (b'.' ∷ [])) (digit_char d) (map digit_char ds) s
          (ground arith) fraction-Loops (All-digit_chars ds hs)
      ∙ ap (λ t. lex R (number Phase.fraction t) s)
          (append_assoc acc (b'.' ∷ []) (digit_chars d ds))
    where
      whole_point : (m : ℕ) → advance (whole_phase m) b'.' ≡ next point
      whole_point zero = refl
      whole_point (suc m) = refl

  pub whole_mark : (n : ℕ) → advance (whole_phase n) b'e' ≡ next mark
  unfolding advance
  whole_mark zero = refl
  whole_mark (suc n) = refl

  pub lex-tail :
      (n : ℕ) (acc : Text) (t : Tail) (s : Text)
      → IsTail t
      → lex R (number (whole_phase n) acc) (render_tail t ++ s)
        ≡ lex R (number (tail_phase t) (acc ++ render_tail t)) s
  unfolding advance
  lex-tail n acc (fraction d ds) s (h, hs) = lex-fraction n acc d ds s h hs
  lex-tail n acc (exponent negative e es) s (h, hs) =
      ap (λ t. lex R (number (whole_phase n) acc) (b'e' ∷ t))
        (append_assoc (exponent_sign negative) (digit_chars e es) s)
      ∙ lex-exponent (whole_phase n) acc negative e es s (whole_mark n) h hs
  lex-tail n acc (fraction_exponent d ds negative e es) s ((h, hs), (k, ks)) =
      ap (λ t. lex R (number (whole_phase n) acc) (b'.' ∷ t))
        (append_assoc (digit_chars d ds) _ s
          ∙ ap (λ t. digit_chars d ds ++ (b'e' ∷ t))
              (append_assoc (exponent_sign negative) (digit_chars e es) s))
      ∙ lex-fraction n acc d ds _ h hs
      ∙ lex-exponent Phase.fraction _ negative e es s refl k ks
      ∙ ap (λ t. lex R (number Phase.exponent t) s) (append_assoc acc (b'.' ∷ digit_chars d ds) _)

  -- Before a delimiter the number ends, and the delimiter is read as a token of its own.
  pub lex-end :
      (p : Phase) (acc s : Text)
      → CanEnd p
      → Delimited s
      → lex R (number p acc) s ≡ push R (number_value R p acc) (lex R between s)
  unfolding lex
  lex-end p acc [] e d = refl
  lex-end p acc (c ∷ s) e d = ended_at (advance_delimiter p c e d)
    where
      ended_at :
          advance p c ≡ stop
          → lex R (number p acc) (c ∷ s) ≡ push R (number_value R p acc) (lex R between (c ∷ s))
      ended_at h = unfold step start in ground (arith, h)
