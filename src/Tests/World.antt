-- ===== src/Tests/World.antt =====
-- A runtime whose floats are whole numbers and one NaN, and primitives that are sums of bytes.
use mcp_attest.Base.{
  ℕ, zero, suc, ◌+◌, ◌-◌, ◌*◌, ◌/◌, ◌%◌, ◌≡◌, refl, sym, ap, ◌∙◌, Bool, true, false, Option, none,
  some, [], ◌∷◌, ◌++◌, arith, All, All-append, ◌==◌, leb, if◌then◌else◌,
}
use mcp_attest.Base.Int.{ℤ, pos, negsuc}
use mcp_attest.Base.Text.{Text, Bytes, codes, text_eq, text_eq_refl}
use mcp_attest.Base.Hex.{IsByte}
use mcp_attest.Base.Decimal.{
  decimal, digits_onto, digits_value, digits_value-decimal, is_digit, decimal-Leading, IsDigitChar,
}
use mcp_attest.Errors.{Result, ok, raised, value_error}
use mcp_attest.Runtime.{Runtime, IsLawful, fraction, Tail, IsTail, minus, render_tail}
use mcp_attest.Crypto.{Primitives, IsSound, accepted, invalid_signature}

abbrev before_point : Text → Text
before_point [] = []
before_point (c ∷ s) = if c == b'.' then [] else c ∷ before_point s

abbrev toy_repr : Option ℕ → Text
toy_repr none = codes "nan"
toy_repr (some n) = decimal n ++ codes ".0"

abbrev toy_finite : Option ℕ → Bool
toy_finite none = false
toy_finite (some n) = true

abbrev toy_int : Option ℕ → Result ℤ
toy_int none = raised value_error
toy_int (some n) = ok (pos n)

abbrev toy_float : ℤ → Option (Option ℕ)
toy_float (pos n) = some (some n)
toy_float (negsuc n) = none

abbrev pub toy : Runtime
toy = record {
  Float = Option ℕ;
  is_finite = toy_finite;
  float_repr = toy_repr;
  float_of_text = λ s. some (some (digits_value 0 (before_point s)));
  float_of_int = toy_float;
  int_of_float = toy_int;
  is_printable = λ c. leb 32 c;
  digit_value = λ c. if is_digit c then some (c - b'0') else none;
}

before_point-digits : (ds s : Text) → All IsDigitChar ds → before_point (ds ++ (b'.' ∷ s)) ≡ ds
before_point-digits [] s h = refl
before_point-digits (d ∷ ds) s (h, hs) = ground (arith, before_point-digits ds s hs)

before_point-decimal : (n : ℕ) (s : Text) → before_point (decimal n ++ (b'.' ∷ s)) ≡ decimal n
before_point-decimal zero s = unfold decimal digits_onto in refl
before_point-decimal (suc n) s =
    let l = decimal-Leading (suc n) (omega arith) in
    ap (λ t. before_point (t ++ (b'.' ∷ s))) l.eq
    ∙ before_point-digits (l.first ∷ l.others) s (ground (arith, l.lower, l.upper), l.digits)
    ∙ sym l.eq

toy-shape :
    (x : Option ℕ)
    → toy_finite x ≡ true
    → (negative : Bool) × (whole : ℕ) × (tail : Tail) × IsTail tail
      × (toy_repr x ≡ minus negative (decimal whole ++ render_tail tail))
toy-shape none h = cc h
toy-shape (some n) h = (false, n, fraction 0 [], (omega arith, tt), refl)

toy-read :
    (x : Option ℕ)
    → toy_finite x ≡ true
    → some (some (digits_value 0 (before_point (toy_repr x)))) ≡ some x
toy-read none h = cc h
toy-read (some n) h =
    ap (λ t. some (some (digits_value 0 t))) (before_point-decimal n (b'0' ∷ []))
    ∙ ap (λ m. some (some m)) (digits_value-decimal n)

pub toy-IsLawful : IsLawful toy
toy-IsLawful = record { repr_shape = toy-shape; repr_read = toy-read }

abbrev sum : ℕ → Bytes → ℕ
sum n [] = n
sum n (b ∷ bs) = sum ((n * 3 + b) % 65536) bs

abbrev repeat : ℕ → ℕ → Bytes
repeat zero b = []
repeat (suc n) b = b ∷ repeat n b

repeat-IsByte : (n b : ℕ) → IsByte b → All IsByte (repeat n b)
repeat-IsByte zero b h = tt
repeat-IsByte (suc n) b h = (h, repeat-IsByte n b h)

abbrev digest : Bytes → Bytes
digest m = (sum 0 m % 256) ∷ (sum 0 m / 256 % 256) ∷ repeat 30 0

digest-IsByte : (m : Bytes) → All IsByte (digest m)
digest-IsByte m = (omega arith, (omega arith, repeat-IsByte 30 0 (omega arith)))

abbrev signature_of : Bytes → Bytes → Bytes
signature_of key m = digest (key ++ m) ++ digest m

abbrev pub toy_crypto : Primitives
toy_crypto = record {
  blake2b = digest;
  ed25519_public = λ key. key;
  ed25519_sign = signature_of;
  ed25519_verify =
      λ key m s. if text_eq s (signature_of key m) then accepted else invalid_signature;
}

pub toy_crypto-IsSound : IsSound toy_crypto
toy_crypto-IsSound = record {
  digest_length = λ m. refl;
  digest_IsByte = digest-IsByte;
  public_length = λ k h. h;
  signature_length = λ k m h. refl;
  signature_IsByte = λ k m h.
      All-append IsByte (digest (k ++ m)) (digest m) (digest-IsByte (k ++ m)) (digest-IsByte m);
  sign_verifies = λ k m h. rw (text_eq_refl (signature_of k m)) refl;
}

-- 32 bytes that serve as private and public key.
abbrev pub toy_key : Bytes
toy_key = repeat 32 7
