-- ===== src/Json/Visible.antt =====
-- Encoded JSON holds no control character, and the text of a dict stands between braces.
use mcp_attest.Base.{
  ℕ, ◌≤◌, ◌/◌, ◌%◌, ◌≡◌, sym, ap, ◌∙◌, Bool, true, false, [], ◌∷◌, ◌++◌, append_assoc, arith, All,
  All-append, if◌then◌else◌,
}
use mcp_attest.Base.Hex.{hex_digit}
use mcp_attest.Base.Text.{Text, codes}
use mcp_attest.Errors.{Result, ok, ◌>>=◌}
use mcp_attest.Errors.Laws.{>>=-eq-ok, ok-injective}
use mcp_attest.Runtime.{Runtime, IsLawful}
use mcp_attest.Value.{
  Value, Items, no_items, item, Fields, no_fields, field, null, bool, int, float, str, list, tuple,
  dict, foreign,
}
use mcp_attest.Json.Encode.{
  encode, encode_items, encode_fields, comma_unless, quoted, escape, escape_char,
}
use mcp_attest.Json.Plain.{IsPlain, int_repr-IsPlain, encode_float-IsPlain}

-- The characters from the space on.
abbrev pub IsVisible : ℕ → Type 0
IsVisible c = 32 ≤ c

plain-IsVisible : (s : Text) → All IsPlain s → All IsVisible s
plain-IsVisible [] h = tt
plain-IsVisible (c ∷ s) (h, hs) = (h.0, plain-IsVisible s hs)

hex_digit-IsVisible : (d : ℕ) → IsVisible (hex_digit d)
unfolding hex_digit
hex_digit-IsVisible d = ground arith

escape_char-IsVisible : (c : ℕ) → All IsVisible (escape_char c)
unfolding escape_char
escape_char-IsVisible c = ground (arith, hex_digit-IsVisible (c / 16), hex_digit-IsVisible (c % 16))

escape-IsVisible : (s : Text) → All IsVisible (escape s)
unfolding escape
escape-IsVisible [] = (omega arith, tt)
escape-IsVisible (c ∷ s) =
    All-append IsVisible (escape_char c) (escape s) (escape_char-IsVisible c) (escape-IsVisible s)

quoted-IsVisible : (s : Text) → All IsVisible (quoted s)
unfolding quoted
quoted-IsVisible s = (omega arith, escape-IsVisible s)

comma_unless-IsVisible : (first : Bool) → All IsVisible (comma_unless first)
comma_unless-IsVisible true = tt
comma_unless-IsVisible false = (omega arith, tt)

module _ (R : Runtime) (L : IsLawful R) where
  bool-IsVisible : (b : Bool) → All IsVisible (if b then codes "true" else codes "false")
  bool-IsVisible true = omega arith
  bool-IsVisible false = omega arith

  opened-IsVisible :
      (c : ℕ) (r : Result Text) (s : Text)
      → IsVisible c
      → (do t ← r; ok (c ∷ t)) ≡ ok s
      → ((t : Text) → r ≡ ok t → All IsVisible t)
      → All IsVisible s
  opened-IsVisible c r s v h inner =
      let (t, ht, e) = >>=-eq-ok r (λ t. ok (c ∷ t)) h in rw (← ok-injective e) (v, inner t ht)

  mutual
    unfolding encode

    encode-IsVisible_lem : (v : Value R.Float) (s : Text) → encode R v ≡ ok s → All IsVisible s
    encode-IsVisible_lem null s h = rw (← ok-injective h) (omega arith)
    encode-IsVisible_lem (bool b) s h = rw (← ok-injective h) (bool-IsVisible b)
    encode-IsVisible_lem (int n) s h = plain-IsVisible s (int_repr-IsPlain n s h)
    encode-IsVisible_lem (float x) s h = plain-IsVisible s (encode_float-IsPlain R L x s h)
    encode-IsVisible_lem (str u) s h = rw (← ok-injective h) (quoted-IsVisible u)
    encode-IsVisible_lem (foreign u) s h = cc
    encode-IsVisible_lem (list xs) s h =
        opened-IsVisible b'[' (encode_items R xs true) s (omega arith) h
          (encode_items-IsVisible xs true)
    encode-IsVisible_lem (tuple xs) s h =
        opened-IsVisible b'[' (encode_items R xs true) s (omega arith) h
          (encode_items-IsVisible xs true)
    encode-IsVisible_lem (dict fs) s h =
        opened-IsVisible b'{' (encode_fields R fs true) s (omega arith) h
          (encode_fields-IsVisible fs true)

    encode_items-IsVisible :
        (xs : Items R.Float) (first : Bool) (s : Text)
        → encode_items R xs first ≡ ok s
        → All IsVisible s
    encode_items-IsVisible no_items first s h = rw (← ok-injective h) (omega arith)
    encode_items-IsVisible (item v xs) first s h =
        let f = λ (a : Text) (b : Text). comma_unless first ++ (a ++ b) in
        let (a, ha, k) =
          >>=-eq-ok (encode R v) (λ a. do b ← encode_items R xs false; ok (f a b)) h in
        let (b, hb, e) = >>=-eq-ok (encode_items R xs false) (λ b. ok (f a b)) k in
        rw (← ok-injective e) (
          All-append IsVisible (comma_unless first) (a ++ b) (comma_unless-IsVisible first) (
            All-append IsVisible a b (encode-IsVisible_lem v a ha)
              (encode_items-IsVisible xs false b hb)))

    encode_fields-IsVisible :
        (fs : Fields R.Float) (first : Bool) (s : Text)
        → encode_fields R fs first ≡ ok s
        → All IsVisible s
    encode_fields-IsVisible no_fields first s h = rw (← ok-injective h) (omega arith)
    encode_fields-IsVisible (field k v fs) first s h =
        let f = λ (a : Text) (b : Text). comma_unless first ++ (quoted k ++ (b':' ∷ (a ++ b))) in
        let (a, ha, l) =
          >>=-eq-ok (encode R v) (λ a. do b ← encode_fields R fs false; ok (f a b)) h in
        let (b, hb, e) = >>=-eq-ok (encode_fields R fs false) (λ b. ok (f a b)) l in
        rw (← ok-injective e) (
          All-append IsVisible (comma_unless first) (quoted k ++ (b':' ∷ (a ++ b)))
            (comma_unless-IsVisible first)
            (All-append IsVisible (quoted k) (b':' ∷ (a ++ b)) (quoted-IsVisible k) (
              omega arith,
              All-append IsVisible a b (encode-IsVisible_lem v a ha)
                  (encode_fields-IsVisible fs false b hb),
            )))

  -- No encoded value holds a line end.
  pub encode-IsVisible : (v : Value R.Float) (s : Text) → encode R v ≡ ok s → All IsVisible s
  encode-IsVisible v s h = encode-IsVisible_lem v s h

-- The text of a dict stands between braces.
module _ (R : Runtime) where
  encode_fields-closed :
      (fs : Fields R.Float) (first : Bool) (s : Text)
      → encode_fields R fs first ≡ ok s
      → (m : Text) × (s ≡ m ++ (b'}' ∷ []))
  unfolding encode
  encode_fields-closed no_fields first s h = ([], sym (ok-injective h))
  encode_fields-closed (field k v fs) first s h =
      let f = λ (a : Text) (b : Text). comma_unless first ++ (quoted k ++ (b':' ∷ (a ++ b))) in
      let (a, ha, l) =
        >>=-eq-ok (encode R v) (λ a. do b ← encode_fields R fs false; ok (f a b)) h in
      let (b, hb, e) = >>=-eq-ok (encode_fields R fs false) (λ b. ok (f a b)) l in
      let (m, closed) = encode_fields-closed fs false b hb in
      (f a m, sym (ok-injective e) ∙ ap (f a) closed ∙ simp append_assoc)

  pub encode-braces :
      (fs : Fields R.Float) (s : Text)
      → encode R (dict fs) ≡ ok s
      → (m : Text) × (s ≡ (b'{' ∷ m) ++ (b'}' ∷ []))
  unfolding encode
  encode-braces fs s h =
      let (t, ht, e) = >>=-eq-ok (encode_fields R fs true) (λ t. ok (b'{' ∷ t)) h in
      let (m, closed) = encode_fields-closed fs true t ht in
      (m, sym (ok-injective e) ∙ ap (λ u. b'{' ∷ u) closed)
