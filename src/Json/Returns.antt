-- ===== src/Json/Returns.antt =====
-- Which values `json.dumps` and the UTF-8 codec accept.
use mcp_attest.Base.{
  ℕ, ◌<◌, ◌/◌, ◌%◌, ◌≡◌, inl, inr, refl, true, false, [], ◌∷◌, ◌++◌, arith, All, All-append,
  Bool-cases,
}
use mcp_attest.Base.Text.{Text, Bytes, text_le}
use mcp_attest.Base.Hex.{hex_digit, to_hex, IsByte}
use mcp_attest.Errors.{ErrorClass, Result, ok, raised}
use mcp_attest.Runtime.{Runtime}
use mcp_attest.Value.{
  Value, Items, no_items, item, Fields, no_fields, field, null, bool, int, float, str, list, tuple,
  dict, foreign,
}
use mcp_attest.Value.Convert.Repr.{int_repr}
use mcp_attest.Utf8
use mcp_attest.Utf8.{is_surrogate}
use mcp_attest.Json.Sort.{sort_keys, sort_items, sort_fields, insert_field}
use mcp_attest.Json.Encode.{quoted, escape, escape_char}
use mcp_attest.Json.Plain.{IsPlain, hex_digit-IsPlain}

-- The code points that have an encoding: all but the surrogates.
abbrev pub IsScalar : ℕ → Type 0
IsScalar c = (c < 0x110000) × (is_surrogate c ≡ false)

pub plain_char-IsScalar : (c : ℕ) → IsPlain c → IsScalar c
plain_char-IsScalar c h = ground (arith, h)

pub plain-IsScalar : (s : Text) → All IsPlain s → All IsScalar s
plain-IsScalar [] h = tt
plain-IsScalar (c ∷ s) (h, hs) = (plain_char-IsScalar c h, plain-IsScalar s hs)

-- A call that raises nothing returns.
ok_unless {ℓ} :
    {A : Type ℓ} (m : Result A) → ((e : ErrorClass) → m ≡ raised e → ⊥) → (a : A) × (m ≡ ok a)
ok_unless (ok a) h = (a, refl)
ok_unless (raised e) h = absurd (h e refl)

encode_char-returns : (c : ℕ) → IsScalar c → (bs : Bytes) × (Utf8.encode_char c ≡ ok bs)
unfolding Utf8.encode_char
encode_char-returns c h = ok_unless (Utf8.encode_char c) (λ e k. ground (arith, h, k))

pub utf8_encode-returns : (s : Text) → All IsScalar s → (bs : Bytes) × (Utf8.encode s ≡ ok bs)
unfolding Utf8.encode
utf8_encode-returns [] h = ([], refl)
utf8_encode-returns (c ∷ s) (h, hs) =
    let (bs, e) = encode_char-returns c h in
    let (rest, k) = utf8_encode-returns s hs in (bs ++ rest, rw (e, k) refl)

escape_char-IsScalar : (c : ℕ) → IsScalar c → All IsScalar (escape_char c)
unfolding escape_char
escape_char-IsScalar c h = ground (
  arith,
  h,
  λ (k : c / 16 < 16). plain_char-IsScalar (hex_digit (c / 16)) (hex_digit-IsPlain (c / 16) k),
  plain_char-IsScalar (hex_digit (c % 16)) (hex_digit-IsPlain (c % 16) (omega arith)),
)

escape-IsScalar : (s : Text) → All IsScalar s → All IsScalar (escape s)
unfolding escape
escape-IsScalar [] h = (plain_char-IsScalar b'"' (ground arith), tt)
escape-IsScalar (c ∷ s) (h, hs) =
    All-append IsScalar (escape_char c) (escape s) (escape_char-IsScalar c h) (escape-IsScalar s hs)

pub quoted-IsScalar : (s : Text) → All IsScalar s → All IsScalar (quoted s)
unfolding quoted
quoted-IsScalar s h = (plain_char-IsScalar b'"' (ground arith), escape-IsScalar s h)

-- A hexadecimal text.
pub to_hex-IsScalar : (bs : Bytes) → All IsByte bs → All IsScalar (to_hex bs)
unfolding to_hex
to_hex-IsScalar [] h = tt
to_hex-IsScalar (b ∷ bs) (h, hs) = (
  plain_char-IsScalar _ (hex_digit-IsPlain (b / 16) (omega (arith, h))),
  (plain_char-IsScalar _ (hex_digit-IsPlain (b % 16) (omega arith)), to_hex-IsScalar bs hs),
)

module _ (R : Runtime) where
  -- A value with finite floats, integers within the limit of digits, texts without surrogates, and
  -- nothing that json refuses.
  unfoldable mutual
    pub IsEncodable : Value R.Float → Type 0
    IsEncodable null = Unit
    IsEncodable (bool b) = Unit
    IsEncodable (int n) = (s : Text) × (int_repr n ≡ ok s)
    IsEncodable (float x) = R.is_finite x ≡ true
    IsEncodable (str s) = All IsScalar s
    IsEncodable (list xs) = AreEncodable xs
    IsEncodable (tuple xs) = AreEncodable xs
    IsEncodable (dict fs) = HasEncodable fs
    IsEncodable (foreign s) = ⊥

    pub AreEncodable : Items R.Float → Type 0
    AreEncodable no_items = Unit
    AreEncodable (item v xs) = IsEncodable v × AreEncodable xs

    pub HasEncodable : Fields R.Float → Type 0
    HasEncodable no_fields = Unit
    HasEncodable (field k v fs) = All IsScalar k × (IsEncodable v × HasEncodable fs)

  insert_field-HasEncodable :
      (k : Text) (v : Value R.Float) (fs : Fields R.Float)
      → All IsScalar k
      → IsEncodable v
      → HasEncodable fs
      → HasEncodable (insert_field k v fs)
  unfolding insert_field IsEncodable
  insert_field-HasEncodable k v no_fields hk hv h = (hk, (hv, tt))
  insert_field-HasEncodable k v (field j w fs) hk hv (hj, (hw, h)) =
      elim (Bool-cases (text_le k j)) [
        | inl le ↦ rw le (hk, (hv, (hj, (hw, h))))
        | inr gt ↦ rw gt (hj, (hw, insert_field-HasEncodable k v fs hk hv h))
      ]

  mutual
    unfolding sort_keys IsEncodable

    sort_keys-IsEncodable_lem : (v : Value R.Float) → IsEncodable v → IsEncodable (sort_keys v)
    sort_keys-IsEncodable_lem null h = h
    sort_keys-IsEncodable_lem (bool b) h = h
    sort_keys-IsEncodable_lem (int n) h = h
    sort_keys-IsEncodable_lem (float x) h = h
    sort_keys-IsEncodable_lem (str s) h = h
    sort_keys-IsEncodable_lem (list xs) h = sort_items-AreEncodable xs h
    sort_keys-IsEncodable_lem (tuple xs) h = sort_items-AreEncodable xs h
    sort_keys-IsEncodable_lem (dict fs) h = sort_fields-HasEncodable fs h
    sort_keys-IsEncodable_lem (foreign s) h = h

    sort_items-AreEncodable : (xs : Items R.Float) → AreEncodable xs → AreEncodable (sort_items xs)
    sort_items-AreEncodable no_items h = tt
    sort_items-AreEncodable (item v xs) (h, hs) =
        (sort_keys-IsEncodable_lem v h, sort_items-AreEncodable xs hs)

    sort_fields-HasEncodable :
        (fs : Fields R.Float) → HasEncodable fs → HasEncodable (sort_fields fs)
    sort_fields-HasEncodable no_fields h = tt
    sort_fields-HasEncodable (field k v fs) (hk, (hv, h)) =
        insert_field-HasEncodable k (sort_keys v) (sort_fields fs) hk
          (sort_keys-IsEncodable_lem v hv) (sort_fields-HasEncodable fs h)

  pub sort_keys-IsEncodable : (v : Value R.Float) → IsEncodable v → IsEncodable (sort_keys v)
  sort_keys-IsEncodable v h = sort_keys-IsEncodable_lem v h
