-- ===== src/Json/Encodes.antt =====
-- The encoder returns on every encodable value, with a text that has a UTF-8 encoding.
use mcp_attest.Base.{
  ℕ, ◌≡◌, refl, ap, Bool, true, false, [], ◌∷◌, ◌++◌, arith, All, All-append, if◌then◌else◌,
}
use mcp_attest.Base.Text.{Text, codes}
use mcp_attest.Errors.{Result, ok, ◌>>=◌}
use mcp_attest.Runtime.{Runtime, IsLawful}
use mcp_attest.Value.{
  Value, Items, no_items, item, Fields, no_fields, field, null, bool, int, float, str, list, tuple,
  dict, foreign,
}
use mcp_attest.Json
use mcp_attest.Json.Sort.{sort_keys}
use mcp_attest.Json.Encode.{encode, encode_items, encode_fields, encode_float, comma_unless, quoted}
use mcp_attest.Json.Plain.{int_repr-IsPlain, encode_float-IsPlain}
use mcp_attest.Json.Returns.{
  IsScalar, plain-IsScalar, plain_char-IsScalar, quoted-IsScalar, IsEncodable, AreEncodable,
  HasEncodable, sort_keys-IsEncodable,
}

comma_unless-IsScalar : (first : Bool) → All IsScalar (comma_unless first)
comma_unless-IsScalar true = tt
comma_unless-IsScalar false = (plain_char-IsScalar b',' (ground arith), tt)

bool-IsScalar : (b : Bool) → All IsScalar (if b then codes "true" else codes "false")
bool-IsScalar true = ground arith
bool-IsScalar false = ground arith

-- A bracket before an encodable rest.
opened-returns :
    (c : ℕ) (r : Result Text)
    → IsScalar c
    → (t : Text) × (r ≡ ok t) × All IsScalar t
    → (s : Text) × ((do t ← r; ok (c ∷ t)) ≡ ok s) × All IsScalar s
opened-returns c r h (t, e, ht) = (c ∷ t, ap (λ (m : Result Text). do u ← m; ok (c ∷ u)) e, (h, ht))

module _ (R : Runtime) (L : IsLawful R) where
  encode_float-returns :
      (x : R.Float) → R.is_finite x ≡ true → (s : Text) × (encode_float R x ≡ ok s) × All IsScalar s
  unfolding encode_float
  encode_float-returns x h =
      let written : encode_float R x ≡ ok (R.float_repr x) = rw h refl in
      (
        R.float_repr x,
        written,
        plain-IsScalar _ (encode_float-IsPlain R L x (R.float_repr x) written),
      )

  mutual
    unfolding encode IsEncodable

    encode-returns_lem :
        (v : Value R.Float) → IsEncodable R v → (s : Text) × (encode R v ≡ ok s) × All IsScalar s
    encode-returns_lem null h = (codes "null", refl, ground arith)
    encode-returns_lem (bool b) h =
        (if b then codes "true" else codes "false", refl, bool-IsScalar b)
    encode-returns_lem (int n) (s, e) = (s, e, plain-IsScalar s (int_repr-IsPlain n s e))
    encode-returns_lem (float x) h = encode_float-returns x h
    encode-returns_lem (str u) h = (quoted u, refl, quoted-IsScalar u h)
    encode-returns_lem (foreign u) h = elim h [ ]
    encode-returns_lem (list xs) h =
        opened-returns b'[' (encode_items R xs true) (plain_char-IsScalar b'[' (ground arith))
          (encode_items-returns xs true h)
    encode-returns_lem (tuple xs) h =
        opened-returns b'[' (encode_items R xs true) (plain_char-IsScalar b'[' (ground arith))
          (encode_items-returns xs true h)
    encode-returns_lem (dict fs) h =
        opened-returns b'{' (encode_fields R fs true) (plain_char-IsScalar b'{' (ground arith))
          (encode_fields-returns fs true h)

    encode_items-returns :
        (xs : Items R.Float) (first : Bool)
        → AreEncodable R xs
        → (s : Text) × (encode_items R xs first ≡ ok s) × All IsScalar s
    encode_items-returns no_items first h =
        (b']' ∷ [], refl, (plain_char-IsScalar b']' (ground arith), tt))
    encode_items-returns (item v xs) first (hv, h) =
        let (a, ha, sa) = encode-returns_lem v hv in
        let (b, hb, sb) = encode_items-returns xs false h in
        (
          comma_unless first ++ (a ++ b),
          rw (ha, hb) refl,
          All-append IsScalar (comma_unless first) (a ++ b) (comma_unless-IsScalar first)
              (All-append IsScalar a b sa sb),
        )

    encode_fields-returns :
        (fs : Fields R.Float) (first : Bool)
        → HasEncodable R fs
        → (s : Text) × (encode_fields R fs first ≡ ok s) × All IsScalar s
    encode_fields-returns no_fields first h =
        (b'}' ∷ [], refl, (plain_char-IsScalar b'}' (ground arith), tt))
    encode_fields-returns (field k v fs) first (hk, (hv, h)) =
        let (a, ha, sa) = encode-returns_lem v hv in
        let (b, hb, sb) = encode_fields-returns fs false h in
        (
          comma_unless first ++ (quoted k ++ (b':' ∷ (a ++ b))),
          rw (ha, hb) refl,
          All-append IsScalar (comma_unless first) (quoted k ++ (b':' ∷ (a ++ b)))
              (comma_unless-IsScalar first)
              (All-append IsScalar (quoted k) (b':' ∷ (a ++ b)) (quoted-IsScalar k hk)
                (plain_char-IsScalar b':' (ground arith), All-append IsScalar a b sa sb)),
        )

  -- `json.dumps` returns a text that can be encoded.
  pub json_dumps-returns :
      (v : Value R.Float) → IsEncodable R v → (s : Text) × (Json.dumps R v ≡ ok s) × All IsScalar s
  unfolding Json.dumps
  json_dumps-returns v h = encode-returns_lem (sort_keys v) (sort_keys-IsEncodable R v h)
