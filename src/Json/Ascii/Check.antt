-- ===== src/Json/Ascii/Check.antt =====
-- A test of values that are known: printable texts, and nothing that json refuses.
use mcp_attest.Base.{◌≡◌, refl, Bool, true, false, ◌&&◌, [], ◌∷◌, leb, ltb, arith, All}
use mcp_attest.Base.Text.{Text}
use mcp_attest.Errors.{Result, ok, raised}
use mcp_attest.Runtime.{Runtime}
use mcp_attest.Value.{
  Value, Items, no_items, item, Fields, no_fields, field, null, bool, int, float, str, list, tuple,
  dict, foreign,
}
use mcp_attest.Value.Convert.Repr.{int_repr}
use mcp_attest.Json.Plain.{IsPlain}
use mcp_attest.Json.Returns.{plain-IsScalar, IsEncodable, AreEncodable, HasEncodable}

abbrev pub plain_text : Text → Bool
plain_text [] = true
plain_text (c ∷ s) = leb 32 c && ltb c 127 && plain_text s

pub plain_text-IsPlain : (s : Text) → plain_text s ≡ true → All IsPlain s
plain_text-IsPlain [] h = tt
plain_text-IsPlain (c ∷ s) h = (ground arith, plain_text-IsPlain s (ground arith))

abbrev returned : Result Text → Bool
returned (ok s) = true
returned (raised e) = false

returned-ok : (m : Result Text) → returned m ≡ true → (s : Text) × (m ≡ ok s)
returned-ok (ok s) h = (s, refl)
returned-ok (raised e) h = cc h

module _ (R : Runtime) where
  unfoldable mutual
    pub encodable : Value R.Float → Bool
    encodable null = true
    encodable (bool b) = true
    encodable (int n) = returned (int_repr n)
    encodable (float x) = R.is_finite x
    encodable (str s) = plain_text s
    encodable (list xs) = all_encodable xs
    encodable (tuple xs) = all_encodable xs
    encodable (dict fs) = fields_encodable fs
    encodable (foreign s) = false

    pub all_encodable : Items R.Float → Bool
    all_encodable no_items = true
    all_encodable (item v xs) = encodable v && all_encodable xs

    pub fields_encodable : Fields R.Float → Bool
    fields_encodable no_fields = true
    fields_encodable (field k v fs) = plain_text k && (encodable v && fields_encodable fs)

  mutual
    unfolding encodable IsEncodable

    encodable-IsEncodable_lem : (v : Value R.Float) → encodable v ≡ true → IsEncodable R v
    encodable-IsEncodable_lem null h = tt
    encodable-IsEncodable_lem (bool b) h = tt
    encodable-IsEncodable_lem (int n) h = returned-ok (int_repr n) h
    encodable-IsEncodable_lem (float x) h = h
    encodable-IsEncodable_lem (str s) h = plain-IsScalar s (plain_text-IsPlain s h)
    encodable-IsEncodable_lem (list xs) h = all_encodable-AreEncodable xs h
    encodable-IsEncodable_lem (tuple xs) h = all_encodable-AreEncodable xs h
    encodable-IsEncodable_lem (dict fs) h = fields_encodable-HasEncodable fs h
    encodable-IsEncodable_lem (foreign s) h = cc h

    all_encodable-AreEncodable : (xs : Items R.Float) → all_encodable xs ≡ true → AreEncodable R xs
    all_encodable-AreEncodable no_items h = tt
    all_encodable-AreEncodable (item v xs) h =
        (encodable-IsEncodable_lem v (ground arith), all_encodable-AreEncodable xs (ground arith))

    fields_encodable-HasEncodable :
        (fs : Fields R.Float) → fields_encodable fs ≡ true → HasEncodable R fs
    fields_encodable-HasEncodable no_fields h = tt
    fields_encodable-HasEncodable (field k v fs) h = (
      plain-IsScalar k (plain_text-IsPlain k (ground arith)),
      (encodable-IsEncodable_lem v (ground arith), fields_encodable-HasEncodable fs (ground arith)),
    )

  pub encodable-IsEncodable : (v : Value R.Float) → encodable v ≡ true → IsEncodable R v
  encodable-IsEncodable v h = encodable-IsEncodable_lem v h
