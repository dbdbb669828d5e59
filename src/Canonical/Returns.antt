-- ===== src/Canonical/Returns.antt =====
-- canonical.py: when `dumps` returns.
use mcp_attest.Base.{◌≡◌, refl, ap}
use mcp_attest.Base.Text.{Bytes}
use mcp_attest.Errors.{ok, require, canonicalization_error}
use mcp_attest.Runtime.{Runtime, IsLawful}
use mcp_attest.Value.{
  Value, Items, no_items, item, Fields, no_fields, field, null, bool, int, float, str, list, tuple,
  dict, foreign,
}
use mcp_attest.Json.Returns.{IsEncodable, AreEncodable, HasEncodable, utf8_encode-returns}
use mcp_attest.Json.Encodes.{json_dumps-returns}
use mcp_attest.Canonical.{reject_non_finite, reject_items, reject_fields, dumps}

module _ (R : Runtime) where
  mutual
    unfolding reject_non_finite IsEncodable

    reject_non_finite-returns :
        (v : Value R.Float) → IsEncodable R v → reject_non_finite R v ≡ ok tt
    reject_non_finite-returns null h = refl
    reject_non_finite-returns (bool b) h = refl
    reject_non_finite-returns (int n) h = refl
    reject_non_finite-returns (float x) h = ap (λ b. require b canonicalization_error) h
    reject_non_finite-returns (str s) h = refl
    reject_non_finite-returns (list xs) h = reject_items-returns xs h
    reject_non_finite-returns (tuple xs) h = reject_items-returns xs h
    reject_non_finite-returns (dict fs) h = reject_fields-returns fs h
    reject_non_finite-returns (foreign s) h = refl

    reject_items-returns : (xs : Items R.Float) → AreEncodable R xs → reject_items R xs ≡ ok tt
    reject_items-returns no_items h = refl
    reject_items-returns (item v xs) (hv, h) =
        rw (reject_non_finite-returns v hv) (reject_items-returns xs h)

    reject_fields-returns : (fs : Fields R.Float) → HasEncodable R fs → reject_fields R fs ≡ ok tt
    reject_fields-returns no_fields h = refl
    reject_fields-returns (field k v fs) (hk, (hv, h)) =
        rw (reject_non_finite-returns v hv) (reject_fields-returns fs h)

module _ (R : Runtime) (L : IsLawful R) where
  -- `dumps` returns, without an exception, on every value whose floats are finite, whose integers are within
  -- the limit of digits, whose texts and keys hold no surrogate, and that holds no object of another type.
  pub dumps-returns : (v : Value R.Float) → IsEncodable R v → (bs : Bytes) × (dumps R v ≡ ok bs)
  unfolding dumps
  dumps-returns v h =
      let (s, hs, scalar) = json_dumps-returns R L v h in
      let (bs, hb) = utf8_encode-returns s scalar in
      (bs, rw (reject_non_finite-returns R v h, hs, hb) refl)
