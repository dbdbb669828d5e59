-- ===== src/Canonical/RoundTrip.antt =====
-- canonical.py: `loads` behind `dumps`.
use mcp_attest.Base.{◌≡◌, sym, ◌∙◌, arith}
use mcp_attest.Base.Text.{Text, Bytes}
use mcp_attest.Errors.{Result, ok, raised, translate, ErrorClass}
use mcp_attest.Errors.Laws.{>>=-eq-ok, ok-injective}
use mcp_attest.Runtime.{Runtime, IsLawful}
use mcp_attest.Value.{Value}
use mcp_attest.Value.Keys.{HasDistinctKeys}
use mcp_attest.Json
use mcp_attest.Json.RoundTrip.{canonical_form, loads-dumps as json_loads-dumps}
use mcp_attest.Utf8
use mcp_attest.Utf8.RoundTrip.{decode-encode}
use mcp_attest.Canonical.{dumps, loads, reject_non_finite}

translate-eq-ok {ℓ} :
    {A : Type ℓ} (c d t : ErrorClass) (r : Result A) {a : A} → translate c d t r ≡ ok a → r ≡ ok a
translate-eq-ok c d t (ok b) h = h
translate-eq-ok c d t (raised e) h = ground arith

module _ (R : Runtime) where
  -- The text behind the bytes of a successful `dumps`.
  pub dumps-eq-ok :
      (v : Value R.Float) (bs : Bytes)
      → dumps R v ≡ ok bs
      → (s : Text) × (Json.dumps R v ≡ ok s) × (Utf8.encode s ≡ ok bs)
  unfolding dumps
  dumps-eq-ok v bs h =
      let (_, _, k) = >>=-eq-ok (reject_non_finite R v) _ h in
      >>=-eq-ok (Json.dumps R v) Utf8.encode (translate-eq-ok _ _ _ _ k)

module _ (R : Runtime) (L : IsLawful R) where
  -- `loads` of the bytes that `dumps` makes of a value whose dicts have distinct keys is the value in
  -- canonical form.
  pub loads-dumps :
      (v : Value R.Float) (bs : Bytes)
      → HasDistinctKeys v
      → dumps R v ≡ ok bs
      → loads R bs ≡ ok (canonical_form v)
  unfolding loads
  loads-dumps v bs d h =
      let (s, k, e) = dumps-eq-ok R v bs h in
      rw (decode-encode s bs e) (json_loads-dumps R L v s d k)

  -- Two values whose dicts have distinct keys, and that have the same canonical bytes, have the same
  -- canonical form.
  pub dumps-injective :
      (v w : Value R.Float) (bs : Bytes)
      → HasDistinctKeys v
      → HasDistinctKeys w
      → dumps R v ≡ ok bs
      → dumps R w ≡ ok bs
      → canonical_form v ≡ canonical_form w
  dumps-injective v w bs d e h k = ok-injective (sym (loads-dumps v bs d h) ∙ loads-dumps w bs e k)
