-- ===== src/Log/Returns.antt =====
-- log.py, `append`: when its steps return.
use mcp_attest.Base.{◌≡◌, refl, [], ◌∷◌, ◌++◌, All, length}
use mathlib.Core.Path.{subst}
use mcp_attest.Base.Text.{Text, Bytes}
use mcp_attest.Base.Hex.{to_hex}
use mcp_attest.Errors.{ok}
use mcp_attest.Errors.Laws.{>>=-eq-ok, ok-injective}
use mcp_attest.Runtime.{Runtime, IsLawful}
use mcp_attest.Value.{Value}
use mcp_attest.Json.Returns.{IsScalar, IsEncodable, to_hex-IsScalar}
use mcp_attest.Utf8.RoundTrip.{decode-encode}
use mcp_attest.Canonical.Returns.{dumps-returns}
use mcp_attest.Canonical.RoundTrip.{dumps-eq-ok}
use mcp_attest.Crypto.{Primitives, IsSound, sign, hash_bytes}
use mcp_attest.Crypto.Laws.{sign-returns}
use mcp_attest.Entry.{
  AttestationEntry, SignedRecord, record_to_dict, record_bytes, to_json_line, entry_hash,
}
use mcp_attest.Entry.Returns.{IsWritable, entry_bytes-returns, record_bytes-returns}
use mcp_attest.Log.Writer.{payload_hash, sign_entry, line_bytes}

module _ (R : Runtime) (L : IsLawful R) (C : Primitives) (S : IsSound C) where
  hash-IsScalar : (m : Bytes) → All IsScalar (to_hex (hash_bytes C m))
  unfolding hash_bytes
  hash-IsScalar m = to_hex-IsScalar (C.blake2b m) (S.digest_IsByte m)

  pub payload_hash-returns :
      (v : Value R.Float)
      → IsEncodable R v
      → (hash : Text) × (payload_hash R C v ≡ ok hash) × All IsScalar hash
  unfolding payload_hash
  payload_hash-returns v h =
      let (bs, e) = dumps-returns R L v h in (to_hex (hash_bytes C bs), rw e refl, hash-IsScalar bs)

  pub entry_hash-IsScalar :
      (r : SignedRecord R.Float) (hash : Text) → entry_hash R C r ≡ ok hash → All IsScalar hash
  unfolding entry_hash
  entry_hash-IsScalar r hash h =
      let (bs, _, e) = >>=-eq-ok (record_bytes R r) (λ b. ok (to_hex (hash_bytes C b))) h in
      subst (All IsScalar) (ok-injective e) (hash-IsScalar bs)

  pub sign_entry-returns :
      (key : Bytes) (entry : AttestationEntry R.Float)
      → length key ≡ 32
      → IsWritable R entry
      → (r : SignedRecord R.Float) × (sign_entry R C key entry ≡ ok r)
        × (r.entry ≡ entry)
        × All IsScalar r.signature
  unfolding sign_entry
  sign_entry-returns key entry n w =
      let (message, e) = entry_bytes-returns R L entry w in
      let signature = C.ed25519_sign key message in
      let signed : sign C key message ≡ ok signature = sign-returns C key message n in
      (
        record { entry = entry; signature = to_hex signature },
        rw (e, signed) refl,
        refl,
        to_hex-IsScalar signature (S.signature_IsByte key message n),
      )

  pub line_bytes-returns :
      (r : SignedRecord R.Float)
      → IsWritable R r.entry
      → All IsScalar r.signature
      → (written : Bytes) × (line_bytes R C r ≡ ok written)
  unfolding line_bytes to_json_line
  line_bytes-returns r w h =
      let (bs, e) = record_bytes-returns R L r w h in
      let (s, _, encoded) = dumps-eq-ok R (record_to_dict r) bs (unfold record_bytes in e) in
      (bs ++ (b'\n' ∷ []), rw (e, decode-encode s bs encoded, encoded) refl)
