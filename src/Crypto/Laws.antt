-- ===== src/Crypto/Laws.antt =====
-- crypto.py: signing and verifying.
use mcp_attest.Base.{◌≡◌, ◌↔◌, true, ◌==◌, if◌then◌else◌, length, arith}
use mcp_attest.Base.Text.{Bytes}
use mcp_attest.Errors.{ok, raised, value_error}
use mcp_attest.Crypto.{
  Primitives, IsSound, accepted, private_key_bytes, public_key_bytes, signature_bytes, sign, verify,
  public_key_from_private,
}

module _ (C : Primitives) where
  pub sign-eq-ok :
      (key message signature : Bytes)
      → sign C key message ≡ ok signature
      → (length key ≡ private_key_bytes) × (signature ≡ C.ed25519_sign key message)
  unfolding sign
  sign-eq-ok key message signature h = ground arith

  -- A key of the wrong length is refused, and a key of the right length always signs.
  pub sign-length :
      (key message : Bytes)
      → sign C key message ≡ (
          if length key == private_key_bytes
          then ok (C.ed25519_sign key message)
          else raised value_error)
  unfolding sign
  sign-length key message = ground arith

  pub public_key_from_private-returns :
      (key : Bytes)
      → length key ≡ private_key_bytes
      → public_key_from_private C key ≡ ok (C.ed25519_public key)
  unfolding public_key_from_private
  public_key_from_private-returns key n = ground (arith, n)

  pub sign-returns :
      (key message : Bytes)
      → length key ≡ private_key_bytes
      → sign C key message ≡ ok (C.ed25519_sign key message)
  unfolding sign
  sign-returns key message n = ground (arith, n)

  -- `verify` answers true exactly when both lengths are right and the library accepts the signature:
  -- every refusal, a malformed key or signature included, is the answer false.
  pub verify_iff :
      (key message signature : Bytes)
      → (verify C key message signature ≡ true) ↔ (
          (length key ≡ public_key_bytes)
          × (length signature ≡ signature_bytes)
          × (C.ed25519_verify key message signature ≡ accepted))
  unfolding verify
  verify_iff key message signature = ground arith

  -- A signature that `sign` makes is verified under the public key of its private key.
  pub verify-sign :
      IsSound C
      → (key message signature public : Bytes) → sign C key message ≡ ok signature
      → public_key_from_private C key ≡ ok public
      → verify C public message signature ≡ true
  unfolding public_key_from_private
  verify-sign S key message signature public h k =
      let (n, e) = sign-eq-ok key message signature h in
      let p : C.ed25519_public key ≡ public = ground arith in
      (verify_iff public message signature).1 (
        ground (
          arith,
          S.public_length key n,
          S.signature_length key message n,
          S.sign_verifies key message n,
          e,
        ))
