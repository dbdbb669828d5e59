-- ===== src/Crypto.antt =====
-- crypto.py. Ed25519 and BLAKE2b are third-party code: parameters, of which `IsSound` states the
-- documented sizes and that a signature validates under the public key of its private key.
pub mod Laws
use mcp_attest.Base.{ℕ, ◌≡◌, Bool, true, false, not, ◌==◌, if◌then◌else◌, length, All, none, Option}
use mcp_attest.Base.Text.{Bytes}
use mcp_attest.Base.Hex.{IsByte}
use mcp_attest.Errors.{Result, ok, raised, ◌>>◌, require, value_error, ErrorClass}

-- What `Ed25519PublicKey.from_public_bytes` and `verify` do together: return, or raise
-- InvalidSignature or ValueError.
pub data Verdict : Type 0 where
  accepted invalid_signature bad_key : Verdict

pub record Primitives : Type 0 where
  -- hashlib.blake2b(data, digest_size=32).digest()
  pub blake2b : Bytes → Bytes
  -- the raw public key of a raw private key
  pub ed25519_public : Bytes → Bytes
  pub ed25519_sign : Bytes → Bytes → Bytes
  -- public key, message, signature
  pub ed25519_verify : Bytes → Bytes → Bytes → Verdict

-- _DIGEST_SIZE, _PRIVATE_KEY_BYTES, _PUBLIC_KEY_BYTES, _SIGNATURE_BYTES
abbrev pub digest_size : ℕ
digest_size = 32

abbrev pub private_key_bytes : ℕ
private_key_bytes = 32

abbrev pub public_key_bytes : ℕ
public_key_bytes = 32

abbrev pub signature_bytes : ℕ
signature_bytes = 64

pub record IsSound (C : Primitives) : Type 0 where
  pub digest_length : (m : Bytes) → length (C.blake2b m) ≡ digest_size
  pub digest_IsByte : (m : Bytes) → All IsByte (C.blake2b m)
  pub public_length :
      (k : Bytes) → length k ≡ private_key_bytes → length (C.ed25519_public k) ≡ public_key_bytes
  pub signature_length :
      (k m : Bytes) → length k ≡ private_key_bytes → length (C.ed25519_sign k m) ≡ signature_bytes
  pub signature_IsByte :
      (k m : Bytes) → length k ≡ private_key_bytes → All IsByte (C.ed25519_sign k m)
  pub sign_verifies :
      (k m : Bytes)
      → length k ≡ private_key_bytes
      → C.ed25519_verify (C.ed25519_public k) m (C.ed25519_sign k m) ≡ accepted

-- _check_length
unfoldable pub check_length : Bytes → ℕ → Result (Unit {0})
check_length value expected = require (length value == expected) value_error

module _ (C : Primitives) where
  -- The private key is the one that the library drew at random.
  unfoldable pub generate_keypair : Bytes → Bytes × Bytes
  generate_keypair drawn = (drawn, C.ed25519_public drawn)

  unfoldable pub public_key_from_private : Bytes → Result Bytes
  unfolding check_length
  public_key_from_private key = do check_length key private_key_bytes; ok (C.ed25519_public key)

  unfoldable pub sign : Bytes → Bytes → Result Bytes
  unfolding check_length
  sign key message = do check_length key private_key_bytes; ok (C.ed25519_sign key message)

  unfoldable pub verify : Bytes → Bytes → Bytes → Bool
  verify key message signature =
      if not (length key == public_key_bytes)
      then false
      else if not (length signature == signature_bytes)
      then false
      else elim (C.ed25519_verify key message signature) [
        | accepted ↦ true
        | invalid_signature ↦ false
        | bad_key ↦ false
      ]

  unfoldable pub hash_bytes : Bytes → Bytes
  hash_bytes data_bytes = C.blake2b data_bytes
