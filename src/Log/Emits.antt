-- ===== src/Log/Emits.antt =====
-- log.py, `emit_sth`: when it returns.
use mcp_attest.Base.{ℕ, ◌≡◌, refl, true, some, arith, All, length}
use mcp_attest.Base.Int.{pos}
use mcp_attest.Base.Hex.{to_hex}
use mcp_attest.Base.Text.{Text, Bytes}
use mcp_attest.Errors.{ok}
use mcp_attest.Runtime.{Runtime, IsLawful}
use mcp_attest.Value.{int}
use mcp_attest.Json.Returns.{IsScalar, IsEncodable}
use mcp_attest.Canonical.Returns.{dumps-returns}
use mcp_attest.Crypto.{Primitives, sign}
use mcp_attest.Crypto.Laws.{sign-returns}
use mcp_attest.Entry.{SignedTreeHead, sth_payload}
use mcp_attest.Log.Reader.{Disk, AttestationLog, chain_length}
use mcp_attest.Log.Writer.{head_hash, emit_sth}

module _ (R : Runtime) (L : IsLawful R) (C : Primitives) where
  sth_payload-IsEncodable :
      (n : ℕ) (head : Text) (timestamp : R.Float)
      → IsEncodable R (int (pos n))
      → All IsScalar head
      → R.is_finite timestamp ≡ true
      → IsEncodable R (sth_payload (pos n) head timestamp)
  unfolding sth_payload IsEncodable
  sth_payload-IsEncodable n head timestamp number scalar finite =
      (ground arith, (number, (ground arith, (scalar, (ground arith, (finite, tt))))))

  pub emit_sth-returns :
      (log : AttestationLog) (timestamp : R.Float) (d : Disk) (key : Bytes) (n : ℕ) (head : Text)
      → log.private_key ≡ some key
      → length key ≡ 32
      → chain_length R d ≡ ok n
      → head_hash R C d ≡ ok head
      → IsEncodable R (int (pos n))
      → All IsScalar head
      → R.is_finite timestamp ≡ true
      → (sth : SignedTreeHead R.Float) × (emit_sth R C log timestamp d ≡ ok sth)
  unfolding emit_sth
  emit_sth-returns log timestamp d key n head opened of_32 counted named number scalar finite =
      let (message, e) =
        dumps-returns R L (sth_payload (pos n) head timestamp)
          (sth_payload-IsEncodable n head timestamp number scalar finite) in
      let signature = C.ed25519_sign key message in
      let signed : sign C key message ≡ ok signature = sign-returns C key message of_32 in
      (
        record {
          chain_length = pos n;
          head_hash = head;
          timestamp = timestamp;
          signature = to_hex signature;
        },
        rw (opened, counted, named, e, signed) refl,
      )
