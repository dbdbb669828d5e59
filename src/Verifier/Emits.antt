-- ===== src/Verifier/Emits.antt =====
-- log.py, `emit_sth`, on a log that writers have made: it returns, and verifier.py accepts what it returns.
use mcp_attest.Base.{◌≡◌, sym, ap, ◌∙◌, true, some, List, length}
use mcp_attest.Base.Int.{pos}
use mcp_attest.Base.Text.{Bytes}
use mcp_attest.Errors.{ok}
use mcp_attest.Runtime.{Runtime, IsLawful}
use mcp_attest.Value.{int}
use mcp_attest.Json.Returns.{IsEncodable}
use mcp_attest.Crypto.{Primitives, IsSound}
use mcp_attest.Crypto.Laws.{public_key_from_private-returns}
use mcp_attest.Entry.{SignedRecord, SignedTreeHead, zero_hash_hex}
use mcp_attest.Log.Reader.{Disk, AttestationLog}
use mcp_attest.Log.Writer.{head_hash, emit_sth}
use mcp_attest.Log.Read.{read_record-IsLog}
use mcp_attest.Log.Emits.{emit_sth-returns}
use mcp_attest.Errors.Laws.{ok-injective}
use mcp_attest.Verifier.{verify_sth}
use mcp_attest.Verifier.Tamper.{head_hash-IsChain}
use mcp_attest.Verifier.Growth.{Written, Written-IsChain, verify_chain-Written}
use mcp_attest.Verifier.TreeHead.{verify_sth-emit_sth}
use mcp_attest.Verifier.Returns.{end_hash-returns, zero_hash-IsScalar}

module _ (R : Runtime) (L : IsLawful R) (C : Primitives) (S : IsSound C) where
  -- On a log that writers with one private key of 32 bytes have made, the empty and the missing one
  -- included, `emit_sth` with that key returns a tree head if the time is finite and the number of records
  -- can be written in decimal digits; the tree head states the number of the acknowledged records and the
  -- head hash of the file, and `verify_sth` accepts it under the public key.
  pub emit_sth-Written :
      (log : AttestationLog) (timestamp : R.Float) (d : Disk) (rs : List (SignedRecord R.Float))
      (key : Bytes)
      → Written R L C S key d rs
      → log.private_key ≡ some key
      → length key ≡ 32
      → IsEncodable R (int (pos (length rs)))
      → R.is_finite timestamp ≡ true
      → (sth : SignedTreeHead R.Float) × (emit_sth R C log timestamp d ≡ ok sth)
        × (sth.chain_length ≡ pos (length rs))
        × (head_hash R C d ≡ ok sth.head_hash)
        × (verify_sth R C sth (C.ed25519_public key) ≡ ok true)
  emit_sth-Written log timestamp d rs key w opened of_32 number finite =
      let public = C.ed25519_public key in
      let is_public = public_key_from_private-returns C key of_32 in
      let (is_log, chain) = Written-IsChain R L C S key public d rs w is_public in
      let (reads, _) = verify_chain-Written R L C S key public d rs w is_public in
      let counted = (read_record-IsLog R L d rs 0 is_log).0 in
      let (head, ends, scalar) =
        end_hash-returns R L C S public 0 zero_hash_hex rs chain (zero_hash-IsScalar R L C S) in
      let (sth, emits) =
        emit_sth-returns R L C log timestamp d key (length rs) head opened of_32 counted
          (head_hash-IsChain R L C S public d rs reads chain ∙ ends) number scalar finite in
      let (good, named, _, (n, counted', length_is)) =
        verify_sth-emit_sth R L C S log timestamp d sth key public opened is_public emits in
      (sth, emits, length_is ∙ ap pos (ok-injective (sym counted' ∙ counted)), named, good)
