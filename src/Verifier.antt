-- ===== src/Verifier.antt =====
-- verifier.py
pub mod Chain
pub mod Ends
pub mod Tamper
pub mod Growth
pub mod Receipts
pub mod TreeHead
pub mod Returns
pub mod Emits
pub mod Race
pub mod Lines
pub mod Failures
pub mod Edit
pub mod Verdict
use mcp_attest.Base.{
  ℕ, zero, suc, ◌+◌, Bool, true, false, not, Option, none, some, List, [], ◌∷◌, ◌++◌, ◌==◌,
  if◌then◌else◌, length,
}
use mcp_attest.Base.Int.{ℤ, pos, int_eq}
use mcp_attest.Base.Hex.{to_hex, from_hex}
use mcp_attest.Base.Text.{Text, Bytes, text_eq}
use mcp_attest.Errors.{
  Result, ok, raised, ◌>>=◌, ◌>>◌, require, or_raise, value_error, signature_invalid_error,
  hash_mismatch_error,
}
use mcp_attest.Runtime.{Runtime}
use mcp_attest.Value.{Value}
use mcp_attest.Crypto.{Primitives, verify}
use mcp_attest.Entry.{
  SignedRecord, Receipt, SignedTreeHead, zero_hash_hex, entry_bytes, entry_hash, sth_bytes,
}
use mcp_attest.Log.Reader.{Disk, iter_lines, parse_line, read_record}
use mcp_attest.Log.Writer.{payload_hash}

-- The text of `reason`, by what it names.
pub data Reason : Type 0 where
  seq_mismatch : ℕ → ℤ → Reason
  prev_hash_mismatch : ℕ → Text → Text → Reason
  signature_invalid : ℕ → Reason

pub record ChainVerificationResult : Type 0 where
  pub is_ok : Bool
  pub chain_length : ℕ
  pub first_failure_index : Option ℕ
  pub reason : Option Reason

abbrev pub passed : ℕ → ChainVerificationResult
passed n = record { is_ok = true; chain_length = n; first_failure_index = none; reason = none }

abbrev pub failed : ℕ → Reason → ChainVerificationResult
failed i why = record {
  is_ok = false;
  chain_length = i + 1;
  first_failure_index = some i;
  reason = some why;
}

module _ (R : Runtime) (C : Primitives) where
  -- `crypto.verify(key, record.entry.to_canonical_bytes(), bytes.fromhex(record.signature))`
  unfoldable pub signature_valid : Bytes → SignedRecord R.Float → Result Bool
  signature_valid key r = do
    message ← entry_bytes R r.entry
    signature ← or_raise value_error (from_hex r.signature)
    ok (verify C key message signature)

  unfoldable pub verify_receipt :
      Receipt → Value R.Float → Value R.Float → Bytes → Disk → Result (Unit {0})
  verify_receipt receipt params result_or_error key d = do
    r ← read_record R receipt.seq d
    valid ← signature_valid key r
    require valid signature_invalid_error
    expected_params ← payload_hash R C params
    require (text_eq expected_params r.entry.params_hash) hash_mismatch_error
    expected_result ← payload_hash R C result_or_error
    require (text_eq expected_result r.entry.result_hash) hash_mismatch_error
    hash ← entry_hash R C r
    require (text_eq hash receipt.entry_hash) hash_mismatch_error
    require (text_eq r.signature receipt.signature) hash_mismatch_error

  -- The body of the loop at index `i`: the reason to stop, or the hash that the next record must name.
  unfoldable pub check_record : Bytes → ℕ → Text → SignedRecord R.Float → Result (Option Reason)
  check_record key i expected_prev r =
      if not (int_eq r.entry.seq (pos i))
      then ok (some (seq_mismatch i r.entry.seq))
      else if not (text_eq r.entry.prev_hash expected_prev)
      then ok (some (prev_hash_mismatch i expected_prev r.entry.prev_hash))
      else do valid ← signature_valid key r; ok (if valid then none else some (signature_invalid i))

  -- The loop from index `i`. A line is parsed when the loop reaches it.
  unfoldable pub verify_lines : Bytes → ℕ → Text → List Text → Result ChainVerificationResult
  verify_lines key i expected_prev [] = ok (passed i)
  verify_lines key i expected_prev (line ∷ lines) = do
    r ← parse_line R line
    found ← check_record key i expected_prev r
    elim found [
      | some why ↦ ok (failed i why)
      | none ↦ do hash ← entry_hash R C r; verify_lines key (i + 1) hash lines
    ]

  unfoldable pub verify_chain : Bytes → Disk → Result ChainVerificationResult
  verify_chain key d = do lines ← iter_lines R d; verify_lines key 0 zero_hash_hex lines

  unfoldable pub verify_sth : SignedTreeHead R.Float → Bytes → Result Bool
  verify_sth sth key = do
    message ← sth_bytes R sth
    signature ← or_raise value_error (from_hex sth.signature)
    ok (verify C key message signature)

  unfoldable pub detect_equivocation :
      SignedTreeHead R.Float → SignedTreeHead R.Float → Bytes → Result Bool
  detect_equivocation a b key = do
    valid_a ← verify_sth a key
    if not valid_a then ok false else do
      valid_b ← verify_sth b key
      ok (
          if not valid_b
          then false
          else if not (int_eq a.chain_length b.chain_length)
          then false
          else not (text_eq a.head_hash b.head_hash))
