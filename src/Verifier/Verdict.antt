-- ===== src/Verifier/Verdict.antt =====
-- verifier.py, `verify_chain`: a file on which it returns a result.
use mcp_attest.Base.{
  ℕ, ◌+◌, ◌≡◌, refl, ap, ◌∙◌, inl, inr, Option, none, some, List, [], ◌∷◌, All, Bool-cases,
  if◌then◌else◌,
}
use mcp_attest.Base.Int.{int_eq, pos}
use mcp_attest.Base.Hex.{from_hex}
use mcp_attest.Base.Text.{Text, Bytes, text_eq}
use mcp_attest.Errors.{Result, ok, ◌>>=◌}
use mcp_attest.Errors.Laws.{>>=-eq-ok}
use mcp_attest.Runtime.{Runtime}
use mcp_attest.Crypto.{Primitives, verify}
use mcp_attest.Entry.{SignedRecord, zero_hash_hex, entry_bytes, entry_hash}
use mcp_attest.Log.Reader.{Disk, parse_lines, iter_lines, iter_records}
use mcp_attest.Verifier.{
  Reason, seq_mismatch, prev_hash_mismatch, signature_invalid, ChainVerificationResult, passed,
  failed, signature_valid, check_record, verify_lines, verify_chain,
}
use mcp_attest.Verifier.Chain.{go_on}
use mcp_attest.Verifier.Lines.{verify_lines-step, parse_lines-eq-cons, no_line}

module _ (R : Runtime) (C : Primitives) (key : Bytes) where
  -- The record has canonical bytes, its entry too, and its signature is hexadecimal.
  pub record IsCheckable (r : SignedRecord R.Float) : Type 0 where
    pub message : Bytes
    pub signature : Bytes
    pub hash : Text
    pub message_made : entry_bytes R r.entry ≡ ok message
    pub signature_read : from_hex r.signature ≡ some signature
    pub hashed : entry_hash R C r ≡ ok hash

  check_record-returns :
      (i : ℕ) (prev : Text) (r : SignedRecord R.Float)
      → IsCheckable r
      → (found : Option Reason) × (check_record R C key i prev r ≡ ok found)
  unfolding check_record signature_valid
  check_record-returns i prev r c = elim (Bool-cases (int_eq r.entry.seq (pos i))) [
    | inr wrong ↦ (some (seq_mismatch i r.entry.seq), rw wrong refl)
    | inl number ↦ elim (Bool-cases (text_eq r.entry.prev_hash prev)) [
      | inr wrong ↦ (some (prev_hash_mismatch i prev r.entry.prev_hash), rw (number, wrong) refl)
      | inl named ↦
          let valid = verify C key c.message c.signature in
          (
            if valid then none else some (signature_invalid i),
            rw (number, named, c.message_made, c.signature_read) refl,
          )
    ]
  ]

  verify_lines-returns :
      (i : ℕ) (prev : Text) (lines : List Text) (rs : List (SignedRecord R.Float))
      → parse_lines R lines ≡ ok rs
      → All IsCheckable rs
      → (v : ChainVerificationResult) × (verify_lines R C key i prev lines ≡ ok v)
  verify_lines-returns i prev [] rs p h = (passed i, unfold verify_lines in refl)
  verify_lines-returns i prev (line ∷ lines) [] p h = absurd (no_line R C key line lines p)
  verify_lines-returns i prev (line ∷ lines) (r ∷ rs) p (c, h) =
      let (read, more) = parse_lines-eq-cons R C key line lines r rs p in
      let (found, checked) = check_record-returns i prev r c in
      let (v, rest) = verify_lines-returns (i + 1) c.hash lines rs more h in
      let step = verify_lines-step R C key i prev line lines r found read checked in
      behind found v step rest
    where
      behind :
          (found : Option Reason) (v : ChainVerificationResult)
          → verify_lines R C key i prev (line ∷ lines) ≡ go_on R C key i r lines found
          → verify_lines R C key (i + 1) c.hash lines ≡ ok v
          → (w : ChainVerificationResult) × (verify_lines R C key i prev (line ∷ lines) ≡ ok w)
      behind (some why) v step rest = (failed i why, step)
      behind none v step rest = (
        v,
        step
            ∙ ap (λ (m : Result Text). m >>= λ t. verify_lines R C key (i + 1) t lines) c.hashed
            ∙ rest,
      )

  -- `verify_chain` returns a result, passed or failed, and raises nothing, for every file whose lines parse
  -- to records that have canonical bytes and a hexadecimal signature.
  pub verify_chain-returns :
      (d : Disk) (rs : List (SignedRecord R.Float))
      → iter_records R d ≡ ok rs
      → All IsCheckable rs
      → (v : ChainVerificationResult) × (verify_chain R C key d ≡ ok v)
  unfolding verify_chain iter_records
  verify_chain-returns d rs h c =
      let (lines, hl, p) = >>=-eq-ok (iter_lines R d) (parse_lines R) h in
      let (v, runs) = verify_lines-returns 0 zero_hash_hex lines rs p c in
      (v, ap (λ (m : Result (List Text)). m >>= verify_lines R C key 0 zero_hash_hex) hl ∙ runs)
