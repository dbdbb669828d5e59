-- ===== src/Examples/Replaced.antt =====
-- examples/ and scripts/: a line of the log of a program whose result hash is replaced.
use mcp_attest.Base.{
  ℕ, false, ◌⊎◌, inl, inr, ◌≡◌, ◌≢◌, refl, ap, ◌∙◌, some, List, ◌∷◌, ◌++◌, arith, All, length,
}
use mcp_attest.Base.Hex.{to_hex}
use mcp_attest.Base.Text.{Text, Bytes}
use mcp_attest.Errors.{ok}
use mcp_attest.Runtime.{Runtime, IsLawful}
use mcp_attest.Json.Plain.{IsPlain}
use mcp_attest.Json.Returns.{plain-IsScalar}
use mcp_attest.Crypto.{Primitives, IsSound, hash_bytes}
use mcp_attest.Crypto.Laws.{public_key_from_private-returns}
use mcp_attest.Entry.{SignedRecord, record_bytes, entry_hash}
use mcp_attest.Entry.Returns.{entry_bytes-returns, record_bytes-returns}
use mcp_attest.Log.Reader.{Disk, AttestationLog}
use mcp_attest.Log.Writer.{Call, payload_hash}
use mcp_attest.Log.Format.{IsLog, iter_records-IsLog}
use mcp_attest.Verifier.{ChainVerificationResult, verify_chain}
use mcp_attest.Verifier.Growth.{Written, Written-IsChain, verify_chain-Written}
use mcp_attest.Verifier.Verdict.{IsCheckable, verify_chain-returns}
use mcp_attest.Verifier.Edit.{Located, edit-Located}
use mcp_attest.Verifier.Tamper.{Collision}
use mcp_attest.Examples.Tamper.{replace_result_hash}
use mcp_attest.Examples.Tamper.Line.{HasAsciiTexts, with_result_hash}
use mcp_attest.Examples.Tamper.File.{AllAscii, replace_result_hash-IsLog}
use mcp_attest.Examples.Calls.{public, Made, ascii-IsWritable}

module _ (R : Runtime) (L : IsLawful R) (C : Primitives) (S : IsSound C) where
  replaced-HasAsciiTexts :
      (hash : Text) (r : SignedRecord R.Float)
      → All IsPlain hash
      → HasAsciiTexts R r
      → HasAsciiTexts R (with_result_hash hash r)
  replaced-HasAsciiTexts hash r plain h = record {
    prev_hash = h.prev_hash;
    ts_request = h.ts_request;
    ts_response = h.ts_response;
    server_id = h.server_id;
    request_id = h.request_id;
    method = h.method;
    tool_name = h.tool_name;
    params_hash = h.params_hash;
    result_hash = plain;
    signature = h.signature;
  }

  -- A record that is not the last one does not pass.
  pub Located-fails :
      (key : Bytes) (i : ℕ) (r r' s : SignedRecord R.Float) (rest : List (SignedRecord R.Float))
      (v : ChainVerificationResult)
      → Located R L C S key i r r' (s ∷ rest) v
      → (v.is_ok ≡ false)
        ⊎ Collision C (λ a. record_bytes R r ≡ ok a) (λ b. record_bytes R r' ≡ ok b)
  Located-fails key i r r' s rest v (inl (why, e)) = inl (ap ChainVerificationResult.is_ok e)
  Located-fails key i r r' s rest v (inr (inl (_, _, _, _, e))) =
      inl (ap ChainVerificationResult.is_ok e)
  Located-fails key i r r' s rest v (inr (inr (inl (none_left, _, _)))) =
      absurd (omega (arith, ap length none_left))
  Located-fails key i r r' s rest v (inr (inr (inr collision))) = inr collision

  module _ (key : Bytes) (of_32 : length key ≡ 32) (log : AttestationLog) (call : Call R.Float)
      (d : Disk) (qs : List (SignedRecord R.Float)) (hash : Text) (plain : All IsPlain hash)
      (m : Made R L C S key of_32 log call d qs) where
    abbrev r' : SignedRecord R.Float
    r' = with_result_hash hash m.r

    replaced-IsCheckable :
        (line : Bytes) × (record_bytes R r' ≡ ok line)
        × IsCheckable R C (public R L C S key of_32) r'
    unfolding entry_hash
    replaced-IsCheckable =
        let h = replaced-HasAsciiTexts hash m.r plain m.ascii in
        let w = ascii-IsWritable R L C S r' h m.numbered in
        let (message, made) = entry_bytes-returns R L r'.entry w in
        let (line, written) =
          record_bytes-returns R L r' w (plain-IsScalar r'.signature h.signature) in
        (
          line,
          written,
          record {
            message = message;
            signature = m.checkable.signature;
            hash = to_hex (hash_bytes C line);
            message_made = made;
            signature_read = m.checkable.signature_read;
            hashed = rw written refl;
          },
        )

    -- The edited file, and what `verify_chain` returns for it.
    pub record Replaced (rs rest : List (SignedRecord R.Float)) (file : Bytes) : Type 0 where
      pub edited : Bytes
      pub verdict : ChainVerificationResult
      pub replaces : replace_result_hash R (length rs) hash file ≡ ok edited
      pub is_log : IsLog R (rs ++ (with_result_hash hash m.r ∷ rest)) edited
      pub verifies : verify_chain R C (public R L C S key of_32) (some edited) ≡ ok verdict
      pub located :
          Located R L C S
            (public R L C S key of_32)
            (length rs)
            m.r
            (with_result_hash hash m.r)
            rest
            verdict

    pub replace-Replaced :
        (rs rest : List (SignedRecord R.Float)) (file : Bytes)
        → Written R L C S key (some file) (rs ++ (m.r ∷ rest))
        → AllAscii R (rs ++ (m.r ∷ rest))
        → (IsCheckable R C (public R L C S key of_32) (with_result_hash hash m.r)
            → All
                (IsCheckable R C (public R L C S key of_32))
                (rs ++ (with_result_hash hash m.r ∷ rest)))
        → payload_hash R C call.result_or_error ≢ ok hash
        → Replaced rs rest file
    replace-Replaced rs rest file written ascii checkables other =
        let pub_key = C.ed25519_public key in
        let is_public = public_key_from_private-returns C key of_32 in
        let (line, bytes, checkable) = replaced-IsCheckable in
        let (is_log, _) =
          Written-IsChain R L C S key pub_key (some file) (rs ++ (m.r ∷ rest)) written is_public in
        let (reads, passes) =
          verify_chain-Written R L C S key pub_key (some file) (rs ++ (m.r ∷ rest)) written
            is_public in
        let (edited, replaces, log') =
          replace_result_hash-IsLog R L rs rest m.r hash file line is_log ascii
            (replaced-HasAsciiTexts hash m.r plain m.ascii) bytes in
        let reads' = iter_records-IsLog R L (rs ++ (r' ∷ rest)) edited log' in
        let (v, verdict) =
          verify_chain-returns R C pub_key (some edited) (rs ++ (r' ∷ rest)) reads'
            (checkables checkable) in
        let differ : m.r ≢ r' = λ e.
          other (m.hashed ∙ ap ok (ap (λ (s : SignedRecord R.Float). s.entry.result_hash) e)) in
        record {
          edited = edited;
          verdict = v;
          replaces = replaces;
          is_log = log';
          verifies = verdict;
          located =
              edit-Located R L C S pub_key (some file) (some edited) (length (rs ++ (m.r ∷ rest)))
                rs rest m.r r' v passes reads reads' differ verdict;
        }
