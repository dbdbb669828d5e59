-- ===== src/Verifier/Returns.antt =====
-- log.py, `append`: what a call and a log must be for it to return.
use mcp_attest.Base.{
  ℕ, ◌+◌, ◌≡◌, refl, sym, ap, ◌∙◌, true, Option, some, none, List, [], ◌∷◌, ◌++◌, arith, All,
  length,
}
use mathlib.Core.Path.{subst}
use mcp_attest.Base.Int.{pos}
use mcp_attest.Base.Text.{Text, Bytes}
use mcp_attest.Errors.{Result, ok, ◌>>=◌}
use mcp_attest.Runtime.{Runtime, IsLawful}
use mcp_attest.Value.{int}
use mcp_attest.Json.Returns.{IsScalar, IsEncodable}
use mcp_attest.Crypto.{Primitives, IsSound}
use mcp_attest.Crypto.Laws.{public_key_from_private-returns}
use mcp_attest.Entry.{SignedRecord, Receipt, zero_hash_hex}
use mcp_attest.Entry.Returns.{AllOptional, IsWritable}
use mcp_attest.Log.Reader.{Disk, AttestationLog, touch, last, scan_last_record}
use mcp_attest.Log.Writer.{
  Call, extract_tool_name, head_hash_of, next_seq, payload_hash, make_entry, sign_entry, line_bytes,
  make_record, append_locked, prepare, receipt_of, commit, after_prepare, append,
}
use mcp_attest.Log.Format.{scan_last_record-IsLog}
use mcp_attest.Log.Failure.{written-receipt}
use mcp_attest.Log.Returns.{
  payload_hash-returns, entry_hash-IsScalar, sign_entry-returns, line_bytes-returns,
}
use mcp_attest.Verifier.Chain.{IsChain}
use mcp_attest.Verifier.Ends.{end_hash, end_hash-last, next_seq-last}
use mcp_attest.Verifier.Growth.{Written, Written-IsChain}

module _ (R : Runtime) (C : Primitives) where
  -- What `append` can put into the record number `n`: a private key of the right size, finite times, texts
  -- without surrogates, and payloads that have canonical JSON.
  pub record IsAttestable (log : AttestationLog) (call : Call R.Float) (key : Bytes) (n : ℕ)
      : Type 0 where
    pub tool_name : Option Text
    pub opened_with : log.private_key ≡ some key
    pub key_length : length key ≡ 32
    pub number : IsEncodable R (int (pos n))
    pub server_id : All IsScalar log.server_id
    pub request_id : All IsScalar call.request_id
    pub method : All IsScalar call.method
    pub ts_request : R.is_finite call.ts_request ≡ true
    pub ts_response : R.is_finite call.ts_response ≡ true
    pub params : IsEncodable R call.params
    pub result_or_error : IsEncodable R call.result_or_error
    pub tool_named : extract_tool_name R call.method call.params ≡ ok tool_name
    pub tool_written : AllOptional tool_name

  prepare-returns :
      (log : AttestationLog) (call : Call R.Float) (key : Bytes) (tool_name : Option Text)
      (params_hash result_hash : Text)
      → log.private_key ≡ some key
      → extract_tool_name R call.method call.params ≡ ok tool_name
      → payload_hash R C call.params ≡ ok params_hash
      → payload_hash R C call.result_or_error ≡ ok result_hash
      → prepare R C log call ≡ ok (key, tool_name, params_hash, result_hash)
  unfolding prepare
  prepare-returns log call key tool_name params_hash result_hash h t p q = rw (h, t, p, q) refl

  pub append_locked-returns :
      (server_id : Text) (key : Bytes) (call : Call R.Float) (tool_name : Option Text)
      (params_hash result_hash prev_hash : Text) (bs written : Bytes)
      (before : Option (SignedRecord R.Float)) (r : SignedRecord R.Float)
      → scan_last_record R bs ≡ ok before
      → head_hash_of R C before ≡ ok prev_hash
      → sign_entry R C key
          (make_entry R C server_id call tool_name params_hash result_hash before prev_hash)
        ≡ ok r
      → line_bytes R C r ≡ ok written
      → append_locked R C server_id key call tool_name params_hash result_hash bs
        ≡ ok (r, bs ++ written)
  unfolding append_locked make_record
  append_locked-returns server_id key call tool_name params_hash result_hash prev_hash bs written
        before r scanned head signed line =
      rw (scanned, head, signed, line) refl

  pub append-steps :
      (log : AttestationLog) (call : Call R.Float) (key : Bytes) (tool_name : Option Text)
      (params_hash result_hash : Text) (d : Disk) (file : Bytes) (r : SignedRecord R.Float)
      (receipt : Receipt)
      → prepare R C log call ≡ ok (key, tool_name, params_hash, result_hash)
      → append_locked R C log.server_id key call tool_name params_hash result_hash (touch d)
        ≡ ok (r, file)
      → receipt_of R C log r ≡ ok receipt
      → append R C log call d ≡ (ok (r, receipt), some file)
  unfolding append
  append-steps log call key tool_name params_hash result_hash d file r receipt p l q =
      let pair : Receipt → Result (SignedRecord R.Float × Receipt) = λ c. ok (r, c) in
      ap (after_prepare R C log call d) p
      ∙ ap (commit R C log (touch d)) l
      ∙ ap (λ (m : Result Receipt). (m >>= pair, some file)) q

module _ (R : Runtime) (L : IsLawful R) (C : Primitives) (S : IsSound C) where
  pub end_hash-returns :
      (key : Bytes) (i : ℕ) (prev : Text) (rs : List (SignedRecord R.Float))
      → IsChain R C key i prev rs
      → All IsScalar prev
      → (hash : Text) × (end_hash R C prev rs ≡ ok hash) × All IsScalar hash
  end_hash-returns key i prev [] c h = (prev, refl, h)
  end_hash-returns key i prev (r ∷ rs) (hash, _, _, _, k, c) h =
      let (end, e, he) =
        end_hash-returns key (i + 1) hash rs c (entry_hash-IsScalar R L C S r hash k) in
      (end, ap (λ (m : Result Text). m >>= λ t. end_hash R C t rs) k ∙ e, he)

  pub zero_hash-IsScalar : All IsScalar zero_hash_hex
  zero_hash-IsScalar = ground arith

  made-IsWritable :
      (log : AttestationLog) (call : Call R.Float) (key : Bytes) (n : ℕ)
      (a : IsAttestable R C log call key n) (params_hash result_hash prev_hash : Text)
      (before : Option (SignedRecord R.Float))
      → next_seq R C before ≡ pos n
      → All IsScalar params_hash
      → All IsScalar result_hash
      → All IsScalar prev_hash
      → IsWritable R
          (make_entry R C log.server_id call a.tool_name params_hash result_hash before prev_hash)
  made-IsWritable log call key n a params_hash result_hash prev_hash before seq p q h = record {
    seq = subst (λ z. IsEncodable R (int z)) (sym seq) a.number;
    prev_hash = h;
    ts_request = a.ts_request;
    ts_response = a.ts_response;
    server_id = a.server_id;
    request_id = a.request_id;
    method = a.method;
    tool_name = a.tool_written;
    params_hash = p;
    result_hash = q;
  }

  -- On a log that writers with one private key of 32 bytes have made, an append with that key returns a
  -- record and a receipt, and leaves a file, if the times are finite, the tool name can be read, and the
  -- number of records, the strings and the payloads can be written as canonical JSON.
  pub append-returns :
      (log : AttestationLog) (call : Call R.Float) (d : Disk) (rs : List (SignedRecord R.Float))
      (key : Bytes)
      → Written R L C S key d rs
      → IsAttestable R C log call key (length rs)
      → (r : SignedRecord R.Float) × (receipt : Receipt) × (file : Bytes) × (append R C log call d
          ≡ (ok (r, receipt), some file))
  append-returns log call d rs key w a =
      let public = C.ed25519_public key in
      let (is_log, chain) =
        Written-IsChain R L C S key public d rs w
          (public_key_from_private-returns C key a.key_length) in
      let (prev_hash, ends, hp) =
        end_hash-returns public 0 zero_hash_hex rs chain zero_hash-IsScalar in
      let before = last R none rs in
      let head =
        sym (end_hash-last R C public 0 zero_hash_hex none rs chain (unfold head_hash_of in refl))
        ∙ ends in
      let seq =
        next_seq-last R C public 0 zero_hash_hex none rs chain refl ∙ ap pos (omega arith) in
      let (params_hash, p, hparams) = payload_hash-returns R L C S call.params a.params in
      let (result_hash, q, hresult) =
        payload_hash-returns R L C S call.result_or_error a.result_or_error in
      let writable =
        made-IsWritable log call key (length rs) a params_hash result_hash prev_hash before seq
          hparams hresult hp in
      let (r, signed, same, hs) = sign_entry-returns R L C S key _ a.key_length writable in
      let (written, line) =
        line_bytes-returns R L C S r (subst (IsWritable R) (sym same) writable) hs in
      let (receipt, given) = written-receipt R C log r written line in
      let prepared =
        prepare-returns R C log call key a.tool_name params_hash result_hash a.opened_with
          a.tool_named p q in
      let locked =
        append_locked-returns R C log.server_id key call a.tool_name params_hash result_hash
          prev_hash (touch d) written before r (scan_last_record-IsLog R L rs (touch d) is_log) head
          signed line in
      (
        r,
        receipt,
        touch d ++ written,
        append-steps R C log call key a.tool_name params_hash result_hash d (touch d ++ written) r
            receipt prepared locked given,
      )
