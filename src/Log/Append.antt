-- ===== src/Log/Append.antt =====
-- log.py, `append`: the record, the receipt and the file of a call that returns.
use mcp_attest.Base.{◌≡◌, sym, ap, ◌∙◌, Option, some, [], ◌∷◌, ◌++◌}
use mcp_attest.Base.Hex.{to_hex}
use mcp_attest.Base.Text.{Text, Bytes}
use mcp_attest.Errors.{ok}
use mcp_attest.Runtime.{Runtime}
use mcp_attest.Crypto.{Primitives, sign}
use mcp_attest.Entry.{
  AttestationEntry, SignedRecord, Receipt, entry_bytes, record_bytes, entry_hash,
}
use mcp_attest.Log.Reader.{Disk, AttestationLog, touch, scan_last_record}
use mcp_attest.Log.Writer.{
  Call, extract_tool_name, head_hash_of, next_seq, payload_hash, make_entry, prepare, append,
}
use mcp_attest.Log.Steps.{
  prepared, line_bytes-eq-ok, sign_entry-eq-ok, committed, after_prepared, receipt_fields,
  make_record-eq-ok, append_locked-eq-ok,
}

module _ (R : Runtime) (C : Primitives) where
  -- How the record and the receipt of a successful append are made: behind the last record `before`,
  -- from what `prepare` computed.
  pub record Appended (log : AttestationLog) (call : Call R.Float)
      (before : Option (SignedRecord R.Float)) (r : SignedRecord R.Float) (receipt : Receipt)
      : Type 0 where
    pub key : Bytes
    pub message : Bytes
    pub signature : Bytes
    pub opened_with : log.private_key ≡ some key
    pub seq_next : r.entry.seq ≡ next_seq R C before
    pub prev_named : head_hash_of R C before ≡ ok r.entry.prev_hash
    pub params_hashed : payload_hash R C call.params ≡ ok r.entry.params_hash
    pub result_hashed : payload_hash R C call.result_or_error ≡ ok r.entry.result_hash
    pub tool_named : extract_tool_name R call.method call.params ≡ ok r.entry.tool_name
    pub method_kept : r.entry.method ≡ call.method
    pub id_kept : r.entry.request_id ≡ call.request_id
    pub status_kept : r.entry.status ≡ call.status
    pub server_kept : r.entry.server_id ≡ log.server_id
    pub request_time_kept : r.entry.ts_request ≡ call.ts_request
    pub response_time_kept : r.entry.ts_response ≡ call.ts_response
    pub message_made : entry_bytes R r.entry ≡ ok message
    pub signed : sign C key message ≡ ok signature
    pub signature_hex : r.signature ≡ to_hex signature
    pub receipt_seq : receipt.seq ≡ r.entry.seq
    pub receipt_hash : entry_hash R C r ≡ ok receipt.entry_hash
    pub receipt_signature : receipt.signature ≡ r.signature
    pub receipt_server : receipt.server_id ≡ log.server_id

  -- The parts put together.
  described :
      (log : AttestationLog) (call : Call R.Float) (before : Option (SignedRecord R.Float))
      (r : SignedRecord R.Float) (receipt : Receipt) (key : Bytes) (tool_name : Option Text)
      (params_hash result_hash prev_hash : Text)
      → (log.private_key ≡ some key)
        × (extract_tool_name R call.method call.params ≡ ok tool_name)
        × (payload_hash R C call.params ≡ ok params_hash)
        × (payload_hash R C call.result_or_error ≡ ok result_hash)
      → head_hash_of R C before ≡ ok prev_hash
      → (let entry =
            make_entry R C log.server_id call tool_name params_hash result_hash before prev_hash in
          (message : Bytes) × (signature : Bytes) × (r.entry ≡ entry)
          × (entry_bytes R entry ≡ ok message)
          × (sign C key message ≡ ok signature)
          × (r.signature ≡ to_hex signature))
      → (receipt.seq ≡ r.entry.seq)
        × (entry_hash R C r ≡ ok receipt.entry_hash)
        × (receipt.signature ≡ r.signature)
        × (receipt.server_id ≡ log.server_id)
      → Appended log call before r receipt
  described log call before r receipt key tool_name params_hash result_hash prev_hash
        (opened, named, params_ok, result_ok) hh (message, signature, entry_is, made, hsig, hhex)
        (same_seq, hashed, same_signature, same_server) =
      record {
        key = key;
        message = message;
        signature = signature;
        opened_with = opened;
        seq_next = ap AttestationEntry.seq entry_is;
        prev_named = hh ∙ ap ok (sym (ap AttestationEntry.prev_hash entry_is));
        params_hashed = params_ok ∙ ap ok (sym (ap AttestationEntry.params_hash entry_is));
        result_hashed = result_ok ∙ ap ok (sym (ap AttestationEntry.result_hash entry_is));
        tool_named = named ∙ ap ok (sym (ap AttestationEntry.tool_name entry_is));
        method_kept = ap AttestationEntry.method entry_is;
        id_kept = ap AttestationEntry.request_id entry_is;
        status_kept = ap AttestationEntry.status entry_is;
        server_kept = ap AttestationEntry.server_id entry_is;
        request_time_kept = ap AttestationEntry.ts_request entry_is;
        response_time_kept = ap AttestationEntry.ts_response entry_is;
        message_made = ap (entry_bytes R) entry_is ∙ made;
        signed = hsig;
        signature_hex = hhex;
        receipt_seq = same_seq;
        receipt_hash = hashed;
        receipt_signature = same_signature;
        receipt_server = same_server;
      }

  -- A successful `append` found the last record of the file, made the next one as described, and added
  -- its canonical bytes and a line end to the file.
  pub append-Appended :
      (log : AttestationLog) (call : Call R.Float) (d d' : Disk) (r : SignedRecord R.Float)
      (receipt : Receipt)
      → append R C log call d ≡ (ok (r, receipt), d')
      → (before : Option (SignedRecord R.Float)) × (line : Bytes) × (scan_last_record R (touch d)
          ≡ ok before)
        × Appended log call before r receipt
        × (record_bytes R r ≡ ok line)
        × (d' ≡ some (touch d ++ (line ++ (b'\n' ∷ []))))
  unfolding append
  append-Appended log call d d' r receipt h =
      let (key, tool_name, params_hash, result_hash, hp, hc) =
        after_prepared R C log call d d' (prepare R C log call) r receipt h in
      let (file, hl, hr, hd) = committed R C log (touch d) _ r receipt d' hc in
      let (before, written, hb, hm, hf) =
        append_locked-eq-ok R C log.server_id key call tool_name params_hash result_hash (touch d) r
          file hl in
      let (prev_hash, hh, hs, hw) =
        make_record-eq-ok R C log.server_id key call tool_name params_hash result_hash before r
          written hm in
      let entry =
        make_entry R C log.server_id call tool_name params_hash result_hash before prev_hash in
      let signed = sign_entry-eq-ok R C key entry r hs in
      let (line, hline, line_end) = line_bytes-eq-ok R C r written hw in
      let named = prepared R C log call key tool_name params_hash result_hash hp in
      (
        before,
        line,
        hb,
        described log call before r receipt key tool_name params_hash result_hash prev_hash named hh
            signed (receipt_fields R C log r receipt hr),
        hline,
        hd ∙ ap some (hf ∙ ap (λ w. touch d ++ w) line_end),
      )
