-- ===== src/Log/Steps.antt =====
-- log.py, `append`: its steps, one after the other, in a call that returns.
use mcp_attest.Base.{◌≡◌, refl, sym, ap, ◌∙◌, Option, some, [], ◌∷◌, ◌++◌, arith}
use mcp_attest.Base.Hex.{to_hex}
use mcp_attest.Base.Text.{Text, Bytes}
use mcp_attest.Errors.{Result, ok, raised, ◌>>=◌}
use mcp_attest.Errors.Laws.{>>=-eq-ok, ok-injective}
use mcp_attest.Runtime.{Runtime}
use mcp_attest.Crypto.{Primitives, sign}
use mcp_attest.Utf8
use mcp_attest.Utf8.RoundTrip.{decode-encode}
use mcp_attest.Canonical.RoundTrip.{dumps-eq-ok}
use mcp_attest.Entry.{
  AttestationEntry, SignedRecord, Receipt, record_to_dict, entry_bytes, record_bytes, to_json_line,
  entry_hash,
}
use mcp_attest.Log.Reader.{Disk, AttestationLog, touch, scan_last_record}
use mcp_attest.Log.Writer.{
  Call, extract_tool_name, head_hash_of, payload_hash, make_entry, sign_entry, line_bytes,
  make_record, append_locked, prepare, receipt_of, commit, after_prepare,
}

module _ (R : Runtime) (C : Primitives) where
  -- What is written is the canonical bytes.
  pub written_line :
      (r : SignedRecord R.Float) (text : Text) (written : Bytes)
      → to_json_line R r ≡ ok text
      → Utf8.encode text ≡ ok written
      → record_bytes R r ≡ ok written
  unfolding to_json_line record_bytes
  written_line r text written h k =
      let (bs, hb, d) = >>=-eq-ok (record_bytes R r) Utf8.decode h in
      let (s, _, e) = dumps-eq-ok R (record_to_dict r) bs hb in
      let same : s ≡ text = ok-injective (sym (decode-encode s bs e) ∙ d) in
      hb ∙ sym e ∙ ap Utf8.encode same ∙ k

  -- What `prepare` computed, if it returned.
  pub prepared :
      (log : AttestationLog) (call : Call R.Float) (key : Bytes) (tool_name : Option Text)
      (params_hash result_hash : Text)
      → prepare R C log call ≡ ok (key, tool_name, params_hash, result_hash)
      → (log.private_key ≡ some key)
        × (extract_tool_name R call.method call.params ≡ ok tool_name)
        × (payload_hash R C call.params ≡ ok params_hash)
        × (payload_hash R C call.result_or_error ≡ ok result_hash)
  unfolding prepare
  prepared log call key tool_name params_hash result_hash h = ground arith

  -- The bytes for a record are its canonical ones and a line end.
  pub line_bytes-eq-ok :
      (r : SignedRecord R.Float) (written : Bytes)
      → line_bytes R C r ≡ ok written
      → (line : Bytes) × (record_bytes R r ≡ ok line) × (written ≡ line ++ (b'\n' ∷ []))
  unfolding line_bytes
  line_bytes-eq-ok r written h =
      let (text, ht, k) =
        >>=-eq-ok (to_json_line R r) (λ t. do w ← Utf8.encode t; ok (w ++ (b'\n' ∷ []))) h in
      let (w, hw, e) = >>=-eq-ok (Utf8.encode text) (λ w. ok (w ++ (b'\n' ∷ []))) k in
      (w, written_line r text w ht hw, sym (ok-injective e))

  -- A signed entry is unchanged, and its signature is over its canonical bytes.
  pub sign_entry-eq-ok :
      (key : Bytes) (entry : AttestationEntry R.Float) (r : SignedRecord R.Float)
      → sign_entry R C key entry ≡ ok r
      → (message : Bytes) × (signature : Bytes) × (r.entry ≡ entry)
        × (entry_bytes R entry ≡ ok message)
        × (sign C key message ≡ ok signature)
        × (r.signature ≡ to_hex signature)
  unfolding sign_entry
  sign_entry-eq-ok key entry r h =
      let f = λ (s : Bytes). ok (record { entry = entry; signature = to_hex s }) in
      let (message, hm, k) = >>=-eq-ok (entry_bytes R entry) (λ m. do s ← sign C key m; f s) h in
      let (signature, hs, e) = >>=-eq-ok (sign C key message) f k in
      let same = sym (ok-injective e) in
      (message, signature, ap SignedRecord.entry same, hm, hs, ap SignedRecord.signature same)

  pub committed :
      (log : AttestationLog) (bs : Bytes) (m : Result (SignedRecord R.Float × Bytes))
      (r : SignedRecord R.Float) (receipt : Receipt) (d : Disk)
      → commit R C log bs m ≡ (ok (r, receipt), d)
      → (file : Bytes) × (m ≡ ok (r, file)) × (receipt_of R C log r ≡ ok receipt) × (d ≡ some file)
  committed log bs (raised e) r receipt d h = cc (ap (λ p. p.0) h)
  committed log bs (ok (s, file)) r receipt d h =
      let (rc, k, e) = >>=-eq-ok (receipt_of R C log s) (λ q. ok (s, q)) (ap (λ p. p.0) h) in
      let same = ok-injective e in
      (
        file,
        ap (λ p. ok (p.0, file)) same,
        ap (λ p. receipt_of R C log p.0) (sym same) ∙ k ∙ ap (λ p. ok p.1) same,
        sym (ap (λ p. p.1) h),
      )

  pub after_prepared :
      (log : AttestationLog) (call : Call R.Float) (d d' : Disk)
      (m : Result (Bytes × Option Text × Text × Text)) (r : SignedRecord R.Float)
      (receipt : Receipt)
      → after_prepare R C log call d m ≡ (ok (r, receipt), d')
      → (key : Bytes) × (tool_name : Option Text) × (params_hash : Text) × (result_hash : Text) × (m
          ≡ ok (key, tool_name, params_hash, result_hash))
        × (commit R C log
              (touch d)
              (append_locked R C log.server_id key call tool_name params_hash result_hash (touch d))
            ≡ (ok (r, receipt), d'))
  after_prepared log call d d' (raised e) r receipt h = cc (ap (λ p. p.0) h)
  after_prepared log call d d' (ok (key, t, p, q)) r receipt h = (key, t, p, q, refl, h)

  pub receipt_fields :
      (log : AttestationLog) (r : SignedRecord R.Float) (receipt : Receipt)
      → receipt_of R C log r ≡ ok receipt
      → (receipt.seq ≡ r.entry.seq)
        × (entry_hash R C r ≡ ok receipt.entry_hash)
        × (receipt.signature ≡ r.signature)
        × (receipt.server_id ≡ log.server_id)
  unfolding receipt_of
  receipt_fields log r receipt h =
      let f = λ (t : Text). ok (record {
        seq = r.entry.seq;
        entry_hash = t;
        signature = r.signature;
        server_id = log.server_id;
      }) in
      let (hash, k, e) = >>=-eq-ok (entry_hash R C r) f h in
      let same = sym (ok-injective e) in
      (
        ap Receipt.seq same,
        k ∙ ap ok (sym (ap Receipt.entry_hash same)),
        ap Receipt.signature same,
        ap Receipt.server_id same,
      )

  -- A record that was made names the hash of the one before, and is signed and written as it stands.
  pub make_record-eq-ok :
      (server_id : Text) (key : Bytes) (call : Call R.Float) (tool_name : Option Text)
      (params_hash result_hash : Text) (before : Option (SignedRecord R.Float))
      (r : SignedRecord R.Float) (written : Bytes)
      → make_record R C server_id key call tool_name params_hash result_hash before
        ≡ ok (r, written)
      → (prev_hash : Text) × (head_hash_of R C before ≡ ok prev_hash)
        × (sign_entry R C key
              (make_entry R C server_id call tool_name params_hash result_hash before prev_hash)
            ≡ ok r)
        × (line_bytes R C r ≡ ok written)
  unfolding make_record
  make_record-eq-ok server_id key call tool_name params_hash result_hash before r written h =
      let make = make_entry R C server_id call tool_name params_hash result_hash before in
      let with_bytes = λ (s : SignedRecord R.Float). (do w ← line_bytes R C s; ok (s, w)) in
      let (prev_hash, hh, k) =
        >>=-eq-ok (head_hash_of R C before) (λ t. sign_entry R C key (make t) >>= with_bytes) h in
      let (s, hs, m) = >>=-eq-ok (sign_entry R C key (make prev_hash)) with_bytes k in
      let (w, hw, e) = >>=-eq-ok (line_bytes R C s) (λ w. ok (s, w)) m in
      let same = ok-injective e in
      let same_record = ap (λ p. p.0) same in
      (
        prev_hash,
        hh,
        hs ∙ ap ok same_record,
        ap (line_bytes R C) (sym same_record) ∙ hw ∙ ap (λ p. ok p.1) same,
      )

  -- The critical section made its record behind the last one of the file, and wrote behind the file.
  pub append_locked-eq-ok :
      (server_id : Text) (key : Bytes) (call : Call R.Float) (tool_name : Option Text)
      (params_hash result_hash : Text) (bs : Bytes) (r : SignedRecord R.Float) (file : Bytes)
      → append_locked R C server_id key call tool_name params_hash result_hash bs ≡ ok (r, file)
      → (before : Option (SignedRecord R.Float)) × (written : Bytes) × (scan_last_record R bs
          ≡ ok before)
        × (make_record R C server_id key call tool_name params_hash result_hash before
            ≡ ok (r, written))
        × (file ≡ bs ++ written)
  unfolding append_locked
  append_locked-eq-ok server_id key call tool_name params_hash result_hash bs r file h =
      let finish = λ (p : SignedRecord R.Float × Bytes). ok (p.0, bs ++ p.1) in
      let make = make_record R C server_id key call tool_name params_hash result_hash in
      let (before, hb, k) = >>=-eq-ok (scan_last_record R bs) (λ o. make o >>= finish) h in
      let (made, hm, e) = >>=-eq-ok (make before) finish k in
      let same = ok-injective e in
      (before, made.1, hb, hm ∙ ap (λ p. ok (p.0, made.1)) same, sym (ap (λ p. p.1) same))
