-- ===== src/Log/Writer.antt =====
-- log.py: what is written to the log, and the hash and tree head of its end, while the operating system
-- refuses nothing (Log/Faults has the refusals). A call returns its result
-- and the file that it leaves. The locks make one `append` a single step on the file.
use mcp_attest.Base.{Option, none, some, [], ◌∷◌, ◌++◌, if◌then◌else◌}
use mcp_attest.Base.Int.{ℤ, pos, increment}
use mcp_attest.Base.Hex.{to_hex}
use mcp_attest.Base.Text.{Text, Bytes, codes, text_eq}
use mcp_attest.Errors.{Result, ok, raised, ◌>>=◌, or_raise, runtime_error}
use mcp_attest.Runtime.{Runtime}
use mcp_attest.Value.{Value, null, dict}
use mcp_attest.Value.Dict.{get}
use mcp_attest.Value.Convert.{to_str}
use mcp_attest.Crypto.{Primitives, sign, hash_bytes}
use mcp_attest.Canonical
use mcp_attest.Utf8
use mcp_attest.Entry.{
  EntryStatus, AttestationEntry, SignedRecord, Receipt, SignedTreeHead, zero_hash_hex, entry_bytes,
  to_json_line, entry_hash, sth_payload,
}
use mcp_attest.Log.Reader.{
  AttestationLog, Disk, chain_length, last, last_record, scan_last_record, touch,
}

-- What a caller of `append` passes. `F` is the type of floats.
pub record Call (F : Type 0) : Type 0 where
  pub method : Text
  pub request_id : Text
  pub params : Value F
  pub result_or_error : Value F
  pub status : EntryStatus
  pub ts_request : F
  pub ts_response : F

module _ (R : Runtime) where
  -- _extract_tool_name
  unfoldable pub tool_name_of : Option (Value R.Float) → Result (Option Text)
  tool_name_of none = ok none
  tool_name_of (some null) = ok none
  tool_name_of (some v) = do s ← to_str R v; ok (some s)

  unfoldable pub extract_tool_name : Text → Value R.Float → Result (Option Text)
  unfolding text_eq get tool_name_of
  extract_tool_name method (dict fs) =
      if text_eq method (codes "tools/call") then tool_name_of (get (codes "name") fs) else ok none
  extract_tool_name method _ = ok none

module _ (R : Runtime) (C : Primitives) where
  -- head_hash
  unfoldable pub head_hash_of : Option (SignedRecord R.Float) → Result Text
  head_hash_of none = ok zero_hash_hex
  head_hash_of (some r) = entry_hash R C r

  unfoldable pub head_hash : Disk → Result Text
  unfolding head_hash_of
  head_hash d = do last ← last_record R d; head_hash_of last

  abbrev pub next_seq : Option (SignedRecord R.Float) → ℤ
  next_seq none = pos 0
  next_seq (some r) = increment r.entry.seq

  -- `crypto.hash_bytes(self._canonical_bytes(value)).hex()`
  unfoldable pub payload_hash : Value R.Float → Result Text
  payload_hash v = do bs ← Canonical.dumps R v; ok (to_hex (hash_bytes C bs))

  -- The entry that `append` makes behind the last record, whose hash is `prev_hash`.
  abbrev pub make_entry :
      Text
      → Call R.Float
      → Option Text
      → Text
      → Text
      → Option (SignedRecord R.Float)
      → Text
      → AttestationEntry R.Float
  make_entry server_id call tool_name params_hash result_hash before prev_hash = record {
    seq = next_seq before;
    prev_hash = prev_hash;
    ts_request = call.ts_request;
    ts_response = call.ts_response;
    server_id = server_id;
    request_id = call.request_id;
    method = call.method;
    tool_name = tool_name;
    params_hash = params_hash;
    result_hash = result_hash;
    status = call.status;
  }

  unfoldable pub sign_entry : Bytes → AttestationEntry R.Float → Result (SignedRecord R.Float)
  sign_entry key entry = do
    message ← entry_bytes R entry
    signature ← sign C key message
    ok (record { entry = entry; signature = to_hex signature })

  -- The bytes that are written for a record.
  unfoldable pub line_bytes : SignedRecord R.Float → Result Bytes
  line_bytes r = do
    line ← to_json_line R r
    written ← Utf8.encode line
    ok (written ++ (b'\n' ∷ []))

  unfoldable pub make_record :
      Text
      → Bytes
      → Call R.Float
      → Option Text
      → Text
      → Text
      → Option (SignedRecord R.Float)
      → Result (SignedRecord R.Float × Bytes)
  unfolding sign_entry line_bytes
  make_record server_id key call tool_name params_hash result_hash before = do
    prev_hash ← head_hash_of before
    r ←
        sign_entry key
          (make_entry server_id call tool_name params_hash result_hash before prev_hash)
    written ← line_bytes r
    ok (r, written)

  -- The critical section of `append`, on the bytes of the opened file.
  unfoldable pub append_locked :
      Text
      → Bytes
      → Call R.Float
      → Option Text
      → Text
      → Text
      → Bytes
      → Result (SignedRecord R.Float × Bytes)
  append_locked server_id key call tool_name params_hash result_hash bs = do
    before ← scan_last_record R bs
    (r, written) ← make_record server_id key call tool_name params_hash result_hash before
    ok (r, bs ++ written)

  -- The part of `append` before the file is opened.
  unfoldable pub prepare :
      AttestationLog → Call R.Float → Result (Bytes × Option Text × Text × Text)
  prepare log call = do
    key ← or_raise runtime_error log.private_key
    tool_name ← extract_tool_name R call.method call.params
    params_hash ← payload_hash call.params
    result_hash ← payload_hash call.result_or_error
    ok (key, tool_name, params_hash, result_hash)

  unfoldable pub receipt_of : AttestationLog → SignedRecord R.Float → Result Receipt
  receipt_of log r = do
    hash ← entry_hash R C r
    ok (record {
      seq = r.entry.seq;
      entry_hash = hash;
      signature = r.signature;
      server_id = log.server_id;
    })

  -- The result of the critical section, and the file that it leaves.
  abbrev pub commit :
      AttestationLog
      → Bytes
      → Result (SignedRecord R.Float × Bytes)
      → Result (SignedRecord R.Float × Receipt) × Disk
  commit log bs (raised e) = (raised e, some bs)
  commit log bs (ok (r, file)) = ((do receipt ← receipt_of log r; ok (r, receipt)), some file)

  -- `append` behind `prepare`: nothing is opened if that raised.
  abbrev pub after_prepare :
      AttestationLog
      → Call R.Float
      → Disk
      → Result (Bytes × Option Text × Text × Text)
      → Result (SignedRecord R.Float × Receipt) × Disk
  after_prepare log call d (raised e) = (raised e, d)
  after_prepare log call d (ok (key, tool_name, params_hash, result_hash)) =
      let bs = touch d in
      commit log bs (append_locked log.server_id key call tool_name params_hash result_hash bs)

  unfoldable pub append :
      AttestationLog → Call R.Float → Disk → Result (SignedRecord R.Float × Receipt) × Disk
  append log call d = after_prepare log call d (prepare log call)

  -- emit_sth, with the time that the caller gives or the clock shows. It reads the file twice and takes no
  -- lock: `counted` is the file that `chain_length` reads, and `headed` the one that `head_hash` reads, which
  -- another writer may have added to by then.
  abbrev pub emit_sth_between :
      AttestationLog → R.Float → Disk → Disk → Result (SignedTreeHead R.Float)
  emit_sth_between log timestamp counted headed = do
    key ← or_raise runtime_error log.private_key
    n ← chain_length R counted
    head ← head_hash headed
    message ← Canonical.dumps R (sth_payload (pos n) head timestamp)
    signature ← sign C key message
    ok (record {
      chain_length = pos n;
      head_hash = head;
      timestamp = timestamp;
      signature = to_hex signature;
    })

  -- emit_sth on a file that nobody adds to between the two reads.
  unfoldable pub emit_sth : AttestationLog → R.Float → Disk → Result (SignedTreeHead R.Float)
  emit_sth log timestamp d = emit_sth_between log timestamp d d
