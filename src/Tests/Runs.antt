-- ===== src/Tests/Runs.antt =====
-- A log that is grown by two appends, a fork of it, its tree heads, and a request through the proxy.
use mcp_attest.Base.{ℕ, ◌≡◌, refl, Option, none, some, []}
use mcp_attest.Base.Int.{pos}
use mcp_attest.Value.{Value, Fields, null, int, float, str, dict, field, no_fields}
use mcp_attest.Canonical
use mcp_attest.Json
use mcp_attest.Utf8
use mcp_attest.Log.Reader.{
  Disk, AttestationLog, scan_last_record, scan_lines, keep_last, parse_line, chain_length,
  last_record, iter_lines, iter_records, parse_lines,
}
use mcp_attest.Log.Writer.{
  Call, make_entry, append, prepare, extract_tool_name, tool_name_of, payload_hash, append_locked,
  make_record, head_hash_of, line_bytes, receipt_of, sign_entry, emit_sth, head_hash,
}
use mcp_attest.Base.Text.{Text, Bytes, codes, text_eq, contains, text_le}
use mcp_attest.Value.Dict.{get, set}
use mcp_attest.Value.Convert.{to_str, drop_space, read_digits, read_signed, strip, to_float, to_int}
use mcp_attest.Json.Encode.{encode, quoted, escape, escape_char, encode_float}
use mcp_attest.Json.Sort.{sort_keys, insert_field}
use mcp_attest.Value.Convert.Repr.{int_repr, is_space, repr}
use mcp_attest.Base.Decimal.{decimal, digits_onto, digits_value}
use mcp_attest.Log.Lines.{binary_lines, split, text_lines, drop_blank}
use mcp_attest.Base.Hex.{hex_digit, hex_value, to_hex}
use mcp_attest.Crypto.{check_length, hash_bytes, sign, public_key_from_private}
use mcp_attest.Entry.FromDict.{
  all_in, at_key, check_keys, entry_from_dict, fields_of, record_from_dict, to_optional_str,
  to_status,
}
use mcp_attest.Entry.{
  SignedRecord, Receipt, SignedTreeHead, ok_status, entry_bytes, entry_hash, entry_to_dict,
  record_bytes, record_to_dict, to_json_line, sth_payload, sth_bytes,
}
use mcp_attest.Errors.{
  Result, ok, raised, canonicalization_error, runtime_error, inherits, is_instance,
}
use mcp_attest.Json.Lex.{
  advance, digits_int, end_unicode, finish, lex, number_int, number_value, start, step, unescape,
}
use mcp_attest.Json.Parse.{parse}
use mcp_attest.Proxy.{
  handle, forward, read_request, attested_call, response_fields, response_status, attested_payload,
  stringify_request_id,
}
use mcp_attest.Log.Faults.{append_with, at_write}
use mcp_attest.Errors.{os_error}
use mcp_attest.Log.Writer.{emit_sth_between}
use mcp_attest.Tests.World.{toy, toy_crypto, toy_key}

abbrev pub writer : AttestationLog
writer = record { server_id = codes "srv"; private_key = some toy_key }

abbrev pub add_params : Value (Option ℕ)
add_params = dict (field (codes "name") (str (codes "add")) no_fields)

abbrev pub call_with : Text → Value (Option ℕ) → Call (Option ℕ)
call_with id result = record {
  method = codes "tools/call";
  request_id = id;
  params = add_params;
  result_or_error = result;
  status = ok_status;
  ts_request = some 5;
  ts_response = some 6;
}

abbrev pub first_call : Call (Option ℕ)
first_call = call_with (codes "1") (int (pos 3))

abbrev pub second_call : Call (Option ℕ)
second_call = call_with (codes "2") null

-- A float that is not finite.
abbrev pub bad_call : Call (Option ℕ)
bad_call = call_with (codes "3") (float none)

abbrev pub Outcome : Type 0
Outcome = Result (SignedRecord (Option ℕ) × Receipt) × Disk

-- What a run returned, with something to stand for it if it raised.
abbrev pub record_in : Outcome → SignedRecord (Option ℕ)
record_in (ok (r, receipt), d) = r
record_in (raised e, d) = record {
  entry = make_entry toy toy_crypto [] first_call none [] [] none [];
  signature = [];
}

abbrev pub receipt_in : Outcome → Receipt
receipt_in (ok (r, receipt), d) = receipt
receipt_in (raised e, d) = record { seq = pos 0; entry_hash = []; signature = []; server_id = [] }

abbrev pub head_in : Result (SignedTreeHead (Option ℕ)) → SignedTreeHead (Option ℕ)
head_in (ok h) = h
head_in (raised e) = record {
  chain_length = pos 0;
  head_hash = [];
  timestamp = none;
  signature = [];
}

abbrev pub bytes_in : Result Bytes → Bytes
bytes_in (ok bs) = bs
bytes_in (raised e) = []

abbrev answer_receipt : Result (Fields (Option ℕ) × Receipt) → Receipt
answer_receipt (ok (fs, receipt)) = receipt
answer_receipt (raised e) = record { seq = pos 0; entry_hash = []; signature = []; server_id = [] }

abbrev run_on : Call (Option ℕ) → Disk → Outcome
run_on call d = append toy toy_crypto writer call d

abbrev pub disk1 : Disk
disk1 = (run_on first_call none).1

abbrev pub record1 : SignedRecord (Option ℕ)
record1 = record_in (run_on first_call none)

abbrev pub receipt1 : Receipt
receipt1 = receipt_in (run_on first_call none)

abbrev pub disk2 : Disk
disk2 = (run_on second_call disk1).1

abbrev pub record2 : SignedRecord (Option ℕ)
record2 = record_in (run_on second_call disk1)

abbrev pub receipt2 : Receipt
receipt2 = receipt_in (run_on second_call disk1)

-- A fork of the log: another call as the first one.
abbrev pub disk1' : Disk
disk1' = (run_on second_call none).1

abbrev pub record1' : SignedRecord (Option ℕ)
record1' = record_in (run_on second_call none)

abbrev pub receipt1' : Receipt
receipt1' = receipt_in (run_on second_call none)

abbrev pub head1 : SignedTreeHead (Option ℕ)
head1 = head_in (emit_sth toy toy_crypto writer (some 7) disk1)

abbrev pub head1' : SignedTreeHead (Option ℕ)
head1' = head_in (emit_sth toy toy_crypto writer (some 8) disk1')

abbrev pub head2 : SignedTreeHead (Option ℕ)
head2 = head_in (emit_sth toy toy_crypto writer (some 9) disk2)

-- A tree head whose two reads have the second append between them.
abbrev pub raced_head : SignedTreeHead (Option ℕ)
raced_head = head_in (emit_sth_between toy toy_crypto writer (some 8) disk1 disk2)

-- The second append, if `fsync` or a part of `write` is refused behind 5 bytes.
abbrev pub refused_disk : Disk
refused_disk = (append_with toy toy_crypto (some (at_write 5)) writer second_call disk1).1

abbrev pub line1 : Bytes
line1 = bytes_in (record_bytes toy record1)

abbrev pub entry1 : Bytes
entry1 = bytes_in (entry_bytes toy record1.entry)

abbrev pub sth1 : Bytes
sth1 = bytes_in (sth_bytes toy head1)

abbrev pub params_bytes : Bytes
params_bytes = bytes_in (Canonical.dumps toy add_params)

abbrev pub request : Fields (Option ℕ)
request =
    field (codes "method") (str (codes "tools/call"))
      (field (codes "id") (int (pos 4)) (field (codes "params") add_params no_fields))

abbrev pub answer : Fields (Option ℕ)
answer = field (codes "result") (int (pos 3)) no_fields

abbrev pub upstream : Fields (Option ℕ) → Result (Value (Option ℕ))
upstream fs = ok (dict answer)

abbrev pub broken_upstream : Fields (Option ℕ) → Result (Value (Option ℕ))
broken_upstream fs = raised runtime_error

abbrev pub disk3 : Disk
disk3 = (handle toy toy_crypto writer upstream request (some 1) (some 2) disk1).1

abbrev pub receipt3 : Receipt
receipt3 = answer_receipt (handle toy toy_crypto writer upstream request (some 1) (some 2) disk1).0

pub public_ok : public_key_from_private toy_crypto toy_key ≡ ok toy_key
unfolding public_key_from_private check_length
public_ok = refl

-- What the runs above return.
pub runs :
    (run_on first_call none ≡ (ok (record1, receipt1), disk1))
    × (run_on second_call disk1 ≡ (ok (record2, receipt2), disk2))
    × (run_on second_call none ≡ (ok (record1', receipt1'), disk1'))
    × (run_on bad_call disk1 ≡ (raised canonicalization_error, disk1))
    × (handle toy toy_crypto writer upstream request (some 1) (some 2) disk1
        ≡ (ok (answer, receipt3), disk3))
unfolding append prepare extract_tool_name tool_name_of text_eq get payload_hash Canonical.dumps
    Canonical.reject_non_finite Json.dumps to_str encode sort_keys insert_field Utf8.encode
    Utf8.encode_char quoted escape escape_char int_repr decimal append_locked scan_last_record
    scan_lines binary_lines split make_record digits_onto digits_value hex_digit hex_value to_hex
    contains text_le check_length hash_bytes sign all_in at_key check_keys entry_from_dict fields_of
    record_from_dict to_optional_str to_status entry_bytes entry_hash entry_to_dict record_bytes
    record_to_dict to_json_line inherits is_instance encode_float advance digits_int end_unicode
    finish lex number_int number_value start step unescape parse Json.loads head_hash_of keep_last
    line_bytes parse_line receipt_of sign_entry Utf8.decode Utf8.decode_from Utf8.lead is_space repr
    drop_space read_digits read_signed strip to_float to_int set public_key_from_private sth_payload
    sth_bytes emit_sth chain_length head_hash last_record iter_lines iter_records parse_lines
    text_lines drop_blank handle forward read_request attested_call response_fields response_status
    attested_payload stringify_request_id
runs = (refl, refl, refl, refl, refl)

pub heads :
    (emit_sth toy toy_crypto writer (some 7) disk1 ≡ ok head1)
    × (emit_sth toy toy_crypto writer (some 8) disk1' ≡ ok head1')
    × (emit_sth toy toy_crypto writer (some 9) disk2 ≡ ok head2)
    × (chain_length toy disk1 ≡ chain_length toy disk1')
    × (emit_sth_between toy toy_crypto writer (some 8) disk1 disk2 ≡ ok raced_head)
    × (append_with toy toy_crypto (some (at_write 5)) writer second_call disk1
        ≡ (raised os_error, refused_disk))
unfolding append_with append prepare extract_tool_name tool_name_of text_eq get payload_hash
    Canonical.dumps Canonical.reject_non_finite Json.dumps to_str encode sort_keys insert_field
    Utf8.encode Utf8.encode_char quoted escape escape_char int_repr decimal append_locked
    scan_last_record scan_lines binary_lines split make_record digits_onto digits_value hex_digit
    hex_value to_hex contains text_le check_length hash_bytes sign all_in at_key check_keys
    entry_from_dict fields_of record_from_dict to_optional_str to_status entry_bytes entry_hash
    entry_to_dict record_bytes record_to_dict to_json_line inherits is_instance encode_float advance
    digits_int end_unicode finish lex number_int number_value start step unescape parse Json.loads
    head_hash_of keep_last line_bytes parse_line receipt_of sign_entry Utf8.decode Utf8.decode_from
    Utf8.lead is_space repr drop_space read_digits read_signed strip to_float to_int set
    public_key_from_private sth_payload sth_bytes emit_sth chain_length head_hash last_record
    iter_lines iter_records parse_lines text_lines drop_blank handle forward read_request
    attested_call response_fields response_status attested_payload stringify_request_id
heads = (refl, refl, refl, refl, refl, refl)

pub bytes :
    (record_bytes toy record1 ≡ ok line1)
    × (entry_bytes toy record1.entry ≡ ok entry1)
    × (sth_bytes toy head1 ≡ ok sth1)
    × (Canonical.dumps toy add_params ≡ ok params_bytes)
unfolding append prepare extract_tool_name tool_name_of text_eq get payload_hash Canonical.dumps
    Canonical.reject_non_finite Json.dumps to_str encode sort_keys insert_field Utf8.encode
    Utf8.encode_char quoted escape escape_char int_repr decimal append_locked scan_last_record
    scan_lines binary_lines split make_record digits_onto digits_value hex_digit hex_value to_hex
    contains text_le check_length hash_bytes sign all_in at_key check_keys entry_from_dict fields_of
    record_from_dict to_optional_str to_status entry_bytes entry_hash entry_to_dict record_bytes
    record_to_dict to_json_line inherits is_instance encode_float advance digits_int end_unicode
    finish lex number_int number_value start step unescape parse Json.loads head_hash_of keep_last
    line_bytes parse_line receipt_of sign_entry Utf8.decode Utf8.decode_from Utf8.lead is_space repr
    drop_space read_digits read_signed strip to_float to_int set public_key_from_private sth_payload
    sth_bytes emit_sth chain_length head_hash last_record iter_lines iter_records parse_lines
    text_lines drop_blank handle forward read_request attested_call response_fields response_status
    attested_payload stringify_request_id
bytes = (refl, refl, refl, refl)
