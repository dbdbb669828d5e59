-- ===== src/Tests/Edited.antt =====
-- A log with one record changed, and a log under another key.
use mcp_attest.Base.{ℕ, ◌≡◌, ◌≢◌, refl, sym, ap, Option, some, List, [], ◌∷◌, ◌++◌}
use mathlib.Core.Bool.{true≢false}
use mcp_attest.Canonical
use mcp_attest.Json
use mcp_attest.Utf8
use mcp_attest.Log.Reader.{
  scan_last_record, scan_lines, keep_last, parse_line, chain_length, last_record, iter_lines,
  iter_records, parse_lines,
}
use mcp_attest.Log.Writer.{
  append, prepare, extract_tool_name, tool_name_of, payload_hash, append_locked, make_record,
  head_hash_of, line_bytes, receipt_of, sign_entry, emit_sth, head_hash,
}
use mcp_attest.Base.Text.{Text, Bytes, codes, text_eq, contains, text_le}
use mcp_attest.Value.Dict.{get, set}
use mcp_attest.Value.Convert.{to_str, drop_space, read_digits, read_signed, strip, to_float, to_int}
use mcp_attest.Json.Encode.{encode, quoted, escape, escape_char, encode_float}
use mcp_attest.Json.Sort.{sort_keys, insert_field}
use mcp_attest.Value.Convert.Repr.{int_repr, is_space, repr}
use mcp_attest.Base.Decimal.{decimal, digits_onto, digits_value}
use mcp_attest.Log.Lines.{binary_lines, split, text_lines, drop_blank}
use mcp_attest.Base.Hex.{hex_digit, hex_value, to_hex}
use mcp_attest.Crypto.{check_length, hash_bytes, sign, public_key_from_private}
use mcp_attest.Entry.FromDict.{
  all_in, at_key, check_keys, entry_from_dict, fields_of, record_from_dict, to_optional_str,
  to_status,
}
use mcp_attest.Entry.{
  SignedRecord, entry_bytes, entry_hash, entry_to_dict, record_bytes, record_to_dict, to_json_line,
  sth_payload, sth_bytes,
}
use mcp_attest.Errors.{ok, inherits, is_instance}
use mcp_attest.Json.Lex.{
  advance, digits_int, end_unicode, finish, lex, number_int, number_value, start, step, unescape,
}
use mcp_attest.Json.Parse.{parse}
use mcp_attest.Proxy.{
  handle, forward, read_request, attested_call, response_fields, response_status, attested_payload,
  stringify_request_id,
}
use mcp_attest.Errors.{Result, raised}
use mcp_attest.Verifier.Tamper.{Collision, Holds, same_head_hash}
use mcp_attest.Log.Reader.{Disk, touch}
use mcp_attest.Verifier.{passed}
use mcp_attest.Base.{◌⊎◌, ◌++◌}
use mcp_attest.Tests.World.{toy, toy_crypto, toy_key}
use mcp_attest.Base.Hex.{from_hex, from_hex_onto}
use mcp_attest.Crypto.{verify}
use mcp_attest.Log.Format.{IsLog, iter_records-IsLog}
use mcp_attest.Verifier.{
  signature_invalid, failed, signature_valid, check_record, verify_lines, verify_chain,
}
use mcp_attest.Verifier.Failures.{Broken, verify_chain-failed_iff}
use mcp_attest.Verifier.Verdict.{IsCheckable, verify_chain-returns}
use mcp_attest.Tests.Runs.{receipt1, entry1, bytes}
use mcp_attest.Tests.Examples.{reads1}
use mathlib.Core.Option.{none, some}
use mcp_attest.Verifier.{ChainVerificationResult}
use mcp_attest.Verifier.Edit.{Located, edit-Located}
use mcp_attest.Tests.World.{toy-IsLawful, toy_crypto-IsSound}
use mcp_attest.Tests.Runs.{disk1, disk2, record1, record2, bytes_in}
use mcp_attest.Tests.Examples.{passes2, reads2}
use mcp_attest.Entry.{zero_hash_hex}

-- 32 bytes that are not the key of the log.
abbrev other_key : Bytes
other_key = hash_bytes toy_crypto []

abbrev edited1 : SignedRecord (Option ℕ)
edited1 = record record1 { entry = record record1.entry { result_hash = codes "ba" } }

abbrev edited_line1 : Bytes
edited_line1 = bytes_in (record_bytes toy edited1)

abbrev line2 : Bytes
line2 = bytes_in (record_bytes toy record2)

abbrev edited_file : Bytes
edited_file = edited_line1 ++ (b'\n' ∷ (line2 ++ (b'\n' ∷ [])))

edited_bytes : (record_bytes toy edited1 ≡ ok edited_line1) × (record_bytes toy record2 ≡ ok line2)
unfolding append prepare extract_tool_name tool_name_of text_eq get payload_hash Canonical.dumps
    Canonical.reject_non_finite Json.dumps to_str encode sort_keys insert_field Utf8.encode
    Utf8.encode_char quoted escape escape_char int_repr decimal append_locked scan_last_record
    scan_lines binary_lines split make_record digits_onto digits_value hex_digit hex_value to_hex
    contains text_le check_length hash_bytes sign all_in at_key check_keys entry_from_dict fields_of
    record_from_dict to_optional_str to_status entry_bytes entry_hash entry_to_dict record_bytes
    record_to_dict to_json_line inherits is_instance encode_float advance digits_int end_unicode
    finish lex number_int number_value start step unescape parse Json.loads head_hash_of keep_last
    line_bytes parse_line receipt_of sign_entry Utf8.decode Utf8.decode_from Utf8.lead is_space repr
    drop_space read_digits read_signed strip to_float to_int set public_key_from_private sth_payload
    sth_bytes emit_sth verify_chain verify_lines check_record signature_valid verify from_hex
    from_hex_onto chain_length head_hash last_record iter_lines iter_records parse_lines text_lines
    drop_blank handle forward read_request attested_call response_fields response_status
    attested_payload stringify_request_id
edited_bytes = (refl, refl)

edited-IsLog : IsLog toy (edited1 ∷ record2 ∷ []) edited_file
edited-IsLog = (
  edited_line1,
  line2 ++ (b'\n' ∷ []),
  edited_bytes.0,
  (line2, [], edited_bytes.1, refl, refl),
  refl,
)

edited_verdict :
    verify_chain toy toy_crypto toy_key (some edited_file) ≡ ok (failed 0 (signature_invalid 0))
unfolding append prepare extract_tool_name tool_name_of text_eq get payload_hash Canonical.dumps
    Canonical.reject_non_finite Json.dumps to_str encode sort_keys insert_field Utf8.encode
    Utf8.encode_char quoted escape escape_char int_repr decimal append_locked scan_last_record
    scan_lines binary_lines split make_record digits_onto digits_value hex_digit hex_value to_hex
    contains text_le check_length hash_bytes sign all_in at_key check_keys entry_from_dict fields_of
    record_from_dict to_optional_str to_status entry_bytes entry_hash entry_to_dict record_bytes
    record_to_dict to_json_line inherits is_instance encode_float advance digits_int end_unicode
    finish lex number_int number_value start step unescape parse Json.loads head_hash_of keep_last
    line_bytes parse_line receipt_of sign_entry Utf8.decode Utf8.decode_from Utf8.lead is_space repr
    drop_space read_digits read_signed strip to_float to_int set public_key_from_private sth_payload
    sth_bytes emit_sth verify_chain verify_lines check_record signature_valid verify from_hex
    from_hex_onto chain_length head_hash last_record iter_lines iter_records parse_lines text_lines
    drop_blank handle forward read_request attested_call response_fields response_status
    attested_payload stringify_request_id
edited_verdict = refl

edited_differs : record1 ≢ edited1
unfolding append prepare extract_tool_name tool_name_of text_eq get payload_hash Canonical.dumps
    Canonical.reject_non_finite Json.dumps to_str encode sort_keys insert_field Utf8.encode
    Utf8.encode_char quoted escape escape_char int_repr decimal append_locked scan_last_record
    scan_lines binary_lines split make_record digits_onto digits_value hex_digit hex_value to_hex
    contains text_le check_length hash_bytes sign all_in at_key check_keys entry_from_dict fields_of
    record_from_dict to_optional_str to_status entry_bytes entry_hash entry_to_dict record_bytes
    record_to_dict to_json_line inherits is_instance encode_float advance digits_int end_unicode
    finish lex number_int number_value start step unescape parse Json.loads head_hash_of keep_last
    line_bytes parse_line receipt_of sign_entry Utf8.decode Utf8.decode_from Utf8.lead is_space repr
    drop_space read_digits read_signed strip to_float to_int set public_key_from_private sth_payload
    sth_bytes emit_sth verify_chain verify_lines check_record signature_valid verify from_hex
    from_hex_onto chain_length head_hash last_record iter_lines iter_records parse_lines text_lines
    drop_blank handle forward read_request attested_call response_fields response_status
    attested_payload stringify_request_id
edited_differs = λ e.
    true≢false
      (sym (ap (λ (r : SignedRecord (Option ℕ)). text_eq r.entry.result_hash (codes "ba")) e))

edit-Located_example :
    Located toy toy-IsLawful toy_crypto toy_crypto-IsSound toy_key 0 record1 edited1
      (record2 ∷ [])
      (failed 0 (signature_invalid 0))
edit-Located_example =
    edit-Located toy toy-IsLawful toy_crypto toy_crypto-IsSound toy_key disk2 (some edited_file) 2
      [] (record2 ∷ []) record1 edited1 (failed 0 (signature_invalid 0)) passes2 reads2
      (iter_records-IsLog toy toy-IsLawful (edited1 ∷ record2 ∷ []) edited_file edited-IsLog)
      edited_differs edited_verdict

other_verdict : verify_chain toy toy_crypto other_key disk1 ≡ ok (failed 0 (signature_invalid 0))
unfolding append prepare extract_tool_name tool_name_of text_eq get payload_hash Canonical.dumps
    Canonical.reject_non_finite Json.dumps to_str encode sort_keys insert_field Utf8.encode
    Utf8.encode_char quoted escape escape_char int_repr decimal append_locked scan_last_record
    scan_lines binary_lines split make_record digits_onto digits_value hex_digit hex_value to_hex
    contains text_le check_length hash_bytes sign all_in at_key check_keys entry_from_dict fields_of
    record_from_dict to_optional_str to_status entry_bytes entry_hash entry_to_dict record_bytes
    record_to_dict to_json_line inherits is_instance encode_float advance digits_int end_unicode
    finish lex number_int number_value start step unescape parse Json.loads head_hash_of keep_last
    line_bytes parse_line receipt_of sign_entry Utf8.decode Utf8.decode_from Utf8.lead is_space repr
    drop_space read_digits read_signed strip to_float to_int set public_key_from_private sth_payload
    sth_bytes emit_sth verify_chain verify_lines check_record signature_valid verify from_hex
    from_hex_onto chain_length head_hash last_record iter_lines iter_records parse_lines text_lines
    drop_blank handle forward read_request attested_call response_fields response_status
    attested_payload stringify_request_id
other_verdict = refl

abbrev lines_in : Result (List Text) → List Text
lines_in (ok lines) = lines
lines_in (raised e) = []

taken1 : iter_lines toy disk1 ≡ ok (lines_in (iter_lines toy disk1))
unfolding append prepare extract_tool_name tool_name_of text_eq get payload_hash Canonical.dumps
    Canonical.reject_non_finite Json.dumps to_str encode sort_keys insert_field Utf8.encode
    Utf8.encode_char quoted escape escape_char int_repr decimal append_locked scan_last_record
    scan_lines binary_lines split make_record digits_onto digits_value hex_digit hex_value to_hex
    contains text_le check_length hash_bytes sign all_in at_key check_keys entry_from_dict fields_of
    record_from_dict to_optional_str to_status entry_bytes entry_hash entry_to_dict record_bytes
    record_to_dict to_json_line inherits is_instance encode_float advance digits_int end_unicode
    finish lex number_int number_value start step unescape parse Json.loads head_hash_of keep_last
    line_bytes parse_line receipt_of sign_entry Utf8.decode Utf8.decode_from Utf8.lead is_space repr
    drop_space read_digits read_signed strip to_float to_int set public_key_from_private sth_payload
    sth_bytes emit_sth verify_chain verify_lines check_record signature_valid verify from_hex
    from_hex_onto chain_length head_hash last_record iter_lines iter_records parse_lines text_lines
    drop_blank handle forward read_request attested_call response_fields response_status
    attested_payload stringify_request_id
taken1 = refl

verify_chain-failed_iff_example :
    Broken toy toy_crypto other_key 0 zero_hash_hex
      (lines_in (iter_lines toy disk1))
      0
      (signature_invalid 0)
verify_chain-failed_iff_example =
    (verify_chain-failed_iff toy toy_crypto other_key disk1 (lines_in (iter_lines toy disk1)) 0
        (signature_invalid 0) taken1).0
      other_verdict

abbrev signature1 : Bytes
signature1 = elim (from_hex record1.signature) [ none ↦ [] | some bs ↦ bs ]

checkable1 :
    (from_hex record1.signature ≡ some signature1)
    × (entry_hash toy toy_crypto record1 ≡ ok receipt1.entry_hash)
unfolding append prepare extract_tool_name tool_name_of text_eq get payload_hash Canonical.dumps
    Canonical.reject_non_finite Json.dumps to_str encode sort_keys insert_field Utf8.encode
    Utf8.encode_char quoted escape escape_char int_repr decimal append_locked scan_last_record
    scan_lines binary_lines split make_record digits_onto digits_value hex_digit hex_value to_hex
    contains text_le check_length hash_bytes sign all_in at_key check_keys entry_from_dict fields_of
    record_from_dict to_optional_str to_status entry_bytes entry_hash entry_to_dict record_bytes
    record_to_dict to_json_line inherits is_instance encode_float advance digits_int end_unicode
    finish lex number_int number_value start step unescape parse Json.loads head_hash_of keep_last
    line_bytes parse_line receipt_of sign_entry Utf8.decode Utf8.decode_from Utf8.lead is_space repr
    drop_space read_digits read_signed strip to_float to_int set public_key_from_private sth_payload
    sth_bytes emit_sth verify_chain verify_lines check_record signature_valid verify from_hex
    from_hex_onto chain_length head_hash last_record iter_lines iter_records parse_lines text_lines
    drop_blank handle forward read_request attested_call response_fields response_status
    attested_payload stringify_request_id
checkable1 = (refl, refl)

record1-IsCheckable : IsCheckable toy toy_crypto other_key record1
record1-IsCheckable = record {
  message = entry1;
  signature = signature1;
  hash = receipt1.entry_hash;
  message_made = bytes.1;
  signature_read = checkable1.0;
  hashed = checkable1.1;
}

verify_chain-returns_example :
    (v : ChainVerificationResult) × (verify_chain toy toy_crypto other_key disk1 ≡ ok v)
verify_chain-returns_example =
    verify_chain-returns toy toy_crypto other_key disk1 (record1 ∷ []) reads1
      (record1-IsCheckable, tt)

-- The log of one record with a blank line behind it, which is no record.
abbrev blank_behind : Disk
blank_behind = some (touch disk1 ++ (b'\n' ∷ []))

both_pass :
    (verify_chain toy toy_crypto toy_key disk1 ≡ ok (passed 1))
    × (verify_chain toy toy_crypto toy_key blank_behind ≡ ok (passed 1))
    × (head_hash toy toy_crypto disk1 ≡ head_hash toy toy_crypto blank_behind)
unfolding append prepare extract_tool_name tool_name_of text_eq get payload_hash Canonical.dumps
    Canonical.reject_non_finite Json.dumps to_str encode sort_keys insert_field Utf8.encode
    Utf8.encode_char quoted escape escape_char int_repr decimal append_locked scan_last_record
    scan_lines binary_lines split make_record digits_onto digits_value hex_digit hex_value to_hex
    contains text_le check_length hash_bytes sign all_in at_key check_keys entry_from_dict fields_of
    record_from_dict to_optional_str to_status entry_bytes entry_hash entry_to_dict record_bytes
    record_to_dict to_json_line inherits is_instance encode_float advance digits_int end_unicode
    finish lex number_int number_value start step unescape parse Json.loads head_hash_of keep_last
    line_bytes parse_line receipt_of sign_entry Utf8.decode Utf8.decode_from Utf8.lead is_space repr
    drop_space read_digits read_signed strip to_float to_int set public_key_from_private sth_payload
    sth_bytes emit_sth verify_chain verify_lines check_record signature_valid verify from_hex
    from_hex_onto chain_length head_hash last_record iter_lines iter_records parse_lines text_lines
    drop_blank handle forward read_request attested_call response_fields response_status
    attested_payload stringify_request_id
both_pass = (refl, refl, refl)

same_head_hash_example :
    (iter_records toy disk1 ≡ iter_records toy blank_behind)
    ⊎ Collision toy_crypto (Holds toy disk1) (Holds toy blank_behind)
same_head_hash_example =
    same_head_hash toy toy-IsLawful toy_crypto toy_crypto-IsSound toy_key disk1 blank_behind 1
      both_pass.0 both_pass.1 both_pass.2
