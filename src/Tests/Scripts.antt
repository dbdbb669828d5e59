-- ===== src/Tests/Scripts.antt =====
-- The example server, and the script that tampers with a log.
use mcp_attest.Base.{
  ℕ, ◌≡◌, ◌≢◌, ◌⊎◌, refl, sym, ap, Bool, false, Option, none, some, [], ◌∷◌, ◌==◌,
}
use mathlib.Core.Bool.{true≢false}
use mcp_attest.Value.{Value, Fields, int, no_fields}
use mcp_attest.Canonical
use mcp_attest.Json
use mcp_attest.Utf8
use mcp_attest.Log.Reader.{
  Disk, scan_last_record, scan_lines, keep_last, parse_line, chain_length, last_record, iter_lines,
  iter_records, parse_lines,
}
use mcp_attest.Log.Writer.{
  append, prepare, extract_tool_name, tool_name_of, payload_hash, append_locked, make_record,
  head_hash_of, line_bytes, receipt_of, sign_entry, emit_sth, head_hash,
}
use mcp_attest.Base.Text.{Text, codes, text_eq, contains, text_le}
use mcp_attest.Value.Dict.{get, set}
use mcp_attest.Value.Convert.{to_str, drop_space, read_digits, read_signed, strip, to_float, to_int}
use mcp_attest.Json.Encode.{encode, quoted, escape, escape_char, encode_float}
use mcp_attest.Json.Sort.{sort_keys, insert_field}
use mcp_attest.Value.Convert.Repr.{int_repr, is_space, repr}
use mcp_attest.Base.Decimal.{decimal, digits_onto, digits_value}
use mcp_attest.Log.Lines.{binary_lines, split, text_lines, drop_blank}
use mcp_attest.Base.Hex.{hex_digit, hex_value, to_hex}
use mcp_attest.Crypto.{check_length, hash_bytes, sign, public_key_from_private}
use mcp_attest.Entry.FromDict.{
  all_in, at_key, check_keys, entry_from_dict, fields_of, record_from_dict, to_optional_str,
  to_status,
}
use mcp_attest.Entry.{
  SignedRecord, Receipt, entry_bytes, entry_hash, entry_to_dict, record_bytes, record_to_dict,
  to_json_line, sth_payload, sth_bytes,
}
use mcp_attest.Errors.{Result, ok, raised, inherits, is_instance}
use mcp_attest.Json.Lex.{
  advance, digits_int, end_unicode, finish, lex, number_int, number_value, start, step, unescape,
}
use mcp_attest.Json.Parse.{parse}
use mcp_attest.Proxy.{
  handle, forward, read_request, attested_call, response_fields, response_status, attested_payload,
  stringify_request_id,
}
use mcp_attest.Tests.World.{toy, toy_crypto, toy_key}
use mcp_attest.Verifier.{verify_receipt, verify_chain, verify_lines, check_record, signature_valid}
use mcp_attest.Base.Hex.{from_hex, from_hex_onto}
use mcp_attest.Crypto.{verify}
use mcp_attest.Base.Int.{pos}
use mcp_attest.Verifier.Growth.{Written}
use mcp_attest.Cli.{exited}
use mcp_attest.Examples.Server.{
  mock_upstream, handle_request, tools_call, call_add, call_echo, not_found, truth, or_empty,
  subscript, get_of,
}
use mcp_attest.Examples.Client.{call_through_proxy}
use mcp_attest.Examples.Demo.{add_params}
use mcp_attest.Examples.Attested.{Answers, call_through_proxy-Answers}
use mcp_attest.Examples.Tamper.{main, second_call, dead_beef}
use mcp_attest.Examples.Tamper.Detected.{main-detects, ForgedCollision}
use mcp_attest.Tests.World.{toy-IsLawful, toy_crypto-IsSound}
use mcp_attest.Tests.Runs.{writer, disk1, record1, public_ok}
use mcp_attest.Tests.Examples.{written1}
use mcp_attest.Entry.{EntryStatus}

abbrev no_zero : Option ℕ → Bool
no_zero none = false
no_zero (some n) = n == 0

abbrev outcome : Result (Fields (Option ℕ) × Receipt) × Disk
outcome =
    call_through_proxy toy toy_crypto writer (mock_upstream toy no_zero) (codes "tools/call")
      (add_params 2 3) (int (pos 4)) (some 1) (some 2) disk1

abbrev fields_in : Result (Fields (Option ℕ) × Receipt) → Fields (Option ℕ)
fields_in (ok (fs, receipt)) = fs
fields_in (raised e) = no_fields

abbrev receipt_of_call : Result (Fields (Option ℕ) × Receipt) → Receipt
receipt_of_call (ok (fs, receipt)) = receipt
receipt_of_call (raised e) = record { seq = pos 0; entry_hash = []; signature = []; server_id = [] }

abbrev answer4 : Fields (Option ℕ)
answer4 = fields_in outcome.0

abbrev receipt4 : Receipt
receipt4 = receipt_of_call outcome.0

answered : outcome ≡ (ok (answer4, receipt4), outcome.1)
unfolding append prepare extract_tool_name tool_name_of text_eq get payload_hash Canonical.dumps
    Canonical.reject_non_finite Json.dumps to_str encode sort_keys insert_field Utf8.encode
    Utf8.encode_char quoted escape escape_char int_repr decimal append_locked scan_last_record
    scan_lines binary_lines split make_record digits_onto digits_value hex_digit hex_value to_hex
    contains text_le check_length hash_bytes sign all_in at_key check_keys entry_from_dict fields_of
    record_from_dict to_optional_str to_status entry_bytes entry_hash entry_to_dict record_bytes
    record_to_dict to_json_line inherits is_instance encode_float advance digits_int end_unicode
    finish lex number_int number_value start step unescape parse Json.loads head_hash_of keep_last
    line_bytes parse_line receipt_of sign_entry Utf8.decode Utf8.decode_from Utf8.lead is_space repr
    drop_space read_digits read_signed strip to_float to_int set public_key_from_private sth_payload
    sth_bytes emit_sth verify_chain verify_lines check_record signature_valid verify from_hex
    from_hex_onto chain_length head_hash last_record iter_lines iter_records parse_lines text_lines
    drop_blank handle forward read_request attested_call response_fields response_status
    attested_payload stringify_request_id handle_request tools_call call_add call_echo not_found
    truth or_empty subscript get_of
answered = refl

call_through_proxy-Answers_example :
    (payload : Value (Option ℕ)) × (status : EntryStatus) × (r : SignedRecord (Option ℕ)) × Answers
      (int (pos 4))
      answer4
      payload
      status
    × (r.entry.status ≡ status)
    × Written toy toy-IsLawful toy_crypto toy_crypto-IsSound toy_key outcome.1 (record1 ∷ (r ∷ []))
    × (verify_receipt toy toy_crypto receipt4 (add_params 2 3) payload toy_key outcome.1 ≡ ok tt)
call_through_proxy-Answers_example =
    call_through_proxy-Answers toy toy-IsLawful no_zero toy_crypto toy_crypto-IsSound writer
      (codes "tools/call") (add_params 2 3) (int (pos 4)) (some 1) (some 2) disk1 outcome.1
      (record1 ∷ []) answer4 receipt4 toy_key toy_key written1 refl public_ok answered

abbrev one : Text → Option ℕ
one s = some 1

other_hash :
    payload_hash toy toy_crypto (second_call toy toy_crypto one).result_or_error ≢ ok dead_beef
unfolding append prepare extract_tool_name tool_name_of text_eq get payload_hash Canonical.dumps
    Canonical.reject_non_finite Json.dumps to_str encode sort_keys insert_field Utf8.encode
    Utf8.encode_char quoted escape escape_char int_repr decimal append_locked scan_last_record
    scan_lines binary_lines split make_record digits_onto digits_value hex_digit hex_value to_hex
    contains text_le check_length hash_bytes sign all_in at_key check_keys entry_from_dict fields_of
    record_from_dict to_optional_str to_status entry_bytes entry_hash entry_to_dict record_bytes
    record_to_dict to_json_line inherits is_instance encode_float advance digits_int end_unicode
    finish lex number_int number_value start step unescape parse Json.loads head_hash_of keep_last
    line_bytes parse_line receipt_of sign_entry Utf8.decode Utf8.decode_from Utf8.lead is_space repr
    drop_space read_digits read_signed strip to_float to_int set public_key_from_private sth_payload
    sth_bytes emit_sth verify_chain verify_lines check_record signature_valid verify from_hex
    from_hex_onto chain_length head_hash last_record iter_lines iter_records parse_lines text_lines
    drop_blank handle forward read_request attested_call response_fields response_status
    attested_payload stringify_request_id handle_request tools_call call_add call_echo not_found
    truth or_empty subscript get_of
other_hash = λ e.
    true≢false
      (sym (ap (λ (m : Result Text). elim m [ ok t ↦ text_eq t dead_beef | raised x ↦ false ]) e))

main-detects_example :
    (main toy toy_crypto one toy_key ≡ exited 0)
    ⊎ ForgedCollision toy toy-IsLawful toy_crypto toy_crypto-IsSound one (λ s. refl) toy_key refl
main-detects_example =
    main-detects toy toy-IsLawful toy_crypto toy_crypto-IsSound one (λ s. refl) toy_key refl
      other_hash
