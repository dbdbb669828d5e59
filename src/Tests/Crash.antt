-- ===== src/Tests/Crash.antt =====
-- The theorem on a torn line, at a run.
use mcp_attest.Base.{◌≡◌, refl, some, []}
use mcp_attest.Canonical
use mcp_attest.Json
use mcp_attest.Utf8
use mcp_attest.Log.Writer.{
  append, prepare, extract_tool_name, tool_name_of, payload_hash, append_locked, make_record,
  head_hash_of, line_bytes, receipt_of, sign_entry,
}
use mcp_attest.Base.Text.{text_eq, contains, text_le}
use mcp_attest.Value.Dict.{get, set}
use mcp_attest.Value.Convert.{to_str, drop_space, read_digits, read_signed, strip, to_float, to_int}
use mcp_attest.Json.Encode.{encode, quoted, escape, escape_char, encode_float}
use mcp_attest.Json.Sort.{sort_keys, insert_field}
use mcp_attest.Value.Convert.Repr.{int_repr, is_space, repr}
use mcp_attest.Base.Decimal.{decimal, digits_onto, digits_value}
use mcp_attest.Log.Reader.{iter_records, scan_last_record, scan_lines, keep_last, parse_line}
use mcp_attest.Log.Lines.{binary_lines, split}
use mcp_attest.Base.Hex.{hex_digit, hex_value, to_hex}
use mcp_attest.Crypto.{check_length, hash_bytes, sign}
use mcp_attest.Entry.FromDict.{
  all_in, at_key, check_keys, entry_from_dict, fields_of, record_from_dict, to_optional_str,
  to_status,
}
use mcp_attest.Entry.{
  entry_bytes, entry_hash, entry_to_dict, record_bytes, record_to_dict, to_json_line,
}
use mcp_attest.Errors.{ok, raised, json_decode_error, inherits, is_instance}
use mcp_attest.Json.Lex.{
  advance, digits_int, end_unicode, finish, lex, number_int, number_value, start, step, unescape,
}
use mcp_attest.Json.Parse.{parse}
use mcp_attest.Log.Torn.{torn_line-append}
use mcp_attest.Tests.World.{toy, toy-IsLawful, toy_crypto}
use mcp_attest.Tests.Runs.{
  Outcome, record_in, receipt_in, writer, second_call, record1, line1, bytes,
}

-- An append to a file that holds the line of one record without its line end.
abbrev torn_run : Outcome
torn_run = append toy toy_crypto writer second_call (some line1)

torn_run-returns :
    append toy toy_crypto writer second_call (some line1)
    ≡ (ok (record_in torn_run, receipt_in torn_run), torn_run.1)
unfolding append prepare extract_tool_name tool_name_of text_eq get payload_hash Canonical.dumps
    Canonical.reject_non_finite Json.dumps to_str encode sort_keys insert_field Utf8.encode
    Utf8.encode_char quoted escape escape_char int_repr decimal append_locked scan_last_record
    scan_lines binary_lines split make_record digits_onto digits_value hex_digit hex_value to_hex
    contains text_le check_length hash_bytes sign all_in at_key check_keys entry_from_dict fields_of
    record_from_dict to_optional_str to_status entry_bytes entry_hash entry_to_dict record_bytes
    record_to_dict to_json_line inherits is_instance encode_float advance digits_int end_unicode
    finish lex number_int number_value start step unescape parse Json.loads head_hash_of keep_last
    line_bytes parse_line receipt_of sign_entry Utf8.decode Utf8.decode_from Utf8.lead is_space repr
    drop_space read_digits read_signed strip to_float to_int set
torn_run-returns = refl

torn_line-append_example : iter_records toy torn_run.1 ≡ raised json_decode_error
torn_line-append_example =
    torn_line-append toy toy-IsLawful toy_crypto writer second_call [] [] line1 record1
      (record_in torn_run) (receipt_in torn_run) torn_run.1 refl bytes.0 torn_run-returns
