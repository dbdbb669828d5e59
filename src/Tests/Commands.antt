-- ===== src/Tests/Commands.antt =====
-- The commands on the files of the runs.
use mcp_attest.Base.{ℕ, ◌≡◌, refl, Option, some, [], ◌∷◌, true}
use mcp_attest.Canonical
use mcp_attest.Json
use mcp_attest.Utf8
use mcp_attest.Log.Reader.{
  scan_last_record, scan_lines, keep_last, parse_line, chain_length, last_record, iter_lines,
  iter_records, parse_lines, open_log,
}
use mcp_attest.Log.Writer.{
  append, prepare, extract_tool_name, tool_name_of, payload_hash, append_locked, make_record,
  head_hash_of, line_bytes, receipt_of, sign_entry, emit_sth, head_hash,
}
use mcp_attest.Base.Text.{Bytes, text_eq, contains, text_le}
use mcp_attest.Value.Dict.{get, set}
use mcp_attest.Value.Convert.{to_str, drop_space, read_digits, read_signed, strip, to_float, to_int}
use mcp_attest.Json.Encode.{encode, quoted, escape, escape_char, encode_float}
use mcp_attest.Json.Sort.{sort_keys, insert_field}
use mcp_attest.Value.Convert.Repr.{int_repr, is_space, repr}
use mcp_attest.Base.Decimal.{decimal, digits_onto, digits_value}
use mcp_attest.Log.Lines.{binary_lines, split, text_lines, drop_blank}
use mcp_attest.Base.Hex.{hex_digit, hex_value, to_hex, from_hex, from_hex_onto}
use mcp_attest.Crypto.{check_length, hash_bytes, sign, public_key_from_private, verify}
use mcp_attest.Entry.FromDict.{
  all_in, at_key, check_keys, entry_from_dict, fields_of, record_from_dict, to_optional_str,
  to_status, sth_from_dict,
}
use mcp_attest.Entry.{
  SignedTreeHead, entry_bytes, entry_hash, entry_to_dict, record_bytes, record_to_dict,
  to_json_line, sth_payload, sth_bytes, sth_to_dict,
}
use mcp_attest.Errors.{ok, inherits, is_instance}
use mcp_attest.Json.Lex.{
  advance, digits_int, end_unicode, finish, lex, number_int, number_value, start, step, unescape,
}
use mcp_attest.Json.Parse.{parse}
use mcp_attest.Cli.{
  exited, exit_status, verify as verify_command, compare_sth, sth as sth_command, load_sth,
  newlines,
}
use mcp_attest.Verifier.{verify_sth, detect_equivocation}
use mcp_attest.Cli.Exits.{verify-zero, compare_sth-three, sth-zero}
use mcp_attest.Verifier.Growth.{Written-IsChain}
use mcp_attest.Log.Reader.{touch}
use mcp_attest.Tests.World.{toy, toy-IsLawful, toy_crypto, toy_crypto-IsSound, toy_key}
use mcp_attest.Tests.Runs.{disk2, record1, record2, head1, head1', bytes_in, head_in, public_ok}
use mcp_attest.Tests.Examples.{reads2, written2}

abbrev file2 : Bytes
file2 = touch disk2

-- The files of two tree heads, and what the log of two entries emits when it is opened for `sth`.
abbrev file_a : Bytes
file_a = bytes_in (Canonical.dumps toy (sth_to_dict head1))

abbrev file_b : Bytes
file_b = bytes_in (Canonical.dumps toy (sth_to_dict head1'))

abbrev head_now : SignedTreeHead (Option ℕ)
head_now = head_in (
    emit_sth toy toy_crypto (open_log (b'-' ∷ []) (some toy_key) (some file2)).0 (some 4)
      (some file2))

loads_and_forks :
    (load_sth toy file_a ≡ ok head1)
    × (load_sth toy file_b ≡ ok head1')
    × (detect_equivocation toy toy_crypto head1 head1' toy_key ≡ ok true)
    × (emit_sth toy toy_crypto
          (open_log (b'-' ∷ []) (some toy_key) (some file2)).0
          (some 4)
          (open_log (b'-' ∷ []) (some toy_key) (some file2)).1
        ≡ ok head_now)
    × (disk2 ≡ some file2)
unfolding append prepare extract_tool_name tool_name_of text_eq get payload_hash Canonical.dumps
    Canonical.reject_non_finite Json.dumps to_str encode sort_keys insert_field Utf8.encode
    Utf8.encode_char quoted escape escape_char int_repr decimal append_locked scan_last_record
    scan_lines binary_lines split make_record digits_onto digits_value hex_digit hex_value to_hex
    contains text_le check_length hash_bytes sign all_in at_key check_keys entry_from_dict fields_of
    record_from_dict to_optional_str to_status entry_bytes entry_hash entry_to_dict record_bytes
    record_to_dict to_json_line inherits is_instance encode_float advance digits_int end_unicode
    finish lex number_int number_value start step unescape parse Json.loads head_hash_of keep_last
    line_bytes parse_line receipt_of sign_entry Utf8.decode Utf8.decode_from Utf8.lead is_space repr
    drop_space read_digits read_signed strip to_float to_int set public_key_from_private sth_payload
    sth_bytes emit_sth chain_length head_hash last_record iter_lines iter_records parse_lines
    text_lines drop_blank load_sth newlines verify_sth detect_equivocation verify from_hex
    from_hex_onto sth_to_dict sth_from_dict open_log
loads_and_forks = (refl, refl, refl, refl, refl)

verify-zero_example : exit_status (verify_command toy toy_crypto toy_key disk2) ≡ 0
verify-zero_example = (verify-zero toy toy_crypto toy_key disk2).1 (
  file2,
  loads_and_forks.4,
  refl,
  record1 ∷ record2 ∷ [],
  reads2,
  (Written-IsChain toy toy-IsLawful toy_crypto toy_crypto-IsSound toy_key toy_key disk2
      (record1 ∷ record2 ∷ []) written2 public_ok).1,
)

compare_sth-three_example : exit_status (compare_sth toy toy_crypto file_a file_b toy_key) ≡ 3
compare_sth-three_example =
    (compare_sth-three toy toy_crypto file_a file_b toy_key).1
      (refl, head1, head1', loads_and_forks.0, loads_and_forks.1, loads_and_forks.2)

sth-zero_example :
    sth_command toy toy_crypto toy_key toy_key (some 4) (some file2)
    ≡ (exited 0, some (sth_to_dict head_now))
sth-zero_example =
    sth-zero toy toy-IsLawful toy_crypto toy_crypto-IsSound toy_key toy_key (some 4) file2 head_now
      refl public_ok refl loads_and_forks.3
