-- ===== src/Tests/DemoRun.antt =====
-- The demo.
use mcp_attest.Base.{true, ℕ, ◌≡◌, refl, Bool, false, Option, none, some, ◌==◌}
use mcp_attest.Canonical
use mcp_attest.Json
use mcp_attest.Utf8
use mcp_attest.Log.Reader.{
  scan_last_record, scan_lines, keep_last, parse_line, chain_length, last_record, iter_lines,
  iter_records, parse_lines,
}
use mcp_attest.Log.Writer.{
  append, prepare, extract_tool_name, tool_name_of, payload_hash, append_locked, make_record,
  head_hash_of, line_bytes, receipt_of, sign_entry, emit_sth, head_hash,
}
use mcp_attest.Base.Text.{Text, text_eq, contains, text_le}
use mcp_attest.Value.Dict.{get, set}
use mcp_attest.Value.Convert.{to_str, drop_space, read_digits, read_signed, strip, to_float, to_int}
use mcp_attest.Json.Encode.{encode, quoted, escape, escape_char, encode_float}
use mcp_attest.Json.Sort.{sort_keys, insert_field}
use mcp_attest.Value.Convert.Repr.{int_repr, is_space, repr}
use mcp_attest.Base.Decimal.{decimal, digits_onto, digits_value}
use mcp_attest.Log.Lines.{binary_lines, split, text_lines, drop_blank}
use mcp_attest.Base.Hex.{hex_digit, hex_value, to_hex}
use mcp_attest.Crypto.{check_length, hash_bytes, sign, public_key_from_private}
use mcp_attest.Entry.FromDict.{
  all_in, at_key, check_keys, entry_from_dict, fields_of, record_from_dict, to_optional_str,
  to_status,
}
use mcp_attest.Entry.{
  entry_bytes, entry_hash, entry_to_dict, record_bytes, record_to_dict, to_json_line, sth_payload,
  sth_bytes,
}
use mcp_attest.Errors.{Result, ok, raised, inherits, is_instance}
use mcp_attest.Json.Lex.{
  advance, digits_int, end_unicode, finish, lex, number_int, number_value, start, step, unescape,
}
use mcp_attest.Json.Parse.{parse}
use mcp_attest.Proxy.{
  handle, forward, read_request, attested_call, response_fields, response_status, attested_payload,
  stringify_request_id,
}
use mcp_attest.Tests.World.{toy, toy_crypto, toy_key}
use mcp_attest.Verifier.{verify_chain, verify_lines, check_record, signature_valid}
use mcp_attest.Base.Hex.{from_hex, from_hex_onto}
use mcp_attest.Crypto.{verify}
use mcp_attest.Cli.Demo.{Place, repo_root, working_directory, first_existing, demo as demo_command}
use mcp_attest.Cli.{exited}
use mcp_attest.Examples.Server.{
  handle_request, tools_call, call_add, call_echo, not_found, truth, or_empty, subscript, get_of,
}
use mcp_attest.Examples.Demo.{demo_main, make_calls, tamper_entry_two, build_forked_log, equivocate}
use mcp_attest.Examples.Tamper.{append_all, replace_result_hash, edit_line, set_result_hash, assign}
use mcp_attest.Examples.Files.{read_lines, written_lines, ends_line}
use mcp_attest.Cli.{newlines}
use mcp_attest.Json.Ascii.{ascii_encode, ascii_quoted, ascii, ascii_char, float_text}
use mcp_attest.Crypto.{generate_keypair}
use mcp_attest.Log.Reader.{open_log}
use mcp_attest.Verifier.{detect_equivocation, verify_sth}
use mcp_attest.Tests.World.{toy-IsLawful, toy_crypto-IsSound}
use mcp_attest.Examples.Demo.{ba_hash}
use mcp_attest.Examples.Demo.Calls.{third_call}
use mcp_attest.Examples.Demo.Steps.{DemoCollision}
use mcp_attest.Examples.Demo.Ends.{demo_main-convicts}
use mathlib.Core.Bool.{true≢false}
use mcp_attest.Base.{◌≢◌, ◌⊎◌, sym, ap}

abbrev no_zero : Option ℕ → Bool
no_zero none = false
no_zero (some n) = n == 0

demo_ends :
    demo_main toy no_zero toy_crypto
      (λ s. some 1)
      (λ i. (some i, some i))
      (some 9)
      (some 10)
      (some 11)
      toy_key
    ≡ exited 0
unfolding append prepare extract_tool_name tool_name_of text_eq get payload_hash Canonical.dumps
    Canonical.reject_non_finite Json.dumps to_str encode sort_keys insert_field Utf8.encode
    Utf8.encode_char quoted escape escape_char int_repr decimal append_locked scan_last_record
    scan_lines binary_lines split make_record digits_onto digits_value hex_digit hex_value to_hex
    contains text_le check_length hash_bytes sign all_in at_key check_keys entry_from_dict fields_of
    record_from_dict to_optional_str to_status entry_bytes entry_hash entry_to_dict record_bytes
    record_to_dict to_json_line inherits is_instance encode_float advance digits_int end_unicode
    finish lex number_int number_value start step unescape parse Json.loads head_hash_of keep_last
    line_bytes parse_line receipt_of sign_entry Utf8.decode Utf8.decode_from Utf8.lead is_space repr
    drop_space read_digits read_signed strip to_float to_int set public_key_from_private sth_payload
    sth_bytes emit_sth verify_chain verify_lines check_record signature_valid verify from_hex
    from_hex_onto chain_length head_hash last_record iter_lines iter_records parse_lines text_lines
    drop_blank handle forward read_request attested_call response_fields response_status
    attested_payload stringify_request_id handle_request tools_call call_add call_echo not_found
    truth or_empty subscript get_of demo_main make_calls tamper_entry_two build_forked_log
    equivocate append_all replace_result_hash edit_line set_result_hash assign read_lines
    written_lines ends_line newlines ascii_encode ascii_quoted ascii ascii_char float_text
    generate_keypair open_log detect_equivocation verify_sth
demo_ends = refl

-- The command `demo`, with the script in the working directory only, with no script, and with one that
-- importlib has no loader for.
abbrev in_working_directory : Place → Bool
in_working_directory repo_root = false
in_working_directory working_directory = true

demo_command_runs :
    (demo_command in_working_directory (λ p. some (
        demo_main toy no_zero toy_crypto
          (λ s. some 1)
          (λ i. (some i, some i))
          (some 9)
          (some 10)
          (some 11)
          toy_key))
      ≡ exited 0)
    × (demo_command (λ p. false) (λ p. none) ≡ exited 2)
    × (demo_command (λ p. true) (λ p. none) ≡ exited 2)
unfolding demo_command first_existing
demo_command_runs = (demo_ends, refl, refl)

abbrev one : Text → Option ℕ
one s = some 1

abbrev ticks : ℕ → Option ℕ × Option ℕ
ticks i = (some i, some i)

other_tools_hash : payload_hash toy toy_crypto (third_call toy ticks).result_or_error ≢ ok ba_hash
unfolding append prepare extract_tool_name tool_name_of text_eq get payload_hash Canonical.dumps
    Canonical.reject_non_finite Json.dumps to_str encode sort_keys insert_field Utf8.encode
    Utf8.encode_char quoted escape escape_char int_repr decimal append_locked scan_last_record
    scan_lines binary_lines split make_record digits_onto digits_value hex_digit hex_value to_hex
    contains text_le check_length hash_bytes sign all_in at_key check_keys entry_from_dict fields_of
    record_from_dict to_optional_str to_status entry_bytes entry_hash entry_to_dict record_bytes
    record_to_dict to_json_line inherits is_instance encode_float advance digits_int end_unicode
    finish lex number_int number_value start step unescape parse Json.loads head_hash_of keep_last
    line_bytes parse_line receipt_of sign_entry Utf8.decode Utf8.decode_from Utf8.lead is_space repr
    drop_space read_digits read_signed strip to_float to_int set public_key_from_private sth_payload
    sth_bytes emit_sth verify_chain verify_lines check_record signature_valid verify from_hex
    from_hex_onto chain_length head_hash last_record iter_lines iter_records parse_lines text_lines
    drop_blank handle forward read_request attested_call response_fields response_status
    attested_payload stringify_request_id handle_request tools_call call_add call_echo not_found
    truth or_empty subscript get_of demo_main make_calls tamper_entry_two build_forked_log
    equivocate append_all replace_result_hash edit_line set_result_hash assign read_lines
    written_lines ends_line newlines ascii_encode ascii_quoted ascii ascii_char float_text
    generate_keypair open_log detect_equivocation verify_sth
other_tools_hash = λ e.
    true≢false
      (sym (ap (λ (m : Result Text). elim m [ ok t ↦ text_eq t ba_hash | raised x ↦ false ]) e))

demo_main-convicts_example :
    (demo_main toy no_zero toy_crypto one ticks (some 9) (some 10) (some 11) toy_key ≡ exited 0)
    ⊎ DemoCollision toy toy-IsLawful toy_crypto toy_crypto-IsSound no_zero one ticks toy_key refl
demo_main-convicts_example =
    demo_main-convicts toy toy-IsLawful toy_crypto toy_crypto-IsSound no_zero one ticks (λ s. refl)
      (λ i. (refl, refl)) toy_key refl (some 9) (some 10) (some 11) refl refl refl other_tools_hash
