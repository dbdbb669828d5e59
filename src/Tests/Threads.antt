-- ===== src/Tests/Threads.antt =====
-- Two concurrent appends: thread 1 takes the lock first, and thread 0 waits for it.
use mcp_attest.Base.{ℕ, ◌≡◌, refl, Option, none, some, [], ◌∷◌, ◌++◌, length}
use native.Mathlib.Decide.{ℕ_discrete}
use mcp_attest.Base.Text.{Text, Bytes, codes}
use mcp_attest.Writers.{
  Job, Pc, waiting, locked, writing, leaving, idle, Shared, make, start as begin_call, acquire,
  scan, write, finish as wrote_all, release, System, pick, init, Reach, begin, later, Steps, update,
}
use mcp_attest.Writers.Sequential.{IsPartOfLine, Reach-exclusive, Reach-Written}
use mcp_attest.Writers.Progress.{holder-Frees}
use mcp_attest.Value.{Value}
use mcp_attest.Canonical
use mcp_attest.Json
use mcp_attest.Utf8
use mcp_attest.Log.Reader.{
  scan_last_record, scan_lines, keep_last, parse_line, chain_length, last_record, iter_lines,
  iter_records, parse_lines,
}
use mcp_attest.Log.Writer.{
  Call, append, prepare, extract_tool_name, tool_name_of, payload_hash, append_locked, make_record,
  head_hash_of, line_bytes, receipt_of, sign_entry, emit_sth, head_hash,
}
use mcp_attest.Base.Text.{text_eq, contains, text_le}
use mcp_attest.Value.Dict.{get, set}
use mcp_attest.Value.Convert.{to_str, drop_space, read_digits, read_signed, strip, to_float, to_int}
use mcp_attest.Json.Encode.{encode, quoted, escape, escape_char, encode_float}
use mcp_attest.Json.Sort.{sort_keys, insert_field}
use mcp_attest.Value.Convert.Repr.{int_repr, is_space, repr}
use mcp_attest.Base.Decimal.{decimal, digits_onto, digits_value}
use mcp_attest.Log.Lines.{binary_lines, split, text_lines, drop_blank}
use mcp_attest.Base.Hex.{hex_digit, hex_value, to_hex}
use mcp_attest.Crypto.{check_length, hash_bytes, sign, public_key_from_private}
use mcp_attest.Entry.FromDict.{
  all_in, at_key, check_keys, entry_from_dict, fields_of, record_from_dict, to_optional_str,
  to_status,
}
use mcp_attest.Entry.{
  SignedRecord, entry_bytes, entry_hash, entry_to_dict, record_bytes, record_to_dict, to_json_line,
  sth_payload, sth_bytes,
}
use mcp_attest.Errors.{Result, ok, raised, inherits, is_instance}
use mcp_attest.Json.Lex.{
  advance, digits_int, end_unicode, finish, lex, number_int, number_value, start, step, unescape,
}
use mcp_attest.Json.Parse.{parse}
use mcp_attest.Proxy.{
  handle, forward, read_request, attested_call, response_fields, response_status, attested_payload,
  stringify_request_id,
}
use mcp_attest.Tests.World.{toy, toy_crypto, toy_key}
use mcp_attest.Base.{sym, append-nil}
use mcp_attest.Verifier.{verify_chain, passed}
use mcp_attest.Verifier.Growth.{Written}
use mcp_attest.Tests.World.{toy-IsLawful, toy_crypto-IsSound}
use mcp_attest.Tests.Runs.{writer, first_call, second_call, record1, public_ok}

abbrev ToyJob : Type 0
ToyJob = Job toy toy_crypto toy_key

abbrev ToySystem : Type 0
ToySystem = System toy toy_crypto toy_key

abbrev ToyReach : ToySystem → Type 0
ToyReach s = Reach toy toy_crypto toy_key s

abbrev text_in : Result Text → Text
text_in (ok t) = t
text_in (raised e) = []

abbrev line_in : Result (SignedRecord (Option ℕ) × Bytes) → Bytes
line_in (ok (r, line)) = line
line_in (raised e) = []

abbrev hash_of : Value (Option ℕ) → Text
hash_of v = text_in (payload_hash toy toy_crypto v)

abbrev PreparedAs : Call (Option ℕ) → Type 0
PreparedAs call =
    prepare toy toy_crypto writer call
    ≡ ok (toy_key, some (codes "add"), hash_of call.params, hash_of call.result_or_error)

prepares : PreparedAs first_call × PreparedAs second_call
unfolding append prepare extract_tool_name tool_name_of text_eq get payload_hash Canonical.dumps
    Canonical.reject_non_finite Json.dumps to_str encode sort_keys insert_field Utf8.encode
    Utf8.encode_char quoted escape escape_char int_repr decimal append_locked scan_last_record
    scan_lines binary_lines split make_record digits_onto digits_value hex_digit hex_value to_hex
    contains text_le check_length hash_bytes sign all_in at_key check_keys entry_from_dict fields_of
    record_from_dict to_optional_str to_status entry_bytes entry_hash entry_to_dict record_bytes
    record_to_dict to_json_line inherits is_instance encode_float advance digits_int end_unicode
    finish lex number_int number_value start step unescape parse Json.loads head_hash_of keep_last
    line_bytes parse_line receipt_of sign_entry Utf8.decode Utf8.decode_from Utf8.lead is_space repr
    drop_space read_digits read_signed strip to_float to_int set public_key_from_private sth_payload
    sth_bytes emit_sth chain_length head_hash last_record iter_lines iter_records parse_lines
    text_lines drop_blank handle forward read_request attested_call response_fields response_status
    attested_payload stringify_request_id
prepares = (refl, refl)

abbrev job_with : (call : Call (Option ℕ)) → PreparedAs call → ToyJob
job_with call prepared = record {
  log = writer;
  call = call;
  tool_name = some (codes "add");
  params_hash = hash_of call.params;
  result_hash = hash_of call.result_or_error;
  keyed = refl;
  prepared = prepared;
}

abbrev job1 : ToyJob
job1 = job_with first_call prepares.0

abbrev job2 : ToyJob
job2 = job_with second_call prepares.1

abbrev line_1 : Bytes
line_1 = line_in (make toy toy_crypto toy_key job1 none)

abbrev rest_of : Bytes → Bytes
rest_of [] = []
rest_of (b ∷ bs) = bs

abbrev brace : Bytes
brace = b'{' ∷ []

sections :
    (make toy toy_crypto toy_key job1 none ≡ ok (record1, line_1))
    × (line_1 ≡ brace ++ rest_of line_1)
    × (scan_last_record toy [] ≡ ok none)
unfolding append prepare extract_tool_name tool_name_of text_eq get payload_hash Canonical.dumps
    Canonical.reject_non_finite Json.dumps to_str encode sort_keys insert_field Utf8.encode
    Utf8.encode_char quoted escape escape_char int_repr decimal append_locked scan_last_record
    scan_lines binary_lines split make_record digits_onto digits_value hex_digit hex_value to_hex
    contains text_le check_length hash_bytes sign all_in at_key check_keys entry_from_dict fields_of
    record_from_dict to_optional_str to_status entry_bytes entry_hash entry_to_dict record_bytes
    record_to_dict to_json_line inherits is_instance encode_float advance digits_int end_unicode
    finish lex number_int number_value start step unescape parse Json.loads head_hash_of keep_last
    line_bytes parse_line receipt_of sign_entry Utf8.decode Utf8.decode_from Utf8.lead is_space repr
    drop_space read_digits read_signed strip to_float to_int set public_key_from_private sth_payload
    sth_bytes emit_sth chain_length head_hash last_record iter_lines iter_records parse_lines
    text_lines drop_blank handle forward read_request attested_call response_fields response_status
    attested_payload stringify_request_id
sections = (refl, refl, refl)

abbrev next : ToySystem → ℕ → Shared toy toy_crypto toy_key → Pc toy toy_crypto toy_key → ToySystem
next s i m p = record { shared = m; pc = update i p s.pc }

abbrev both_wait : ToySystem
both_wait =
    let s =
      next (init toy toy_crypto toy_key) 1 (init toy toy_crypto toy_key).shared (waiting job1) in
    next s 0 s.shared (waiting job2)

abbrev one_holds : ToySystem
one_holds = next both_wait 1 (record both_wait.shared { holder = some 1 }) (locked job1)

-- Thread 1 has written one byte.
abbrev one_writes : ToySystem
one_writes =
    let s = next one_holds 1 one_holds.shared (writing record1 line_1) in
    next s 1 (record s.shared { file = brace }) (writing record1 (rest_of line_1))

abbrev one_wrote : ToySystem
one_wrote =
    next one_writes 1 (record one_writes.shared { file = brace ++ rest_of line_1 })
      (writing record1 [])

abbrev one_left : ToySystem
one_left =
    let s = next one_wrote 1 (record one_wrote.shared { history = record1 ∷ [] }) leaving in
    next s 1 (record s.shared { holder = none }) idle

reach_wait : ToyReach both_wait
unfolding ℕ_discrete
reach_wait = later (later begin (pick 1 (begin_call job1))) (pick 0 (begin_call job2))

reach_writes : ToyReach one_writes
unfolding ℕ_discrete
reach_writes =
    later
      (later (later reach_wait (pick 1 (acquire job1 refl)))
        (pick 1 (scan job1 none record1 line_1 sections.2 sections.0)))
      (pick 1 (write record1 line_1 brace (rest_of line_1) sections.1))

reach_left : ToyReach one_left
unfolding ℕ_discrete
reach_left =
    later
      (later
        (later reach_writes
          (pick 1 (write record1 (rest_of line_1) (rest_of line_1) [] rest_whole)))
        (pick 1 (wrote_all record1 [] refl)))
      (pick 1 release)
  where
    rest_whole : rest_of line_1 ≡ rest_of line_1 ++ []
    rest_whole = sym (append-nil (rest_of line_1))

abbrev BaseAndPart : ToySystem → Type 0
BaseAndPart s =
    (base : Bytes) × (part : Bytes) × Written toy toy-IsLawful toy_crypto toy_crypto-IsSound toy_key
      (some base) s.shared.history
    × (s.shared.file ≡ base ++ part)
    × IsPartOfLine toy toy-IsLawful toy_crypto toy_crypto-IsSound toy_key base part

Reach-exclusive_example : ◌≡◌ {A = ℕ} 1 1
unfolding ℕ_discrete
Reach-exclusive_example =
    Reach-exclusive toy toy-IsLawful toy_crypto toy_crypto-IsSound toy_key one_writes 1 1
      reach_writes refl refl

Reach-Written_example :
    BaseAndPart one_left
    × (one_left.shared.holder ≡ none
        → Written toy toy-IsLawful toy_crypto toy_crypto-IsSound toy_key
            (some one_left.shared.file)
            one_left.shared.history
          × (iter_records toy (some one_left.shared.file) ≡ ok one_left.shared.history)
          × (verify_chain toy toy_crypto toy_key (some one_left.shared.file)
              ≡ ok (passed (length one_left.shared.history))))
Reach-Written_example =
    Reach-Written toy toy-IsLawful toy_crypto toy_crypto-IsSound toy_key one_left toy_key reach_left
      public_ok

holder-Frees_example :
    (t : ToySystem) × Steps toy toy_crypto toy_key one_writes t
    × (t.shared.holder ≡ none)
    × (t.pc 1 ≡ idle)
holder-Frees_example =
    holder-Frees toy toy-IsLawful toy_crypto toy_crypto-IsSound toy_key one_writes 1 reach_writes
      refl
