-- ===== src/Examples/Tamper.antt =====
-- scripts/tamper_attack.py. The key pair is made of the bytes that are drawn for it, and `literal` gives
-- the floats that the script writes as literals.
pub mod Line
pub mod File
pub mod Calls
pub mod Detected
use mcp_attest.Base.{
  ℕ, zero, suc, Bool, true, false, not, Option, none, some, List, [], ◌∷◌, ◌++◌, if◌then◌else◌,
  get_elem?,
}
use mcp_attest.Base.Text.{Text, Bytes, codes}
use mcp_attest.Errors.{
  ErrorClass, Result, ok, raised, ◌>>=◌, or_raise, type_error, key_error, index_error,
}
use mcp_attest.Runtime.{Runtime}
use mcp_attest.Value.{
  Value, Items, no_items, item, Fields, no_fields, field, null, bool, int, float, str, list, tuple,
  dict, foreign,
}
use mcp_attest.Value.Dict.{get, set}
use mcp_attest.Crypto.{Primitives, generate_keypair}
use mcp_attest.Json
use mcp_attest.Json.Sort.{sort_keys}
use mcp_attest.Json.Ascii.{ascii_encode, compact_separators}
use mcp_attest.Entry.{ok_status, SignedRecord, Receipt}
use mcp_attest.Log.Reader.{Disk, AttestationLog, open_log, touch}
use mcp_attest.Log.Writer.{Call, append}
use mcp_attest.Verifier.{ChainVerificationResult, verify_chain}
use mcp_attest.Cli.{Ended, exited, uncaught}
use mcp_attest.Examples.Files.{read_lines, written_lines, replace_at}

-- `part * n`
abbrev pub repeated : ℕ → Text → Text
repeated zero part = []
repeated (suc n) part = part ++ repeated n part

-- `"deadbeef" * 8`
abbrev pub dead_beef : Text
dead_beef = repeated 8 (codes "deadbeef")

module _ {F : Type 0} where
  -- `v[k] = w`
  unfoldable pub assign : Text → Value F → Value F → Result (Value F)
  assign k w (dict fs) = ok (dict (set k w fs))
  assign k w _ = raised type_error

  -- `record["entry"]["result_hash"] = hash`
  unfoldable pub set_result_hash : Text → Value F → Result (Value F)
  unfolding assign get set
  set_result_hash hash (dict fs) = do
    entry ← or_raise key_error (get (codes "entry") fs)
    changed ← assign (codes "result_hash") (str hash) entry
    ok (dict (set (codes "entry") changed fs))
  set_result_hash hash _ = raised type_error

  -- `{"name": "echo", "arguments": {"text": text}}`
  abbrev pub echo_params : Text → Value F
  echo_params text = dict (
      field (codes "name") (str (codes "echo"))
        (field (codes "arguments") (dict (field (codes "text") (str text) no_fields)) no_fields))

module _ (R : Runtime) where
  -- The edit of a line: parsed, given another result hash, and written back.
  unfoldable pub edit_line : Text → Text → Result Text
  unfolding set_result_hash
  edit_line hash line = do
    parsed ← Json.loads R line
    changed ← set_result_hash hash parsed
    ascii_encode R compact_separators (sort_keys changed)

  -- `_mutate_middle_record`, and `_tamper_entry_two` of the demo, with their index and hash.
  unfoldable pub replace_result_hash : ℕ → Text → Bytes → Result Bytes
  unfolding edit_line
  replace_result_hash n hash bs = do
    lines ← read_lines bs
    line ← or_raise index_error (get_elem? lines n)
    changed ← edit_line hash line
    written_lines (replace_at n changed lines)

  -- _mutate_middle_record
  unfoldable pub mutate_middle_record : Bytes → Result Bytes
  unfolding replace_result_hash
  mutate_middle_record bs = replace_result_hash 1 dead_beef bs

module _ (R : Runtime) (C : Primitives) where
  abbrev pub append_next :
      (Disk → Result (Unit {0}) × Disk)
      → Result (SignedRecord R.Float × Receipt) × Disk
      → Result (Unit {0}) × Disk
  append_next rest (raised e, d) = (raised e, d)
  append_next rest (ok p, d) = rest d

  -- Calls of `append`, up to the first that raises.
  unfoldable pub append_all : AttestationLog → List (Call R.Float) → Disk → Result (Unit {0}) × Disk
  append_all log [] d = (ok tt, d)
  append_all log (call ∷ calls) d = append_next (append_all log calls) (append R C log call d)

-- How the script ends behind the attack.
abbrev pub after_attack : Result ChainVerificationResult → Ended
after_attack (raised e) = uncaught e
after_attack (ok after) = exited (if after.is_ok then 1 else 0)

module _ (R : Runtime) (C : Primitives) (literal : Text → R.Float) where
  abbrev pub echo_call : Text → Text → Text → Text → Call R.Float
  echo_call request_id text ts_request ts_response = record {
    method = codes "tools/call";
    request_id = request_id;
    params = echo_params text;
    result_or_error = dict (field (codes "content") (str text) no_fields);
    status = ok_status;
    ts_request = literal ts_request;
    ts_response = literal ts_response;
  }

  -- The calls of `_populate`.
  abbrev pub first_call : Call R.Float
  first_call = echo_call (codes "r-1") (codes "alpha") (codes "1.0") (codes "1.1")

  abbrev pub second_call : Call R.Float
  second_call = echo_call (codes "r-2") (codes "bravo") (codes "2.0") (codes "2.1")

  abbrev pub third_call : Call R.Float
  third_call = echo_call (codes "r-3") (codes "charlie") (codes "3.0") (codes "3.1")

  -- _populate
  unfoldable pub populate : AttestationLog → Disk → Result (Unit {0}) × Disk
  unfolding append_all
  populate log d = append_all R C log (first_call ∷ second_call ∷ third_call ∷ []) d

  abbrev pub verify_mutated : Bytes → Result Bytes → Ended
  verify_mutated public (raised e) = uncaught e
  verify_mutated public (ok file) = after_attack (verify_chain R C public (some file))

  -- `main` behind the check of the log that was made.
  abbrev pub attack : Bytes → Disk → Result ChainVerificationResult → Ended
  attack public d (raised e) = uncaught e
  attack public d (ok clean) =
      if not clean.is_ok then exited 1 else verify_mutated public (mutate_middle_record R (touch d))

  abbrev pub after_populate : Bytes → Result (Unit {0}) × Disk → Ended
  after_populate public (raised e, d) = uncaught e
  after_populate public (ok _, d) = attack public d (verify_chain R C public d)

  -- main
  unfoldable pub main : Bytes → Ended
  unfolding populate
  main drawn =
      let (private, public) = generate_keypair C drawn in
      let (log, d) = open_log (codes "srv.example") (some private) none in
      after_populate public (populate log d)
