-- ===== src/Examples/Demo.antt =====
-- examples/demo.py. The readings of the clock are arguments, and `literal` gives the floats that the script
-- writes as literals. What it prints is left out.
pub mod Calls
pub mod Fork
pub mod Steps
pub mod Ends
use mcp_attest.Base.{ℕ, ◌+◌, Bool, not, none, some, List, [], ◌∷◌, if◌then◌else◌}
use mcp_attest.Base.Int.{pos}
use mcp_attest.Base.Text.{Text, Bytes, codes}
use mcp_attest.Errors.{Result, ok, raised, ◌>>=◌, ◌>>◌}
use mcp_attest.Runtime.{Runtime}
use mcp_attest.Value.{Value, no_items, Fields, no_fields, field, null, int, str, list, dict}
use mcp_attest.Crypto.{Primitives, generate_keypair}
use mcp_attest.Entry.{ok_status, Receipt, SignedTreeHead}
use mcp_attest.Log.Reader.{Disk, AttestationLog, open_log, touch}
use mcp_attest.Log.Writer.{Call, emit_sth}
use mcp_attest.Verifier.{ChainVerificationResult, verify_chain, detect_equivocation}
use mcp_attest.Cli.{Ended, exited, uncaught}
use mcp_attest.Examples.Server.{mock_upstream, text_content}
use mcp_attest.Examples.Client.{call_through_proxy}
use mcp_attest.Examples.Tamper.{repeated, replace_result_hash, append_all, echo_params}

-- receipts.append(receipt)
abbrev pub add_receipt : Receipt → Result (List Receipt) × Disk → Result (List Receipt) × Disk
add_receipt receipt (rs, d) = ((do more ← rs; ok (receipt ∷ more)), d)

module _ {F : Type 0} where
  -- `{"name": "add", "arguments": {"a": a, "b": b}}`
  abbrev pub add_params : ℕ → ℕ → Value F
  add_params a b = dict (
      field (codes "name") (str (codes "add")) (
        field (codes "arguments")
          (dict (field (codes "a") (int (pos a)) (field (codes "b") (int (pos b)) no_fields)))
          no_fields))

  abbrev pub fail_params : Value F
  fail_params = dict (
      field (codes "name") (str (codes "fail"))
        (field (codes "arguments") (dict no_fields) no_fields))

  -- The methods and params of `_make_calls`.
  abbrev pub demo_calls : List (Text × Value F)
  demo_calls =
      (codes "tools/call", add_params 2 3)
      ∷ (codes "tools/call", echo_params (codes "hello"))
      ∷ (codes "tools/list", null)
      ∷ (codes "tools/call", fail_params)
      ∷ (codes "tools/call", add_params 100 200)
      ∷ []

  -- The loop of `_make_calls` behind a call.
  abbrev pub after_call :
      (Disk → Result (List Receipt) × Disk)
      → Result (Fields F × Receipt) × Disk
      → Result (List Receipt) × Disk
  after_call rest (raised e, d) = (raised e, d)
  after_call rest (ok (response, receipt), d) = add_receipt receipt (rest d)

-- `"ba" * 32`
abbrev pub ba_hash : Text
ba_hash = repeated 32 (codes "ba")

module _ (R : Runtime) where
  -- _tamper_entry_two
  unfoldable pub tamper_entry_two : Bytes → Result Bytes
  unfolding replace_result_hash
  tamper_entry_two bs = replace_result_hash R 2 ba_hash bs

  module _ (literal : Text → R.Float) where
    abbrev pub demo_call : Text → Text → Value R.Float → Value R.Float → Text → Text → Call R.Float
    demo_call method request_id params result ts_request ts_response = record {
      method = method;
      request_id = request_id;
      params = params;
      result_or_error = result;
      status = ok_status;
      ts_request = literal ts_request;
      ts_response = literal ts_response;
    }

    -- The calls of `_build_forked_log`.
    abbrev pub forked_calls : List (Call R.Float)
    forked_calls =
        demo_call (codes "tools/call") (codes "1") (add_params 2 3) (text_content (codes "5"))
          (codes "1.0") (codes "1.1")
        ∷ demo_call (codes "tools/call") (codes "2") (echo_params (codes "hello"))
            (text_content (codes "hello")) (codes "2.0") (codes "2.1")
        ∷ demo_call (codes "tools/list") (codes "3") null
            (dict (field (codes "tools") (list no_items) no_fields)) (codes "3.0") (codes "3.1")
        ∷ demo_call (codes "tools/call") (codes "4-FORK") (echo_params (codes "alternate-history"))
            (text_content (codes "alternate-history")) (codes "4.0") (codes "4.1")
        ∷ demo_call (codes "tools/call") (codes "5") (add_params 100 200)
            (text_content (codes "300")) (codes "5.0") (codes "5.1")
        ∷ []

-- `clock i` are the readings around the call number `i`.
module _ (R : Runtime) (is_zero : R.Float → Bool) (C : Primitives)
    (clock : ℕ → R.Float × R.Float) where
  -- The loop of `_make_calls` from the call number `i`.
  unfoldable pub make_calls :
      AttestationLog → ℕ → List (Text × Value R.Float) → Disk → Result (List Receipt) × Disk
  make_calls log i [] d = (ok [], d)
  make_calls log i ((method, params) ∷ calls) d = after_call (make_calls log (i + 1) calls) (
      call_through_proxy R C log (mock_upstream R is_zero) method params (int (pos i)) (clock i).0
        (clock i).1 d)

module _ (R : Runtime) (C : Primitives) (literal : Text → R.Float) where
  -- _build_forked_log
  unfoldable pub build_forked_log : Bytes → Disk → AttestationLog × Result (Unit {0}) × Disk
  unfolding append_all open_log
  build_forked_log private d =
      let (forked, file) = open_log (codes "srv.demo") (some private) d in
      let (outcome, filled) = append_all R C forked (forked_calls R literal) file in
      (forked, outcome, filled)

-- How the demo ends with the answer of `detect_equivocation`.
abbrev pub end_demo : Result Bool → Ended
end_demo (raised e) = uncaught e
end_demo (ok found) = exited (if found then 0 else 1)

module _ (R : Runtime) (is_zero : R.Float → Bool) (C : Primitives) (literal : Text → R.Float)
    (clock : ℕ → R.Float × R.Float) where
  -- `now` are the clocks of the three tree heads.
  module _ (now now_original now_forked : R.Float) (private public : Bytes) where
    abbrev pub original_log : AttestationLog
    original_log = record { server_id = codes "srv.demo"; private_key = some private }

    -- Step 5, on the tampered file, behind `_build_forked_log`.
    abbrev pub after_fork : Bytes → AttestationLog × Result (Unit {0}) × Disk → Ended
    after_fork file (forked, outcome, forked_file) = end_demo do
      outcome
      sth_original ← emit_sth R C original_log now_original (some file)
      sth_forked ← emit_sth R C forked now_forked forked_file
      detect_equivocation R C sth_original sth_forked public

    unfoldable pub equivocate : Bytes → Ended
    equivocate file = after_fork file (build_forked_log R C literal private none)

    -- Behind the second check, which has to fail.
    abbrev pub after_tamper : Bytes → Result ChainVerificationResult → Ended
    after_tamper file (raised e) = uncaught e
    after_tamper file (ok after) = if after.is_ok then exited 1 else equivocate file

    abbrev pub verify_tampered : Result Bytes → Ended
    verify_tampered (raised e) = uncaught e
    verify_tampered (ok file) = after_tamper file (verify_chain R C public (some file))

    -- Behind the first check, which has to pass.
    abbrev pub after_verify : Disk → Result ChainVerificationResult → Ended
    after_verify d (raised e) = uncaught e
    after_verify d (ok result) =
        if not result.is_ok then exited 1 else verify_tampered (tamper_entry_two R (touch d))

    abbrev pub after_sth : Disk → Result (SignedTreeHead R.Float) → Ended
    after_sth d (raised e) = uncaught e
    after_sth d (ok sth) = after_verify d (verify_chain R C public d)

    abbrev pub after_calls : Result (List Receipt) × Disk → Ended
    after_calls (raised e, d) = uncaught e
    after_calls (ok receipts, d) = after_sth d (emit_sth R C original_log now d)

  -- main
  unfoldable pub demo_main : R.Float → R.Float → R.Float → Bytes → Ended
  unfolding make_calls
  demo_main now now_original now_forked drawn =
      let (private, public) = generate_keypair C drawn in
      let (log, d) = open_log (codes "srv.demo") (some private) none in
      after_calls now now_original now_forked private public
        (make_calls R is_zero C clock log 1 demo_calls d)
