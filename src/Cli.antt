-- ===== src/Cli.antt =====
-- cli.py: the commands, from the bytes of the files that they read to the way in which they end and what
-- they print. click ends a command with status 2 before it starts when a file is missing: a missing log is
-- `none`; the key files and the files of tree heads are given by their bytes, so that they are there.
pub mod Exits
pub mod Demo
use mcp_attest.Base.{
  ℕ, ◌≡◌, Bool, true, false, not, ◌||◌, ◌&&◌, Option, none, some, List, [], ◌∷◌, ◌==◌,
  if◌then◌else◌, length,
}
use mcp_attest.Base.Int.{ℤ}
use mcp_attest.Base.Text.{Text, Bytes, text_eq}
use mcp_attest.Errors.{
  ErrorClass, Result, ok, raised, ◌>>=◌, is_instance, value_error, key_error, index_error,
}
use mcp_attest.Runtime.{Runtime}
use mcp_attest.Value.{Value}
use mcp_attest.Crypto.{Primitives, generate_keypair, public_key_from_private}
use mcp_attest.Json
use mcp_attest.Utf8
use mcp_attest.Entry.{SignedTreeHead, record_to_dict, sth_to_dict}
use mcp_attest.Entry.FromDict.{sth_from_dict}
use mcp_attest.Log.Reader.{Disk, AttestationLog, open_log, parse_line, iter_lines, read_record}
use mcp_attest.Log.Writer.{emit_sth}
use mcp_attest.Verifier.{ChainVerificationResult, verify_chain, verify_sth, detect_equivocation}

-- sys.exit, or an exception that no handler catches.
pub data Ended : Type 0 where
  exited : ℕ → Ended
  uncaught : ErrorClass → Ended

-- EXIT_OK, EXIT_VERIFICATION_FAILED, EXIT_USER_ERROR, EXIT_EVIDENCE_FOUND
abbrev pub exit_ok : ℕ
exit_ok = 0

abbrev pub exit_verification_failed : ℕ
exit_verification_failed = 1

abbrev pub exit_user_error : ℕ
exit_user_error = 2

abbrev pub exit_evidence_found : ℕ
exit_evidence_found = 3

-- The status that the shell sees: the interpreter exits with 1 behind a traceback.
abbrev pub exit_status : Ended → ℕ
exit_status (exited n) = n
exit_status (uncaught e) = 1

-- _read_pubkey and _read_privkey, on the bytes of the file; `none` is the exit with EXIT_USER_ERROR.
unfoldable pub read_key : Bytes → Option Bytes
read_key bs = if not (length bs == 32) then none else some bs

-- Universal newlines, which `read_text` translates; `after_cr` is true behind a carriage return.
unfoldable pub newlines : Bool → Text → Text
newlines after_cr [] = []
newlines after_cr (c ∷ s) =
    let cr = newlines true s in
    let other = newlines false s in
    if c == b'\r' then b'\n' ∷ cr else if after_cr && c == b'\n' then other else c ∷ other

-- How `verify` ends with a result of `verify_chain`.
abbrev pub end_verify : Result ChainVerificationResult → Ended
end_verify (raised e) = uncaught e
end_verify (ok result) = exited (if result.is_ok then exit_ok else exit_verification_failed)

-- How `compare-sth` ends with an answer of `detect_equivocation`.
abbrev pub end_compare : Result Bool → Ended
end_compare (raised e) = uncaught e
end_compare (ok found) = exited (if found then exit_evidence_found else exit_ok)

module _ (R : Runtime) where
  -- _load_sth
  unfoldable pub load_sth : Bytes → Result (SignedTreeHead R.Float)
  unfolding newlines
  load_sth bs = do
    s ← Utf8.decode bs
    payload ← Json.loads R (newlines false s)
    sth_from_dict R payload

  -- `except (ValueError, KeyError, json.JSONDecodeError)`
  unfoldable pub end_malformed : ErrorClass → Ended
  end_malformed e =
      if is_instance e value_error || is_instance e key_error
      then exited exit_user_error
      else uncaught e

  -- The loop of `inspect`: each record is printed before the next line is parsed.
  unfoldable pub print_lines : List Text → Ended × List (Value R.Float)
  print_lines [] = (exited exit_ok, [])
  print_lines (line ∷ lines) =
      let rest = print_lines lines in
      elim (parse_line R line) [
        | raised e ↦ (uncaught e, [])
        | ok r ↦ (rest.0, record_to_dict r ∷ rest.1)
      ]

  unfoldable pub inspect : Option ℤ → Disk → Ended × List (Value R.Float)
  unfolding print_lines
  inspect seq none = (exited exit_user_error, [])
  inspect (some seq) (some file) = elim (read_record R seq (some file)) [
    | ok r ↦ (exited exit_ok, record_to_dict r ∷ [])
    | raised e ↦ (
      if is_instance e index_error || is_instance e value_error
          then exited exit_user_error
          else uncaught e,
      [],
    )
  ]
  inspect none (some file) = elim (iter_lines R (some file)) [
    | ok lines ↦ print_lines lines
    | raised e ↦ (uncaught e, [])
  ]

module _ (R : Runtime) (C : Primitives) where
  -- The private and the public file.
  unfoldable pub keygen : Bytes → Bytes × Bytes
  keygen drawn = generate_keypair C drawn

  unfoldable pub verify : Bytes → Disk → Ended
  unfolding read_key
  verify pubkey_file none = exited exit_user_error
  verify pubkey_file (some file) = elim (read_key pubkey_file) [
    | none ↦ exited exit_user_error
    | some pubkey ↦ end_verify (verify_chain R C pubkey (some file))
  ]

  -- `compare-sth` behind the reading of the three files.
  unfoldable pub compare_loaded :
      Bytes → Result (SignedTreeHead R.Float × SignedTreeHead R.Float) → Ended
  unfolding end_malformed
  compare_loaded pubkey (raised e) = end_malformed R e
  compare_loaded pubkey (ok (a, b)) = end_compare (detect_equivocation R C a b pubkey)

  unfoldable pub load_both :
      Bytes → Bytes → Result (SignedTreeHead R.Float × SignedTreeHead R.Float)
  load_both sth_a_file sth_b_file = do
    a ← load_sth R sth_a_file
    b ← load_sth R sth_b_file
    ok (a, b)

  unfoldable pub compare_sth : Bytes → Bytes → Bytes → Ended
  unfolding read_key compare_loaded load_both
  compare_sth sth_a_file sth_b_file pubkey_file = elim (read_key pubkey_file) [
    | none ↦ exited exit_user_error
    | some pubkey ↦ compare_loaded pubkey (load_both sth_a_file sth_b_file)
  ]

  -- How `sth` ends with the tree head that was emitted, and what it prints.
  abbrev pub end_sth : SignedTreeHead R.Float → Result Bool → Ended × Option (Value R.Float)
  end_sth h (raised e) = (uncaught e, none)
  end_sth h (ok false) = (exited exit_verification_failed, none)
  end_sth h (ok true) = (exited exit_ok, some (sth_to_dict h))

  abbrev pub after_head : Bytes → Result (SignedTreeHead R.Float) → Ended × Option (Value R.Float)
  after_head pubkey (raised e) = (uncaught e, none)
  after_head pubkey (ok h) = end_sth h (verify_sth R C h pubkey)

  -- `sth` by the public key that was derived from the private one.
  abbrev pub after_public :
      Bytes → Bytes → R.Float → Disk → Result Bytes → Ended × Option (Value R.Float)
  after_public pubkey privkey now d (raised e) = (uncaught e, none)
  after_public pubkey privkey now d (ok derived) =
      let (log, file) = open_log (b'-' ∷ []) (some privkey) d in
      if not (text_eq derived pubkey)
      then (exited exit_user_error, none)
      else after_head pubkey (emit_sth R C log now file)

  unfoldable pub sth : Bytes → Bytes → R.Float → Disk → Ended × Option (Value R.Float)
  unfolding read_key
  sth pubkey_file privkey_file now none = (exited exit_user_error, none)
  sth pubkey_file privkey_file now (some file) = elim (read_key pubkey_file) [
    | none ↦ (exited exit_user_error, none)
    | some pubkey ↦ elim (read_key privkey_file) [
      | none ↦ (exited exit_user_error, none)
      | some privkey ↦
          after_public pubkey privkey now (some file) (public_key_from_private C privkey)
    ]
  ]
