-- ===== src/Verifier/Chain.antt =====
-- verifier.py, `verify_chain`, beside an independent description of a valid chain.
use mcp_attest.Base.{
  ℕ, ◌+◌, ◌≡◌, refl, sym, ap, ◌∙◌, ◌↔◌, true, Option, none, some, List, [], ◌∷◌, arith, length,
}
use mathlib.Core.Path.{subst}
use mathlib.Core.Bool.{true≢false}
use mcp_attest.Base.Int.{pos, int_eq_iff}
use mcp_attest.Base.Text.{Text, Bytes, text_eq_iff}
use mcp_attest.Errors.{Result, ok, ◌>>=◌}
use mcp_attest.Errors.Laws.{>>=-eq-ok, ok-injective}
use mcp_attest.Runtime.{Runtime}
use mcp_attest.Crypto.{Primitives}
use mcp_attest.Entry.{SignedRecord, zero_hash_hex, entry_hash}
use mcp_attest.Log.Reader.{Disk, parse_line, parse_lines, iter_lines, iter_records}
use mcp_attest.Verifier.{
  Reason, ChainVerificationResult, passed, failed, signature_valid, check_record, verify_lines,
  verify_chain,
}

module _ (R : Runtime) (C : Primitives) (key : Bytes) where
  -- From index `i` the records are numbered without a gap, each names the hash of the one before it,
  -- and each is signed under the key.
  abbrev pub IsChain : ℕ → Text → List (SignedRecord R.Float) → Type 0
  IsChain i prev [] = Unit
  IsChain i prev (r ∷ rs) =
      (hash : Text) × (r.entry.seq ≡ pos i)
      × (r.entry.prev_hash ≡ prev)
      × (signature_valid R C key r ≡ ok true)
      × (entry_hash R C r ≡ ok hash)
      × IsChain (i + 1) hash rs

  -- A record is let through exactly when the three checks hold.
  pub check_record_iff :
      (i : ℕ) (prev : Text) (r : SignedRecord R.Float)
      → (check_record R C key i prev r ≡ ok none) ↔ (
          (r.entry.seq ≡ pos i)
          × (r.entry.prev_hash ≡ prev)
          × (signature_valid R C key r ≡ ok true))
  unfolding check_record
  check_record_iff i prev r =
      ground (arith, int_eq_iff r.entry.seq (pos i), text_eq_iff r.entry.prev_hash prev)

  -- What the loop does behind the checks of a record.
  abbrev pub go_on :
      ℕ → SignedRecord R.Float → List Text → Option Reason → Result ChainVerificationResult
  go_on i r lines (some why) = ok (failed i why)
  go_on i r lines none = do hash ← entry_hash R C r; verify_lines R C key (i + 1) hash lines

  pub verify_lines-cons :
      (i : ℕ) (prev : Text) (line : Text) (lines : List Text)
      → verify_lines R C key i prev (line ∷ lines)
        ≡ (do r ← parse_line R line; found ← check_record R C key i prev r; go_on i r lines found)
  unfolding verify_lines
  verify_lines-cons i prev line lines = ground arith

  pub verify_lines-IsChain :
      (i : ℕ) (prev : Text) (lines : List Text) (rs : List (SignedRecord R.Float))
      → parse_lines R lines ≡ ok rs
      → IsChain i prev rs
      → verify_lines R C key i prev lines ≡ ok (passed (i + length rs))
  unfolding parse_lines
  verify_lines-IsChain i prev [] rs p c =
      unfold verify_lines in ap (λ n. ok (passed n)) (omega (arith, ap length (ok-injective p)))
  verify_lines-IsChain i prev (line ∷ lines) rs p c =
      let (r, hr, k) =
        >>=-eq-ok (parse_line R line) (λ r. do qs ← parse_lines R lines; ok (r ∷ qs)) p in
      let (qs, hqs, e) = >>=-eq-ok (parse_lines R lines) (λ qs. ok (r ∷ qs)) k in
      let (hash, s, named, valid, h, more) = subst (IsChain i prev) (sym (ok-injective e)) c in
      let checked = (check_record_iff i prev r).1 (s, named, valid) in
      verify_lines-cons i prev line lines
      ∙ ap
          (λ (m : Result (SignedRecord R.Float)). do
            q ← m
            found ← check_record R C key i prev q
            go_on i q lines found)
          hr
      ∙ ap (λ (m : Result (Option Reason)). m >>= go_on i r lines) checked
      ∙ ap (λ (m : Result Text). m >>= λ t. verify_lines R C key (i + 1) t lines) h
      ∙ verify_lines-IsChain (i + 1) hash lines qs hqs more
      ∙ ap (λ n. ok (passed n)) (omega (arith, ap length (ok-injective e)))

  passed_on :
      (i : ℕ) (r : SignedRecord R.Float) (lines : List Text) (found : Option Reason)
      (v : ChainVerificationResult)
      → go_on i r lines found ≡ ok v
      → v.is_ok ≡ true
      → (hash : Text) × (found ≡ none)
        × (entry_hash R C r ≡ ok hash)
        × (verify_lines R C key (i + 1) hash lines ≡ ok v)
  passed_on i r lines (some why) v h good =
      absurd (true≢false (sym good ∙ ap ChainVerificationResult.is_ok (sym (ok-injective h))))
  passed_on i r lines none v h good =
      let (hash, k, e) =
        >>=-eq-ok (entry_hash R C r) (λ t. verify_lines R C key (i + 1) t lines) h in
      (hash, refl, k, e)

  pub parse_lines-cons :
      (line : Text) (lines : List Text) (r : SignedRecord R.Float)
      (rs : List (SignedRecord R.Float))
      → parse_line R line ≡ ok r
      → parse_lines R lines ≡ ok rs
      → parse_lines R (line ∷ lines) ≡ ok (r ∷ rs)
  unfolding parse_lines
  parse_lines-cons line lines r rs h k = rw (h, k)

  verify_lines-passed :
      (i : ℕ) (prev : Text) (lines : List Text) (v : ChainVerificationResult)
      → verify_lines R C key i prev lines ≡ ok v
      → v.is_ok ≡ true
      → (rs : List (SignedRecord R.Float)) × (parse_lines R lines ≡ ok rs)
        × IsChain i prev rs
        × (v ≡ passed (i + length rs))
  unfolding parse_lines
  verify_lines-passed i prev [] v h good =
      ([], refl, tt, unfold verify_lines in sym (ok-injective h) ∙ ap passed (omega arith))
  verify_lines-passed i prev (line ∷ lines) v h good =
      let whole = sym (verify_lines-cons i prev line lines) ∙ h in
      let (r, hr, k) =
        >>=-eq-ok (parse_line R line) (λ r. check_record R C key i prev r >>= go_on i r lines)
          whole in
      let (found, hf, m) = >>=-eq-ok (check_record R C key i prev r) (go_on i r lines) k in
      let (hash, clear, hh, rest) = passed_on i r lines found v m good in
      let (rs, hrs, c, e) = verify_lines-passed (i + 1) hash lines v rest good in
      let (s, named, valid) = (check_record_iff i prev r).0 (hf ∙ ap ok clear) in
      (
        r ∷ rs,
        parse_lines-cons line lines r rs hr hrs,
        (hash, s, named, valid, hh, c),
        e ∙ ap passed (omega arith),
      )

  -- A result that says ok is about records that are a chain.
  pub verify_chain-IsChain :
      (d : Disk) (v : ChainVerificationResult)
      → verify_chain R C key d ≡ ok v
      → v.is_ok ≡ true
      → (rs : List (SignedRecord R.Float)) × (iter_records R d ≡ ok rs) × IsChain 0 zero_hash_hex rs
  unfolding verify_chain iter_records
  verify_chain-IsChain d v h good =
      let (lines, hl, k) = >>=-eq-ok (iter_lines R d) (verify_lines R C key 0 zero_hash_hex) h in
      let (rs, p, c, _) = verify_lines-passed 0 zero_hash_hex lines v k good in
      (rs, ap (λ (m : Result (List Text)). m >>= parse_lines R) hl ∙ p, c)

  -- `verify_chain` answers ok for a file, with `n` entries, exactly when every line of it parses and
  -- the `n` records are a chain from index 0 and the hash of zeros.
  pub verify_chain_iff :
      (d : Disk) (n : ℕ)
      → (verify_chain R C key d ≡ ok (passed n)) ↔ (
          (rs : List (SignedRecord R.Float)) × (iter_records R d ≡ ok rs)
          × IsChain 0 zero_hash_hex rs
          × (length rs ≡ n))
  unfolding verify_chain iter_records
  verify_chain_iff d n = (forth, back)
    where
      forth :
          verify_chain R C key d ≡ ok (passed n)
          → (rs : List (SignedRecord R.Float)) × (iter_records R d ≡ ok rs)
            × IsChain 0 zero_hash_hex rs
            × (length rs ≡ n)
      forth h =
          let (lines, hl, k) =
            >>=-eq-ok (iter_lines R d) (verify_lines R C key 0 zero_hash_hex) h in
          let (rs, p, c, e) = verify_lines-passed 0 zero_hash_hex lines (passed n) k refl in
          (
            rs,
            ap (λ (m : Result (List Text)). m >>= parse_lines R) hl ∙ p,
            c,
            omega (arith, ap ChainVerificationResult.chain_length e),
          )

      back :
          (rs : List (SignedRecord R.Float)) × (iter_records R d ≡ ok rs)
            × IsChain 0 zero_hash_hex rs
            × (length rs ≡ n)
          → verify_chain R C key d ≡ ok (passed n)
      back (rs, h, c, e) =
          let (lines, hl, p) = >>=-eq-ok (iter_lines R d) (parse_lines R) h in
          ap (λ (m : Result (List Text)). m >>= verify_lines R C key 0 zero_hash_hex) hl
          ∙ verify_lines-IsChain 0 zero_hash_hex lines rs p c
          ∙ ap (λ m. ok (passed m)) (omega arith)
