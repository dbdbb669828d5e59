-- ===== src/Verifier/Failures.antt =====
-- verifier.py, `verify_chain`: what a failed result names.
use mcp_attest.Base.{
  ℕ, ◌+◌, ◌≡◌, ◌≢◌, refl, sym, ap, ◌∙◌, ◌↔◌, false, Option, none, some, List, [], ◌∷◌, ◌++◌, arith,
  length,
}
use mathlib.Core.Bool.{true≢false}
use mathlib.Core.Option.{some-injective}
use mcp_attest.Base.Int.{pos, int_eq_iff}
use mcp_attest.Base.Text.{Text, Bytes, text_eq_iff}
use mcp_attest.Errors.{Result, ok, ◌>>=◌}
use mcp_attest.Errors.Laws.{>>=-eq-ok, ok-injective}
use mcp_attest.Runtime.{Runtime}
use mcp_attest.Crypto.{Primitives}
use mcp_attest.Entry.{SignedRecord, zero_hash_hex, entry_hash}
use mcp_attest.Log.Reader.{Disk, parse_line, parse_lines, iter_lines}
use mcp_attest.Verifier.{
  Reason, seq_mismatch, prev_hash_mismatch, signature_invalid, ChainVerificationResult, failed,
  signature_valid, check_record, verify_lines, verify_chain,
}
use mcp_attest.Verifier.Chain.{
  IsChain, check_record_iff, go_on, verify_lines-cons, parse_lines-cons,
}
use mcp_attest.Verifier.Ends.{end_hash}
use mcp_attest.Verifier.Lines.{verify_lines-step, verify_lines-prefix}

module _ (R : Runtime) (C : Primitives) (key : Bytes) where
  -- What is wrong with the record at index `i`, behind the hash `prev`: the first that fails of its number,
  -- of the hash that it names, and of its signature.
  abbrev pub Breaks : ℕ → Text → SignedRecord R.Float → Reason → Type 0
  Breaks i prev r (seq_mismatch j found) = (j ≡ i) × (found ≡ r.entry.seq) × (r.entry.seq ≢ pos i)
  Breaks i prev r (prev_hash_mismatch j expected found) =
      (j ≡ i)
      × (expected ≡ prev)
      × (found ≡ r.entry.prev_hash)
      × (r.entry.seq ≡ pos i)
      × (r.entry.prev_hash ≢ prev)
  Breaks i prev r (signature_invalid j) =
      (j ≡ i)
      × (r.entry.seq ≡ pos i)
      × (r.entry.prev_hash ≡ prev)
      × (signature_valid R C key r ≡ ok false)

  pub check_record-Breaks :
      (i : ℕ) (prev : Text) (r : SignedRecord R.Float) (why : Reason)
      → check_record R C key i prev r ≡ ok (some why)
      → Breaks i prev r why
  unfolding check_record
  check_record-Breaks i prev r (seq_mismatch j found) h =
      ground (arith, int_eq_iff r.entry.seq (pos i), text_eq_iff r.entry.prev_hash prev)
  check_record-Breaks i prev r (prev_hash_mismatch j expected found) h =
      ground (arith, int_eq_iff r.entry.seq (pos i), text_eq_iff r.entry.prev_hash prev)
  check_record-Breaks i prev r (signature_invalid j) h =
      ground (arith, int_eq_iff r.entry.seq (pos i), text_eq_iff r.entry.prev_hash prev)

  pub Breaks-check_record :
      (i : ℕ) (prev : Text) (r : SignedRecord R.Float) (why : Reason)
      → Breaks i prev r why
      → check_record R C key i prev r ≡ ok (some why)
  unfolding check_record
  Breaks-check_record i prev r (seq_mismatch j found) (a, b, c) =
      ground (arith, int_eq_iff r.entry.seq (pos i), text_eq_iff r.entry.prev_hash prev)
  Breaks-check_record i prev r (prev_hash_mismatch j expected found) (a, b, c, d, e) =
      ground (arith, int_eq_iff r.entry.seq (pos i), text_eq_iff r.entry.prev_hash prev)
  Breaks-check_record i prev r (signature_invalid j) (a, b, c, d) =
      ground (arith, int_eq_iff r.entry.seq (pos i), text_eq_iff r.entry.prev_hash prev)

  -- The lines up to a record that breaks the chain.
  pub record Broken (i : ℕ) (prev : Text) (lines : List Text) (n : ℕ) (why : Reason) : Type 0 where
    pub before : List Text
    pub line : Text
    pub behind : List Text
    pub rs : List (SignedRecord R.Float)
    pub r : SignedRecord R.Float
    pub hash : Text
    pub split : lines ≡ before ++ (line ∷ behind)
    pub parsed : parse_lines R before ≡ ok rs
    pub chain : IsChain R C key i prev rs
    pub at_index : n ≡ i + length rs
    pub ends : end_hash R C prev rs ≡ ok hash
    pub read : parse_line R line ≡ ok r
    pub breaks : Breaks n hash r why

  -- The loop stops at this line, or at one behind it.
  Broken-cons :
      (i : ℕ) (prev line : Text) (lines : List Text) (n : ℕ) (why : Reason)
      (r : SignedRecord R.Float) (found : Option Reason)
      → parse_line R line ≡ ok r
      → check_record R C key i prev r ≡ ok found
      → go_on R C key i r lines found ≡ ok (failed n why)
      → ((hash : Text)
          → verify_lines R C key (i + 1) hash lines ≡ ok (failed n why)
          → Broken (i + 1) hash lines n why)
      → Broken i prev (line ∷ lines) n why
  unfolding parse_lines
  Broken-cons i prev line lines n why r (some why') read checked h later =
      let verdict = ok-injective h in
      let index : i ≡ n =
        some-injective i n (ap ChainVerificationResult.first_failure_index verdict) in
      let reason : why' ≡ why =
        some-injective why' why (ap ChainVerificationResult.reason verdict) in
      record {
        before = [];
        line = line;
        behind = lines;
        rs = [];
        r = r;
        hash = prev;
        split = refl;
        parsed = refl;
        chain = tt;
        at_index = omega arith;
        ends = refl;
        read = read;
        breaks = check_record-Breaks n prev r why (
            ap (λ j. check_record R C key j prev r) (sym index)
            ∙ checked
            ∙ ap (λ w. ok (some w)) reason);
      }
  Broken-cons i prev line lines n why r none read checked h later =
      let (hash, hh, rest) =
        >>=-eq-ok (entry_hash R C r) (λ t. verify_lines R C key (i + 1) t lines) h in
      let b = later hash rest in
      let (number, named, valid) = (check_record_iff R C key i prev r).0 checked in
      record {
        before = line ∷ b.before;
        line = b.line;
        behind = b.behind;
        rs = r ∷ b.rs;
        r = b.r;
        hash = b.hash;
        split = ap (λ ls. line ∷ ls) b.split;
        parsed = parse_lines-cons R C key line b.before r b.rs read b.parsed;
        chain = (hash, number, named, valid, hh, b.chain);
        at_index = omega (arith, b.at_index);
        ends = ap (λ (m : Result Text). m >>= λ t. end_hash R C t b.rs) hh ∙ b.ends;
        read = b.read;
        breaks = b.breaks;
      }

  verify_lines-Broken :
      (i : ℕ) (prev : Text) (lines : List Text) (n : ℕ) (why : Reason)
      → verify_lines R C key i prev lines ≡ ok (failed n why)
      → Broken i prev lines n why
  unfolding verify_lines
  verify_lines-Broken i prev [] n why h =
      absurd (true≢false (ap ChainVerificationResult.is_ok (ok-injective h)))
  verify_lines-Broken i prev (line ∷ lines) n why h =
      let whole = sym (verify_lines-cons R C key i prev line lines) ∙ h in
      let (r, read, k) =
        >>=-eq-ok (parse_line R line)
          (λ r. check_record R C key i prev r >>= go_on R C key i r lines) whole in
      let (found, checked, m) =
        >>=-eq-ok (check_record R C key i prev r) (go_on R C key i r lines) k in
      Broken-cons i prev line lines n why r found read checked m
        (λ hash. verify_lines-Broken (i + 1) hash lines n why)

  Broken-verify_lines :
      (i : ℕ) (prev : Text) (lines : List Text) (n : ℕ) (why : Reason)
      → Broken i prev lines n why
      → verify_lines R C key i prev lines ≡ ok (failed n why)
  Broken-verify_lines i prev lines n why b =
      let (hash, ends, runs) =
        verify_lines-prefix R C key i prev b.before (b.line ∷ b.behind) b.rs b.parsed b.chain in
      let same : hash ≡ b.hash = ok-injective (sym ends ∙ b.ends) in
      ap (verify_lines R C key i prev) b.split
      ∙ runs
      ∙ ap (λ t. verify_lines R C key (i + length b.rs) t (b.line ∷ b.behind)) same
      ∙ ap (λ j. verify_lines R C key j b.hash (b.line ∷ b.behind)) (sym b.at_index)
      ∙ verify_lines-step R C key n b.hash b.line b.behind b.r (some why) b.read
          (Breaks-check_record n b.hash b.r why b.breaks)

  -- A failed result names the first record that breaks the chain and what is wrong with it. For a file that is
  -- UTF-8 to its end, so that all its lines can be taken, `verify_chain` fails at index `n` exactly when `n` lines before it parse to a valid chain, and the line at `n` parses
  -- to a record with the reason's fault, of number, of named hash or of signature, in this order. Whether the
  -- lines behind it parse does not matter.
  pub verify_chain-failed_iff :
      (d : Disk) (lines : List Text) (n : ℕ) (why : Reason)
      → iter_lines R d ≡ ok lines
      → (verify_chain R C key d ≡ ok (failed n why)) ↔ Broken 0 zero_hash_hex lines n why
  unfolding verify_chain
  verify_chain-failed_iff d lines n why hl =
      let runs = ap (λ (m : Result (List Text)). m >>= verify_lines R C key 0 zero_hash_hex) hl in
      (
        λ h. verify_lines-Broken 0 zero_hash_hex lines n why (sym runs ∙ h),
        λ b. runs ∙ Broken-verify_lines 0 zero_hash_hex lines n why b,
      )
