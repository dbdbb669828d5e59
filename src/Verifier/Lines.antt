-- ===== src/Verifier/Lines.antt =====
-- verifier.py, `verify_chain`: the loop on a line, and over the lines of a chain.
use mcp_attest.Base.{ℕ, ◌+◌, ◌≡◌, sym, ap, ◌∙◌, Option, none, List, [], ◌∷◌, ◌++◌, arith, length}
use mathlib.Core.Path.{subst}
use mcp_attest.Base.Text.{Text, Bytes}
use mcp_attest.Errors.{Result, ok, ◌>>=◌}
use mcp_attest.Errors.Laws.{>>=-eq-ok, ok-injective}
use mcp_attest.Runtime.{Runtime}
use mcp_attest.Crypto.{Primitives}
use mcp_attest.Entry.{SignedRecord}
use mcp_attest.Log.Reader.{parse_line, parse_lines}
use mcp_attest.Verifier.{Reason, check_record, verify_lines}
use mcp_attest.Verifier.Chain.{IsChain, check_record_iff, go_on, verify_lines-cons}
use mcp_attest.Verifier.Ends.{end_hash}

module _ (R : Runtime) (C : Primitives) (key : Bytes) where
  pub parse_lines-eq-cons :
      (line : Text) (lines : List Text) (r : SignedRecord R.Float)
      (rs : List (SignedRecord R.Float))
      → parse_lines R (line ∷ lines) ≡ ok (r ∷ rs)
      → (parse_line R line ≡ ok r) × (parse_lines R lines ≡ ok rs)
  unfolding parse_lines
  parse_lines-eq-cons line lines r rs h =
      let (q, hq, k) =
        >>=-eq-ok (parse_line R line) (λ r. do qs ← parse_lines R lines; ok (r ∷ qs)) h in
      let (qs, hqs, e) = >>=-eq-ok (parse_lines R lines) (λ qs. ok (q ∷ qs)) k in
      let same = ok-injective e in (cc (hq, same), cc (hqs, same))

  -- A line is not read to nothing.
  pub no_line : (line : Text) (lines : List Text) → parse_lines R (line ∷ lines) ≡ ok [] → ⊥
  unfolding parse_lines
  no_line line lines h =
      let (r, _, k) =
        >>=-eq-ok (parse_line R line) (λ r. do qs ← parse_lines R lines; ok (r ∷ qs)) h in
      let (qs, _, e) = >>=-eq-ok (parse_lines R lines) (λ qs. ok (r ∷ qs)) k in cc e

  -- The loop on a line whose record passes the checks goes on behind it.
  pub verify_lines-step :
      (i : ℕ) (prev line : Text) (lines : List Text) (r : SignedRecord R.Float)
      (found : Option Reason)
      → parse_line R line ≡ ok r
      → check_record R C key i prev r ≡ ok found
      → verify_lines R C key i prev (line ∷ lines) ≡ go_on R C key i r lines found
  verify_lines-step i prev line lines r found h k =
      verify_lines-cons R C key i prev line lines
      ∙ ap
          (λ (m : Result (SignedRecord R.Float)). do
            q ← m
            f ← check_record R C key i prev q
            go_on R C key i q lines f)
          h
      ∙ ap (λ (m : Result (Option Reason)). m >>= go_on R C key i r lines) k

  -- The loop passes over the lines of a chain.
  pub verify_lines-prefix :
      (i : ℕ) (prev : Text) (before behind : List Text) (rs : List (SignedRecord R.Float))
      → parse_lines R before ≡ ok rs
      → IsChain R C key i prev rs
      → (hash : Text) × (end_hash R C prev rs ≡ ok hash)
        × (verify_lines R C key i prev (before ++ behind)
            ≡ verify_lines R C key (i + length rs) hash behind)
  unfolding parse_lines
  verify_lines-prefix i prev [] behind rs p c =
      let none_read = ok-injective p in
      (
        prev,
        ap (end_hash R C prev) (sym none_read),
        ap (λ n. verify_lines R C key n prev behind) (omega (arith, ap length none_read)),
      )
  verify_lines-prefix i prev (line ∷ before) behind rs p c =
      let (r, hr, k) =
        >>=-eq-ok (parse_line R line) (λ r. do qs ← parse_lines R before; ok (r ∷ qs)) p in
      let (qs, hqs, e) = >>=-eq-ok (parse_lines R before) (λ qs. ok (r ∷ qs)) k in
      let same = ok-injective e in
      let (hash, number, named, valid, h, more) = subst (IsChain R C key i prev) (sym same) c in
      let (end, ends, runs) = verify_lines-prefix (i + 1) hash before behind qs hqs more in
      (
        end,
        ap (end_hash R C prev) (sym same)
            ∙ ap (λ (m : Result Text). m >>= λ t. end_hash R C t qs) h
            ∙ ends,
        verify_lines-step i prev line (before ++ behind) r none hr
              ((check_record_iff R C key i prev r).1 (number, named, valid))
            ∙ ap (λ (m : Result Text). m >>= λ t. verify_lines R C key (i + 1) t (before ++ behind))
                h
            ∙ runs
            ∙ ap (λ n. verify_lines R C key n end behind) (omega (arith, ap length same)),
      )
