-- ===== src/Verifier/Edit.antt =====
-- verifier.py: a record of a valid log that has been replaced by another.
use mcp_attest.Base.{
  ℕ, ◌+◌, ◌≡◌, ◌≢◌, refl, sym, ap, ◌∙◌, ◌⊎◌, inl, inr, true, Option, none, some, List, [], ◌∷◌,
  ◌++◌, arith, length, Bool-cases,
}
use mathlib.Core.Path.{subst}
use mcp_attest.Base.Text.{Text, Bytes, text_eq, text_eq_iff}
use mcp_attest.Errors.{Result, ok, ◌>>=◌}
use mcp_attest.Errors.Laws.{>>=-eq-ok, ok-injective}
use mcp_attest.Runtime.{Runtime, IsLawful}
use mcp_attest.Crypto.{Primitives, IsSound}
use mcp_attest.Entry.{SignedRecord, zero_hash_hex, entry_hash, record_bytes}
use mcp_attest.Log.Reader.{Disk, parse_line, parse_lines, iter_lines, iter_records}
use mcp_attest.Verifier.{
  Reason, prev_hash_mismatch, ChainVerificationResult, passed, failed, signature_valid,
  check_record, verify_lines, verify_chain,
}
use mcp_attest.Verifier.Chain.{
  IsChain, check_record_iff, go_on, verify_lines-cons, parse_lines-cons, verify_lines-IsChain,
  verify_chain_iff,
}
use mcp_attest.Verifier.Ends.{end_hash}
use mcp_attest.Verifier.Lines.{parse_lines-eq-cons, verify_lines-prefix, verify_lines-step}
use mcp_attest.Verifier.Failures.{Breaks-check_record}
use mcp_attest.Verifier.Tamper.{Collision, same_entry_hash}

module _ (R : Runtime) (L : IsLawful R) (C : Primitives) (S : IsSound C) (key : Bytes) where
  parse_lines-append :
      (lines : List Text) (rs ss : List (SignedRecord R.Float))
      → parse_lines R lines ≡ ok (rs ++ ss)
      → (before : List Text) × (behind : List Text) × (lines ≡ before ++ behind)
        × (parse_lines R before ≡ ok rs)
        × (parse_lines R behind ≡ ok ss)
  parse_lines-append lines [] ss h = ([], lines, refl, unfold parse_lines in refl, h)
  parse_lines-append [] (r ∷ rs) ss h =
      absurd (unfold parse_lines in omega (arith, ap length (ok-injective h)))
  parse_lines-append (line ∷ lines) (r ∷ rs) ss h =
      let (read, more) = parse_lines-eq-cons R C key line lines r (rs ++ ss) h in
      let (before, behind, split, first, second) = parse_lines-append lines rs ss more in
      (
        line ∷ before,
        behind,
        ap (λ ls. line ∷ ls) split,
        parse_lines-cons R C key line before r rs read first,
        second,
      )

  pub IsChain-append :
      (i : ℕ) (prev : Text) (rs ss : List (SignedRecord R.Float))
      → IsChain R C key i prev (rs ++ ss)
      → (hash : Text) × IsChain R C key i prev rs
        × (end_hash R C prev rs ≡ ok hash)
        × IsChain R C key (i + length rs) hash ss
  IsChain-append i prev [] ss c =
      (prev, tt, refl, subst (λ n. IsChain R C key n prev ss) (omega arith) c)
  IsChain-append i prev (r ∷ rs) ss (hash, number, named, valid, h, c) =
      let (end, first, ends, second) = IsChain-append (i + 1) hash rs ss c in
      (
        end,
        (hash, number, named, valid, h, first),
        ap (λ (m : Result Text). m >>= λ t. end_hash R C t rs) h ∙ ends,
        subst (λ n. IsChain R C key n end ss) (omega arith) second,
      )

  -- What `verify_chain` says of a log in which `r'` stands at index `i` in the place of `r`.
  abbrev pub Located :
      ℕ
      → SignedRecord R.Float
      → SignedRecord R.Float
      → List (SignedRecord R.Float)
      → ChainVerificationResult
      → Type 0
  Located i r r' rest v =
      ((why : Reason) × (v ≡ failed i why))
      ⊎ (((hash : Text) × (hash' : Text) × (entry_hash R C r ≡ ok hash)
            × (entry_hash R C r' ≡ ok hash')
            × (v ≡ failed (i + 1) (prev_hash_mismatch (i + 1) hash' hash)))
          ⊎ (((rest ≡ []) × (signature_valid R C key r' ≡ ok true) × (v ≡ passed (i + 1)))
              ⊎ Collision C (λ a. record_bytes R r ≡ ok a) (λ b. record_bytes R r' ≡ ok b)))

  -- Behind a changed record that passes its own checks.
  behind-Located :
      (i : ℕ) (r r' : SignedRecord R.Float) (hash hash' : Text) (rest : List (SignedRecord R.Float))
      (lines : List Text) (v : ChainVerificationResult)
      → r ≢ r'
      → signature_valid R C key r' ≡ ok true
      → entry_hash R C r ≡ ok hash
      → entry_hash R C r' ≡ ok hash'
      → IsChain R C key (i + 1) hash rest
      → parse_lines R lines ≡ ok rest
      → verify_lines R C key (i + 1) hash' lines ≡ ok v
      → Located i r r' rest v
  behind-Located i r r' hash hash' [] lines v differ valid h h' c p k = inr (
      inr (
        inl (
          refl,
          valid,
          ok-injective (sym k ∙ verify_lines-IsChain R C key (i + 1) hash' lines [] p tt)
              ∙ ap passed (omega arith),
        )))
  behind-Located i r r' hash hash' (s ∷ rest) [] v differ valid h h' c p k =
      absurd (unfold parse_lines in omega (arith, ap length (ok-injective p)))
  behind-Located i r r' hash hash' (s ∷ rest) (line ∷ lines) v differ valid h h'
        (_, number, named, _, _, _) p k =
      let (read, _) = parse_lines-eq-cons R C key line lines s rest p in
      elim (Bool-cases (text_eq hash hash')) [
        | inl same ↦
            elim (same_entry_hash R L C S r r' hash' (h ∙ ap ok ((text_eq_iff hash hash').0 same))
              h') [ inl equal ↦ absurd (differ equal) | inr collision ↦ inr (inr (inr collision)) ]
        | inr other ↦
            let broken =
              Breaks-check_record R C key (i + 1) hash' s (prev_hash_mismatch (i + 1) hash' hash) (
                refl,
                refl,
                sym named,
                number,
                λ e. cc (other, (text_eq_iff hash hash').1 (sym named ∙ e)),
              ) in
            inr (
              inl (
                hash,
                hash',
                h,
                h',
                ok-injective
                    (sym k ∙ verify_lines-step R C key (i + 1) hash' line lines s _ read broken),
              ))
      ]

  at-Located :
      (i : ℕ) (prev : Text) (r r' : SignedRecord R.Float) (rest : List (SignedRecord R.Float))
      (line : Text) (lines : List Text) (found : Option Reason) (v : ChainVerificationResult)
      → r ≢ r'
      → IsChain R C key i prev (r ∷ rest)
      → parse_lines R lines ≡ ok rest
      → check_record R C key i prev r' ≡ ok found
      → go_on R C key i r' lines found ≡ ok v
      → Located i r r' rest v
  at-Located i prev r r' rest line lines (some why) v differ c p checked h =
      inl (why, sym (ok-injective h))
  at-Located i prev r r' rest line lines none v differ (hash, _, _, _, named, c) p checked h =
      let (_, _, valid) = (check_record_iff R C key i prev r').0 checked in
      let (hash', named', k) =
        >>=-eq-ok (entry_hash R C r') (λ t. verify_lines R C key (i + 1) t lines) h in
      behind-Located i r r' hash hash' rest lines v differ valid named named' c p k

  from_behind :
      (n : ℕ) (r r' : SignedRecord R.Float) (rest : List (SignedRecord R.Float))
      (v : ChainVerificationResult) (hash : Text) (behind : List Text)
      → r ≢ r'
      → IsChain R C key n hash (r ∷ rest)
      → parse_lines R behind ≡ ok (r' ∷ rest)
      → verify_lines R C key n hash behind ≡ ok v
      → Located n r r' rest v
  from_behind n r r' rest v hash [] differ c p k =
      absurd (unfold parse_lines in omega (arith, ap length (ok-injective p)))
  from_behind n r r' rest v hash (line ∷ lines) differ c p k =
      let (read, more) = parse_lines-eq-cons R C key line lines r' rest p in
      let step = sym (verify_lines-cons R C key n hash line lines) ∙ k in
      let (q, hq, k1) =
        >>=-eq-ok (parse_line R line)
          (λ r. check_record R C key n hash r >>= go_on R C key n r lines) step in
      let (found, checked, k2) =
        >>=-eq-ok (check_record R C key n hash q) (go_on R C key n q lines) k1 in
      let same : q ≡ r' = ok-injective (sym hq ∙ read) in
      at-Located n hash r r' rest line lines found v differ c more
        (ap (check_record R C key n hash) (sym same) ∙ checked)
        (ap (λ x. go_on R C key n x lines found) (sym same) ∙ k2)

  edit_lines :
      (i : ℕ) (prev : Text) (lines : List Text) (rs rest : List (SignedRecord R.Float))
      (r r' : SignedRecord R.Float) (v : ChainVerificationResult)
      → r ≢ r'
      → IsChain R C key i prev (rs ++ (r ∷ rest))
      → parse_lines R lines ≡ ok (rs ++ (r' ∷ rest))
      → verify_lines R C key i prev lines ≡ ok v
      → Located (i + length rs) r r' rest v
  edit_lines i prev lines rs rest r r' v differ c p h =
      let (hash, first, ends, second) = IsChain-append i prev rs (r ∷ rest) c in
      let (before, behind, split, hb, hr) = parse_lines-append lines rs (r' ∷ rest) p in
      let (hash', ends', runs) = verify_lines-prefix R C key i prev before behind rs hb first in
      let same : hash' ≡ hash = ok-injective (sym ends' ∙ ends) in
      from_behind (i + length rs) r r' rest v hash behind differ second hr (
        ap (λ t. verify_lines R C key (i + length rs) t behind) (sym same)
        ∙ sym runs
        ∙ ap (verify_lines R C key i prev) (sym split)
        ∙ h)

  -- A record that is replaced by another one is found out. If a file passes, and another file has one
  -- record changed, whatever `verify_chain` returns for that other file is one of these: a failure at the
  -- changed record; a failure at the next one, because the hash that it names is not that of the changed
  -- record; a pass, but then the changed record is the last one and carries a valid signature of its own;
  -- or anything, but then the canonical bytes of the two records collide under BLAKE2b.
  pub edit-Located :
      (d d' : Disk) (n : ℕ) (rs rest : List (SignedRecord R.Float)) (r r' : SignedRecord R.Float)
      (v : ChainVerificationResult)
      → verify_chain R C key d ≡ ok (passed n)
      → iter_records R d ≡ ok (rs ++ (r ∷ rest))
      → iter_records R d' ≡ ok (rs ++ (r' ∷ rest))
      → r ≢ r'
      → verify_chain R C key d' ≡ ok v
      → Located (length rs) r r' rest v
  unfolding verify_chain iter_records
  edit-Located d d' n rs rest r r' v good reads reads' differ h =
      let (qs, p, c, _) = (verify_chain_iff R C key d n).0 good in
      let chain = subst (IsChain R C key 0 zero_hash_hex) (ok-injective (sym p ∙ reads)) c in
      let (lines, hl, hp) = >>=-eq-ok (iter_lines R d') (parse_lines R) reads' in
      let runs =
        ap (λ (m : Result (List Text)). m >>= verify_lines R C key 0 zero_hash_hex) (sym hl) ∙ h in
      subst (λ i. Located i r r' rest v) (omega arith)
        (edit_lines 0 zero_hash_hex lines rs rest r r' v differ chain hp runs)
