-- ===== src/Cli/Exits.antt =====
-- cli.py: what the exit statuses of `verify`, `compare-sth` and `sth` mean.
use mcp_attest.Base.{
  ◌≡◌, refl, ap, ◌∙◌, ◌↔◌, Bool, true, not, Option, none, some, List, [], ◌∷◌, if◌then◌else◌, arith,
  length, ==_iff,
}
use mcp_attest.Base.Text.{Bytes, text_eq_refl}
use mcp_attest.Errors.{ErrorClass, Result, ok, raised}
use mcp_attest.Errors.Laws.{>>=-eq-ok, ok-injective}
use mcp_attest.Runtime.{Runtime, IsLawful}
use mcp_attest.Crypto.{Primitives, IsSound, public_key_from_private}
use mcp_attest.Entry.{SignedRecord, SignedTreeHead, sth_to_dict, zero_hash_hex}
use mcp_attest.Log.Reader.{Disk, open_log, iter_records}
use mcp_attest.Log.Writer.{emit_sth}
use mcp_attest.Verifier.{ChainVerificationResult, verify_chain, detect_equivocation}
use mcp_attest.Verifier.Chain.{IsChain, verify_chain-IsChain, verify_chain_iff}
use mcp_attest.Verifier.TreeHead.{verify_sth-emit_sth}
use mcp_attest.Cli.{
  exited, exit_status, read_key, end_verify, verify, load_sth, end_malformed, end_compare,
  compare_loaded, load_both, compare_sth, end_sth, after_head, after_public, sth,
}

read_key_iff : (bs key : Bytes) → (read_key bs ≡ some key) ↔ ((length bs ≡ 32) × (bs ≡ key))
unfolding read_key
read_key_iff bs key = ground (arith, ==_iff (length bs) 32)

module _ (R : Runtime) (C : Primitives) where
  end_verify-zero :
      (m : Result ChainVerificationResult)
      → exit_status (end_verify m) ≡ 0
      → (v : ChainVerificationResult) × (m ≡ ok v) × (v.is_ok ≡ true)
  end_verify-zero (raised e) h = absurd (omega (arith, h))
  end_verify-zero (ok v) h = (v, refl, ground (arith, h))

  verify-read_key :
      (pubkey_file file : Bytes)
      → read_key pubkey_file ≡ some pubkey_file
      → verify R C pubkey_file (some file) ≡ end_verify (verify_chain R C pubkey_file (some file))
  unfolding verify
  verify-read_key pubkey_file file h =
      ap
        (λ (k : Option Bytes). elim k [
          | none ↦ exited 2
          | some pubkey ↦ end_verify (verify_chain R C pubkey (some file))
        ])
        h

  verify_file-zero :
      (pubkey_file file : Bytes)
      → (exit_status (verify R C pubkey_file (some file)) ≡ 0) ↔ (
          (length pubkey_file ≡ 32)
          × (rs : List (SignedRecord R.Float)) × (iter_records R (some file) ≡ ok rs)
          × IsChain R C pubkey_file 0 zero_hash_hex rs)
  unfolding verify
  verify_file-zero pubkey_file file = (forth (read_key pubkey_file) refl, back)
    where
      forth :
          (k : Option Bytes)
          → read_key pubkey_file ≡ k
          → exit_status (elim k [
            | none ↦ exited 2
            | some pubkey ↦ end_verify (verify_chain R C pubkey (some file))
          ])
            ≡ 0
          → (length pubkey_file ≡ 32)
            × (rs : List (SignedRecord R.Float)) × (iter_records R (some file) ≡ ok rs)
            × IsChain R C pubkey_file 0 zero_hash_hex rs
      forth none e h = absurd (omega (arith, h))
      forth (some key) e h =
          let (v, hv, good) = end_verify-zero (verify_chain R C key (some file)) h in
          let (n, same) = (read_key_iff pubkey_file key).0 e in
          let (rs, p, c) =
            verify_chain-IsChain R C pubkey_file (some file) v
              (ap (λ k. verify_chain R C k (some file)) same ∙ hv) good in
          (n, rs, p, c)

      back :
          (length pubkey_file ≡ 32)
            × (rs : List (SignedRecord R.Float)) × (iter_records R (some file) ≡ ok rs)
            × IsChain R C pubkey_file 0 zero_hash_hex rs
          → exit_status (verify R C pubkey_file (some file)) ≡ 0
      back (n, rs, p, c) =
          let at_key =
            verify-read_key pubkey_file file ((read_key_iff pubkey_file pubkey_file).1 (n, refl)) in
          let passes =
            (verify_chain_iff R C pubkey_file (some file) (length rs)).1 (rs, p, c, refl) in
          ap exit_status (at_key ∙ ap end_verify passes)

  -- The status of `verify` is 0 exactly when the log is there, the key file has 32 bytes and the records of the
  -- log parse and are a chain from index 0 and the hash of zeros under that key; a traceback counts as a
  -- status, 1.
  pub verify-zero :
      (pubkey_file : Bytes) (d : Disk)
      → (exit_status (verify R C pubkey_file d) ≡ 0) ↔ (
          (file : Bytes) × (d ≡ some file)
          × (length pubkey_file ≡ 32)
          × (rs : List (SignedRecord R.Float)) × (iter_records R d ≡ ok rs)
          × IsChain R C pubkey_file 0 zero_hash_hex rs)
  unfolding verify
  verify-zero pubkey_file none =
      (λ h. absurd (omega (arith, h)), λ (file, there, n, rs, reads, chain). cc there)
  verify-zero pubkey_file (some file) =
      let zero_iff = verify_file-zero pubkey_file file in
      (
        λ h. let (n, rs, reads, chain) = zero_iff.0 h in (file, refl, n, rs, reads, chain),
        λ (_, _, n, rs, reads, chain). zero_iff.1 (n, rs, reads, chain),
      )

  end_compare-three : (m : Result Bool) → (exit_status (end_compare m) ≡ 3) ↔ (m ≡ ok true)
  end_compare-three m = ground arith

  end_malformed-three : (e : ErrorClass) → exit_status (end_malformed R e) ≡ 3 → ⊥
  unfolding end_malformed
  end_malformed-three e h = ground (arith, h)

  compare_sth-read_key :
      (sth_a_file sth_b_file pubkey_file : Bytes)
      → read_key pubkey_file ≡ some pubkey_file
      → compare_sth R C sth_a_file sth_b_file pubkey_file
        ≡ compare_loaded R C pubkey_file (load_both R C sth_a_file sth_b_file)
  unfolding compare_sth
  compare_sth-read_key sth_a_file sth_b_file pubkey_file h =
      ap
        (λ (k : Option Bytes). elim k [
          | none ↦ exited 2
          | some pubkey ↦ compare_loaded R C pubkey (load_both R C sth_a_file sth_b_file)
        ])
        h

  -- The status of `compare-sth` is 3 exactly when the key file has 32 bytes, both tree heads load, and
  -- `detect_equivocation` answers true for them: no malformed file is reported as evidence.
  pub compare_sth-three :
      (sth_a_file sth_b_file pubkey_file : Bytes)
      → (exit_status (compare_sth R C sth_a_file sth_b_file pubkey_file) ≡ 3) ↔ (
          (length pubkey_file ≡ 32)
          × (a : SignedTreeHead R.Float) × (b : SignedTreeHead R.Float) × (load_sth R sth_a_file
              ≡ ok a)
          × (load_sth R sth_b_file ≡ ok b)
          × (detect_equivocation R C a b pubkey_file ≡ ok true))
  unfolding compare_sth compare_loaded load_both
  compare_sth-three sth_a_file sth_b_file pubkey_file = (forth (read_key pubkey_file) refl, back)
    where
      loaded :
          (key : Bytes) (m : Result (SignedTreeHead R.Float × SignedTreeHead R.Float))
          → exit_status (compare_loaded R C key m) ≡ 3
          → (a : SignedTreeHead R.Float) × (b : SignedTreeHead R.Float) × (m ≡ ok (a, b))
            × (detect_equivocation R C a b key ≡ ok true)
      loaded key (raised e) h = absurd (end_malformed-three e h)
      loaded key (ok (a, b)) h =
          (a, b, refl, (end_compare-three (detect_equivocation R C a b key)).0 h)

      forth :
          (k : Option Bytes)
          → read_key pubkey_file ≡ k
          → exit_status (elim k [
            | none ↦ exited 2
            | some pubkey ↦ compare_loaded R C pubkey (load_both R C sth_a_file sth_b_file)
          ])
            ≡ 3
          → (length pubkey_file ≡ 32)
            × (a : SignedTreeHead R.Float) × (b : SignedTreeHead R.Float) × (load_sth R sth_a_file
                ≡ ok a)
            × (load_sth R sth_b_file ≡ ok b)
            × (detect_equivocation R C a b pubkey_file ≡ ok true)
      forth none e h = absurd (omega (arith, h))
      forth (some key) e h =
          let (n, same) = (read_key_iff pubkey_file key).0 e in
          let (a, b, both, found) = loaded key (load_both R C sth_a_file sth_b_file) h in
          let (a', ha, more) = >>=-eq-ok (load_sth R sth_a_file) _ both in
          let (b', hb, e2) = >>=-eq-ok (load_sth R sth_b_file) (λ x. ok (a', x)) more in
          let pair = ok-injective e2 in
          (
            n,
            a,
            b,
            ha ∙ ap (λ x. ok x.0) pair,
            hb ∙ ap (λ x. ok x.1) pair,
            ap (λ k. detect_equivocation R C a b k) same ∙ found,
          )

      back :
          (length pubkey_file ≡ 32)
            × (a : SignedTreeHead R.Float) × (b : SignedTreeHead R.Float) × (load_sth R sth_a_file
                ≡ ok a)
            × (load_sth R sth_b_file ≡ ok b)
            × (detect_equivocation R C a b pubkey_file ≡ ok true)
          → exit_status (compare_sth R C sth_a_file sth_b_file pubkey_file) ≡ 3
      back (n, a, b, ha, hb, found) =
          let at_key =
            compare_sth-read_key sth_a_file sth_b_file pubkey_file
              ((read_key_iff pubkey_file pubkey_file).1 (n, refl)) in
          let both : load_both R C sth_a_file sth_b_file ≡ ok (a, b) = rw (ha, hb) refl in
          ap exit_status (at_key ∙ ap (compare_loaded R C pubkey_file) both ∙ ap end_compare found)

  sth-read_key :
      (pubkey_file privkey_file : Bytes) (now : R.Float) (file : Bytes)
      → read_key pubkey_file ≡ some pubkey_file
      → read_key privkey_file ≡ some privkey_file
      → sth R C pubkey_file privkey_file now (some file)
        ≡ after_public R C pubkey_file privkey_file now
            (some file)
            (public_key_from_private C privkey_file)
  unfolding sth
  sth-read_key pubkey_file privkey_file now file h k =
      ap
        (λ (o : Option Bytes). elim o [
          | none ↦ (exited 2, none)
          | some pubkey ↦ elim (read_key privkey_file) [
            | none ↦ (exited 2, none)
            | some privkey ↦
                after_public R C pubkey privkey now (some file) (public_key_from_private C privkey)
          ]
        ])
        h
      ∙ ap
          (λ (o : Option Bytes). elim o [
            | none ↦ (exited 2, none)
            | some privkey ↦
                after_public R C pubkey_file privkey now (some file)
                  (public_key_from_private C privkey)
          ])
          k

module _ (R : Runtime) (L : IsLawful R) (C : Primitives) (S : IsSound C) where
  -- With a private key file of 32 bytes and the public key file that belongs to it, on a log that is there and
  -- that nobody adds to meanwhile, `sth` never fails its own verification: if the log emits a tree head, the
  -- command ends with status 0 and prints that tree head.
  pub sth-zero :
      (pubkey_file privkey_file : Bytes) (now : R.Float) (file : Bytes) (h : SignedTreeHead R.Float)
      → length privkey_file ≡ 32
      → public_key_from_private C privkey_file ≡ ok pubkey_file
      → length pubkey_file ≡ 32
      → emit_sth R C
          (open_log (b'-' ∷ []) (some privkey_file) (some file)).0
          now
          (open_log (b'-' ∷ []) (some privkey_file) (some file)).1
        ≡ ok h
      → sth R C pubkey_file privkey_file now (some file) ≡ (exited 0, some (sth_to_dict h))
  sth-zero pubkey_file privkey_file now file h n is_public m emitted =
      let o = open_log (b'-' ∷ []) (some privkey_file) (some file) in
      let (good, _, _, _) =
        verify_sth-emit_sth R L C S o.0 now o.1 h privkey_file pubkey_file (unfold open_log in refl)
          is_public emitted in
      sth-read_key R C pubkey_file privkey_file now file
        ((read_key_iff pubkey_file pubkey_file).1 (m, refl))
        ((read_key_iff privkey_file privkey_file).1 (n, refl))
      ∙ ap (after_public R C pubkey_file privkey_file now (some file)) is_public
      ∙ ap
          (λ b.
            if not b
            then (exited 2, none)
            else after_head R C pubkey_file (emit_sth R C o.0 now o.1))
          (text_eq_refl pubkey_file)
      ∙ ap (after_head R C pubkey_file) emitted
      ∙ ap (end_sth R C h) good
