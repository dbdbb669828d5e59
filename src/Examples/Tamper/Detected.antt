-- ===== src/Examples/Tamper/Detected.antt =====
-- scripts/tamper_attack.py: `main`, for every key pair.
use mcp_attest.Base.{
  Bool, if◌then◌else◌, ◌≡◌, ◌≢◌, refl, ap, ◌∙◌, ◌⊎◌, inl, inr, true, none, some, List, [], ◌∷◌,
  arith, All, length,
}
use mcp_attest.Base.Text.{Text, Bytes, codes}
use mcp_attest.Base.Decimal.{decimal, digits_onto}
use mcp_attest.Errors.{Result, ok}
use mcp_attest.Runtime.{Runtime, IsLawful}
use mcp_attest.Value.Convert.Repr.{int_repr}
use mcp_attest.Json.Plain.{IsPlain}
use mcp_attest.Json.Returns.{IsEncodable}
use mcp_attest.Crypto.{Primitives, IsSound, generate_keypair}
use mcp_attest.Crypto.Laws.{public_key_from_private-returns}
use mcp_attest.Entry.{SignedRecord, record_bytes}
use mcp_attest.Log.Reader.{Disk, AttestationLog, open_log, iter_records}
use mcp_attest.Log.Writer.{Call, payload_hash, append}
use mcp_attest.Verifier.Growth.{missing, opened, verify_chain-Written}
use mcp_attest.Verifier.Tamper.{Collision}
use mcp_attest.Cli.{exited}
use mcp_attest.Examples.Tamper.{
  first_call, second_call, third_call, populate, append_next, append_all, dead_beef,
  mutate_middle_record, after_attack, verify_mutated, attack, after_populate, main,
}
use mcp_attest.Examples.Tamper.Line.{with_result_hash}
use mcp_attest.Examples.Replaced.{Located-fails, Replaced, replace-Replaced}
use mcp_attest.Examples.Calls.{Made}
use mcp_attest.Examples.Tamper.Calls.{script_log, make_echo}

dead_beef-IsPlain : All IsPlain dead_beef
dead_beef-IsPlain = ground arith

module _ (R : Runtime) (L : IsLawful R) (C : Primitives) (S : IsSound C) (literal : Text → R.Float)
    (finite : (s : Text) → R.is_finite (literal s) ≡ true) (key : Bytes)
    (of_32 : length key ≡ 32) where
  abbrev log : AttestationLog
  log = script_log R L C S literal finite key of_32

  abbrev Makes : Call R.Float → Disk → List (SignedRecord R.Float) → Type 0
  Makes call d rs = Made R L C S key of_32 log call d rs

  -- The three records that `_populate` writes, and the file.
  record Populated : Type 0 where
    first : Makes (first_call R C literal) (some []) []
    second : Makes (second_call R C literal) (some first.file) (first.r ∷ [])
    third : Makes (third_call R C literal) (some second.file) (first.r ∷ second.r ∷ [])

  populated : Populated
  unfolding IsEncodable int_repr decimal digits_onto open_log
  populated =
      let first =
        make_echo R L C S literal finite key of_32 (codes "r-1") (codes "alpha") (codes "1.0")
          (codes "1.1") (some []) [] (ground arith) (ground arith) (codes "0", refl)
          (opened [] none none [] missing) in
      let second =
        make_echo R L C S literal finite key of_32 (codes "r-2") (codes "bravo") (codes "2.0")
          (codes "2.1") (some first.file) (first.r ∷ []) (ground arith) (ground arith)
          (codes "1", refl) first.written in
      let third =
        make_echo R L C S literal finite key of_32 (codes "r-3") (codes "charlie") (codes "3.0")
          (codes "3.1") (some second.file) (first.r ∷ second.r ∷ []) (ground arith) (ground arith)
          (codes "2", refl) second.written in
      record { first = first; second = second; third = third }

  populate-returns :
      (p : Populated) → populate R C literal log (some []) ≡ (ok tt, some p.third.file)
  unfolding populate append_all
  populate-returns p =
      let calls = λ (rest : Disk → Result (Unit {0}) × Disk). append_next R C rest in
      let done : Disk → Result (Unit {0}) × Disk = λ d. (ok tt, d) in
      let after_two = λ (d : Disk). calls done (append R C log (third_call R C literal) d) in
      let after_one = λ (d : Disk). calls after_two (append R C log (second_call R C literal) d) in
      ap (calls after_one) p.first.returns
      ∙ ap (calls after_two) p.second.returns
      ∙ ap (calls done) p.third.returns

  -- The second record with the result hash that the attack writes.
  abbrev forged : Populated → SignedRecord R.Float
  forged p = with_result_hash dead_beef p.second.r

  -- The attack on the second record, and what `verify_chain` returns behind it.
  abbrev Attacked : Populated → Type 0
  Attacked p =
      Replaced R L C S key of_32 log (second_call R C literal) (some p.first.file) (p.first.r ∷ [])
        dead_beef dead_beef-IsPlain p.second (p.first.r ∷ []) (p.third.r ∷ []) p.third.file

  attacked :
      (p : Populated)
      → payload_hash R C (second_call R C literal).result_or_error ≢ ok dead_beef
      → Attacked p
  attacked p other =
      replace-Replaced R L C S key of_32 log (second_call R C literal) (some p.first.file)
        (p.first.r ∷ []) dead_beef dead_beef-IsPlain p.second (p.first.r ∷ []) (p.third.r ∷ [])
        p.third.file p.third.written (p.first.ascii, (p.second.ascii, (p.third.ascii, tt)))
        (λ c. (p.first.checkable, (c, (p.third.checkable, tt)))) other

  -- A pair of inputs of BLAKE2b that the run itself exhibits: the canonical bytes of the second record that
  -- `_populate` wrote, and of that record with the hash that the attack puts in.
  abbrev pub ForgedCollision : Type 0
  ForgedCollision =
      (d : Disk) × (r : SignedRecord R.Float) × (r1 : SignedRecord R.Float) × (r3 : SignedRecord
        R.Float)
      × (populate R C literal log (some []) ≡ (ok tt, d))
      × (iter_records R d ≡ ok (r1 ∷ r ∷ r3 ∷ []))
      × Collision C (λ a. record_bytes R r ≡ ok a)
          (λ b. record_bytes R (with_result_hash dead_beef r) ≡ ok b)

  -- The script does what it promises, for every key pair: unless BLAKE2b of the second result happens to be
  -- the hash that the attack writes, it builds a log that passes, changes its second record, and ends with
  -- status 0 because the change is detected; the only other way out is that the run exhibits two records
  -- whose canonical bytes collide under BLAKE2b.
  pub main-detects :
      payload_hash R C (second_call R C literal).result_or_error ≢ ok dead_beef
      → (main R C literal key ≡ exited 0) ⊎ ForgedCollision
  unfolding main generate_keypair open_log mutate_middle_record
  main-detects other =
      let p = populated in
      let pub_key = C.ed25519_public key in
      let (_, passes) =
        verify_chain-Written R L C S key pub_key (some p.third.file)
          (p.first.r ∷ p.second.r ∷ p.third.r ∷ []) p.third.written
          (public_key_from_private-returns C key of_32) in
      let a = attacked p other in
      let runs : main R C literal key ≡ after_attack (ok a.verdict) =
        ap (after_populate R C literal pub_key) (populate-returns p)
        ∙ ap (attack R C literal pub_key (some p.third.file)) passes
        ∙ ap (verify_mutated R C literal pub_key) a.replaces
        ∙ ap after_attack a.verifies in
      elim (Located-fails R L C S pub_key 1 p.second.r (forged p) p.third.r [] a.verdict
        a.located) [
          | inl fails ↦ inl (runs ∙ ap (λ (b : Bool). exited (if b then 1 else 0)) fails)
          | inr collision ↦
              let (reads, _) =
                verify_chain-Written R L C S key pub_key (some p.third.file)
                  (p.first.r ∷ p.second.r ∷ p.third.r ∷ []) p.third.written
                  (public_key_from_private-returns C key of_32) in
              inr (
                some p.third.file,
                p.second.r,
                p.first.r,
                p.third.r,
                populate-returns p,
                reads,
                collision,
              )
        ]
