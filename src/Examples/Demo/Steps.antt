-- ===== src/Examples/Demo/Steps.antt =====
-- examples/demo.py: how `main` ends when its steps return.
use mcp_attest.Base.{
  ℕ, ◌≡◌, refl, ap, ◌∙◌, ◌⊎◌, inl, inr, Bool, true, false, none, some, List, [], ◌∷◌, length,
  if◌then◌else◌,
}
use mcp_attest.Base.Text.{Text, Bytes, codes}
use mcp_attest.Errors.{Result, ok}
use mcp_attest.Runtime.{Runtime, IsLawful}
use mcp_attest.Crypto.{Primitives, IsSound, generate_keypair}
use mcp_attest.Crypto.Laws.{public_key_from_private-returns}
use mcp_attest.Entry.{SignedTreeHead, Receipt, record_bytes}
use mcp_attest.Log.Reader.{Disk, AttestationLog, open_log, iter_records}
use mcp_attest.Log.Writer.{emit_sth}
use mcp_attest.Verifier.{passed, ChainVerificationResult, verify_chain, detect_equivocation}
use mcp_attest.Verifier.Growth.{Written, verify_chain-Written}
use mcp_attest.Verifier.Edit.{Located}
use mcp_attest.Verifier.Tamper.{Collision, Holds}
use mcp_attest.Cli.{exited}
use mcp_attest.Examples.Tamper.{append_all, replace_result_hash}
use mcp_attest.Examples.Tamper.Line.{with_result_hash}
use mcp_attest.Examples.Replaced.{Located-fails}
use mcp_attest.Examples.Demo.{
  demo_calls, forked_calls, make_calls, ba_hash, tamper_entry_two, build_forked_log, equivocate,
  after_fork, after_tamper, verify_tampered, after_verify, after_sth, after_calls, demo_main,
}
use mcp_attest.Examples.Demo.Fork.{Five, all_five, Headed, fork_found}

module _ (R : Runtime) (L : IsLawful R) (C : Primitives) (S : IsSound C) (is_zero : R.Float → Bool)
    (literal : Text → R.Float) (clock : ℕ → R.Float × R.Float) (key : Bytes)
    (of_32 : length key ≡ 32) where
  abbrev pub demo_log : AttestationLog
  demo_log = record { server_id = codes "srv.demo"; private_key = some key }

  abbrev pub_key : Bytes
  pub_key = C.ed25519_public key

  -- Inputs of BLAKE2b that the run itself exhibits: the canonical bytes of the third record of the log of
  -- the proxy and of that record with the hash that the demo puts in, or the canonical bytes of a record of
  -- that log and of a record of the forked one.
  abbrev Collides : Five R → Disk → Disk → Type 0
  Collides f d d' =
      Collision C (λ a. record_bytes R f.r3 ≡ ok a)
        (λ b. record_bytes R (with_result_hash ba_hash f.r3) ≡ ok b)
      ⊎ Collision C (Holds R d) (Holds R d')

  abbrev pub DemoCollision : Type 0
  DemoCollision =
      (receipts : List Receipt) × (d : Disk) × (d' : Disk) × (f : Five R) × (make_calls R is_zero C
          clock demo_log 1 demo_calls (some [])
        ≡ (ok receipts, d))
      × (iter_records R d ≡ ok (all_five R f))
      × (build_forked_log R C literal key none ≡ (demo_log, ok tt, d'))
      × Collides f d d'

  module _ (now now_original now_forked : R.Float) where
    abbrev Equivocated : Bytes → Type 0
    Equivocated file =
        equivocate R is_zero C literal clock now now_original now_forked key pub_key file ≡ exited 0

    pub build_forked_log-returns :
        (file : Bytes)
        → append_all R C demo_log (forked_calls R literal) (some []) ≡ (ok tt, some file)
        → build_forked_log R C literal key none ≡ (demo_log, ok tt, some file)
    unfolding build_forked_log append_all open_log
    build_forked_log-returns file h = ap (λ (p : Result (Unit {0}) × Disk). (demo_log, p.0, p.1)) h

    equivocate-ends :
        (file : Bytes) (d : Disk) (a b : SignedTreeHead R.Float)
        → build_forked_log R C literal key none ≡ (demo_log, ok tt, d)
        → emit_sth R C demo_log now_original (some file) ≡ ok a
        → emit_sth R C demo_log now_forked d ≡ ok b
        → detect_equivocation R C a b pub_key ≡ ok true
        → Equivocated file
    unfolding equivocate
    equivocate-ends file d a b built ha hb found =
        ap (after_fork R is_zero C literal clock now now_original now_forked key pub_key file) built
        ∙ rw (ha, hb, found) refl

    -- Steps 1 to 4 of the demo.
    reaches :
        (file edited : Bytes) (receipts : List Receipt) (sth : SignedTreeHead R.Float) (n : ℕ)
        (v : ChainVerificationResult)
        → make_calls R is_zero C clock demo_log 1 demo_calls (some []) ≡ (ok receipts, some file)
        → emit_sth R C demo_log now (some file) ≡ ok sth
        → verify_chain R C pub_key (some file) ≡ ok (passed n)
        → replace_result_hash R 2 ba_hash file ≡ ok edited
        → verify_chain R C pub_key (some edited) ≡ ok v
        → v.is_ok ≡ false
        → Equivocated edited
        → demo_main R is_zero C literal clock now now_original now_forked key ≡ exited 0
    unfolding demo_main make_calls generate_keypair open_log tamper_entry_two
    reaches file edited receipts sth n v made emitted passes replaced verified fails ends =
        ap (after_calls R is_zero C literal clock now now_original now_forked key pub_key) made
        ∙ ap
            (after_sth R is_zero C literal clock now now_original now_forked key pub_key
              (some file))
            emitted
        ∙ ap
            (after_verify R is_zero C literal clock now now_original now_forked key pub_key
              (some file))
            passes
        ∙ ap (verify_tampered R is_zero C literal clock now now_original now_forked key pub_key)
            replaced
        ∙ ap (after_tamper R is_zero C literal clock now now_original now_forked key pub_key edited)
            verified
        ∙ ap
            (λ (b : Bool).
              if b
              then exited 1
              else equivocate R is_zero C literal clock now now_original now_forked key pub_key
                  edited)
            fails
        ∙ ends

    abbrev pub Outcome : Type 0
    Outcome =
        (demo_main R is_zero C literal clock now now_original now_forked key ≡ exited 0)
        ⊎ DemoCollision

    -- Behind the edit of the third record.
    pub convicts :
        (f g : Five R) (file edited forked_file : Bytes) (hash hash' : Text)
        (receipts : List Receipt) (v : ChainVerificationResult)
        → Written R L C S key (some file) (all_five R f)
        → Written R L C S key (some forked_file) (all_five R g)
        → f.r4.entry.request_id ≡ codes "4"
        → g.r4.entry.request_id ≡ codes "4-FORK"
        → make_calls R is_zero C clock demo_log 1 demo_calls (some []) ≡ (ok receipts, some file)
        → build_forked_log R C literal key none ≡ (demo_log, ok tt, some forked_file)
        → Headed R L C S key of_32 demo_log refl file hash now
        → Headed R L C S key of_32 demo_log refl edited hash now_original
        → Headed R L C S key of_32 demo_log refl forked_file hash' now_forked
        → replace_result_hash R 2 ba_hash file ≡ ok edited
        → verify_chain R C pub_key (some edited) ≡ ok v
        → Located R L C S pub_key 2 f.r3 (with_result_hash ba_hash f.r3) (f.r4 ∷ f.r5 ∷ []) v
        → Outcome
    convicts f g file edited forked_file hash hash' receipts v w w' four forks made built head
          tampered forked replaced verified located =
        let (reads, passes) =
          verify_chain-Written R L C S key pub_key (some file) (all_five R f) w
            (public_key_from_private-returns C key of_32) in
        let collides : Collides f (some file) (some forked_file) → Outcome =
          λ c. inr (receipts, some file, some forked_file, f, made, reads, built, c) in
        elim (Located-fails R L C S pub_key 2 f.r3 (with_result_hash ba_hash f.r3) f.r4 (f.r5 ∷ [])
          v located) [
            | inr collision ↦ collides (inl collision)
            | inl fails ↦
                elim (fork_found R L C S key of_32 demo_log refl f g file edited forked_file hash
                  hash' now_original now_forked w w' four forks head.named tampered forked) [
                    | inr collision ↦ collides (inr collision)
                    | inl found ↦ inl (
                        reaches file edited receipts head.sth 5 v made head.emits passes replaced
                          verified fails
                          (equivocate-ends edited (some forked_file) tampered.sth forked.sth built
                            tampered.emits forked.emits found))
                  ]
          ]
