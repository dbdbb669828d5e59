-- ===== src/Examples/Demo/Ends.antt =====
-- examples/demo.py: `main`, for every key pair.
use mcp_attest.Base.{
  ℕ, ◌≡◌, ◌≢◌, refl, ◌⊎◌, Bool, true, none, some, List, [], ◌∷◌, arith, All, length,
}
use mcp_attest.Base.Text.{Text, Bytes}
use mcp_attest.Errors.{ok}
use mcp_attest.Runtime.{Runtime, IsLawful}
use mcp_attest.Json.Plain.{IsPlain}
use mcp_attest.Crypto.{Primitives, IsSound}
use mcp_attest.Crypto.Laws.{public_key_from_private-returns}
use mcp_attest.Entry.{entry_hash}
use mcp_attest.Log.Reader.{AttestationLog, open_log}
use mcp_attest.Log.Writer.{Call, payload_hash}
use mcp_attest.Verifier.Growth.{Written, missing, opened, Written-IsChain}
use mcp_attest.Cli.{exited}
use mcp_attest.Proxy.{attested_call}
use mcp_attest.Examples.Tamper.Line.{with_result_hash}
use mcp_attest.Examples.Replaced.{replace-Replaced}
use mcp_attest.Examples.Sequence.{AllMade, all_made, append_all-returns, make_calls-returns}
use mcp_attest.Examples.Demo.{demo_calls, forked_calls, ba_hash, demo_main}
use mcp_attest.Examples.Demo.Calls.{
  third_call, proxied_calls, proxied_calls-AllCan, demo_calls-Forwards, forked_calls-AllCan,
}
use mcp_attest.Examples.Demo.Fork.{Five, all_five, Headed, five-Headed}
use mcp_attest.Examples.Demo.Steps.{
  demo_log, build_forked_log-returns, DemoCollision, Outcome, convicts,
}

ba_hash-IsPlain : All IsPlain ba_hash
ba_hash-IsPlain = ground arith

module _ (R : Runtime) (L : IsLawful R) (C : Primitives) (S : IsSound C) (is_zero : R.Float → Bool)
    (literal : Text → R.Float) (clock : ℕ → R.Float × R.Float)
    (finite : (s : Text) → R.is_finite (literal s) ≡ true)
    (time : (i : ℕ) → (R.is_finite (clock i).0 ≡ true) × (R.is_finite (clock i).1 ≡ true))
    (key : Bytes) (of_32 : length key ≡ 32) where
  abbrev log : AttestationLog
  log = demo_log R L C S is_zero literal clock key of_32

  abbrev pub_key : Bytes
  pub_key = C.ed25519_public key

  abbrev Makes : List (Call R.Float) → Type 0
  Makes calls = AllMade R L C S key of_32 log refl refl calls (some []) []

  original : Makes (proxied_calls R clock)
  unfolding open_log
  original =
      all_made R L C S key of_32 log refl refl (proxied_calls R clock) (some []) [] 0 refl
        (proxied_calls-AllCan R clock time) (opened [] none none [] missing)

  fork : Makes (forked_calls R literal)
  unfolding open_log
  fork =
      all_made R L C S key of_32 log refl refl (forked_calls R literal) (some []) [] 0 refl
        (forked_calls-AllCan R literal finite) (opened [] none none [] missing)

  Written-Headed :
      (f : Five R) (file : Bytes) (hash : Text) (timestamp : R.Float)
      → Written R L C S key (some file) (all_five R f)
      → entry_hash R C f.r5 ≡ ok hash
      → R.is_finite timestamp ≡ true
      → Headed R L C S key of_32 log refl file hash timestamp
  Written-Headed f file hash timestamp w hashed is_finite =
      let (is_log, _) =
        Written-IsChain R L C S key pub_key (some file) (all_five R f) w
          (public_key_from_private-returns C key of_32) in
      five-Headed R L C S key of_32 log refl f file hash timestamp is_log hashed is_finite

  module _ (now now_original now_forked : R.Float) (now_finite : R.is_finite now ≡ true)
      (original_finite : R.is_finite now_original ≡ true)
      (forked_finite : R.is_finite now_forked ≡ true) where
    -- The demo, when its calls and those of the forked log have returned.
    demo_ends :
        (a : Makes (proxied_calls R clock)) (b : Makes (forked_calls R literal))
        → payload_hash R C (third_call R clock).result_or_error ≢ ok ba_hash
        → Outcome R L C S is_zero literal clock key of_32 now now_original now_forked
    unfolding attested_call
    demo_ends (m1, (m2, (m3, (m4, (m5, _))))) (n1, (n2, (n3, (n4, (n5, _))))) other =
        let f : Five R = record { r1 = m1.r; r2 = m2.r; r3 = m3.r; r4 = m4.r; r5 = m5.r } in
        let g : Five R = record { r1 = n1.r; r2 = n2.r; r3 = n3.r; r4 = n4.r; r5 = n5.r } in
        let x =
          replace-Replaced R L C S key of_32 log (third_call R clock) (some m2.file)
            (m1.r ∷ m2.r ∷ []) ba_hash ba_hash-IsPlain m3 (m1.r ∷ m2.r ∷ []) (m4.r ∷ m5.r ∷ [])
            m5.file m5.written (m1.ascii, (m2.ascii, (m3.ascii, (m4.ascii, (m5.ascii, tt)))))
            (λ c. (m1.checkable, (m2.checkable, (c, (m4.checkable, (m5.checkable, tt)))))) other in
        let (receipts, made) =
          make_calls-returns R L C S key of_32 log refl refl is_zero clock 1 demo_calls
            (proxied_calls R clock) (some []) [] (m1, (m2, (m3, (m4, (m5, tt)))))
            (demo_calls-Forwards R clock is_zero) in
        let filled =
          append_all-returns R L C S key of_32 log refl refl (forked_calls R literal) (some []) []
            (n1, (n2, (n3, (n4, (n5, tt))))) in
        convicts R L C S is_zero literal clock key of_32 now now_original now_forked f g m5.file
          x.edited n5.file m5.checkable.hash n5.checkable.hash receipts x.verdict m5.written
          n5.written m4.id_kept n4.id_kept made
          (build_forked_log-returns R L C S is_zero literal clock key of_32 now now_original
            now_forked n5.file filled)
          (Written-Headed f m5.file m5.checkable.hash now m5.written m5.checkable.hashed now_finite)
          (five-Headed R L C S key of_32 log refl
            (record {
              r1 = m1.r;
              r2 = m2.r;
              r3 = with_result_hash ba_hash m3.r;
              r4 = m4.r;
              r5 = m5.r;
            })
            x.edited m5.checkable.hash now_original x.is_log m5.checkable.hashed original_finite)
          (Written-Headed g n5.file n5.checkable.hash now_forked n5.written n5.checkable.hashed
            forked_finite)
          x.replaces x.verifies x.located

    -- The demo does what it promises, for every key pair and every clock of finite times: unless BLAKE2b of
    -- the third result happens to be the hash that the demo writes, it attests five calls, its first check
    -- passes, the check of the tampered file fails, the fork is found to be an equivocation, and it ends
    -- with status 0; the only other way out is that the run exhibits two records whose canonical bytes
    -- collide under BLAKE2b.
    pub demo_main-convicts :
        payload_hash R C (third_call R clock).result_or_error ≢ ok ba_hash
        → (demo_main R is_zero C literal clock now now_original now_forked key ≡ exited 0)
          ⊎ DemoCollision R L C S is_zero literal clock key of_32
    demo_main-convicts other = demo_ends original fork other
