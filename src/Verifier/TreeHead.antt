-- ===== src/Verifier/TreeHead.antt =====
-- verifier.py, `verify_sth` and `detect_equivocation`, with the tree heads that `emit_sth` (log.py) signs.
use mcp_attest.Base.{
  ℕ, ◌≡◌, ◌≢◌, refl, sym, ap, ◌∙◌, ◌↔◌, ◌⊎◌, inl, inr, Option, some, none, true, List, [], ◌∷◌,
  ◌++◌, append-nil, arith, length, length-append, Bool-cases,
}
use mcp_attest.Base.Int.{pos, int_eq_iff}
use mcp_attest.Base.Text.{Bytes, text_eq, text_eq_iff}
use mcp_attest.Base.Hex.{to_hex, from_hex}
use mcp_attest.Errors.{ErrorClass, ok, or_raise, runtime_error}
use mcp_attest.Errors.Laws.{>>=-eq-ok, ok-injective}
use mcp_attest.Runtime.{Runtime, IsLawful}
use mcp_attest.Crypto.{Primitives, IsSound, sign, verify, public_key_from_private}
use mcp_attest.Crypto.Laws.{verify-sign}
use mcp_attest.Canonical
use mcp_attest.Entry.{SignedRecord, SignedTreeHead, sth_payload, sth_bytes}
use mcp_attest.Log.Reader.{Disk, AttestationLog, chain_length, last, last_record, iter_records}
use mcp_attest.Log.Writer.{head_hash, head_hash_of, emit_sth, emit_sth_between}
use mcp_attest.Log.Read.{read_record-IsLog}
use mcp_attest.Verifier.{verify_chain, passed, verify_sth, detect_equivocation}
use mcp_attest.Verifier.Tamper.{Collision, Holds, same_head_hash}
use mcp_attest.Verifier.Growth.{Written, Written-IsChain, signature-from_hex, verify_chain-Written}

module _ (R : Runtime) (C : Primitives) where
  -- What stands in a tree head, and over what it is signed.
  pub record Emitted (log : AttestationLog) (timestamp : R.Float) (d headed : Disk)
      (sth : SignedTreeHead R.Float) : Type 0 where
    pub key : Bytes
    pub message : Bytes
    pub signature : Bytes
    pub count : ℕ
    pub opened_with : log.private_key ≡ some key
    pub counted : chain_length R d ≡ ok count
    pub length_is : sth.chain_length ≡ pos count
    pub head_is : head_hash R C headed ≡ ok sth.head_hash
    pub time_is : sth.timestamp ≡ timestamp
    pub message_made : sth_bytes R sth ≡ ok message
    pub signed : sign C key message ≡ ok signature
    pub signature_hex : sth.signature ≡ to_hex signature

  or_raise-eq-ok :
      (o : Option Bytes) (e : ErrorClass) (k : Bytes) → or_raise e o ≡ ok k → o ≡ some k
  or_raise-eq-ok none e k h = cc h
  or_raise-eq-ok (some j) e k h = ap some (ok-injective h)

  pub emit_sth-Emitted :
      (log : AttestationLog) (timestamp : R.Float) (d headed : Disk) (sth : SignedTreeHead R.Float)
      → emit_sth_between R C log timestamp d headed ≡ ok sth
      → Emitted log timestamp d headed sth
  unfolding sth_bytes
  emit_sth-Emitted log timestamp d headed sth h =
      let (key, hk, h1) = >>=-eq-ok (or_raise runtime_error log.private_key) _ h in
      let (n, hn, h2) = >>=-eq-ok (chain_length R d) _ h1 in
      let (head, hh, h3) = >>=-eq-ok (head_hash R C headed) _ h2 in
      let (message, hm, h4) =
        >>=-eq-ok (Canonical.dumps R (sth_payload (pos n) head timestamp)) _ h3 in
      let (signature, hs, e) = >>=-eq-ok (sign C key message) _ h4 in
      let same = ok-injective (sym e) in
      record {
        key = key;
        message = message;
        signature = signature;
        count = n;
        opened_with = or_raise-eq-ok log.private_key runtime_error key hk;
        counted = hn;
        length_is = ap SignedTreeHead.chain_length same;
        head_is = hh ∙ ap ok (sym (ap SignedTreeHead.head_hash same));
        time_is = ap SignedTreeHead.timestamp same;
        message_made =
            ap
              (λ (s : SignedTreeHead R.Float).
                Canonical.dumps R (sth_payload s.chain_length s.head_hash s.timestamp))
              same
            ∙ hm;
        signed = hs;
        signature_hex = ap SignedTreeHead.signature same;
      }

  -- `detect_equivocation` answers true exactly when both heads are signed under the key, and claim the
  -- same length with different head hashes.
  pub detect_equivocation_iff :
      (a b : SignedTreeHead R.Float) (key : Bytes)
      → (detect_equivocation R C a b key ≡ ok true) ↔ (
          (verify_sth R C a key ≡ ok true)
          × (verify_sth R C b key ≡ ok true)
          × (a.chain_length ≡ b.chain_length)
          × (a.head_hash ≢ b.head_hash))
  unfolding detect_equivocation
  detect_equivocation_iff a b key =
      ground (arith, int_eq_iff a.chain_length b.chain_length, text_eq_iff a.head_hash b.head_hash)

  pub head_hash-last :
      (d : Disk) (rs : List (SignedRecord R.Float))
      → iter_records R d ≡ ok rs
      → head_hash R C d ≡ head_hash_of R C (last R none rs)
  unfolding head_hash last_record
  head_hash-last d rs h = rw h refl

module _ (R : Runtime) (L : IsLawful R) (C : Primitives) (S : IsSound C) where
  -- Whatever the two reads of the file find, a tree head is verified under the public key of the log.
  pub verify_sth-emit_sth_between :
      (log : AttestationLog) (timestamp : R.Float) (d headed : Disk) (sth : SignedTreeHead R.Float)
      (key public : Bytes)
      → log.private_key ≡ some key
      → public_key_from_private C key ≡ ok public
      → emit_sth_between R C log timestamp d headed ≡ ok sth
      → verify_sth R C sth public ≡ ok true
  unfolding verify_sth
  verify_sth-emit_sth_between log timestamp d headed sth key public opened is_public h =
      let e = emit_sth-Emitted R C log timestamp d headed sth h in
      let same : e.key ≡ key = cc (opened, e.opened_with) in
      let signed : sign C key e.message ≡ ok e.signature =
        ap (λ k. sign C k e.message) (sym same) ∙ e.signed in
      let read : from_hex sth.signature ≡ some e.signature =
        ap from_hex e.signature_hex ∙ signature-from_hex C S key e.message e.signature signed in
      let good : verify C public e.message e.signature ≡ true =
        verify-sign C S key e.message e.signature public signed is_public in
      rw (e.message_made, read, good)

  -- A tree head states the number of entries of the log, the hash of its last record and the given time,
  -- and it is verified under the public key of the log.
  pub verify_sth-emit_sth :
      (log : AttestationLog) (timestamp : R.Float) (d : Disk) (sth : SignedTreeHead R.Float)
      (key public : Bytes)
      → log.private_key ≡ some key
      → public_key_from_private C key ≡ ok public
      → emit_sth R C log timestamp d ≡ ok sth
      → (verify_sth R C sth public ≡ ok true)
        × (head_hash R C d ≡ ok sth.head_hash)
        × (sth.timestamp ≡ timestamp)
        × ((n : ℕ) × (chain_length R d ≡ ok n) × (sth.chain_length ≡ pos n))
  unfolding emit_sth
  verify_sth-emit_sth log timestamp d sth key public opened is_public h =
      let e = emit_sth-Emitted R C log timestamp d d sth h in
      (
        verify_sth-emit_sth_between log timestamp d d sth key public opened is_public h,
        e.head_is,
        e.time_is,
        (e.count, e.counted, e.length_is),
      )

  pub Written-length :
      (key public : Bytes) (d : Disk) (rs : List (SignedRecord R.Float)) (n : ℕ)
      → Written R L C S key d rs
      → public_key_from_private C key ≡ ok public
      → chain_length R d ≡ ok n
      → n ≡ length rs
  Written-length key public d rs n w is_public h =
      let (is_log, _) = Written-IsChain R L C S key public d rs w is_public in
      ok-injective (sym h ∙ (read_record-IsLog R L d rs 0 is_log).0)

  -- An honest log is not accused, if nobody adds to its file between the two reads that each `emit_sth`
  -- makes: tree heads that it emits at two times, where the later file is grown from the records of the
  -- earlier one, are then no evidence, even if both are of one moment.
  pub honest_not_accused :
      (log log' : AttestationLog) (t t' : R.Float) (d d' : Disk)
      (rs ss : List (SignedRecord R.Float)) (a b : SignedTreeHead R.Float)
      (key public checked : Bytes)
      → Written R L C S key d rs
      → Written R L C S key d' (rs ++ ss)
      → public_key_from_private C key ≡ ok public
      → emit_sth R C log t d ≡ ok a
      → emit_sth R C log' t' d' ≡ ok b
      → detect_equivocation R C a b checked ≢ ok true
  unfolding emit_sth
  honest_not_accused log log' t t' d d' rs ss a b key public checked w w' is_public ha hb accused =
      let ea = emit_sth-Emitted R C log t d d a ha in
      let eb = emit_sth-Emitted R C log' t' d' d' b hb in
      let (_, _, lengths, differ) = (detect_equivocation_iff R C a b checked).0 accused in
      let counts : ea.count ≡ eb.count = cc (lengths, ea.length_is, eb.length_is) in
      let n = Written-length key public d rs ea.count w is_public ea.counted in
      let n' = Written-length key public d' (rs ++ ss) eb.count w' is_public eb.counted in
      let none_more : length ss ≡ 0 = omega (arith, length-append rs ss) in
      let same : rs ++ ss ≡ rs = ap (λ qs. rs ++ qs) (length-zero ss none_more) ∙ append-nil rs in
      let (p, _) = verify_chain-Written R L C S key public d rs w is_public in
      let (p', _) = verify_chain-Written R L C S key public d' (rs ++ ss) w' is_public in
      let heads =
        sym ea.head_is
        ∙ head_hash-last R C d rs p
        ∙ ap (λ qs. head_hash_of R C (last R none qs)) (sym same)
        ∙ sym (head_hash-last R C d' (rs ++ ss) p')
        ∙ eb.head_is in
      differ (ok-injective heads)
    where
      length-zero : (qs : List (SignedRecord R.Float)) → length qs ≡ 0 → qs ≡ []
      length-zero [] h = refl
      length-zero (q ∷ qs) h = absurd (omega (arith, h))

  -- A fork is found: if one key signs tree heads of two files that `verify_chain` passes with the same
  -- number of entries, then `detect_equivocation` answers true, or the files hold the same records, or the
  -- canonical bytes of a record of the one and of a record of the other differ and have the same BLAKE2b
  -- digest.
  pub fork_detected :
      (log log' : AttestationLog) (t t' : R.Float) (d d' : Disk) (n : ℕ)
      (a b : SignedTreeHead R.Float) (key public : Bytes)
      → log.private_key ≡ some key
      → log'.private_key ≡ some key
      → public_key_from_private C key ≡ ok public
      → verify_chain R C public d ≡ ok (passed n)
      → verify_chain R C public d' ≡ ok (passed n)
      → chain_length R d ≡ chain_length R d'
      → emit_sth R C log t d ≡ ok a
      → emit_sth R C log' t' d' ≡ ok b
      → (detect_equivocation R C a b public ≡ ok true)
        ⊎ ((iter_records R d ≡ iter_records R d') ⊎ Collision C (Holds R d) (Holds R d'))
  unfolding emit_sth
  fork_detected log log' t t' d d' n a b key public opened opened' is_public h h' counts ha hb =
      let ea = emit_sth-Emitted R C log t d d a ha in
      let eb = emit_sth-Emitted R C log' t' d' d' b hb in
      let (va, _, _, _) = verify_sth-emit_sth log t d a key public opened is_public ha in
      let (vb, _, _, _) = verify_sth-emit_sth log' t' d' b key public opened' is_public hb in
      let count : ea.count ≡ eb.count = ok-injective (sym ea.counted ∙ counts ∙ eb.counted) in
      elim (Bool-cases (text_eq a.head_hash b.head_hash)) [
        | inl same ↦ inr (
            same_head_hash R L C S public d d' n h h'
              (ea.head_is ∙ ap ok ((text_eq_iff a.head_hash b.head_hash).0 same) ∙ sym eb.head_is))
        | inr differ ↦ inl (
            (detect_equivocation_iff R C a b public).1 (
              va,
              vb,
              ea.length_is ∙ ap pos count ∙ sym eb.length_is,
              λ p. cc (differ, (text_eq_iff a.head_hash b.head_hash).1 p),
            ))
      ]
