-- ===== src/Verifier/Race.antt =====
-- log.py, `emit_sth`, with an append between its two reads of the file, and verifier.py on what it signs.
use mcp_attest.Base.{
  ℕ, ◌≡◌, refl, sym, ap, ◌∙◌, ◌⊎◌, inl, inr, true, none, some, List, [], ◌∷◌, ◌++◌, arith, length,
  length-append, Bool-cases,
}
use mathlib.Core.Option.{Option}
use mcp_attest.Base.Int.{ℤ, pos, negsuc}
use mcp_attest.Base.Text.{Bytes, text_eq, text_eq_iff}
use mcp_attest.Errors.{ok}
use mcp_attest.Errors.Laws.{ok-injective}
use mcp_attest.Runtime.{Runtime, IsLawful}
use mcp_attest.Crypto.{Primitives, IsSound, public_key_from_private}
use mcp_attest.Entry.{
  SignedRecord, SignedTreeHead, Receipt, zero_hash_hex, record_bytes, entry_hash,
}
use mcp_attest.Log.Reader.{Disk, AttestationLog, last}
use mcp_attest.Log.Writer.{Call, append, head_hash_of, head_hash, emit_sth, emit_sth_between}
use mcp_attest.Verifier.{detect_equivocation}
use mcp_attest.Verifier.Edit.{IsChain-append}
use mcp_attest.Verifier.Tamper.{Collision, same_entry_hash}
use mcp_attest.Verifier.Growth.{
  Written, appended, append-seq, Written-IsChain, verify_chain-Written,
}
use mcp_attest.Verifier.TreeHead.{
  emit_sth-Emitted, detect_equivocation_iff, head_hash-last, verify_sth-emit_sth_between,
}

-- The number of an index that is not negative.
abbrev magnitude : ℤ → ℕ
magnitude (pos n) = n
magnitude (negsuc n) = n

module _ (R : Runtime) (L : IsLawful R) (C : Primitives) (S : IsSound C) where
  last-snoc :
      (before : Option (SignedRecord R.Float)) (rs : List (SignedRecord R.Float))
      (r : SignedRecord R.Float)
      → last R before (rs ++ (r ∷ [])) ≡ some r
  last-snoc before [] r = refl
  last-snoc before (q ∷ rs) r = last-snoc (some q) rs r

  -- The head hash of a file is the hash of its last record.
  head_hash-snoc :
      (key public : Bytes) (d : Disk) (rs : List (SignedRecord R.Float)) (r : SignedRecord R.Float)
      → Written R L C S key d (rs ++ (r ∷ []))
      → public_key_from_private C key ≡ ok public
      → head_hash R C d ≡ entry_hash R C r
  unfolding head_hash_of
  head_hash-snoc key public d rs r w is_public =
      let (reads, _) = verify_chain-Written R L C S key public d (rs ++ (r ∷ [])) w is_public in
      head_hash-last R C d (rs ++ (r ∷ [])) reads ∙ ap (head_hash_of R C) (last-snoc none rs r)

  last-seq :
      (key public : Bytes) (d : Disk) (rs : List (SignedRecord R.Float)) (r : SignedRecord R.Float)
      → Written R L C S key d (rs ++ (r ∷ []))
      → public_key_from_private C key ≡ ok public
      → r.entry.seq ≡ pos (length rs)
  last-seq key public d rs r w is_public =
      let (_, chain) = Written-IsChain R L C S key public d (rs ++ (r ∷ [])) w is_public in
      let (_, _, _, (_, number, _, _, _, _)) =
        IsChain-append R L C S public 0 zero_hash_hex rs (r ∷ []) chain in
      number ∙ ap pos (omega arith)

  -- An honest log can be accused: if another writer appends between the two reads of `emit_sth`, the log
  -- signs the old length with the new head hash, and then this tree head and the one that it emits for the
  -- file as it was before are evidence of equivocation, or else the canonical bytes of the last record and
  -- of the new one collide under BLAKE2b.
  pub raced_head-accused :
      (log other later : AttestationLog) (call : Call R.Float) (t t' : R.Float) (d d' : Disk)
      (rs : List (SignedRecord R.Float)) (q r : SignedRecord R.Float) (receipt : Receipt)
      (a b : SignedTreeHead R.Float) (key public : Bytes)
      → Written R L C S key d (rs ++ (q ∷ []))
      → log.private_key ≡ some key
      → other.private_key ≡ some key
      → later.private_key ≡ some key
      → public_key_from_private C key ≡ ok public
      → append R C other call d ≡ (ok (r, receipt), d')
      → emit_sth_between R C log t d d' ≡ ok a
      → emit_sth R C later t' d ≡ ok b
      → (detect_equivocation R C a b public ≡ ok true)
        ⊎ Collision C (λ x. record_bytes R q ≡ ok x) (λ x. record_bytes R r ≡ ok x)
  unfolding emit_sth
  raced_head-accused log other later call t t' d d' rs q r receipt a b key public w o o' o''
        is_public h ha hb =
      let ea = emit_sth-Emitted R C log t d d' a ha in
      let eb = emit_sth-Emitted R C later t' d d b hb in
      let w' = appended other call d d' (rs ++ (q ∷ [])) r receipt w o' h in
      let va = verify_sth-emit_sth_between R L C S log t d d' a key public o is_public ha in
      let vb = verify_sth-emit_sth_between R L C S later t' d d b key public o'' is_public hb in
      let counts = ok-injective (sym ea.counted ∙ eb.counted) in
      let hash_r =
        sym (head_hash-snoc key public d' (rs ++ (q ∷ [])) r w' is_public) ∙ ea.head_is in
      let hash_q = sym (head_hash-snoc key public d rs q w is_public) ∙ eb.head_is in
      elim (Bool-cases (text_eq a.head_hash b.head_hash)) [
        | inr differ ↦ inl (
            (detect_equivocation_iff R C a b public).1 (
              va,
              vb,
              ea.length_is ∙ ap pos counts ∙ sym eb.length_is,
              λ p. cc (differ, (text_eq_iff a.head_hash b.head_hash).1 p),
            ))
        | inl same ↦
            elim (same_entry_hash R L C S q r b.head_hash hash_q
              (hash_r ∙ ap ok ((text_eq_iff a.head_hash b.head_hash).0 same))) [
                | inr collision ↦ inr collision
                | inl equal ↦
                    let numbers : length rs ≡ length (rs ++ (q ∷ [])) = ap magnitude (
                      sym (last-seq key public d rs q w is_public)
                      ∙ ap (λ (s : SignedRecord R.Float). s.entry.seq) equal
                      ∙ append-seq R L C S other call d d' (rs ++ (q ∷ [])) r receipt key public w
                          is_public h) in
                    absurd (omega (arith, numbers, length-append rs (q ∷ [])))
              ]
      ]
