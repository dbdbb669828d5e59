-- ===== src/Examples/Demo/Fork.antt =====
-- examples/demo.py: the tree heads of the tampered log and of the forked log.
use mcp_attest.Base.{
  ◌≡◌, refl, sym, ap, ◌∙◌, ◌⊎◌, inl, inr, true, some, List, [], ◌∷◌, arith, length, Bool-cases,
}
use mcp_attest.Base.Int.{pos}
use mcp_attest.Base.Decimal.{decimal, digits_onto}
use mcp_attest.Base.Text.{Text, Bytes, codes, text_eq, text_eq_iff}
use mcp_attest.Errors.{ok}
use mcp_attest.Errors.Laws.{ok-injective}
use mcp_attest.Runtime.{Runtime, IsLawful}
use mcp_attest.Value.Convert.Repr.{int_repr}
use mcp_attest.Json.Returns.{IsEncodable}
use mcp_attest.Crypto.{Primitives, IsSound}
use mcp_attest.Crypto.Laws.{public_key_from_private-returns}
use mcp_attest.Entry.{SignedRecord, SignedTreeHead, entry_hash}
use mcp_attest.Log.Reader.{AttestationLog, chain_length}
use mcp_attest.Log.Writer.{head_hash, head_hash_of, emit_sth}
use mcp_attest.Log.Format.{IsLog, iter_records-IsLog}
use mcp_attest.Log.Read.{read_record-IsLog}
use mcp_attest.Log.Returns.{entry_hash-IsScalar}
use mcp_attest.Log.Emits.{emit_sth-returns}
use mcp_attest.Verifier.{detect_equivocation}
use mcp_attest.Verifier.Growth.{Written, verify_chain-Written}
use mcp_attest.Verifier.Tamper.{Collision, Holds, same_head_hash}
use mcp_attest.Verifier.TreeHead.{detect_equivocation_iff, head_hash-last, verify_sth-emit_sth}

module _ (R : Runtime) where
  -- The request id of the fourth record.
  abbrev fourth_id : List (SignedRecord R.Float) → Text
  fourth_id (r1 ∷ r2 ∷ r3 ∷ r4 ∷ rs) = r4.entry.request_id
  fourth_id rs = []

  -- The records of a file of five.
  pub record Five : Type 0 where
    pub r1 : SignedRecord R.Float
    pub r2 : SignedRecord R.Float
    pub r3 : SignedRecord R.Float
    pub r4 : SignedRecord R.Float
    pub r5 : SignedRecord R.Float

  abbrev pub all_five : Five → List (SignedRecord R.Float)
  all_five f = f.r1 ∷ f.r2 ∷ f.r3 ∷ f.r4 ∷ f.r5 ∷ []

module _ (R : Runtime) (L : IsLawful R) (C : Primitives) (S : IsSound C) (key : Bytes)
    (of_32 : length key ≡ 32) (log : AttestationLog) (opened : log.private_key ≡ some key) where
  abbrev pub_key : Bytes
  pub_key = C.ed25519_public key

  -- The tree head of a file of five records.
  pub record Headed (file : Bytes) (hash : Text) (timestamp : R.Float) : Type 0 where
    pub sth : SignedTreeHead R.Float
    pub emits : emit_sth R C log timestamp (some file) ≡ ok sth
    pub counted : chain_length R (some file) ≡ ok 5
    pub named : head_hash R C (some file) ≡ ok hash

  pub five-Headed :
      (f : Five R) (file : Bytes) (hash : Text) (timestamp : R.Float)
      → IsLog R (all_five R f) file
      → entry_hash R C f.r5 ≡ ok hash
      → R.is_finite timestamp ≡ true
      → Headed file hash timestamp
  unfolding IsEncodable int_repr decimal digits_onto head_hash_of entry_hash
  five-Headed f file hash timestamp is_log hashed finite =
      let counted = (read_record-IsLog R L (some file) (all_five R f) 0 is_log).0 in
      let named =
        head_hash-last R C (some file) (all_five R f)
          (iter_records-IsLog R L (all_five R f) file is_log)
        ∙ hashed in
      let (sth, emits) =
        emit_sth-returns R L C log timestamp (some file) key 5 hash opened of_32 counted named
          (codes "5", refl) (entry_hash-IsScalar R L C S f.r5 hash hashed) finite in
      record { sth = sth; emits = emits; counted = counted; named = named }

  -- The tampered file has the head of the original one, so a fork of the original one is found.
  pub fork_found :
      (f g : Five R) (original tampered forked : Bytes) (hash hash' : Text) (t t' : R.Float)
      → Written R L C S key (some original) (all_five R f)
      → Written R L C S key (some forked) (all_five R g)
      → f.r4.entry.request_id ≡ codes "4"
      → g.r4.entry.request_id ≡ codes "4-FORK"
      → head_hash R C (some original) ≡ ok hash
      → (a : Headed tampered hash t) → (b : Headed forked hash' t')
      → (detect_equivocation R C a.sth b.sth pub_key ≡ ok true)
        ⊎ Collision C (Holds R (some original)) (Holds R (some forked))
  fork_found f g original tampered forked hash hash' t t' w w' four fork head a b =
      let is_public = public_key_from_private-returns C key of_32 in
      let (va, ha, _, (n, counted, na)) =
        verify_sth-emit_sth R L C S log t (some tampered) a.sth key pub_key opened is_public
          a.emits in
      let (vb, hb, _, (n', counted', nb)) =
        verify_sth-emit_sth R L C S log t' (some forked) b.sth key pub_key opened is_public
          b.emits in
      let counts = ok-injective (sym counted ∙ a.counted ∙ sym b.counted ∙ counted') in
      let (reads, passes) =
        verify_chain-Written R L C S key pub_key (some original) (all_five R f) w is_public in
      let (reads', passes') =
        verify_chain-Written R L C S key pub_key (some forked) (all_five R g) w' is_public in
      elim (Bool-cases (text_eq a.sth.head_hash b.sth.head_hash)) [
        | inl same ↦
            let heads : head_hash R C (some original) ≡ head_hash R C (some forked) =
              head
              ∙ sym a.named
              ∙ ha
              ∙ ap ok ((text_eq_iff a.sth.head_hash b.sth.head_hash).0 same)
              ∙ sym hb in
            elim (same_head_hash R L C S pub_key (some original) (some forked) 5 passes passes'
              heads) [
                | inl equal ↦
                    let ids =
                      sym four
                      ∙ ap (fourth_id R) (ok-injective (sym reads ∙ equal ∙ reads'))
                      ∙ fork in
                    absurd (omega (arith, ap length ids))
                | inr collision ↦ inr collision
              ]
        | inr differ ↦ inl (
            (detect_equivocation_iff R C a.sth b.sth pub_key).1 (
              va,
              vb,
              na ∙ ap pos counts ∙ sym nb,
              λ p. cc (differ, (text_eq_iff a.sth.head_hash b.sth.head_hash).1 p),
            ))
      ]
