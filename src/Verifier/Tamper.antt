-- ===== src/Verifier/Tamper.antt =====
-- verifier.py: what the head hash of a log pins down. The outcome of a failed hash is exhibited as a pair of
-- inputs of BLAKE2b.
use mcp_attest.Base.{
  ℕ, ◌+◌, ◌≡◌, refl, sym, ap, ◌∙◌, ◌⊎◌, inl, inr, ◌≢◌, List, [], ◌∷◌, ◌++◌, arith, All, length,
  Bool-cases,
}
use mcp_attest.Base.Hex.{to_hex, from_hex, IsByte, from_hex-to_hex}
use mcp_attest.Base.Text.{Text, Bytes, text_eq, text_eq_iff}
use mcp_attest.Errors.{Result, ok, ◌>>=◌}
use mcp_attest.Errors.Laws.{>>=-eq-ok, ok-injective}
use mathlib.Core.Path.{ap₂, subst}
use mathlib.Core.Option.{none, some-injective}
use mcp_attest.Runtime.{Runtime, IsLawful}
use mcp_attest.Crypto.{Primitives, IsSound, hash_bytes}
use mcp_attest.Entry.{SignedRecord, record_bytes, entry_hash, zero_hash_hex}
use mcp_attest.Entry.RoundTrip.{record_bytes-injective}
use mcp_attest.Log.Reader.{Disk, iter_records, last_record}
use mcp_attest.Log.Writer.{head_hash, head_hash_of}
use mcp_attest.Verifier.{verify_chain, passed}
use mcp_attest.Verifier.Chain.{IsChain, verify_chain_iff}
use mcp_attest.Verifier.Ends.{end_hash, end_hash-last}

-- Two different byte strings with the same digest, of which it is known where they come from.
abbrev pub Collision : Primitives → (Bytes → Type 0) → (Bytes → Type 0) → Type 0
Collision C P Q = (a : Bytes) × (b : Bytes) × P a × Q b × (a ≢ b) × (C.blake2b a ≡ C.blake2b b)

module _ (R : Runtime) where
  -- The canonical bytes of one of the records.
  abbrev pub Among : List (SignedRecord R.Float) → Bytes → Type 0
  Among [] a = ⊥
  Among (r ∷ rs) a = (record_bytes R r ≡ ok a) ⊎ Among rs a

  -- The canonical bytes of a record of the file.
  abbrev pub Holds : Disk → Bytes → Type 0
  Holds d a = (rs : List (SignedRecord R.Float)) × (iter_records R d ≡ ok rs) × Among rs a

to_hex-injective : (a b : Bytes) → All IsByte a → All IsByte b → to_hex a ≡ to_hex b → a ≡ b
to_hex-injective a b ha hb e =
    some-injective a b (sym (from_hex-to_hex a ha) ∙ ap from_hex e ∙ from_hex-to_hex b hb)

module _ (R : Runtime) (L : IsLawful R) (C : Primitives) (S : IsSound C) where
  pub same_digest :
      (a b : Bytes)
      → to_hex (hash_bytes C a) ≡ to_hex (hash_bytes C b)
      → (a ≡ b) ⊎ ((a ≢ b) × (C.blake2b a ≡ C.blake2b b))
  unfolding hash_bytes
  same_digest a b e = elim (Bool-cases (text_eq a b)) [
    | inl same ↦ inl ((text_eq_iff a b).0 same)
    | inr differ ↦ inr (
      (λ p. cc (differ, (text_eq_iff a b).1 p)),
      to_hex-injective (C.blake2b a) (C.blake2b b) (S.digest_IsByte a) (S.digest_IsByte b) e,
    )
  ]

  -- Two records with the same hash are one, or their canonical bytes collide.
  pub same_entry_hash :
      (r s : SignedRecord R.Float) (hash : Text)
      → entry_hash R C r ≡ ok hash
      → entry_hash R C s ≡ ok hash
      → (r ≡ s) ⊎ Collision C (λ a. record_bytes R r ≡ ok a) (λ b. record_bytes R s ≡ ok b)
  unfolding entry_hash
  same_entry_hash r s hash h k =
      let (a, ha, p) = >>=-eq-ok (record_bytes R r) (λ bs. ok (to_hex (hash_bytes C bs))) h in
      let (b, hb, q) = >>=-eq-ok (record_bytes R s) (λ bs. ok (to_hex (hash_bytes C bs))) k in
      elim (same_digest a b (ok-injective p ∙ sym (ok-injective q))) [
        | inl same ↦ inl (record_bytes-injective R L r s a ha (hb ∙ ap ok (sym same)))
        | inr (differ, collide) ↦ inr (a, b, ha, hb, differ, collide)
      ]

  module _ (key : Bytes) where
    same_end :
        (i : ℕ) (prev prev' : Text) (rs rs' : List (SignedRecord R.Float))
        → IsChain R C key i prev rs
        → IsChain R C key i prev' rs'
        → length rs ≡ length rs'
        → end_hash R C prev rs ≡ end_hash R C prev' rs'
        → ((rs ≡ rs') × (prev ≡ prev')) ⊎ Collision C (Among R rs) (Among R rs')
    same_end i prev prev' [] [] c c' n e = inl (refl, ok-injective e)
    same_end i prev prev' [] (r' ∷ rs') c c' n e = absurd (omega arith)
    same_end i prev prev' (r ∷ rs) [] c c' n e = absurd (omega arith)
    same_end i prev prev' (r ∷ rs) (r' ∷ rs') (hash, _, named, _, h, c)
          (hash', _, named', _, h', c') n e =
        let ends : end_hash R C hash rs ≡ end_hash R C hash' rs' =
          sym (ap (λ (m : Result Text). m >>= λ t. end_hash R C t rs) h)
          ∙ e
          ∙ ap (λ (m : Result Text). m >>= λ t. end_hash R C t rs') h' in
        elim (same_end (i + 1) hash hash' rs rs' c c' (omega arith) ends) [
          | inr (a, b, p, q, differ, same) ↦ inr (a, b, inr p, inr q, differ, same)
          | inl (tails, hashes) ↦ elim (same_entry_hash r r' hash' (h ∙ ap ok hashes) h') [
            | inr (a, b, p, q, differ, same) ↦ inr (a, b, inl p, inl q, differ, same)
            | inl heads ↦ inl (
              ap₂ (λ x xs. x ∷ xs) heads tails,
              sym named ∙ ap (λ (x : SignedRecord R.Float). x.entry.prev_hash) heads ∙ named',
            )
          ]
        ]

    -- In a valid chain `head_hash` is the hash that the next record would name.
    pub head_hash-IsChain :
        (d : Disk) (rs : List (SignedRecord R.Float))
        → iter_records R d ≡ ok rs
        → IsChain R C key 0 zero_hash_hex rs
        → head_hash R C d ≡ end_hash R C zero_hash_hex rs
    unfolding head_hash last_record
    head_hash-IsChain d rs h c =
        rw h (sym (end_hash-last R C key 0 zero_hash_hex none rs c (unfold head_hash_of in refl)))

    -- Two files that `verify_chain` passes with the same number of entries, and that have the same head
    -- hash, hold the same records, or else the canonical bytes of a record of the one and of a record of
    -- the other differ and have the same BLAKE2b digest.
    pub same_head_hash :
        (d d' : Disk) (n : ℕ)
        → verify_chain R C key d ≡ ok (passed n)
        → verify_chain R C key d' ≡ ok (passed n)
        → head_hash R C d ≡ head_hash R C d'
        → (iter_records R d ≡ iter_records R d') ⊎ Collision C (Holds R d) (Holds R d')
    same_head_hash d d' n h h' heads =
        let (rs, p, c, k) = (verify_chain_iff R C key d n).0 h in
        let (rs', p', c', k') = (verify_chain_iff R C key d' n).0 h' in
        let ends = sym (head_hash-IsChain d rs p c) ∙ heads ∙ head_hash-IsChain d' rs' p' c' in
        elim (same_end 0 zero_hash_hex zero_hash_hex rs rs' c c' (omega arith) ends) [
          | inl (same, _) ↦ inl (p ∙ ap ok same ∙ sym p')
          | inr (a, b, q, q', differ, same) ↦ inr (a, b, (rs, p, q), (rs', p', q'), differ, same)
        ]

    IsChain-append_left :
        (i : ℕ) (prev : Text) (rs ss : List (SignedRecord R.Float))
        → IsChain R C key i prev (rs ++ ss)
        → IsChain R C key i prev rs
    IsChain-append_left i prev [] ss c = tt
    IsChain-append_left i prev (r ∷ rs) ss (hash, s, named, v, h, c) =
        (hash, s, named, v, h, IsChain-append_left (i + 1) hash rs ss c)

    -- Cutting records off the end goes unnoticed: if a file passes, so does every file that holds only
    -- the first of its records.
    pub truncation_passes :
        (d d' : Disk) (n : ℕ) (rs ss : List (SignedRecord R.Float))
        → verify_chain R C key d ≡ ok (passed n)
        → iter_records R d ≡ ok (rs ++ ss)
        → iter_records R d' ≡ ok rs
        → verify_chain R C key d' ≡ ok (passed (length rs))
    truncation_passes d d' n rs ss h whole cut =
        let (qs, p, c, _) = (verify_chain_iff R C key d n).0 h in
        let all = subst (IsChain R C key 0 zero_hash_hex) (ok-injective (sym p ∙ whole)) c in
        (verify_chain_iff R C key d' (length rs)).1
          (rs, cut, IsChain-append_left 0 zero_hash_hex rs ss all, refl)
