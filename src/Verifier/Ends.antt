-- ===== src/Verifier/Ends.antt =====
-- The end of a chain: the number and the hash that the next record must have, and a chain made longer.
use mcp_attest.Base.{
  ℕ, ◌+◌, ◌≡◌, sym, ap, ◌∙◌, Option, some, List, [], ◌∷◌, ◌++◌, arith, length, true,
}
use mcp_attest.Base.Int.{pos, increment}
use mcp_attest.Base.Text.{Text, Bytes}
use mcp_attest.Errors.{Result, ok, ◌>>=◌}
use mcp_attest.Errors.Laws.{ok-injective}
use mcp_attest.Runtime.{Runtime}
use mcp_attest.Crypto.{Primitives}
use mcp_attest.Entry.{SignedRecord, entry_hash}
use mcp_attest.Log.Reader.{last}
use mcp_attest.Log.Writer.{head_hash_of, next_seq}
use mcp_attest.Verifier.{signature_valid}
use mcp_attest.Verifier.Chain.{IsChain}

module _ (R : Runtime) (C : Primitives) where
  -- The hash that the record behind the chain would name.
  abbrev pub end_hash : Text → List (SignedRecord R.Float) → Result Text
  end_hash prev [] = ok prev
  end_hash prev (r ∷ rs) = do hash ← entry_hash R C r; end_hash hash rs

module _ (R : Runtime) (C : Primitives) (key : Bytes) where
  pub end_hash-last :
      (i : ℕ) (prev : Text) (o : Option (SignedRecord R.Float)) (rs : List (SignedRecord R.Float))
      → IsChain R C key i prev rs
      → head_hash_of R C o ≡ ok prev
      → end_hash R C prev rs ≡ head_hash_of R C (last R o rs)
  end_hash-last i prev o [] c h = sym h
  end_hash-last i prev o (r ∷ rs) (hash, _, _, _, k, c) h =
      ap (λ (m : Result Text). m >>= λ t. end_hash R C t rs) k
      ∙ end_hash-last (i + 1) hash (some r) rs c (unfold head_hash_of in k)

  -- Behind a chain the next number is its length.
  pub next_seq-last :
      (i : ℕ) (prev : Text) (o : Option (SignedRecord R.Float)) (rs : List (SignedRecord R.Float))
      → IsChain R C key i prev rs
      → next_seq R C o ≡ pos i
      → next_seq R C (last R o rs) ≡ pos (i + length rs)
  next_seq-last i prev o [] c h = h ∙ ap pos (omega arith)
  next_seq-last i prev o (r ∷ rs) (hash, s, _, _, _, c) h =
      next_seq-last (i + 1) hash (some r) rs c (ap increment s) ∙ ap pos (omega arith)

  -- A record that has that number and names that hash makes the chain longer.
  pub IsChain-snoc :
      (i : ℕ) (prev hash : Text) (rs : List (SignedRecord R.Float)) (r : SignedRecord R.Float)
      → IsChain R C key i prev rs
      → r.entry.seq ≡ pos (i + length rs)
      → end_hash R C prev rs ≡ ok r.entry.prev_hash
      → signature_valid R C key r ≡ ok true
      → entry_hash R C r ≡ ok hash
      → IsChain R C key i prev (rs ++ (r ∷ []))
  IsChain-snoc i prev hash [] r c s named valid h =
      (hash, s ∙ ap pos (omega arith), ok-injective (sym named), valid, h, tt)
  IsChain-snoc i prev hash (q ∷ rs) r (t, s', named', valid', h', c) s named valid h = (
    t,
    s',
    named',
    valid',
    h',
    IsChain-snoc (i + 1) t hash rs r c (s ∙ ap pos (omega arith))
        (sym (ap (λ (m : Result Text). m >>= λ u. end_hash R C u rs) h') ∙ named) valid h,
  )
