-- ===== src/Verifier/Growth.antt =====
-- A log file (log.py) as `append` calls change it, and `verify_chain` (verifier.py) on it.
use mcp_attest.Base.{
  ◌≡◌, refl, sym, ap, ◌∙◌, ◌⊎◌, inl, inr, Option, some, none, true, List, [], ◌∷◌, ◌++◌, arith,
  length, All,
}
use mathlib.Core.Path.{subst}
use mcp_attest.Base.Int.{pos}
use mcp_attest.Base.Hex.{to_hex, from_hex, IsByte, from_hex-to_hex}
use mcp_attest.Base.Text.{Text, Bytes}
use mcp_attest.Errors.{ErrorClass, ok, raised}
use mcp_attest.Errors.Laws.{ok-injective}
use mcp_attest.Runtime.{Runtime, IsLawful}
use mcp_attest.Crypto.{Primitives, IsSound, sign, verify, public_key_from_private}
use mcp_attest.Crypto.Laws.{sign-eq-ok, verify-sign}
use mcp_attest.Entry.{SignedRecord, Receipt, zero_hash_hex}
use mcp_attest.Log.Reader.{Disk, AttestationLog, touch, last, iter_records, open_log}
use mcp_attest.Log.Writer.{Call, append, head_hash_of, next_seq}
use mcp_attest.Log.Format.{IsLog, IsLog-snoc, scan_last_record-IsLog}
use mcp_attest.Log.Append.{Appended, append-Appended}
use mcp_attest.Log.Failure.{append-raised}
use mcp_attest.Log.Read.{iter_records-lines}
use mcp_attest.Verifier.{signature_valid, verify_chain, passed}
use mcp_attest.Verifier.Chain.{IsChain, verify_chain_iff}
use mcp_attest.Verifier.Ends.{end_hash-last, next_seq-last, IsChain-snoc}

-- A signature that `sign` made is read back from its hexadecimal form.
pub signature-from_hex :
    (C : Primitives)
    → IsSound C
    → (key message signature : Bytes) → sign C key message ≡ ok signature
    → from_hex (to_hex signature) ≡ some signature
signature-from_hex C S key message signature h =
    let (n, e) = sign-eq-ok C key message signature h in
    from_hex-to_hex signature (subst (All IsByte) (sym e) (S.signature_IsByte key message n))

module _ (R : Runtime) (L : IsLawful R) (C : Primitives) (S : IsSound C) where
  -- A record that `append` made carries a valid signature.
  pub signature_valid-Appended :
      (log : AttestationLog) (call : Call R.Float) (before : Option (SignedRecord R.Float))
      (r : SignedRecord R.Float) (receipt : Receipt) (key public : Bytes)
      → Appended R C log call before r receipt
      → log.private_key ≡ some key
      → public_key_from_private C key ≡ ok public
      → signature_valid R C public r ≡ ok true
  unfolding signature_valid
  signature_valid-Appended log call before r receipt key public a opened is_public =
      let same : a.key ≡ key = cc (opened, a.opened_with) in
      let signed : sign C key a.message ≡ ok a.signature =
        ap (λ k. sign C k a.message) (sym same) ∙ a.signed in
      let read : from_hex r.signature ≡ some a.signature =
        ap from_hex a.signature_hex ∙ signature-from_hex C S key a.message a.signature signed in
      let good : verify C public a.message a.signature ≡ true =
        verify-sign C S key a.message a.signature public signed is_public in
      rw (a.message_made, read, good)

  -- A successful `append` to a file of canonical lines that is a valid chain leaves such a file, with its
  -- record at the end.
  pub append-IsChain :
      (log : AttestationLog) (call : Call R.Float) (d d' : Disk) (rs : List (SignedRecord R.Float))
      (r : SignedRecord R.Float) (receipt : Receipt) (key public : Bytes)
      → IsLog R rs (touch d)
      → IsChain R C public 0 zero_hash_hex rs
      → log.private_key ≡ some key
      → public_key_from_private C key ≡ ok public
      → append R C log call d ≡ (ok (r, receipt), d')
      → IsLog R (rs ++ (r ∷ [])) (touch d') × IsChain R C public 0 zero_hash_hex (rs ++ (r ∷ []))
  append-IsChain log call d d' rs r receipt key public is_log chain opened is_public h =
      let (before, line, scanned, a, hline, written) =
        append-Appended R C log call d d' r receipt h in
      let found : before ≡ last R none rs =
        ok-injective (sym scanned ∙ scan_last_record-IsLog R L rs (touch d) is_log) in
      let seq =
        a.seq_next
        ∙ ap (next_seq R C) found
        ∙ next_seq-last R C public 0 zero_hash_hex none rs chain refl in
      let named =
        end_hash-last R C public 0 zero_hash_hex none rs chain (unfold head_hash_of in refl)
        ∙ ap (head_hash_of R C) (sym found)
        ∙ a.prev_named in
      (
        subst (IsLog R (rs ++ (r ∷ []))) (sym (ap touch written))
            (IsLog-snoc R rs (touch d) line r is_log hline),
        IsChain-snoc R C public 0 zero_hash_hex receipt.entry_hash rs r chain seq named
            (signature_valid-Appended log call before r receipt key public a opened is_public)
            a.receipt_hash,
      )

  -- The files that writers with one private key make of a missing file, and the records they have had
  -- receipts for. Each step is one critical section; the writers may be any number of objects, threads
  -- and processes, and a failed call counts too.
  pub data Written (key : Bytes) : Disk → List (SignedRecord R.Float) → Type 0 where
    missing : Written key none []
    opened :
        (server_id : Text) (k : Option Bytes) (d : Disk) (rs : List (SignedRecord R.Float))
        → Written key d rs
        → Written key (open_log server_id k d).1 rs
    appended :
        (log : AttestationLog) (call : Call R.Float) (d d' : Disk)
        (rs : List (SignedRecord R.Float)) (r : SignedRecord R.Float) (receipt : Receipt)
        → Written key d rs
        → log.private_key ≡ some key
        → append R C log call d ≡ (ok (r, receipt), d')
        → Written key d' (rs ++ (r ∷ []))
    failed_append :
        (log : AttestationLog) (call : Call R.Float) (d d' : Disk)
        (rs : List (SignedRecord R.Float)) (e : ErrorClass)
        → Written key d rs
        → append R C log call d ≡ (raised e, d')
        → Written key d' rs

  touch-raised : (d d' : Disk) → (d' ≡ d) ⊎ (d' ≡ some (touch d)) → touch d ≡ touch d'
  touch-raised d d' (inl e) = ap touch (sym e)
  touch-raised d d' (inr e) = ap touch (sym e)

  pub Written-IsChain :
      (key public : Bytes) (d : Disk) (rs : List (SignedRecord R.Float))
      → Written key d rs
      → public_key_from_private C key ≡ ok public
      → IsLog R rs (touch d) × IsChain R C public 0 zero_hash_hex rs
  unfolding open_log
  Written-IsChain key public _ _ missing p = (refl, tt)
  Written-IsChain key public _ _ (opened server_id k d rs w) p = Written-IsChain key public d rs w p
  Written-IsChain key public _ _ (appended log call d d' rs r receipt w o h) p =
      let (is_log, chain) = Written-IsChain key public d rs w p in
      append-IsChain log call d d' rs r receipt key public is_log chain o p h
  Written-IsChain key public _ _ (failed_append log call d d' rs e w h) p =
      let (is_log, chain) = Written-IsChain key public d rs w p in
      (subst (IsLog R rs) (touch-raised d d' (append-raised R C log call d d' e h)) is_log, chain)

  -- The record of an append has the number of records before it as its own number.
  pub append-seq :
      (log : AttestationLog) (call : Call R.Float) (d d' : Disk) (rs : List (SignedRecord R.Float))
      (r : SignedRecord R.Float) (receipt : Receipt) (key public : Bytes)
      → Written key d rs
      → public_key_from_private C key ≡ ok public
      → append R C log call d ≡ (ok (r, receipt), d')
      → r.entry.seq ≡ pos (length rs)
  append-seq log call d d' rs r receipt key public w is_public h =
      let (is_log, chain) = Written-IsChain key public d rs w is_public in
      let (before, _, scanned, a, _, _) = append-Appended R C log call d d' r receipt h in
      let found : before ≡ last R none rs =
        ok-injective (sym scanned ∙ scan_last_record-IsLog R L rs (touch d) is_log) in
      a.seq_next
      ∙ ap (next_seq R C) found
      ∙ next_seq-last R C public 0 zero_hash_hex none rs chain refl
      ∙ ap pos (omega arith)

  -- Whatever sequence of appends, failed ones among them, writers with one private key make on a file
  -- that did not exist, `verify_chain` passes under its public key, and the records of the file are
  -- those that were acknowledged, in order.
  pub verify_chain-Written :
      (key public : Bytes) (d : Disk) (rs : List (SignedRecord R.Float))
      → Written key d rs
      → public_key_from_private C key ≡ ok public
      → (iter_records R d ≡ ok rs) × (verify_chain R C public d ≡ ok (passed (length rs)))
  verify_chain-Written key public d rs w p =
      let (is_log, chain) = Written-IsChain key public d rs w p in
      let read = iter_records-lines R L d rs is_log in
      (read, (verify_chain_iff R C public d (length rs)).1 (rs, read, chain, refl))
