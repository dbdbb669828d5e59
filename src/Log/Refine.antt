-- ===== src/Log/Refine.antt =====
-- log.py: a log file against the list of records that it stands for.
use mcp_attest.Base.{
  ◌≡◌, refl, sym, ap, ◌∙◌, ◌⊎◌, inl, inr, none, some, List, [], ◌∷◌, ◌++◌, length, get_elem?,
}
use mathlib.Core.Path.{subst}
use mcp_attest.Base.Int.{ℤ, pos, negsuc}
use mcp_attest.Errors.{Result, ok, raised, or_raise, value_error, index_error}
use mcp_attest.Errors.Laws.{ok-injective}
use mcp_attest.Runtime.{Runtime, IsLawful}
use mcp_attest.Crypto.{Primitives}
use mcp_attest.Entry.{SignedRecord, Receipt}
use mcp_attest.Log.Reader.{
  Disk, AttestationLog, touch, iter_records, chain_length, last, last_record, scan_last_record,
  read_record,
}
use mcp_attest.Log.Writer.{Call, append, head_hash, head_hash_of, next_seq}
use mcp_attest.Log.Append.{append-Appended}
use mcp_attest.Log.Failure.{append-raised}
use mcp_attest.Log.Format.{IsLog, IsLog-snoc, scan_last_record-IsLog}
use mcp_attest.Log.Read.{iter_records-lines, read_record-IsLog}

module _ {A : Type 0} where
  -- A list read at an index of Python's.
  abbrev pub record_at : ℤ → List A → Result A
  record_at (negsuc n) rs = raised value_error
  record_at (pos n) rs = or_raise index_error (get_elem? rs n)

module _ (R : Runtime) (L : IsLawful R) (C : Primitives) where
  read_record-at :
      (d : Disk) (rs : List (SignedRecord R.Float)) (z : ℤ)
      → IsLog R rs (touch d)
      → read_record R z d ≡ record_at z rs
  read_record-at d rs (pos n) h = (read_record-IsLog R L d rs n h).1
  read_record-at d rs (negsuc n) h = unfold read_record in refl

  -- A file of canonical lines is read as the list of its records: by `iter_records`, by `len`, by the last
  -- record that readers find and the one that the writer's scan finds, by `head_hash`, and by
  -- `read_record`, which raises a ValueError at a negative index and an IndexError from the length on.
  pub reads-IsLog :
      (d : Disk) (rs : List (SignedRecord R.Float)) (z : ℤ)
      → IsLog R rs (touch d)
      → (iter_records R d ≡ ok rs)
        × (chain_length R d ≡ ok (length rs))
        × (last_record R d ≡ ok (last R none rs))
        × (scan_last_record R (touch d) ≡ ok (last R none rs))
        × (head_hash R C d ≡ head_hash_of R C (last R none rs))
        × (read_record R z d ≡ record_at z rs)
  unfolding last_record head_hash
  reads-IsLog d rs z h =
      let reads = iter_records-lines R L d rs h in
      (
        reads,
        (read_record-IsLog R L d rs 0 h).0,
        rw reads refl,
        scan_last_record-IsLog R L rs (touch d) h,
        rw reads refl,
        read_record-at d rs z h,
      )

  -- The list behind a call of `append`: one record longer if it returned, and the same if it raised.
  abbrev pub Behind :
      List (SignedRecord R.Float) → Disk → Result (SignedRecord R.Float × Receipt) → Type 0
  Behind rs d (raised e) = IsLog R rs (touch d)
  Behind rs d (ok (r, receipt)) =
      IsLog R (rs ++ (r ∷ [])) (touch d)
      × (r.entry.seq ≡ next_seq R C (last R none rs))
      × (head_hash_of R C (last R none rs) ≡ ok r.entry.prev_hash)

  -- `append` implements the adding of a record to the end of the list. On a file of canonical lines, of
  -- whatever records, it leaves such a file: if it returns, with the record that it returns behind the
  -- others, numbered after the last of them and naming its hash; if it raises, with the same records.
  pub append-Behind :
      (log : AttestationLog) (call : Call R.Float) (d d' : Disk) (rs : List (SignedRecord R.Float))
      (outcome : Result (SignedRecord R.Float × Receipt))
      → IsLog R rs (touch d)
      → append R C log call d ≡ (outcome, d')
      → Behind rs d' outcome
  append-Behind log call d d' rs (raised e) h k = by_file (append-raised R C log call d d' e k)
    where
      by_file : (d' ≡ d) ⊎ (d' ≡ some (touch d)) → IsLog R rs (touch d')
      by_file (inl same) = subst (IsLog R rs) (ap touch (sym same)) h
      by_file (inr same) = subst (IsLog R rs) (ap touch (sym same)) h
  append-Behind log call d d' rs (ok (r, receipt)) h k =
      let (before, line, scanned, a, written, file) =
        append-Appended R C log call d d' r receipt k in
      let found : before ≡ last R none rs =
        ok-injective (sym scanned ∙ scan_last_record-IsLog R L rs (touch d) h) in
      (
        subst (IsLog R (rs ++ (r ∷ []))) (sym (ap touch file))
            (IsLog-snoc R rs (touch d) line r h written),
        a.seq_next ∙ ap (next_seq R C) found,
        ap (head_hash_of R C) (sym found) ∙ a.prev_named,
      )
