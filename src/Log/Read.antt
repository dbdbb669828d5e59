-- ===== src/Log/Read.antt =====
-- log.py: `read_record` and `chain_length` on a file of canonical lines.
use mcp_attest.Base.{
  ℕ, zero, suc, ◌≡◌, refl, ap, ◌∙◌, some, none, List, [], ◌∷◌, arith, length, length-append,
  Option-cases, inl, inr, get_elem?,
}
use mcp_attest.Base.Int.{pos}
use mcp_attest.Base.Text.{Text}
use mcp_attest.Errors.{ok, or_raise, index_error}
use mcp_attest.Runtime.{Runtime, IsLawful}
use mcp_attest.Entry.{SignedRecord}
use mcp_attest.Log.Reader.{
  Disk, touch, iter_lines, parse_line, iter_records, chain_length, read_record,
}
use mcp_attest.Log.Format.{IsLog, Parses, Parses-length, parse_lines-Parses, iter_lines-IsLog}

module _ (R : Runtime) where
  Parses-get :
      (ls : List Text) (rs : List (SignedRecord R.Float)) (n : ℕ) (r : SignedRecord R.Float)
      → Parses R ls rs
      → get_elem? rs n ≡ some r
      → (l : Text) × (get_elem? ls n ≡ some l) × (parse_line R l ≡ ok r)
  Parses-get [] [] n r p h = cc h
  Parses-get [] (q ∷ rs) n r p h = elim p [ ]
  Parses-get (l ∷ ls) [] n r p h = elim p [ ]
  Parses-get (l ∷ ls) (q ∷ rs) zero r (k, p) h = (l, refl, k ∙ cc h)
  Parses-get (l ∷ ls) (q ∷ rs) (suc n) r (k, p) h = Parses-get ls rs n r p h

  Parses-get_none :
      (ls : List Text) (rs : List (SignedRecord R.Float)) (n : ℕ)
      → Parses R ls rs
      → get_elem? rs n ≡ none
      → get_elem? ls n ≡ none
  Parses-get_none [] rs n p h = refl
  Parses-get_none (l ∷ ls) [] n p h = elim p [ ]
  Parses-get_none (l ∷ ls) (q ∷ rs) zero (k, p) h = cc h
  Parses-get_none (l ∷ ls) (q ∷ rs) (suc n) (k, p) h = Parses-get_none ls rs n p h

module _ (R : Runtime) (L : IsLawful R) where
  -- The lines of the file, which may still be missing.
  pub lines-IsLog :
      (d : Disk) (rs : List (SignedRecord R.Float))
      → IsLog R rs (touch d)
      → (ls : List Text) × (iter_lines R d ≡ ok ls) × Parses R ls rs
  lines-IsLog (some bs) rs h = iter_lines-IsLog R L rs bs h
  lines-IsLog none [] h = ([], unfold iter_lines in refl, tt)
  lines-IsLog none (r ∷ rs) (line, rest, _, _, e) =
      absurd (omega (arith, ap length e, length-append line (b'\n' ∷ rest)))

  -- `list(iter_records())` gives the records.
  pub iter_records-lines :
      (d : Disk) (rs : List (SignedRecord R.Float))
      → IsLog R rs (touch d)
      → iter_records R d ≡ ok rs
  unfolding iter_records
  iter_records-lines d rs h =
      let (ls, lines, parses) = lines-IsLog d rs h in rw lines (parse_lines-Parses R ls rs parses)

  -- On a file of canonical lines `len(log)` is the number of records, and `read_record(seq)` is the record at
  -- that index, or an IndexError from the length on.
  pub read_record-IsLog :
      (d : Disk) (rs : List (SignedRecord R.Float)) (n : ℕ)
      → IsLog R rs (touch d)
      → (chain_length R d ≡ ok (length rs))
        × (read_record R (pos n) d ≡ or_raise index_error (get_elem? rs n))
  unfolding chain_length read_record
  read_record-IsLog d rs n h =
      let (ls, lines, parses) = lines-IsLog d rs h in
      (
        rw lines (ap ok (Parses-length R ls rs parses)),
        rw lines (elim (Option-cases (get_elem? rs n)) [
          | inl missing ↦ rw (missing, Parses-get_none R ls rs n parses missing)
          | inr (r, found) ↦
              let (l, at, parsed) = Parses-get R ls rs n r parses found in rw (found, at, parsed)
        ]),
      )
