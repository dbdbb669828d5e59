-- ===== src/Log/Format.antt =====
-- The file of a log (log.py) as a list of records, one canonical line for each, through the text handle of
-- `_iter_lines` and the binary one of `_scan_last_record`.
pub mod Line
use mcp_attest.Base.{
  ℕ, ◌+◌, ◌≡◌, refl, sym, ap, ◌∙◌, ◌||◌, Bool, true, false, Option, none, some, List, [], ◌∷◌, ◌++◌,
  append_assoc, append-nil, arith, All, ◌==◌, if◌then◌else◌, length, get_elem?,
}
use mathlib.Core.Path.{subst}
use mcp_attest.Base.Text.{Text, Bytes}
use mcp_attest.Errors.{Result, ok, raised, ◌>>=◌}
use mcp_attest.Runtime.{Runtime, IsLawful}
use mcp_attest.Value.Convert.{strip}
use mcp_attest.Utf8
use mcp_attest.Utf8.RoundTrip.{decode_from-encode, decode-encode, behind, decode_one}
use mcp_attest.Entry.{SignedRecord, record_bytes}
use mcp_attest.Log.Reader.{
  Disk, parse_line, parse_lines, iter_lines, iter_records, last, keep_last, scan_lines,
  scan_last_record, is_blank,
}
use mcp_attest.Log.Lines.{split, extend, binary_lines, text_lines, drop_blank, strip_all}
use mcp_attest.Log.Format.Line.{line_of}

-- The parts before an end character are its line.
pub split-line :
    (ends : ℕ → Bool) (line : List ℕ) (c : ℕ) (rest : List ℕ)
    → All (λ b. ends b ≡ false) line
    → ends c ≡ true
    → split ends (line ++ (c ∷ rest)) ≡ line ∷ split ends rest
unfolding split
split-line ends [] c rest h e = rw e
split-line ends (b ∷ line) c rest (h, hs) e = rw (h, split-line ends line c rest hs e)

module _ (R : Runtime) where
  -- The file holds the canonical lines of the records, in order, each behind a line end.
  abbrev pub IsLog : List (SignedRecord R.Float) → Bytes → Type 0
  IsLog [] file = file ≡ []
  IsLog (r ∷ rs) file =
      (line : Bytes) × (rest : Bytes) × (record_bytes R r ≡ ok line)
      × IsLog rs rest
      × (file ≡ line ++ (b'\n' ∷ rest))

  -- Each line is parsed to its record.
  abbrev pub Parses : List Text → List (SignedRecord R.Float) → Type 0
  Parses [] [] = Unit
  Parses (l ∷ ls) (r ∷ rs) = (parse_line R l ≡ ok r) × Parses ls rs
  Parses _ _ = ⊥

  pub IsLog-snoc :
      (rs : List (SignedRecord R.Float)) (file line : Bytes) (r : SignedRecord R.Float)
      → IsLog rs file
      → record_bytes R r ≡ ok line
      → IsLog (rs ++ (r ∷ [])) (file ++ (line ++ (b'\n' ∷ [])))
  IsLog-snoc [] file line r e h = (line, [], h, refl, ap (λ f. f ++ (line ++ (b'\n' ∷ []))) e)
  IsLog-snoc (s ∷ rs) file line r (l, rest, hs, more, e) h = (
    l,
    rest ++ (line ++ (b'\n' ∷ [])),
    hs,
    IsLog-snoc rs rest line r more h,
    ap (λ f. f ++ (line ++ (b'\n' ∷ []))) e ∙ append_assoc l (b'\n' ∷ rest) (line ++ (b'\n' ∷ [])),
  )

  pub parse_lines-Parses :
      (ls : List Text) (rs : List (SignedRecord R.Float)) → Parses ls rs → parse_lines R ls ≡ ok rs
  unfolding parse_lines
  parse_lines-Parses [] [] p = refl
  parse_lines-Parses [] (r ∷ rs) p = elim p [ ]
  parse_lines-Parses (l ∷ ls) [] p = elim p [ ]
  parse_lines-Parses (l ∷ ls) (r ∷ rs) (h, p) = rw (h, parse_lines-Parses ls rs p)

  pub Parses-length :
      (ls : List Text) (rs : List (SignedRecord R.Float)) → Parses ls rs → length ls ≡ length rs
  Parses-length [] [] p = refl
  Parses-length [] (r ∷ rs) p = elim p [ ]
  Parses-length (l ∷ ls) [] p = elim p [ ]
  Parses-length (l ∷ ls) (r ∷ rs) (h, p) = omega (arith, Parses-length ls rs p)

-- A line that is not blank stays.
pub drop_blank-filled :
    (l : Text) (ls : List Text) → is_blank l ≡ false → drop_blank (l ∷ ls) ≡ l ∷ drop_blank ls
unfolding drop_blank
drop_blank-filled [] ls h = cc
drop_blank-filled (c ∷ l) ls h = refl

module _ (R : Runtime) (L : IsLawful R) where
  pub text_lines-line :
      (r : SignedRecord R.Float) (line : Bytes) (h : record_bytes R r ≡ ok line) (t : Text)
      → text_lines ((line_of R L r line h).text ++ (b'\n' ∷ t))
        ≡ (line_of R L r line h).text ∷ text_lines t
  unfolding text_lines
  text_lines-line r line h t =
      let l = line_of R L r line h in
      ap (λ ls. drop_blank (strip_all ls)) (split-line _ l.text b'\n' t l.one_text_line refl)
      ∙ ap (λ u. drop_blank (u ∷ strip_all (split (λ c. c == b'\n' || c == b'\r') t))) l.stripped
      ∙ drop_blank-filled l.text _ l.filled

  -- The whole file decodes, and its text splits into lines that parse.
  pub text-IsLog :
      (rs : List (SignedRecord R.Float)) (file : Bytes)
      → IsLog R rs file
      → (s : Text) × (Utf8.decode file ≡ ok s) × Parses R (text_lines s) rs
  unfolding Utf8.decode
  text-IsLog [] file e = (
    [],
    ap (Utf8.decode_from Utf8.boundary) e ∙ unfold Utf8.decode_from in refl,
    unfold text_lines in tt,
  )
  text-IsLog (r ∷ rs) file (line, rest, h, more, e) =
      let (t, decoded, parses) = text-IsLog rs rest more in
      let l = line_of R L r line h in
      (
        l.text ++ (b'\n' ∷ t),
        ap (Utf8.decode_from Utf8.boundary) e
            ∙ decode_from-encode l.text line (b'\n' ∷ rest) l.encoded
            ∙ ap (behind l.text) (decode_one b'\n' rest (omega arith))
            ∙ ap (λ d. behind l.text (Utf8.prepend b'\n' d)) decoded,
        subst (λ ls. Parses R ls (r ∷ rs)) (sym (text_lines-line r line h t)) (l.parsed, parses),
      )

  -- `_iter_lines` of the file gives lines that parse to the records.
  pub iter_lines-IsLog :
      (rs : List (SignedRecord R.Float)) (file : Bytes)
      → IsLog R rs file
      → (ls : List Text) × (iter_lines R (some file) ≡ ok ls) × Parses R ls rs
  unfolding iter_lines
  iter_lines-IsLog rs file log =
      let (s, decoded, parses) = text-IsLog rs file log in (text_lines s, rw decoded, parses)

  pub iter_records-IsLog :
      (rs : List (SignedRecord R.Float)) (file : Bytes)
      → IsLog R rs file
      → iter_records R (some file) ≡ ok rs
  unfolding iter_records
  iter_records-IsLog rs file log =
      let (ls, lines, parses) = iter_lines-IsLog rs file log in
      rw lines (parse_lines-Parses R ls rs parses)

  binary_lines-line :
      (r : SignedRecord R.Float) (line : Bytes) (h : record_bytes R r ≡ ok line) (rest : Bytes)
      → binary_lines (line ++ (b'\n' ∷ rest)) ≡ line ∷ binary_lines rest
  unfolding binary_lines
  binary_lines-line r line h rest =
      split-line _ line b'\n' rest (line_of R L r line h).one_binary_line refl

  scan_lines-line :
      (before : Option (SignedRecord R.Float)) (r : SignedRecord R.Float) (line : Bytes)
      (rest : List Bytes)
      → record_bytes R r ≡ ok line
      → scan_lines R before (line ∷ rest) ≡ scan_lines R (some r) rest
  unfolding scan_lines
  scan_lines-line before r line rest h =
      let l = line_of R L r line h in rw (l.decoded, l.stripped, l.filled, l.parsed)

  scan_lines-IsLog :
      (before : Option (SignedRecord R.Float)) (rs : List (SignedRecord R.Float)) (file : Bytes)
      → IsLog R rs file
      → scan_lines R before (binary_lines file) ≡ ok (last R before rs)
  scan_lines-IsLog before [] file e =
      ap (λ f. scan_lines R before (binary_lines f)) e
      ∙ unfold scan_lines binary_lines split in refl
  scan_lines-IsLog before (r ∷ rs) file (line, rest, h, more, e) =
      ap (λ f. scan_lines R before (binary_lines f)) e
      ∙ ap (scan_lines R before) (binary_lines-line r line h rest)
      ∙ scan_lines-line before r line (binary_lines rest) h
      ∙ scan_lines-IsLog (some r) rs rest more

  -- In a file of canonical lines the scan under the lock finds the last record, or none if there is none.
  pub scan_last_record-IsLog :
      (rs : List (SignedRecord R.Float)) (file : Bytes)
      → IsLog R rs file
      → scan_last_record R file ≡ ok (last R none rs)
  unfolding scan_last_record
  scan_last_record-IsLog rs file log = scan_lines-IsLog none rs file log
