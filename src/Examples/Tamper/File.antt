-- ===== src/Examples/Tamper/File.antt =====
-- scripts/tamper_attack.py: the edit of a record in a log of canonical lines.
use mcp_attest.Base.{
  ◌<◌, ◌≡◌, refl, ap, ◌∙◌, false, some, List, [], ◌∷◌, ◌++◌, append_assoc, arith, All, All-append,
  length, get_elem?, ◌==◌,
}
use mcp_attest.Base.Text.{Text, Bytes}
use mcp_attest.Errors.{Result, ok, ◌>>=◌}
use mcp_attest.Runtime.{Runtime, IsLawful}
use mcp_attest.Json.Plain.{IsPlain}
use mcp_attest.Utf8
use mcp_attest.Utf8.RoundTrip.{decode-encode}
use mcp_attest.Entry.{SignedRecord, record_bytes}
use mcp_attest.Log.Lines.{split}
use mcp_attest.Log.Format.{IsLog, split-line}
use mcp_attest.Cli.{newlines}
use mcp_attest.Examples.Files.{ends_line, read_lines, join_lines, written_lines, replace_at}
use mcp_attest.Examples.Tamper.{replace_result_hash}
use mcp_attest.Examples.Tamper.Line.{
  HasAsciiTexts, with_result_hash, utf8-plain, plain-below, line_texts, edit_line-canonical,
}

-- The lines, each with a line end.
abbrev flat : List Text → Text
flat [] = []
flat (l ∷ ls) = l ++ (b'\n' ∷ flat ls)

abbrev ArePlain : List Text → Type 0
ArePlain ls = All (All IsPlain) ls

join-flat : (l : Text) (ls : List Text) → join_lines (l ∷ ls) ++ (b'\n' ∷ []) ≡ flat (l ∷ ls)
join-flat l [] = refl
join-flat l (m ∷ ls) =
    append_assoc l (b'\n' ∷ join_lines (m ∷ ls)) (b'\n' ∷ [])
    ∙ ap (λ t. l ++ (b'\n' ∷ t)) (join-flat m ls)

flat-below : (ls : List Text) → ArePlain ls → All (λ c. c < 128) (flat ls)
flat-below [] h = tt
flat-below (l ∷ ls) (h, hs) =
    All-append _ l (b'\n' ∷ flat ls) (plain-below l h) (ground arith, flat-below ls hs)

newlines-below : (s : Text) → All (λ c. (c == b'\r') ≡ false) s → newlines false s ≡ s
unfolding newlines
newlines-below [] h = refl
newlines-below (c ∷ s) (h, hs) = ground (arith, newlines-below s hs)

plain-no_return : (s : Text) → All IsPlain s → All (λ c. (c == b'\r') ≡ false) s
plain-no_return [] h = tt
plain-no_return (c ∷ s) (h, hs) = (ground arith, plain-no_return s hs)

plain-no_end : (s : Text) → All IsPlain s → All (λ c. ends_line c ≡ false) s
unfolding ends_line
plain-no_end [] h = tt
plain-no_end (c ∷ s) (h, hs) = (ground arith, plain-no_end s hs)

flat-no_return : (ls : List Text) → ArePlain ls → All (λ c. (c == b'\r') ≡ false) (flat ls)
flat-no_return [] h = tt
flat-no_return (l ∷ ls) (h, hs) =
    All-append _ l (b'\n' ∷ flat ls) (plain-no_return l h) (ground arith, flat-no_return ls hs)

split-flat : (ls : List Text) → ArePlain ls → split ends_line (flat ls) ≡ ls
split-flat [] h = unfold split in refl
split-flat (l ∷ ls) (h, hs) =
    split-line ends_line l b'\n' (flat ls) (plain-no_end l h) (unfold ends_line in refl)
    ∙ ap (λ ms. l ∷ ms) (split-flat ls hs)

-- Plain lines are read as they were written.
read_lines-flat : (ls : List Text) → ArePlain ls → read_lines (flat ls) ≡ ok ls
unfolding read_lines
read_lines-flat ls h =
    ap (λ (m : Result Text). do s ← m; ok (split ends_line (newlines false s)))
      (decode-encode (flat ls) (flat ls) (utf8-plain (flat ls) (flat-below ls h)))
    ∙ ap (λ s. ok (split ends_line s)) (newlines-below (flat ls) (flat-no_return ls h))
    ∙ ap ok (split-flat ls h)

written_lines-flat :
    (l : Text) (ls : List Text) → ArePlain (l ∷ ls) → written_lines (l ∷ ls) ≡ ok (flat (l ∷ ls))
unfolding written_lines
written_lines-flat l ls h =
    ap Utf8.encode (join-flat l ls) ∙ utf8-plain (flat (l ∷ ls)) (flat-below (l ∷ ls) h)

module _ (R : Runtime) where
  -- The lines are the canonical ones of the records, and plain.
  abbrev Lines : List Text → List (SignedRecord R.Float) → Type 0
  Lines [] [] = Unit
  Lines (l ∷ ls) (r ∷ rs) = (record_bytes R r ≡ ok l) × (All IsPlain l × Lines ls rs)
  Lines _ _ = ⊥

  abbrev pub AllAscii : List (SignedRecord R.Float) → Type 0
  AllAscii rs = All (HasAsciiTexts R) rs

  Lines-ArePlain : (ls : List Text) (rs : List (SignedRecord R.Float)) → Lines ls rs → ArePlain ls
  Lines-ArePlain [] rs h = tt
  Lines-ArePlain (l ∷ ls) [] h = elim h [ ]
  Lines-ArePlain (l ∷ ls) (r ∷ rs) (_, (p, h)) = (p, Lines-ArePlain ls rs h)

  Lines-IsLog :
      (ls : List Text) (rs : List (SignedRecord R.Float)) → Lines ls rs → IsLog R rs (flat ls)
  Lines-IsLog [] [] h = refl
  Lines-IsLog [] (r ∷ rs) h = elim h [ ]
  Lines-IsLog (l ∷ ls) [] h = elim h [ ]
  Lines-IsLog (l ∷ ls) (r ∷ rs) (k, (_, h)) = (l, flat ls, k, Lines-IsLog ls rs h, refl)

  All-middle :
      (rs rest : List (SignedRecord R.Float)) (r : SignedRecord R.Float)
      → AllAscii (rs ++ (r ∷ rest))
      → HasAsciiTexts R r
  All-middle [] rest r (h, _) = h
  All-middle (q ∷ rs) rest r (_, h) = All-middle rs rest r h

  -- The line at the place of a record, and the lines with another in its place.
  Lines-at :
      (ls : List Text) (rs rest : List (SignedRecord R.Float)) (r r' : SignedRecord R.Float)
      (line' : Text)
      → Lines ls (rs ++ (r ∷ rest))
      → record_bytes R r' ≡ ok line'
      → All IsPlain line'
      → (line : Text) × (get_elem? ls (length rs) ≡ some line)
        × (record_bytes R r ≡ ok line)
        × Lines (replace_at (length rs) line' ls) (rs ++ (r' ∷ rest))
  Lines-at [] [] rest r r' line' h k p = elim h [ ]
  Lines-at [] (q ∷ rs) rest r r' line' h k p = elim h [ ]
  Lines-at (l ∷ ls) [] rest r r' line' (hl, (_, h)) k p = (l, refl, hl, (k, (p, h)))
  Lines-at (l ∷ ls) (q ∷ rs) rest r r' line' (hl, (pl, h)) k p =
      let (line, at, hline, more) = Lines-at ls rs rest r r' line' h k p in
      (line, at, hline, (hl, (pl, more)))

module _ (R : Runtime) (L : IsLawful R) where
  IsLog-Lines :
      (rs : List (SignedRecord R.Float)) (file : Bytes)
      → IsLog R rs file
      → AllAscii R rs
      → (ls : List Text) × Lines R ls rs × (file ≡ flat ls)
  IsLog-Lines [] file log h = ([], tt, log)
  IsLog-Lines (r ∷ rs) file (line, rest, k, more, e) (hr, h) =
      let (ls, lines, same) = IsLog-Lines rs rest more h in
      let (_, _, plain) = line_texts R L r line hr k in
      (line ∷ ls, (k, (plain, lines)), e ∙ ap (λ t. line ++ (b'\n' ∷ t)) same)

  written_back :
      (ls : List Text) (rs : List (SignedRecord R.Float)) (r : SignedRecord R.Float)
      (rest : List (SignedRecord R.Float))
      → Lines R ls (rs ++ (r ∷ rest))
      → written_lines ls ≡ ok (flat ls)
  written_back [] [] r rest h = elim h [ ]
  written_back [] (q ∷ rs) r rest h = elim h [ ]
  written_back (l ∷ ls) rs r rest h =
      written_lines-flat l ls (Lines-ArePlain R (l ∷ ls) (rs ++ (r ∷ rest)) h)

  -- The attack does what it means to. In a log of canonical lines whose texts are printable ASCII it
  -- leaves a log of canonical lines with the same records, but that the record at the index has the other
  -- result hash, if that record has canonical bytes.
  pub replace_result_hash-IsLog :
      (rs rest : List (SignedRecord R.Float)) (r : SignedRecord R.Float) (hash : Text)
      (file line' : Bytes)
      → IsLog R (rs ++ (r ∷ rest)) file
      → AllAscii R (rs ++ (r ∷ rest))
      → HasAsciiTexts R (with_result_hash hash r)
      → record_bytes R (with_result_hash hash r) ≡ ok line'
      → (file' : Bytes) × (replace_result_hash R (length rs) hash file ≡ ok file')
        × IsLog R (rs ++ (with_result_hash hash r ∷ rest)) file'
  unfolding replace_result_hash
  replace_result_hash-IsLog rs rest r hash file line' log ascii h' k' =
      let h = All-middle R rs rest r ascii in
      let r' = with_result_hash hash r in
      let (ls, lines, same) = IsLog-Lines (rs ++ (r ∷ rest)) file log ascii in
      let (_, _, plain') = line_texts R L r' line' h' k' in
      let (line, at, k, lines') = Lines-at R ls rs rest r r' line' lines k' plain' in
      let ls' = replace_at (length rs) line' ls in
      let read =
        ap read_lines same ∙ read_lines-flat ls (Lines-ArePlain R ls (rs ++ (r ∷ rest)) lines) in
      let edited = edit_line-canonical R L hash r line line' h h' k k' in
      (
        flat ls',
        rw (read, at, edited) (written_back ls' rs r' rest lines'),
        Lines-IsLog R ls' (rs ++ (r' ∷ rest)) lines',
      )
