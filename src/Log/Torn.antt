-- ===== src/Log/Torn.antt =====
-- A file whose last line has lost its line end, as a crash may leave it, under `append`.
use mcp_attest.Base.{
  ◌≡◌, refl, sym, ap, ◌∙◌, some, List, [], ◌∷◌, ◌++◌, append_assoc, arith, All-append,
}
use mcp_attest.Base.Text.{Text, Bytes}
use mcp_attest.Errors.{ErrorClass, ok, raised, json_decode_error}
use mcp_attest.Runtime.{Runtime, IsLawful}
use mcp_attest.Crypto.{Primitives}
use mcp_attest.Value.Convert.{strip}
use mcp_attest.Json
use mcp_attest.Json.RoundTrip.{loads-glued}
use mcp_attest.Utf8
use mcp_attest.Utf8.RoundTrip.{decode_from-encode, behind, decode_one}
use mcp_attest.Entry.{SignedRecord, Receipt, record_bytes, record_to_dict}
use mcp_attest.Entry.RoundTrip.{record_to_dict-Distinct}
use mcp_attest.Log.Lines.{text_lines, split, drop_blank, strip_all}
use mcp_attest.Log.Reader.{
  Disk, AttestationLog, iter_records, iter_lines, parse_line, parse_lines, is_blank,
}
use mcp_attest.Log.Writer.{Call, append}
use mcp_attest.Log.Append.{append-Appended}
use mcp_attest.Log.Format.{IsLog, Parses, split-line, drop_blank-filled, text_lines-line}
use mcp_attest.Log.Format.Line.{IsLine, line_of, strip-braces}

module _ (R : Runtime) where
  parse_lines-bad :
      (ls : List Text) (rs : List (SignedRecord R.Float)) (bad : Text) (e : ErrorClass)
      → Parses R ls rs
      → parse_line R bad ≡ raised e
      → parse_lines R (ls ++ (bad ∷ [])) ≡ raised e
  unfolding parse_lines
  parse_lines-bad [] [] bad e p h = rw h refl
  parse_lines-bad [] (r ∷ rs) bad e p h = elim p [ ]
  parse_lines-bad (l ∷ ls) [] bad e p h = elim p [ ]
  parse_lines-bad (l ∷ ls) (r ∷ rs) bad e (k, p) h = rw (k, parse_lines-bad ls rs bad e p h) refl

module _ (R : Runtime) (L : IsLawful R) where
  parse_line-glued :
      (r q : SignedRecord R.Float) (s t : Text)
      → Json.dumps R (record_to_dict r) ≡ ok s
      → Json.dumps R (record_to_dict q) ≡ ok t
      → parse_line R (s ++ t) ≡ raised json_decode_error
  unfolding parse_line record_to_dict
  parse_line-glued r q s t h k = rw (loads-glued R L _ _ s t (record_to_dict-Distinct r) h k) refl

  -- The glued line stands alone in the text: it begins and ends with a brace.
  text_lines-glued :
      (r q : SignedRecord R.Float) (line line' : Bytes) (a : IsLine R r line) (b : IsLine R q line')
      → text_lines ((a.text ++ b.text) ++ (b'\n' ∷ [])) ≡ (a.text ++ b.text) ∷ []
  unfolding text_lines drop_blank split
  text_lines-glued r q line line' a b =
      let both = a.text ++ b.text in
      let inside = a.inside ++ (b'}' ∷ (b'{' ∷ b.inside)) in
      let braced : both ≡ (b'{' ∷ inside) ++ (b'}' ∷ []) =
        ap (λ x. x ++ b.text) a.braces
        ∙ ap (λ x. ((b'{' ∷ a.inside) ++ (b'}' ∷ [])) ++ x) b.braces
        ∙ simp append_assoc in
      let stripped : strip both ≡ both = ap strip braced ∙ strip-braces inside ∙ sym braced in
      ap (λ ls. drop_blank (strip_all ls))
        (split-line _ both b'\n' [] (All-append _ a.text b.text a.one_text_line b.one_text_line)
          refl)
      ∙ ap (λ u. drop_blank (u ∷ [])) stripped
      ∙ drop_blank-filled both [] (ap is_blank braced)

  glued_text :
      (rs : List (SignedRecord R.Float)) (file : Bytes) (r q : SignedRecord R.Float)
      (line line' : Bytes) (a : IsLine R r line) (b : IsLine R q line')
      → IsLog R rs file
      → (s : Text) × (ls : List Text) × (Utf8.decode (file ++ (line ++ (line' ++ (b'\n' ∷ []))))
          ≡ ok s)
        × (text_lines s ≡ ls ++ ((a.text ++ b.text) ∷ []))
        × Parses R ls rs
  unfolding Utf8.decode
  glued_text [] file r q line line' a b e =
      let end = decode_one b'\n' [] (omega arith) ∙ unfold Utf8.decode_from in refl in
      (
        a.text ++ (b.text ++ (b'\n' ∷ [])),
        [],
        ap (λ f. Utf8.decode_from Utf8.boundary (f ++ (line ++ (line' ++ (b'\n' ∷ []))))) e
            ∙ decode_from-encode a.text line (line' ++ (b'\n' ∷ [])) a.encoded
            ∙ ap (behind a.text) (decode_from-encode b.text line' (b'\n' ∷ []) b.encoded)
            ∙ ap (λ d. behind a.text (behind b.text d)) end,
        ap text_lines (sym (append_assoc a.text b.text (b'\n' ∷ [])))
            ∙ text_lines-glued r q line line' a b,
        tt,
      )
  glued_text (p ∷ rs) file r q line line' a b (first, rest, h, more, e) =
      let tail = line ++ (line' ++ (b'\n' ∷ [])) in
      let (t, ls, decoded, lines, parses) = glued_text rs rest r q line line' a b more in
      let l = line_of R L p first h in
      (
        l.text ++ (b'\n' ∷ t),
        l.text ∷ ls,
        ap (λ f. Utf8.decode_from Utf8.boundary (f ++ tail)) e
            ∙ ap (Utf8.decode_from Utf8.boundary) (append_assoc first (b'\n' ∷ rest) tail)
            ∙ decode_from-encode l.text first (b'\n' ∷ (rest ++ tail)) l.encoded
            ∙ ap (behind l.text) (decode_one b'\n' (rest ++ tail) (omega arith))
            ∙ ap (λ d. behind l.text (Utf8.prepend b'\n' d)) decoded,
        text_lines-line R L p first h t ∙ ap (λ x. l.text ∷ x) lines,
        (l.parsed, parses),
      )

  iter_records-glued :
      (rs : List (SignedRecord R.Float)) (file : Bytes) (r q : SignedRecord R.Float)
      (line line' : Bytes)
      → IsLog R rs file
      → record_bytes R r ≡ ok line
      → record_bytes R q ≡ ok line'
      → iter_records R (some (file ++ (line ++ (line' ++ (b'\n' ∷ []))))) ≡ raised json_decode_error
  unfolding iter_records iter_lines
  iter_records-glued rs file r q line line' log h k =
      let a = line_of R L r line h in
      let b = line_of R L q line' k in
      let (s, ls, decoded, lines, parses) = glued_text rs file r q line line' a b log in
      rw (decoded, lines)
        (parse_lines-bad R ls rs (a.text ++ b.text) json_decode_error parses
          (parse_line-glued r q a.text b.text a.dumped b.dumped))

  -- A record is lost: if the last line of a file of canonical lines is whole but has no line end, then an
  -- `append` that returns a record and a receipt leaves a file that cannot be read any more; `iter_records`
  -- raises JSONDecodeError.
  pub torn_line-append :
      (C : Primitives) (log : AttestationLog) (call : Call R.Float)
      (rs : List (SignedRecord R.Float)) (file line : Bytes) (r q : SignedRecord R.Float)
      (receipt : Receipt) (d : Disk)
      → IsLog R rs file
      → record_bytes R r ≡ ok line
      → append R C log call (some (file ++ line)) ≡ (ok (q, receipt), d)
      → iter_records R d ≡ raised json_decode_error
  torn_line-append C log call rs file line r q receipt d is_log h appended =
      let (_, line', _, _, k, written) =
        append-Appended R C log call (some (file ++ line)) d q receipt appended in
      ap (iter_records R) (written ∙ ap some (append_assoc file line (line' ++ (b'\n' ∷ []))))
      ∙ iter_records-glued rs file r q line line' is_log h k
