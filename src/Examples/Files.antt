-- ===== src/Examples/Files.antt =====
-- The standard library's text files, as the scripts use them: `read_text().splitlines()`, and
-- `write_text("\n".join(lines) + "\n")`.
use mcp_attest.Base.{ℕ, zero, suc, Bool, false, ◌&&◌, ◌||◌, List, [], ◌∷◌, ◌++◌, leb, ◌==◌}
use mcp_attest.Base.Text.{Text, Bytes}
use mcp_attest.Errors.{Result, ok, ◌>>=◌}
use mcp_attest.Utf8
use mcp_attest.Log.Lines.{split}
use mcp_attest.Cli.{newlines}

-- The characters that end a line for `str.splitlines`. The text that is read holds no \r any more, which
-- with \n would be one end.
unfoldable pub ends_line : ℕ → Bool
ends_line c =
    (leb 10 c && leb c 13) || (leb 28 c && leb c 30) || c == 0x85 || c == 0x2028 || c == 0x2029

unfoldable pub read_lines : Bytes → Result (List Text)
unfolding split ends_line newlines
read_lines bs = do s ← Utf8.decode bs; ok (split ends_line (newlines false s))

-- "\n".join(lines)
abbrev pub join_lines : List Text → Text
join_lines [] = []
join_lines (l ∷ []) = l
join_lines (l ∷ (m ∷ ls)) = l ++ (b'\n' ∷ join_lines (m ∷ ls))

unfoldable pub written_lines : List Text → Result Bytes
written_lines ls = Utf8.encode (join_lines ls ++ (b'\n' ∷ []))

-- `lines[n] = line`, for an index that is there
abbrev pub replace_at : ℕ → Text → List Text → List Text
replace_at n line [] = []
replace_at zero line (l ∷ ls) = line ∷ ls
replace_at (suc n) line (l ∷ ls) = l ∷ replace_at n line ls
