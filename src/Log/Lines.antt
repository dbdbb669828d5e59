-- ===== src/Log/Lines.antt =====
-- The lines of a log file, as a binary handle and as a text handle give them.
use mcp_attest.Base.{ℕ, Bool, ◌||◌, List, [], ◌∷◌, ◌==◌, if◌then◌else◌}
use mcp_attest.Base.Text.{Text, Bytes}
use mcp_attest.Value.Convert.{strip}

-- Put `c` in front of the first part, if there is one.
abbrev pub extend : ℕ → List (List ℕ) → List (List ℕ)
extend c [] = (c ∷ []) ∷ []
extend c (l ∷ ls) = (c ∷ l) ∷ ls

-- The parts between the characters that `ends` picks, which are left out; nothing stands behind the
-- last of them if the text ends with it.
unfoldable pub split : (ℕ → Bool) → List ℕ → List (List ℕ)
split ends [] = []
split ends (c ∷ s) = let rest = split ends s in if ends c then [] ∷ rest else extend c rest

-- Iteration over a binary handle, without the line ends.
unfoldable pub binary_lines : Bytes → List Bytes
binary_lines = split (λ c. c == b'\n')

-- `if line: yield line`
unfoldable pub drop_blank : List Text → List Text
drop_blank [] = []
drop_blank ([] ∷ ls) = drop_blank ls
drop_blank ((c ∷ l) ∷ ls) = (c ∷ l) ∷ drop_blank ls

abbrev pub strip_all : List Text → List Text
strip_all [] = []
strip_all (l ∷ ls) = strip l ∷ strip_all ls

-- The loop of `_iter_lines`. A text handle ends a line at \n, \r or \r\n; as a blank line is dropped,
-- \r\n may end two.
unfoldable pub text_lines : Text → List Text
unfolding split drop_blank
text_lines s = drop_blank (strip_all (split (λ c. c == b'\n' || c == b'\r') s))
