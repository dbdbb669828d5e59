-- ===== src/Json/Lex/Strings.antt =====
-- The scanner reads an encoded string back.
use mcp_attest.Base.{
  ℕ, ◌+◌, ◌*◌, ◌/◌, ◌%◌, ◌<◌, ◌≡◌, refl, sym, ap, ◌∙◌, false, none, some, [], ◌∷◌, ◌++◌,
  append_assoc, append-nil, arith, ltb, ◌==◌,
}
use mcp_attest.Base.Hex.{hex_digit, hex_value, hex_value-hex_digit}
use mcp_attest.Base.Text.{Text}
use mcp_attest.Errors.{Result, ok}
use mcp_attest.Runtime.{Runtime}
use mcp_attest.Json.Encode.{escape_char, escape, quoted}
use mcp_attest.Json.Token.{Token, text, between, chars, backslash, unicode, Mode, go, closed}
use mcp_attest.Json.Lex.{push, step, start, lex, unescape, end_unicode}

module _ (R : Runtime) where
  pub lex-go :
      (m n : Mode R.Float) (c : ℕ) (s : Text) → step R m c ≡ go n → lex R m (c ∷ s) ≡ lex R n s
  unfolding lex
  lex-go m n c s h = ground arith

  pub lex-closed :
      (m : Mode R.Float) (t : Result (Token R.Float)) (c : ℕ) (s : Text)
      → step R m c ≡ closed t
      → lex R m (c ∷ s) ≡ push R t (lex R between s)
  unfolding lex
  lex-closed m t c s h = ground arith

  -- An escape of one letter.
  lex-short :
      (acc : Text) (c d : ℕ) (s : Text)
      → (c == b'u') ≡ false
      → unescape c ≡ some d
      → lex R (chars none acc) (b'\\' ∷ c ∷ s) ≡ lex R (chars none (acc ++ (d ∷ []))) s
  unfolding step
  lex-short acc c d s h k =
      lex-go (chars none acc) (backslash none acc) b'\\' (c ∷ s) refl
      ∙ lex-go (backslash none acc) (chars none (acc ++ (d ∷ []))) c s (ground arith)

  unicode_digit :
      (acc : Text) (n code c d : ℕ) (s : Text)
      → hex_value c ≡ some d
      → (n == 3) ≡ false
      → lex R (unicode none acc n code) (c ∷ s) ≡ lex R (unicode none acc (n + 1) (code * 16 + d)) s
  unfolding step
  unicode_digit acc n code c d s h k = lex-go _ _ c s (ground arith)

  unicode_end :
      (acc : Text) (code c d : ℕ) (s : Text)
      → hex_value c ≡ some d
      → code * 16 + d < 0xd800
      → lex R (unicode none acc 3 code) (c ∷ s)
        ≡ lex R (chars none (acc ++ ((code * 16 + d) ∷ []))) s
  unfolding step end_unicode
  unicode_end acc code c d s h k = lex-go _ _ c s (ground arith)

  -- A character below the space is written as `\u00xy`.
  lex-control :
      (acc : Text) (c : ℕ) (s : Text)
      → c < 32
      → lex R
          (chars none acc)
          (b'\\' ∷ b'u' ∷ b'0' ∷ b'0' ∷ hex_digit (c / 16) ∷ hex_digit (c % 16) ∷ s)
        ≡ lex R (chars none (acc ++ (c ∷ []))) s
  unfolding step hex_value
  lex-control acc c s h =
      let rest = hex_digit (c / 16) ∷ hex_digit (c % 16) ∷ s in
      let whole : c / 16 * 16 + c % 16 ≡ c = omega arith in
      let first : 0 * 16 + c / 16 ≡ c / 16 = omega arith in
      lex-go (chars none acc) (backslash none acc) b'\\' _ refl
      ∙ lex-go (backslash none acc) (unicode none acc 0 0) b'u' _ refl
      ∙ unicode_digit acc 0 0 b'0' 0 (b'0' ∷ rest) refl refl
      ∙ unicode_digit acc 1 0 b'0' 0 rest refl refl
      ∙ unicode_digit acc 2 0 _ (c / 16) _ (hex_value-hex_digit (c / 16) (omega arith)) refl
      ∙ ap (λ k. lex R (unicode none acc 3 k) (hex_digit (c % 16) ∷ s)) first
      ∙ unicode_end acc (c / 16) _ (c % 16) s (hex_value-hex_digit (c % 16) (omega arith))
          (omega arith)
      ∙ ap (λ d. lex R (chars none (acc ++ (d ∷ []))) s) whole

  -- A character that is not escaped.
  lex-plain :
      (acc : Text) (c : ℕ) (s : Text)
      → (c == b'"') ≡ false
      → (c == b'\\') ≡ false
      → ltb c 32 ≡ false
      → lex R (chars none acc) (c ∷ s) ≡ lex R (chars none (acc ++ (c ∷ []))) s
  unfolding step
  lex-plain acc c s h k l = lex-go _ _ c s (rw (h, k, l))

  lex-escape_char :
      (acc : Text) (c : ℕ) (s : Text)
      → lex R (chars none acc) (escape_char c ++ s) ≡ lex R (chars none (acc ++ (c ∷ []))) s
  unfolding escape_char unescape
  lex-escape_char acc c s = ground (
    arith,
    lex-short acc b'"' b'"' s refl refl,
    lex-short acc b'\\' b'\\' s refl refl,
    lex-short acc b'b' 8 s refl refl,
    lex-short acc b'f' 12 s refl refl,
    lex-short acc b'n' 10 s refl refl,
    lex-short acc b'r' 13 s refl refl,
    lex-short acc b't' 9 s refl refl,
    lex-control acc c s,
    lex-plain acc c s,
  )

  lex-escape :
      (t acc rest : Text)
      → lex R (chars none acc) (escape t ++ rest)
        ≡ push R (ok (text (acc ++ t))) (lex R between rest)
  unfolding escape step
  lex-escape [] acc rest =
      lex-closed (chars none acc) (ok (text acc)) b'"' rest refl
      ∙ ap (λ u. push R (ok (text u)) (lex R between rest)) (sym (append-nil acc))
  lex-escape (c ∷ t) acc rest =
      ap (lex R (chars none acc)) (append_assoc (escape_char c) (escape t) rest)
      ∙ lex-escape_char acc c (escape t ++ rest)
      ∙ lex-escape t (acc ++ (c ∷ [])) rest
      ∙ ap (λ u. push R (ok (text u)) (lex R between rest)) (append_assoc acc (c ∷ []) t)

  -- An encoded string is one token, whatever follows.
  pub lex-quoted :
      (t rest : Text) → lex R between (quoted t ++ rest) ≡ push R (ok (text t)) (lex R between rest)
  unfolding quoted step start
  lex-quoted t rest =
      lex-go between (chars none []) b'"' (escape t ++ rest) refl ∙ lex-escape t [] rest
