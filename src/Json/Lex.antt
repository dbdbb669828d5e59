-- ===== src/Json/Lex.antt =====
-- The scanner: one step for each character of the text.
pub mod Strings
pub mod Digits
pub mod Phases
pub mod Numbers
use mcp_attest.Base.{
  ℕ, zero, suc, ◌+◌, ◌-◌, ◌*◌, Bool, true, false, ◌&&◌, ◌||◌, Option, none, some, List, [], ◌∷◌,
  ◌++◌, length, ltb, leb, ◌==◌, if◌then◌else◌,
}
use mcp_attest.Base.Int.{ℤ, pos, negate}
use mcp_attest.Base.Hex.{hex_value}
use mcp_attest.Base.Decimal.{is_digit, digits_value}
use mcp_attest.Base.Text.{Text, codes}
use mcp_attest.Errors.{Result, ok, raised, ◌>>=◌, or_raise, value_error, json_decode_error}
use mcp_attest.Runtime.{Runtime}
use mcp_attest.Value.{Value, null, bool, int, float}
use mcp_attest.Value.Convert.Repr.{max_digits}
use mcp_attest.Json.Token.{
  Token, lbrace, rbrace, lbrack, rbrack, comma, colon, text, scalar, Phase, sign, zero_digit, whole,
  point, fraction, mark, mark_sign, exponent, Mode, between, word, number, chars, backslash,
  unicode, Step, go, closed, ended, refused,
}

-- The phase behind one more character of a number, `inl` if the number ends before it, or an error.
pub data Advance : Type 0 where
  next : Phase → Advance
  stop : Advance
  bad : Advance

abbrev is_mark : ℕ → Bool
is_mark c = c == b'e' || c == b'E'

unfoldable pub advance : Phase → ℕ → Advance
advance sign c = if c == b'0' then next zero_digit else if is_digit c then next whole else bad
advance zero_digit c = if c == b'.' then next point else if is_mark c then next mark else stop
advance whole c =
    if is_digit c
    then next whole
    else if c == b'.'
    then next point
    else if is_mark c
    then next mark
    else stop
advance point c = if is_digit c then next fraction else bad
advance fraction c = if is_digit c then next fraction else if is_mark c then next mark else stop
advance mark c =
    if is_digit c then next exponent else if c == b'+' || c == b'-' then next mark_sign else bad
advance mark_sign c = if is_digit c then next exponent else bad
advance exponent c = if is_digit c then next exponent else stop

-- int(s) of the digits of a JSON number.
unfoldable pub digits_int : Text → Result ℕ
digits_int ds = if ltb max_digits (length ds) then raised value_error else ok (digits_value 0 ds)

unfoldable pub number_int : Text → Result ℤ
number_int [] = raised value_error
number_int (c ∷ s) =
    if c == b'-'
    then (do n ← digits_int s; ok (negate n))
    else (do n ← digits_int (c ∷ s); ok (pos n))

abbrev pub is_high : ℕ → Bool
is_high c = leb 0xd800 c && leb c 0xdbff

abbrev pub is_low : ℕ → Bool
is_low c = leb 0xdc00 c && leb c 0xdfff

-- The text with the surrogate that waited for its partner in vain.
abbrev pub flush : Option ℕ → Text → Text
flush none acc = acc
flush (some h) acc = acc ++ (h ∷ [])

unfoldable pub unescape : ℕ → Option ℕ
unescape c =
    if c == b'"'
    then some b'"'
    else if c == b'\\'
    then some b'\\'
    else if c == b'/'
    then some b'/'
    else if c == b'b'
    then some 8
    else if c == b'f'
    then some 12
    else if c == b'n'
    then some 10
    else if c == b'r'
    then some 13
    else if c == b't'
    then some 9
    else none

module _ (R : Runtime) where
  abbrev named : Text → Result (Value R.Float)
  named s = do x ← or_raise value_error (R.float_of_text s); ok (float x)

  unfoldable pub number_value : Phase → Text → Result (Token R.Float)
  unfolding number_int
  number_value zero_digit s = do n ← number_int s; ok (scalar (int n))
  number_value whole s = do n ← number_int s; ok (scalar (int n))
  number_value fraction s = do v ← named s; ok (scalar v)
  number_value exponent s = do v ← named s; ok (scalar v)
  number_value _ s = raised json_decode_error

  unfoldable pub start : ℕ → Step R.Float
  start c =
      if c == b'"'
      then go (chars none [])
      else if c == b','
      then closed (ok comma)
      else if c == b':'
      then closed (ok colon)
      else if c == b'{'
      then closed (ok lbrace)
      else if c == b'}'
      then closed (ok rbrace)
      else if c == b'['
      then closed (ok lbrack)
      else if c == b']'
      then closed (ok rbrack)
      else if c == b'n'
      then go (word (codes "ull") (ok null))
      else if c == b't'
      then go (word (codes "rue") (ok (bool true)))
      else if c == b'f'
      then go (word (codes "alse") (ok (bool false)))
      else if c == b'N'
      then go (word (codes "aN") (named (codes "nan")))
      else if c == b'I'
      then go (word (codes "nfinity") (named (codes "inf")))
      else if c == b'-'
      then go (number sign (c ∷ []))
      else if c == b'0'
      then go (number zero_digit (c ∷ []))
      else if is_digit c
      then go (number whole (c ∷ []))
      else if c == 32 || c == 9 || c == 10 || c == 13
      then go between
      else refused

  -- Behind the fourth digit of `\u`: a low surrogate joins the high one before it.
  unfoldable pub end_unicode : Option ℕ → Text → ℕ → Mode R.Float
  end_unicode none acc c = if is_high c then chars (some c) acc else chars none (acc ++ (c ∷ []))
  end_unicode (some h) acc c =
      if is_low c
      then chars none (acc ++ ((0x10000 + (h - 0xd800) * 0x400 + (c - 0xdc00)) ∷ []))
      else if is_high c
      then chars (some c) (acc ++ (h ∷ []))
      else chars none ((acc ++ (h ∷ [])) ++ (c ∷ []))

  unfoldable pub step : Mode R.Float → ℕ → Step R.Float
  step between c = start c
  step (word [] v) c = refused
  step (word (d ∷ []) v) c = if c == d then closed (do w ← v; ok (scalar w)) else refused
  step (word (d ∷ ds) v) c = if c == d then go (word ds v) else refused
  step (number p s) c = elim (advance p c) [
    | next q ↦ go (number q (s ++ (c ∷ [])))
    | stop ↦ ended (number_value p s)
    | bad ↦ elim p [
      | sign ↦ if c == b'I' then go (word (codes "nfinity") (named (codes "-inf"))) else refused
      | _ ↦ refused
    ]
  ]
  step (chars h acc) c =
      if c == b'"'
      then closed (ok (text (flush h acc)))
      else if c == b'\\'
      then go (backslash h acc)
      else if ltb c 32
      then refused
      else go (chars none (flush h acc ++ (c ∷ [])))
  step (backslash h acc) c =
      if c == b'u'
      then go (unicode h acc 0 0)
      else elim (unescape c) [ none ↦ refused | some d ↦ go (chars none (flush h acc ++ (d ∷ []))) ]
  step (unicode h acc n code) c = elim (hex_value c) [
    | none ↦ refused
    | some d ↦
        if n == 3
        then go (end_unicode h acc (code * 16 + d))
        else go (unicode h acc (n + 1) (code * 16 + d))
  ]

  -- At the end of the text only a number can end.
  unfoldable pub finish : Mode R.Float → Result (List (Token R.Float))
  finish between = ok []
  finish (number p s) = do t ← number_value p s; ok (t ∷ [])
  finish _ = raised json_decode_error

  abbrev pub push :
      Result (Token R.Float) → Result (List (Token R.Float)) → Result (List (Token R.Float))
  push t r = do u ← t; us ← r; ok (u ∷ us)

  unfoldable pub lex : Mode R.Float → Text → Result (List (Token R.Float))
  unfolding finish
  lex m [] = finish m
  lex m (c ∷ s) = elim (step m c) [
    | go n ↦ lex n s
    | closed t ↦ push t (lex between s)
    | ended t ↦ push t (elim (start c) [
      | go n ↦ lex n s
      | closed u ↦ push u (lex between s)
      | _ ↦ raised json_decode_error
    ])
    | refused ↦ raised json_decode_error
  ]
