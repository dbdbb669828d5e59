-- ===== src/Utf8.antt =====
-- The strict UTF-8 codec of `str.encode` and `bytes.decode`.
pub mod RoundTrip
pub mod Visible
use mcp_attest.Base.{
  ℕ, zero, suc, ◌+◌, ◌-◌, ◌*◌, ◌/◌, ◌%◌, Bool, true, false, ◌&&◌, ◌||◌, not, Option, none, some,
  List, [], ◌∷◌, ◌++◌, ltb, leb, ◌==◌, if◌then◌else◌,
}
use mcp_attest.Base.Text.{Text, Bytes}
use mcp_attest.Errors.{Result, ok, raised, ◌>>=◌, unicode_error}

abbrev pub is_surrogate : ℕ → Bool
is_surrogate c = leb 0xd800 c && leb c 0xdfff

unfoldable pub encode_char : ℕ → Result Bytes
encode_char c =
    if ltb c 0x80
    then ok (c ∷ [])
    else if ltb c 0x800
    then ok ((0xc0 + c / 0x40) ∷ (0x80 + c % 0x40) ∷ [])
    else if is_surrogate c
    then raised unicode_error
    else if ltb c 0x10000
    then ok ((0xe0 + c / 0x1000) ∷ (0x80 + c / 0x40 % 0x40) ∷ (0x80 + c % 0x40) ∷ [])
    else if ltb c 0x110000
    then ok (
        (0xf0 + c / 0x40000)
        ∷ (0x80 + c / 0x1000 % 0x40)
        ∷ (0x80 + c / 0x40 % 0x40)
        ∷ (0x80 + c % 0x40)
        ∷ [])
    else raised unicode_error

-- s.encode("utf-8"): a lone surrogate has no encoding.
unfoldable pub encode : Text → Result Bytes
encode [] = ok []
encode (c ∷ s) = do bs ← encode_char c; rest ← encode s; ok (bs ++ rest)

-- What a first byte announces: the continuation bytes to come, the bits that it holds, and the least
-- code point that needs this length.
pub data Lead : Type 0 where
  invalid : Lead
  single : Lead
  leads : ℕ → ℕ → ℕ → Lead

unfoldable pub lead : ℕ → Lead
lead b =
    if ltb b 0x80
    then single
    else if ltb b 0xc2
    then invalid
    else if ltb b 0xe0
    then leads 0 (b - 0xc0) 0x80
    else if ltb b 0xf0
    then leads 1 (b - 0xe0) 0x800
    else if ltb b 0xf5
    then leads 2 (b - 0xf0) 0x10000
    else invalid

abbrev pub continues : ℕ → Bool
continues b = leb 0x80 b && ltb b 0xc0

abbrev pub is_scalar : ℕ → ℕ → Bool
is_scalar least c = leb least c && ltb c 0x110000 && not (is_surrogate c)

-- One more character in front of the decoded rest.
abbrev pub prepend : ℕ → Result Text → Result Text
prepend c r = do s ← r; ok (c ∷ s)

-- Between two characters, or inside one: the continuation bytes behind the next, the code point so
-- far and the least one allowed.
pub data Position : Type 0 where
  boundary : Position
  inside : ℕ → ℕ → ℕ → Position

unfoldable pub decode_from : Position → Bytes → Result Text
decode_from boundary [] = ok []
decode_from (inside n c least) [] = raised unicode_error
decode_from boundary (b ∷ bs) = elim (lead b) [
  | invalid ↦ raised unicode_error
  | single ↦ prepend b (decode_from boundary bs)
  | leads n c least ↦ decode_from (inside n c least) bs
]
decode_from (inside (suc n) c least) (b ∷ bs) = elim (continues b) [
  | true ↦ decode_from (inside n (c * 0x40 + (b - 0x80)) least) bs
  | false ↦ raised unicode_error
]
decode_from (inside zero c least) (b ∷ bs) =
    let d = c * 0x40 + (b - 0x80) in
    elim (continues b && is_scalar least d) [
      | true ↦ prepend d (decode_from boundary bs)
      | false ↦ raised unicode_error
    ]

-- bs.decode("utf-8")
unfoldable pub decode : Bytes → Result Text
unfolding decode_from
decode bs = decode_from boundary bs
