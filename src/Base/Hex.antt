-- ===== src/Base/Hex.antt =====
-- Hexadecimal: `bytes.hex` and `bytes.fromhex`.
use Prim.Native.Nat.{ℕ, ◌+◌, ◌-◌, ◌*◌, ◌/◌, ◌%◌, ◌<◌}
use mathlib.Core.Path.{◌≡◌, refl}
use mathlib.Core.Bool.{Bool, true, false, ◌&&◌, ◌||◌}
use mathlib.Core.Option
use mathlib.Core.Option.{Option, none, some}
use mathlib.Core.List.{[], ◌∷◌}
use native.Mathlib.Omega.{arith}
use mcp_attest.Base.Tests.{leb, ltb, ◌==◌, if◌then◌else◌}
use mcp_attest.Base.Lists.{All, length}
use mcp_attest.Base.Text.{Text, Bytes}

-- The lower-case digit of a number below 16.
unfoldable pub hex_digit : ℕ → ℕ
hex_digit d = if ltb d 10 then b'0' + d else b'a' + (d - 10)

-- The value of a hexadecimal digit of either case.
unfoldable pub hex_value : ℕ → Option ℕ
hex_value c =
    if leb b'0' c && leb c b'9'
    then some (c - b'0')
    else if leb b'a' c && leb c b'f'
    then some (c - b'a' + 10)
    else if leb b'A' c && leb c b'F'
    then some (c - b'A' + 10)
    else none

-- b.hex()
unfoldable pub to_hex : Bytes → Text
to_hex [] = []
to_hex (b ∷ bs) = hex_digit (b / 16) ∷ hex_digit (b % 16) ∷ to_hex bs

-- `bytes.fromhex` skips ASCII white space between two bytes.
abbrev pub is_ascii_space : ℕ → Bool
is_ascii_space c = c == 32 || (leb 9 c && leb c 13)

-- bytes.fromhex(s), `none` for its ValueError. `high` is the first digit of a byte.
unfoldable pub from_hex_onto : Option ℕ → Text → Option Bytes
from_hex_onto none [] = some []
from_hex_onto (some high) [] = none
from_hex_onto none (c ∷ s) = elim (is_ascii_space c) [
  | true ↦ from_hex_onto none s
  | false ↦ elim (hex_value c) [ none ↦ none | some d ↦ from_hex_onto (some d) s ]
]
from_hex_onto (some high) (c ∷ s) = elim (hex_value c) [
  | none ↦ none
  | some d ↦ Option.map (λ bs. (high * 16 + d) ∷ bs) (from_hex_onto none s)
]

unfoldable pub from_hex : Text → Option Bytes
unfolding from_hex_onto
from_hex s = from_hex_onto none s

abbrev pub IsByte : ℕ → Type 0
IsByte b = b < 256

pub hex_value-hex_digit : (d : ℕ) → d < 16 → hex_value (hex_digit d) ≡ some d
unfolding hex_value hex_digit
hex_value-hex_digit d h = ground arith

hex_digit-not_space : (d : ℕ) → d < 16 → is_ascii_space (hex_digit d) ≡ false
unfolding hex_digit
hex_digit-not_space d h = ground arith

-- Bytes survive being written in hexadecimal and read back.
pub from_hex-to_hex : (bs : Bytes) → All IsByte bs → from_hex (to_hex bs) ≡ some bs
unfolding from_hex_onto to_hex from_hex
from_hex-to_hex [] h = refl
from_hex-to_hex (b ∷ bs) (p, h) = ground (
  arith,
  hex_digit-not_space (b / 16),
  hex_value-hex_digit (b / 16),
  hex_value-hex_digit (b % 16),
  from_hex-to_hex bs h,
)

pub length-to_hex : (bs : Bytes) → length (to_hex bs) ≡ 2 * length bs
unfolding to_hex
length-to_hex [] = omega arith
length-to_hex (b ∷ bs) = omega (arith, length-to_hex bs)
