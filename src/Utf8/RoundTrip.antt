-- ===== src/Utf8/RoundTrip.antt =====
-- What was encoded decodes back, with any bytes behind it.
use mcp_attest.Base.{
  ℕ, ◌+◌, ◌*◌, ◌/◌, ◌%◌, ◌≤◌, ◌<◌, ◌≡◌, refl, sym, ◌∙◌, ap, true, false, [], ◌∷◌, ◌++◌,
  append_assoc, arith, append-nil,
}
use mcp_attest.Base.Text.{Text, Bytes}
use mcp_attest.Errors.{Result, ok, raised, ◌>>=◌}
use mcp_attest.Errors.Laws.{>>=-eq-ok, ok-injective}
use mcp_attest.Utf8.{
  encode_char, encode, leads, lead, is_scalar, is_surrogate, prepend, boundary, inside, decode_from,
  decode,
}

lead_two : (c : ℕ) → 0x80 ≤ c → c < 0x800 → lead (0xc0 + c / 0x40) ≡ leads 0 (c / 0x40) 0x80
unfolding lead
lead_two c h k = ground arith

lead_three :
    (c : ℕ) → 0x800 ≤ c → c < 0x10000 → lead (0xe0 + c / 0x1000) ≡ leads 1 (c / 0x1000) 0x800
unfolding lead
lead_three c h k = ground arith

lead_four :
    (c : ℕ) → 0x10000 ≤ c → c < 0x110000 → lead (0xf0 + c / 0x40000) ≡ leads 2 (c / 0x40000) 0x10000
unfolding lead
lead_four c h k = ground arith

-- One continuation byte, before the last and at the end of a character.
inside_more :
    (n c least d : ℕ) (bs : Bytes)
    → d < 0x40
    → decode_from (inside (n + 1) c least) ((0x80 + d) ∷ bs)
      ≡ decode_from (inside n (c * 0x40 + d) least) bs
unfolding decode_from
inside_more n c least d bs h = ground arith

inside_last :
    (c least d : ℕ) (bs : Bytes)
    → d < 0x40
    → is_scalar least (c * 0x40 + d) ≡ true
    → decode_from (inside 0 c least) ((0x80 + d) ∷ bs)
      ≡ prepend (c * 0x40 + d) (decode_from boundary bs)
unfolding decode_from
inside_last c least d bs h k = ground arith

decode_lead :
    (b n c least : ℕ) (bs : Bytes)
    → lead b ≡ leads n c least
    → decode_from boundary (b ∷ bs) ≡ decode_from (inside n c least) bs
unfolding decode_from
decode_lead b n c least bs h = ground arith

-- A character of two bytes.
decode_two :
    (c : ℕ) (rest : Bytes)
    → 0x80 ≤ c
    → c < 0x800
    → decode_from boundary ((0xc0 + c / 0x40) ∷ (0x80 + c % 0x40) ∷ rest)
      ≡ prepend c (decode_from boundary rest)
decode_two c rest h k =
    let whole : c / 0x40 * 0x40 + c % 0x40 ≡ c = omega arith in
    let scalar : is_scalar 0x80 c ≡ true = ground arith in
    decode_lead _ 0 (c / 0x40) 0x80 _ (lead_two c h k)
    ∙ inside_last (c / 0x40) 0x80 (c % 0x40) rest (omega arith) (rw whole scalar)
    ∙ ap (λ d. prepend d (decode_from boundary rest)) whole

decode_three :
    (c : ℕ) (rest : Bytes)
    → 0x800 ≤ c
    → c < 0x10000
    → is_surrogate c ≡ false
    → decode_from boundary
        ((0xe0 + c / 0x1000) ∷ (0x80 + c / 0x40 % 0x40) ∷ (0x80 + c % 0x40) ∷ rest)
      ≡ prepend c (decode_from boundary rest)
decode_three c rest h k n =
    let whole : (c / 0x1000 * 0x40 + c / 0x40 % 0x40) * 0x40 + c % 0x40 ≡ c = omega arith in
    let scalar : is_scalar 0x800 c ≡ true = ground arith in
    decode_lead _ 1 (c / 0x1000) 0x800 _ (lead_three c h k)
    ∙ inside_more 0 (c / 0x1000) 0x800 (c / 0x40 % 0x40) _ (omega arith)
    ∙ inside_last (c / 0x1000 * 0x40 + c / 0x40 % 0x40) 0x800 (c % 0x40) rest (omega arith)
        (rw whole scalar)
    ∙ ap (λ d. prepend d (decode_from boundary rest)) whole

decode_four :
    (c : ℕ) (rest : Bytes)
    → 0x10000 ≤ c
    → c < 0x110000
    → decode_from boundary (
        (0xf0 + c / 0x40000)
        ∷ (0x80 + c / 0x1000 % 0x40)
        ∷ (0x80 + c / 0x40 % 0x40)
        ∷ (0x80 + c % 0x40)
        ∷ rest)
      ≡ prepend c (decode_from boundary rest)
decode_four c rest h k =
    let a : ℕ = c / 0x40000 * 0x40 + c / 0x1000 % 0x40 in
    let b : ℕ = a * 0x40 + c / 0x40 % 0x40 in
    let whole : b * 0x40 + c % 0x40 ≡ c = omega arith in
    let scalar : is_scalar 0x10000 c ≡ true = ground arith in
    decode_lead _ 2 (c / 0x40000) 0x10000 _ (lead_four c h k)
    ∙ inside_more 1 (c / 0x40000) 0x10000 (c / 0x1000 % 0x40) _ (omega arith)
    ∙ inside_more 0 a 0x10000 (c / 0x40 % 0x40) _ (omega arith)
    ∙ inside_last b 0x10000 (c % 0x40) rest (omega arith) (rw whole scalar)
    ∙ ap (λ d. prepend d (decode_from boundary rest)) whole

-- A character of one byte.
pub decode_one :
    (c : ℕ) (rest : Bytes)
    → c < 0x80
    → decode_from boundary (c ∷ rest) ≡ prepend c (decode_from boundary rest)
unfolding decode_from lead
decode_one c rest h = ground arith

pub decode-encode_char :
    (c : ℕ) (bs rest : Bytes)
    → encode_char c ≡ ok bs
    → decode_from boundary (bs ++ rest) ≡ prepend c (decode_from boundary rest)
unfolding encode_char
decode-encode_char c bs rest h =
    ground (arith, decode_one c rest, decode_two c rest, decode_three c rest, decode_four c rest)

-- The text in front of what the rest decodes to.
abbrev pub behind : Text → Result Text → Result Text
behind s r = do t ← r; ok (s ++ t)

prepend-behind : (c : ℕ) (s : Text) (r : Result Text) → prepend c (behind s r) ≡ behind (c ∷ s) r
prepend-behind c s (ok t) = refl
prepend-behind c s (raised e) = refl

behind-nil : (r : Result Text) → behind [] r ≡ r
behind-nil (ok t) = refl
behind-nil (raised e) = refl

pub decode_from-encode :
    (s : Text) (bs rest : Bytes)
    → encode s ≡ ok bs
    → decode_from boundary (bs ++ rest) ≡ behind s (decode_from boundary rest)
unfolding encode
decode_from-encode [] bs rest h =
    rw (← ok-injective h) (sym (behind-nil (decode_from boundary rest)))
decode_from-encode (c ∷ s) bs rest h =
    let (b, hb, k) = >>=-eq-ok (encode_char c) (λ b. do r ← encode s; ok (b ++ r)) h in
    let (r, hr, e) = >>=-eq-ok (encode s) (λ r. ok (b ++ r)) k in
    rw (← ok-injective e, append_assoc)
      (decode-encode_char c b (r ++ rest) hb
        ∙ ap (prepend c) (decode_from-encode s r rest hr)
        ∙ prepend-behind c s (decode_from boundary rest))

-- Decoding an encoded text gives the text.
pub decode-encode : (s : Text) (bs : Bytes) → encode s ≡ ok bs → decode bs ≡ ok s
unfolding decode decode_from
decode-encode s bs h =
    let whole = decode_from-encode s bs [] h in rw append-nil at whole ∙ ap ok (append-nil s)
