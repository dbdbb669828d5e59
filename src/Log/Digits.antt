-- ===== src/Log/Digits.antt =====
-- log.py, `append`: the hexadecimal texts of a record and of its receipt.
use mcp_attest.Base.{
  ℕ, ◌*◌, ◌<◌, ◌≤◌, ◌≡◌, refl, sym, ap, ◌∙◌, ◌⊎◌, Option, none, some, [], ◌∷◌, arith, All, length,
  ◌/◌, ◌%◌,
}
use mathlib.Core.Path.{subst}
use mcp_attest.Base.Hex.{hex_digit, to_hex, from_hex, IsByte, from_hex-to_hex, length-to_hex}
use mcp_attest.Base.Text.{Text, Bytes}
use mcp_attest.Errors.{ok}
use mcp_attest.Errors.Laws.{>>=-eq-ok, ok-injective}
use mcp_attest.Runtime.{Runtime}
use mcp_attest.Value.{Value}
use mcp_attest.Canonical
use mcp_attest.Crypto.{Primitives, IsSound, hash_bytes}
use mcp_attest.Crypto.Laws.{sign-eq-ok}
use mcp_attest.Entry.{SignedRecord, Receipt, entry_bytes, record_bytes, entry_hash}
use mcp_attest.Log.Reader.{Disk, AttestationLog}
use mcp_attest.Log.Writer.{Call, payload_hash, head_hash_of, append}
use mcp_attest.Log.Append.{append-Appended}

-- 0 to 9 and a to f
abbrev pub IsHexDigit : ℕ → Type 0
IsHexDigit c = ((b'0' ≤ c) × (c ≤ b'9')) ⊎ ((b'a' ≤ c) × (c ≤ b'f'))

hex_digit-IsHexDigit : (d : ℕ) → d < 16 → IsHexDigit (hex_digit d)
unfolding hex_digit
hex_digit-IsHexDigit d h = ground (arith, h)

to_hex-IsHexDigit : (bs : Bytes) → All IsByte bs → All IsHexDigit (to_hex bs)
unfolding to_hex
to_hex-IsHexDigit [] h = tt
to_hex-IsHexDigit (b ∷ bs) (h, hs) = (
  hex_digit-IsHexDigit (b / 16) (omega (arith, h)),
  (hex_digit-IsHexDigit (b % 16) (omega arith), to_hex-IsHexDigit bs hs),
)

-- `n` lower-case hexadecimal digits.
abbrev pub IsHex : ℕ → Text → Type 0
IsHex n t = (length t ≡ n) × All IsHexDigit t

-- `n` lower-case hexadecimal digits, from which `bytes.fromhex` reads the bytes.
abbrev pub IsHexOf : ℕ → Bytes → Text → Type 0
IsHexOf n bs t = (length t ≡ n) × All IsHexDigit t × (from_hex t ≡ some bs)

to_hex-IsHexOf :
    (bs : Bytes) (n : ℕ) → length bs ≡ n → All IsByte bs → IsHexOf (2 * n) bs (to_hex bs)
to_hex-IsHexOf bs n e h =
    (omega (arith, length-to_hex bs, e), to_hex-IsHexDigit bs h, from_hex-to_hex bs h)

module _ (R : Runtime) (C : Primitives) (S : IsSound C) where
  hash-IsHexOf : (m : Bytes) → IsHexOf 64 (C.blake2b m) (to_hex (hash_bytes C m))
  unfolding hash_bytes
  hash-IsHexOf m = to_hex-IsHexOf (C.blake2b m) 32 (S.digest_length m) (S.digest_IsByte m)

  payload_hash-IsHexOf :
      (v : Value R.Float) (hash : Text)
      → payload_hash R C v ≡ ok hash
      → (bs : Bytes) × (Canonical.dumps R v ≡ ok bs) × IsHexOf 64 (C.blake2b bs) hash
  unfolding payload_hash
  payload_hash-IsHexOf v hash h =
      let (bs, made, e) = >>=-eq-ok (Canonical.dumps R v) (λ b. ok (to_hex (hash_bytes C b))) h in
      (bs, made, subst (IsHexOf 64 (C.blake2b bs)) (ok-injective e) (hash-IsHexOf bs))

  entry_hash-IsHexOf :
      (r : SignedRecord R.Float) (hash : Text)
      → entry_hash R C r ≡ ok hash
      → (bs : Bytes) × (record_bytes R r ≡ ok bs) × IsHexOf 64 (C.blake2b bs) hash
  unfolding entry_hash
  entry_hash-IsHexOf r hash h =
      let (bs, made, e) = >>=-eq-ok (record_bytes R r) (λ b. ok (to_hex (hash_bytes C b))) h in
      (bs, made, subst (IsHexOf 64 (C.blake2b bs)) (ok-injective e) (hash-IsHexOf bs))

  head_hash_of-IsHex :
      (o : Option (SignedRecord R.Float)) (hash : Text)
      → head_hash_of R C o ≡ ok hash
      → IsHex 64 hash
  unfolding head_hash_of
  head_hash_of-IsHex none hash h = subst (IsHex 64) (ok-injective h) (refl, ground arith)
  head_hash_of-IsHex (some r) hash h =
      let (_, _, (n, digits, _)) = entry_hash-IsHexOf r hash h in (n, digits)

  -- The bytes that the texts of a record and of its receipt stand for.
  abbrev pub HasHexTexts : AttestationLog → Call R.Float → SignedRecord R.Float → Receipt → Type 0
  HasHexTexts log call r receipt =
      (params : Bytes) × (result : Bytes) × (message : Bytes) × (line : Bytes) × (key : Bytes)
      × (Canonical.dumps R call.params ≡ ok params)
      × (Canonical.dumps R call.result_or_error ≡ ok result)
      × (entry_bytes R r.entry ≡ ok message)
      × (record_bytes R r ≡ ok line)
      × (log.private_key ≡ some key)
      × IsHex 64 r.entry.prev_hash
      × IsHexOf 64 (C.blake2b params) r.entry.params_hash
      × IsHexOf 64 (C.blake2b result) r.entry.result_hash
      × IsHexOf 128 (C.ed25519_sign key message) r.signature
      × IsHexOf 64 (C.blake2b line) receipt.entry_hash
      × IsHexOf 128 (C.ed25519_sign key message) receipt.signature

  -- The hashes of a record and of its receipt have 64 lower-case hexadecimal digits and the signature 128,
  -- whatever stood in the file. `bytes.fromhex` reads from them the digests of the canonical bytes of the
  -- params, of the result and of the record, and the signature of the canonical bytes of the entry under the
  -- private key of the log; of the hash that names the record before, only the digits are said here.
  pub append-HasHexTexts :
      (log : AttestationLog) (call : Call R.Float) (d d' : Disk) (r : SignedRecord R.Float)
      (receipt : Receipt)
      → append R C log call d ≡ (ok (r, receipt), d')
      → HasHexTexts log call r receipt
  append-HasHexTexts log call d d' r receipt h =
      let (before, _, _, a, _, _) = append-Appended R C log call d d' r receipt h in
      let (n, e) = sign-eq-ok C a.key a.message a.signature a.signed in
      let signed : IsHexOf 128 (C.ed25519_sign a.key a.message) r.signature =
        subst (IsHexOf 128 (C.ed25519_sign a.key a.message))
          (ap to_hex (sym e) ∙ sym a.signature_hex)
          (to_hex-IsHexOf (C.ed25519_sign a.key a.message) 64 (S.signature_length a.key a.message n)
            (S.signature_IsByte a.key a.message n)) in
      let (params, made_params, p) =
        payload_hash-IsHexOf call.params r.entry.params_hash a.params_hashed in
      let (result, made_result, q) =
        payload_hash-IsHexOf call.result_or_error r.entry.result_hash a.result_hashed in
      let (line, made_line, k) = entry_hash-IsHexOf r receipt.entry_hash a.receipt_hash in
      (
        params,
        result,
        a.message,
        line,
        a.key,
        made_params,
        made_result,
        a.message_made,
        made_line,
        a.opened_with,
        head_hash_of-IsHex before r.entry.prev_hash a.prev_named,
        p,
        q,
        signed,
        k,
        subst (IsHexOf 128 (C.ed25519_sign a.key a.message)) (sym a.receipt_signature) signed,
      )
