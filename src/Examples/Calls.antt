-- ===== src/Examples/Calls.antt =====
-- examples/ and scripts/: a call of `append` with texts in printable ASCII, which returns.
use mcp_attest.Base.{
  ◌≡◌, sym, ap, ◌∙◌, true, Option, none, some, List, [], ◌∷◌, ◌++◌, arith, All, length, ◌/◌, ◌%◌,
}
use mathlib.Core.Path.{subst}
use mcp_attest.Base.Hex.{to_hex, from_hex, IsByte}
use mcp_attest.Base.Text.{Text, Bytes}
use mcp_attest.Errors.{ok}
use mcp_attest.Errors.Laws.{>>=-eq-ok, ok-injective}
use mcp_attest.Runtime.{Runtime, IsLawful}
use mcp_attest.Value.{int}
use mcp_attest.Json.Plain.{IsPlain, hex_digit-IsPlain}
use mcp_attest.Json.Returns.{IsEncodable, plain-IsScalar}
use mcp_attest.Canonical
use mcp_attest.Crypto.{Primitives, IsSound, hash_bytes, sign}
use mcp_attest.Crypto.Laws.{sign-eq-ok, public_key_from_private-returns}
use mcp_attest.Entry.{SignedRecord, Receipt, record_bytes, entry_hash, zero_hash_hex}
use mcp_attest.Entry.Returns.{AllOptional, IsWritable}
use mcp_attest.Log.Reader.{Disk, AttestationLog}
use mcp_attest.Log.Writer.{Call, extract_tool_name, head_hash_of, payload_hash, append}
use mcp_attest.Log.Append.{Appended, append-Appended}
use mcp_attest.Verifier.Growth.{Written, appended, signature-from_hex, append-seq}
use mcp_attest.Verifier.Returns.{IsAttestable, append-returns}
use mcp_attest.Verifier.Verdict.{IsCheckable}
use mcp_attest.Examples.Tamper.Line.{HasAsciiTexts, OptionalPlain}

to_hex-IsPlain : (bs : Bytes) → All IsByte bs → All IsPlain (to_hex bs)
unfolding to_hex
to_hex-IsPlain [] h = tt
to_hex-IsPlain (b ∷ bs) (h, hs) = (
  hex_digit-IsPlain (b / 16) (omega (arith, h)),
  (hex_digit-IsPlain (b % 16) (omega arith), to_hex-IsPlain bs hs),
)

pub optional-IsScalar : (t : Option Text) → OptionalPlain t → AllOptional t
optional-IsScalar none h = tt
optional-IsScalar (some s) h = plain-IsScalar s h

zero_hash-IsPlain : All IsPlain zero_hash_hex
zero_hash-IsPlain = ground arith

module _ (R : Runtime) (L : IsLawful R) (C : Primitives) (S : IsSound C) where
  hash-IsPlain : (m : Bytes) → All IsPlain (to_hex (hash_bytes C m))
  unfolding hash_bytes
  hash-IsPlain m = to_hex-IsPlain (C.blake2b m) (S.digest_IsByte m)

  payload_hash-IsPlain : (v : _) (hash : Text) → payload_hash R C v ≡ ok hash → All IsPlain hash
  unfolding payload_hash
  payload_hash-IsPlain v hash h =
      let (bs, _, e) = >>=-eq-ok (Canonical.dumps R v) (λ b. ok (to_hex (hash_bytes C b))) h in
      subst (All IsPlain) (ok-injective e) (hash-IsPlain bs)

  head_hash_of-IsPlain :
      (o : Option (SignedRecord R.Float)) (hash : Text)
      → head_hash_of R C o ≡ ok hash
      → All IsPlain hash
  unfolding head_hash_of entry_hash
  head_hash_of-IsPlain none hash h = subst (All IsPlain) (ok-injective h) zero_hash-IsPlain
  head_hash_of-IsPlain (some r) hash h =
      let (bs, _, e) = >>=-eq-ok (record_bytes R r) (λ b. ok (to_hex (hash_bytes C b))) h in
      subst (All IsPlain) (ok-injective e) (hash-IsPlain bs)

  -- What the caller passes in printable ASCII goes into a record in printable ASCII.
  appended-HasAsciiTexts :
      (log : AttestationLog) (call : Call R.Float) (before : Option (SignedRecord R.Float))
      (r : SignedRecord R.Float) (receipt : Receipt) (tool_name : Option Text)
      → Appended R C log call before r receipt
      → All IsPlain log.server_id
      → All IsPlain call.request_id
      → All IsPlain call.method
      → extract_tool_name R call.method call.params ≡ ok tool_name
      → OptionalPlain tool_name
      → R.is_finite call.ts_request ≡ true
      → R.is_finite call.ts_response ≡ true
      → HasAsciiTexts R r
  appended-HasAsciiTexts log call before r receipt tool_name a server id method named tool t t' =
      let (n, e) = sign-eq-ok C a.key a.message a.signature a.signed in
      let bytes = subst (All IsByte) (sym e) (S.signature_IsByte a.key a.message n) in
      record {
        prev_hash = head_hash_of-IsPlain before r.entry.prev_hash a.prev_named;
        ts_request = ap R.is_finite a.request_time_kept ∙ t;
        ts_response = ap R.is_finite a.response_time_kept ∙ t';
        server_id = subst (All IsPlain) (sym a.server_kept) server;
        request_id = subst (All IsPlain) (sym a.id_kept) id;
        method = subst (All IsPlain) (sym a.method_kept) method;
        tool_name = subst OptionalPlain (ok-injective (sym named ∙ a.tool_named)) tool;
        params_hash = payload_hash-IsPlain call.params r.entry.params_hash a.params_hashed;
        result_hash = payload_hash-IsPlain call.result_or_error r.entry.result_hash a.result_hashed;
        signature = subst (All IsPlain) (sym a.signature_hex) (to_hex-IsPlain a.signature bytes);
      }

  -- Such a record can be written.
  pub ascii-IsWritable :
      (r : SignedRecord R.Float)
      → HasAsciiTexts R r
      → IsEncodable R (int r.entry.seq)
      → IsWritable R r.entry
  ascii-IsWritable r h seq = record {
    seq = seq;
    prev_hash = plain-IsScalar r.entry.prev_hash h.prev_hash;
    ts_request = h.ts_request;
    ts_response = h.ts_response;
    server_id = plain-IsScalar r.entry.server_id h.server_id;
    request_id = plain-IsScalar r.entry.request_id h.request_id;
    method = plain-IsScalar r.entry.method h.method;
    tool_name = optional-IsScalar r.entry.tool_name h.tool_name;
    params_hash = plain-IsScalar r.entry.params_hash h.params_hash;
    result_hash = plain-IsScalar r.entry.result_hash h.result_hash;
  }

  module _ (key : Bytes) (of_32 : length key ≡ 32) where
    abbrev pub public : Bytes
    public = C.ed25519_public key

    -- A call that returned.
    pub record Made (log : AttestationLog) (call : Call R.Float) (d : Disk)
        (rs : List (SignedRecord R.Float)) : Type 0 where
      pub r : SignedRecord R.Float
      pub receipt : Receipt
      pub file : Bytes
      pub returns : append R C log call d ≡ (ok (r, receipt), some file)
      pub written : Written R L C S key (some file) (rs ++ (r ∷ []))
      pub ascii : HasAsciiTexts R r
      pub hashed : payload_hash R C call.result_or_error ≡ ok r.entry.result_hash
      pub id_kept : r.entry.request_id ≡ call.request_id
      pub checkable : IsCheckable R C public r
      pub numbered : IsEncodable R (int r.entry.seq)

    pub make :
        (log : AttestationLog) (call : Call R.Float) (d : Disk) (rs : List (SignedRecord R.Float))
        (tool_name : Option Text)
        → IsAttestable R C log call key (length rs)
        → All IsPlain log.server_id
        → All IsPlain call.request_id
        → All IsPlain call.method
        → extract_tool_name R call.method call.params ≡ ok tool_name
        → OptionalPlain tool_name
        → Written R L C S key d rs
        → Made log call d rs
    make log call d rs tool_name can server id method named tool w =
        let (r, receipt, file, returns) = append-returns R L C S log call d rs key w can in
        let (before, _, _, a, _, _) =
          append-Appended R C log call d (some file) r receipt returns in
        let same : a.key ≡ key = cc (a.opened_with, can.opened_with) in
        let signed = ap (λ k. sign C k a.message) (sym same) ∙ a.signed in
        record {
          r = r;
          receipt = receipt;
          file = file;
          returns = returns;
          written = appended log call d (some file) rs r receipt w can.opened_with returns;
          ascii =
              appended-HasAsciiTexts log call before r receipt tool_name a server id method named
                tool can.ts_request can.ts_response;
          hashed = a.result_hashed;
          id_kept = a.id_kept;
          checkable = record {
            message = a.message;
            signature = a.signature;
            hash = receipt.entry_hash;
            message_made = a.message_made;
            signature_read =
                ap from_hex a.signature_hex
                ∙ signature-from_hex C S key a.message a.signature signed;
            hashed = a.receipt_hash;
          };
          numbered =
              subst (λ z. IsEncodable R (int z))
                (sym (
                  append-seq R L C S log call d (some file) rs r receipt key public w
                    (public_key_from_private-returns C key of_32) returns))
                can.number;
        }
