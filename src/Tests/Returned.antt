-- ===== src/Tests/Returned.antt =====
-- The theorems that a call returns, at the second append of the runs.
use mcp_attest.Base.{ℕ, ◌≡◌, refl, true, Option, some, [], ◌∷◌, arith}
use mcp_attest.Base.Text.{Bytes, codes, text_eq}
use mcp_attest.Base.Decimal.{decimal, digits_onto}
use mcp_attest.Errors.{ok}
use mcp_attest.Value.Dict.{get}
use mcp_attest.Value.Convert.{to_str}
use mcp_attest.Value.Convert.Repr.{int_repr}
use mcp_attest.Json.Returns.{IsEncodable}
use mcp_attest.Canonical
use mcp_attest.Canonical.Returns.{dumps-returns}
use mcp_attest.Entry.{SignedRecord, Receipt, SignedTreeHead}
use mcp_attest.Log.Writer.{append, emit_sth, head_hash, extract_tool_name, tool_name_of}
use mcp_attest.Verifier.Returns.{IsAttestable, append-returns}
use mcp_attest.Verifier.{verify_sth}
use mcp_attest.Verifier.Emits.{emit_sth-Written}
use mcp_attest.Base.Int.{pos}
use mcp_attest.Value.{int}
use mcp_attest.Tests.World.{toy, toy-IsLawful, toy_crypto, toy_crypto-IsSound, toy_key}
use mcp_attest.Tests.Runs.{writer, add_params, second_call, disk1, record1}
use mcp_attest.Tests.Examples.{written1}

add_params-IsEncodable : IsEncodable toy add_params
unfolding IsEncodable
add_params-IsEncodable = (ground arith, (ground arith, tt))

second-IsAttestable : IsAttestable toy toy_crypto writer second_call toy_key 1
unfolding IsEncodable int_repr decimal digits_onto extract_tool_name tool_name_of text_eq get to_str
second-IsAttestable = record {
  tool_name = some (codes "add");
  opened_with = refl;
  key_length = refl;
  number = (codes "1", refl);
  server_id = ground arith;
  request_id = ground arith;
  method = ground arith;
  ts_request = refl;
  ts_response = refl;
  params = (ground arith, (ground arith, tt));
  result_or_error = tt;
  tool_named = refl;
  tool_written = ground arith;
}

append-returns_example :
    (r : SignedRecord (Option ℕ)) × (receipt : Receipt) × (file : Bytes) × (append toy toy_crypto
        writer second_call disk1
      ≡ (ok (r, receipt), some file))
append-returns_example =
    append-returns toy toy-IsLawful toy_crypto toy_crypto-IsSound writer second_call disk1
      (record1 ∷ []) toy_key written1 second-IsAttestable

one-IsEncodable : IsEncodable toy (int (pos 1))
unfolding IsEncodable int_repr decimal digits_onto
one-IsEncodable = (codes "1", refl)

emit_sth-Written_example :
    (sth : SignedTreeHead (Option ℕ)) × (emit_sth toy toy_crypto writer (some 7) disk1 ≡ ok sth)
    × (sth.chain_length ≡ pos 1)
    × (head_hash toy toy_crypto disk1 ≡ ok sth.head_hash)
    × (verify_sth toy toy_crypto sth (toy_crypto.ed25519_public toy_key) ≡ ok true)
emit_sth-Written_example =
    emit_sth-Written toy toy-IsLawful toy_crypto toy_crypto-IsSound writer (some 7) disk1
      (record1 ∷ []) toy_key written1 refl refl one-IsEncodable refl

dumps-returns_example : (bs : Bytes) × (Canonical.dumps toy add_params ≡ ok bs)
dumps-returns_example = dumps-returns toy toy-IsLawful add_params add_params-IsEncodable
