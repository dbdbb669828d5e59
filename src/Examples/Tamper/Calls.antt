-- ===== src/Examples/Tamper/Calls.antt =====
-- scripts/tamper_attack.py: the calls of `_populate`, which return for every key pair.
use mcp_attest.Base.{ℕ, ◌≡◌, refl, true, some, List, arith, All, length}
use mcp_attest.Base.Int.{pos}
use mcp_attest.Base.Text.{Text, Bytes, codes, text_eq}
use mcp_attest.Errors.{ok}
use mcp_attest.Runtime.{Runtime, IsLawful}
use mcp_attest.Value.{int}
use mcp_attest.Value.Dict.{get}
use mcp_attest.Value.Convert.{to_str}
use mcp_attest.Json.Plain.{IsPlain}
use mcp_attest.Json.Returns.{IsEncodable, plain-IsScalar}
use mcp_attest.Crypto.{Primitives, IsSound}
use mcp_attest.Entry.{SignedRecord}
use mcp_attest.Log.Reader.{Disk, AttestationLog}
use mcp_attest.Log.Writer.{Call, extract_tool_name, tool_name_of}
use mcp_attest.Verifier.Growth.{Written}
use mcp_attest.Verifier.Returns.{IsAttestable}
use mcp_attest.Examples.Tamper.{echo_call}
use mcp_attest.Examples.Calls.{Made, make}

module _ (R : Runtime) (L : IsLawful R) (C : Primitives) (S : IsSound C) where
  module _ (literal : Text → R.Float) (finite : (s : Text) → R.is_finite (literal s) ≡ true)
      (key : Bytes) (of_32 : length key ≡ 32) where
    abbrev pub script_log : AttestationLog
    script_log = record { server_id = codes "srv.example"; private_key = some key }

    abbrev pub ScriptWritten : Disk → List (SignedRecord R.Float) → Type 0
    ScriptWritten d rs = Written R L C S key d rs

    abbrev pub call_of : Text → Text → Text → Text → Call R.Float
    call_of id text t t' = echo_call R C literal id text t t'

    named_echo :
        (id text t t' : Text)
        → extract_tool_name R (call_of id text t t').method (call_of id text t t').params
          ≡ ok (some (codes "echo"))
    unfolding extract_tool_name tool_name_of text_eq get to_str
    named_echo id text t t' = refl

    echo_call-IsAttestable :
        (id text t t' : Text) (n : ℕ)
        → All IsPlain id
        → All IsPlain text
        → IsEncodable R (int (pos n))
        → IsAttestable R C script_log (call_of id text t t') key n
    unfolding IsEncodable
    echo_call-IsAttestable id text t t' n hid htext hn = record {
      tool_name = some (codes "echo");
      opened_with = refl;
      key_length = of_32;
      number = hn;
      server_id = ground arith;
      request_id = plain-IsScalar id hid;
      method = ground arith;
      ts_request = finite t;
      ts_response = finite t';
      params = (
        ground arith,
        (ground arith, (ground arith, ((ground arith, (plain-IsScalar text htext, tt)), tt))),
      );
      result_or_error = (ground arith, (plain-IsScalar text htext, tt));
      tool_named = named_echo id text t t';
      tool_written = ground arith;
    }

    pub make_echo :
        (id text t t' : Text) (d : Disk) (rs : List (SignedRecord R.Float))
        → All IsPlain id
        → All IsPlain text
        → IsEncodable R (int (pos (length rs)))
        → ScriptWritten d rs
        → Made R L C S key of_32 script_log (call_of id text t t') d rs
    make_echo id text t t' d rs hid htext hn w =
        make R L C S key of_32 script_log (call_of id text t t') d rs (some (codes "echo"))
          (echo_call-IsAttestable id text t t' (length rs) hid htext hn) (ground arith) hid
          (ground arith) (named_echo id text t t') (ground arith) w
