-- ===== src/Examples/Sequence.antt =====
-- examples/ and scripts/: calls on one log, one after the other, whose values are known.
use mcp_attest.Base.{
  ℕ, suc, ◌+◌, ◌≡◌, refl, ap, ◌∙◌, Bool, true, ◌&&◌, Option, some, List, [], ◌∷◌, ◌++◌, arith,
  length, length-append,
}
use mathlib.Core.Path.{subst}
use mcp_attest.Base.Int.{pos}
use mcp_attest.Base.Text.{Text, Bytes}
use mcp_attest.Errors.{ok}
use mcp_attest.Runtime.{Runtime, IsLawful}
use mcp_attest.Value.{Value, Fields, int}
use mcp_attest.Value.Convert.Repr.{int_repr}
use mcp_attest.Json.Returns.{IsEncodable, plain-IsScalar}
use mcp_attest.Json.Ascii.Check.{plain_text, plain_text-IsPlain, encodable, encodable-IsEncodable}
use mcp_attest.Crypto.{Primitives, IsSound}
use mcp_attest.Entry.{SignedRecord, Receipt}
use mcp_attest.Log.Reader.{Disk, AttestationLog}
use mcp_attest.Log.Writer.{Call, extract_tool_name}
use mcp_attest.Verifier.Growth.{Written}
use mcp_attest.Proxy.{forward}
use mcp_attest.Proxy.Attested.{handle-returns}
use mcp_attest.Examples.Server.{mock_upstream}
use mcp_attest.Examples.Client.{request_of}
use mcp_attest.Examples.Tamper.{append_next, append_all}
use mcp_attest.Examples.Tamper.Line.{OptionalPlain}
use mcp_attest.Examples.Calls.{Made, make, optional-IsScalar}
use mcp_attest.Examples.Demo.{make_calls, after_call, add_receipt}

module _ (R : Runtime) where
  -- What tests say of a call that can be attested as the record number `n`.
  pub record CanAttest (call : Call R.Float) (n : ℕ) : Type 0 where
    pub tool_name : Option Text
    pub number : IsEncodable R (int (pos n))
    pub request_id : plain_text call.request_id ≡ true
    pub method : plain_text call.method ≡ true
    pub ts_request : R.is_finite call.ts_request ≡ true
    pub ts_response : R.is_finite call.ts_response ≡ true
    pub params : encodable R call.params ≡ true
    pub result_or_error : encodable R call.result_or_error ≡ true
    pub tool_named : extract_tool_name R call.method call.params ≡ ok tool_name
    pub tool_plain : OptionalPlain tool_name

  -- The tests of the texts and payloads of a call.
  abbrev pub printable : Call R.Float → Bool
  printable call =
      plain_text call.request_id
      && plain_text call.method
      && encodable R call.params
      && encodable R call.result_or_error

  pub can_attest :
      (call : Call R.Float) (n : ℕ) (digits : Text) (tool_name : Option Text)
      → int_repr (pos n) ≡ ok digits
      → printable call ≡ true
      → R.is_finite call.ts_request ≡ true
      → R.is_finite call.ts_response ≡ true
      → extract_tool_name R call.method call.params ≡ ok tool_name
      → OptionalPlain tool_name
      → CanAttest call n
  unfolding IsEncodable
  can_attest call n digits tool_name e p t t' named plain = record {
    tool_name = tool_name;
    number = (digits, e);
    request_id = ground arith;
    method = ground arith;
    ts_request = t;
    ts_response = t';
    params = ground arith;
    result_or_error = ground arith;
    tool_named = named;
    tool_plain = plain;
  }

  abbrev pub AllCan : List (Call R.Float) → ℕ → Type 0
  AllCan [] n = Unit
  AllCan (call ∷ calls) n = CanAttest call n × AllCan calls (suc n)

module _ (R : Runtime) (is_zero : R.Float → Bool) (clock : ℕ → R.Float × R.Float) where
  -- What the proxy makes of the requests from the number `i` on.
  abbrev pub Forwards : ℕ → List (Text × Value R.Float) → List (Call R.Float) → Type 0
  Forwards i [] [] = Unit
  Forwards i ((method, params) ∷ requests) (call ∷ calls) =
      (fs : Fields R.Float) × (forward R (mock_upstream R is_zero)
          (request_of method params (int (pos i))) (clock i).0 (clock i).1
        ≡ ok (fs, call))
      × Forwards (i + 1) requests calls
  Forwards i _ _ = ⊥

module _ (R : Runtime) (L : IsLawful R) (C : Primitives) (S : IsSound C) (key : Bytes)
    (of_32 : length key ≡ 32) (log : AttestationLog) (opened : log.private_key ≡ some key)
    (server : plain_text log.server_id ≡ true) where
  abbrev Makes : Call R.Float → Disk → List (SignedRecord R.Float) → Type 0
  Makes call d rs = Made R L C S key of_32 log call d rs

  make_checked :
      (call : Call R.Float) (d : Disk) (rs : List (SignedRecord R.Float)) (n : ℕ)
      → n ≡ length rs
      → CanAttest R call n
      → Written R L C S key d rs
      → Makes call d rs
  make_checked call d rs n e c w =
      let server_plain = plain_text-IsPlain log.server_id server in
      let id_plain = plain_text-IsPlain call.request_id c.request_id in
      let method_plain = plain_text-IsPlain call.method c.method in
      make R L C S key of_32 log call d rs c.tool_name
        (record {
          tool_name = c.tool_name;
          opened_with = opened;
          key_length = of_32;
          number = subst (λ m. IsEncodable R (int (pos m))) e c.number;
          server_id = plain-IsScalar log.server_id server_plain;
          request_id = plain-IsScalar call.request_id id_plain;
          method = plain-IsScalar call.method method_plain;
          ts_request = c.ts_request;
          ts_response = c.ts_response;
          params = encodable-IsEncodable R call.params c.params;
          result_or_error = encodable-IsEncodable R call.result_or_error c.result_or_error;
          tool_named = c.tool_named;
          tool_written = optional-IsScalar c.tool_name c.tool_plain;
        })
        server_plain id_plain method_plain c.tool_named c.tool_plain w

  -- The calls return one after the other.
  abbrev pub AllMade : List (Call R.Float) → Disk → List (SignedRecord R.Float) → Type 0
  AllMade [] d rs = Unit
  AllMade (call ∷ calls) d rs =
      (m : Makes call d rs) × AllMade calls (some m.file) (rs ++ (m.r ∷ []))

  pub all_made :
      (calls : List (Call R.Float)) (d : Disk) (rs : List (SignedRecord R.Float)) (n : ℕ)
      → n ≡ length rs
      → AllCan R calls n
      → Written R L C S key d rs
      → AllMade calls d rs
  all_made [] d rs n e h w = tt
  all_made (call ∷ calls) d rs n e (c, h) w =
      let m = make_checked call d rs n e c w in
      (
        m,
        all_made calls (some m.file) (rs ++ (m.r ∷ [])) (suc n)
            (omega (arith, e, length-append rs (m.r ∷ []))) h m.written,
      )

  abbrev pub end_disk :
      (calls : List (Call R.Float)) (d : Disk) (rs : List (SignedRecord R.Float))
      → AllMade calls d rs
      → Disk
  end_disk [] d rs a = d
  end_disk (call ∷ calls) d rs (m, a) = end_disk calls (some m.file) (rs ++ (m.r ∷ [])) a

  pub append_all-returns :
      (calls : List (Call R.Float)) (d : Disk) (rs : List (SignedRecord R.Float))
      (a : AllMade calls d rs)
      → append_all R C log calls d ≡ (ok tt, end_disk calls d rs a)
  unfolding append_all
  append_all-returns [] d rs a = refl
  append_all-returns (call ∷ calls) d rs (m, a) =
      ap (append_next R C (append_all R C log calls)) m.returns
      ∙ append_all-returns calls (some m.file) (rs ++ (m.r ∷ [])) a

  module _ (is_zero : R.Float → Bool) (clock : ℕ → R.Float × R.Float) where
    pub make_calls-returns :
        (i : ℕ) (requests : List (Text × Value R.Float)) (calls : List (Call R.Float)) (d : Disk)
        (rs : List (SignedRecord R.Float)) (a : AllMade calls d rs)
        → Forwards R is_zero clock i requests calls
        → (receipts : List Receipt) × (make_calls R is_zero C clock log i requests d
            ≡ (ok receipts, end_disk calls d rs a))
    unfolding make_calls
    make_calls-returns i [] [] d rs a f = ([], refl)
    make_calls-returns i [] (call ∷ calls) d rs a f = elim f [ ]
    make_calls-returns i (request ∷ requests) [] d rs a f = elim f [ ]
    make_calls-returns i ((method, params) ∷ requests) (call ∷ calls) d rs (m, a) (fs, h, f) =
        let (receipts, more) =
          make_calls-returns (i + 1) requests calls (some m.file) (rs ++ (m.r ∷ [])) a f in
        let handled =
          handle-returns R C log (mock_upstream R is_zero) (request_of method params (int (pos i)))
            (clock i).0 (clock i).1 d (some m.file) fs call m.r m.receipt h m.returns in
        (
          m.receipt ∷ receipts,
          ap (after_call (make_calls R is_zero C clock log (i + 1) requests)) handled
              ∙ ap (add_receipt m.receipt) more,
        )
