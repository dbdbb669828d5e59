-- ===== src/Examples/Demo/Calls.antt =====
-- examples/demo.py: the calls of `_make_calls` and of `_build_forked_log`, which can be attested.
use mcp_attest.Base.{ℕ, ◌≡◌, refl, Bool, true, none, some, List, [], ◌∷◌, arith}
use mcp_attest.Base.Int.{pos}
use mcp_attest.Base.Text.{Text, codes, text_eq, contains}
use mcp_attest.Base.Decimal.{decimal, digits_onto}
use mcp_attest.Runtime.{Runtime}
use mcp_attest.Value.{Value, Fields, no_fields, field, null, int, dict}
use mcp_attest.Value.Dict.{get}
use mcp_attest.Value.Convert.{to_str, to_int}
use mcp_attest.Value.Convert.Repr.{int_repr, repr}
use mcp_attest.Json.Ascii.Check.{encodable}
use mcp_attest.Log.Writer.{Call, extract_tool_name, tool_name_of}
use mcp_attest.Proxy.{
  forward, read_request, stringify_request_id, attested_call, attested_payload, response_fields,
  response_status,
}
use mcp_attest.Examples.Server.{
  tools, ok_response, err_response, text_content, fail_message, handle_request, tools_call,
  call_add, call_echo, subscript, get_of, or_empty, truth,
}
use mcp_attest.Base.Int.{negsuc}
use mcp_attest.Examples.Tamper.{echo_params}
use mcp_attest.Examples.Demo.{add_params, fail_params, demo_calls, forked_calls}
use mcp_attest.Examples.Sequence.{can_attest, AllCan, Forwards}

module _ (R : Runtime) where
  module _ (clock : ℕ → R.Float × R.Float) where
    abbrev attested : ℕ → Text → Text → Value R.Float → Fields R.Float → Call R.Float
    attested i id method params fs = attested_call R (method, id, params) (clock i).0 (clock i).1 fs

    abbrev pub result1 : Fields R.Float
    result1 = ok_response (int (pos 1)) (text_content (codes "5"))

    abbrev pub result2 : Fields R.Float
    result2 = ok_response (int (pos 2)) (text_content (codes "hello"))

    abbrev pub result3 : Fields R.Float
    result3 = ok_response (int (pos 3)) (dict (field (codes "tools") tools no_fields))

    abbrev pub third_call : Call R.Float
    third_call = attested 3 (codes "3") (codes "tools/list") null result3

    abbrev pub result4 : Fields R.Float
    result4 = err_response (int (pos 4)) (negsuc 31999) fail_message

    abbrev pub result5 : Fields R.Float
    result5 = ok_response (int (pos 5)) (text_content (codes "300"))

    -- The calls of `append` that the proxy makes.
    abbrev pub proxied_calls : List (Call R.Float)
    proxied_calls =
        attested 1 (codes "1") (codes "tools/call") (add_params 2 3) result1
        ∷ attested 2 (codes "2") (codes "tools/call") (echo_params (codes "hello")) result2
        ∷ third_call
        ∷ attested 4 (codes "4") (codes "tools/call") fail_params result4
        ∷ attested 5 (codes "5") (codes "tools/call") (add_params 100 200) result5
        ∷ []

    abbrev IsTime : ℕ → Type 0
    IsTime i = (R.is_finite (clock i).0 ≡ true) × (R.is_finite (clock i).1 ≡ true)

    pub proxied_calls-AllCan :
        ((i : ℕ) → (R.is_finite (clock i).0 ≡ true) × (R.is_finite (clock i).1 ≡ true))
        → AllCan R proxied_calls 0
    unfolding attested_call attested_payload response_status contains text_eq get encodable int_repr
        decimal digits_onto extract_tool_name tool_name_of to_str
    proxied_calls-AllCan time = (
      can_attest R _ 0 (codes "0") (some (codes "add")) refl refl (time 1).0 (time 1).1 refl
          (ground arith),
      (
        can_attest R _ 1 (codes "1") (some (codes "echo")) refl refl (time 2).0 (time 2).1 refl
            (ground arith),
        (
          can_attest R _ 2 (codes "2") none refl refl (time 3).0 (time 3).1 refl (ground arith),
          (
            can_attest R _ 3 (codes "3") (some (codes "fail")) refl refl (time 4).0 (time 4).1 refl
                (ground arith),
            (
              can_attest R _ 4 (codes "4") (some (codes "add")) refl refl (time 5).0 (time 5).1 refl
                  (ground arith),
              tt,
            ),
          ),
        ),
      ),
    )

    -- `handle` forwards the requests of the demo to the mock server, and makes these calls of the answers.
    pub demo_calls-Forwards :
        (is_zero : R.Float → Bool) → Forwards R is_zero clock 1 demo_calls proxied_calls
    unfolding forward read_request stringify_request_id response_fields handle_request tools_call
        call_add call_echo subscript get_of or_empty truth to_int to_str repr int_repr decimal
        digits_onto get text_eq contains
    demo_calls-Forwards is_zero =
        (result1, refl, (result2, refl, (result3, refl, (result4, refl, (result5, refl, tt)))))

  pub forked_calls-AllCan :
      (literal : Text → R.Float)
      → ((s : Text) → R.is_finite (literal s) ≡ true)
      → AllCan R (forked_calls R literal) 0
  unfolding contains text_eq get encodable int_repr decimal digits_onto extract_tool_name
      tool_name_of to_str
  forked_calls-AllCan literal finite = (
    can_attest R _ 0 (codes "0") (some (codes "add")) refl refl (finite (codes "1.0"))
        (finite (codes "1.1")) refl (ground arith),
    (
      can_attest R _ 1 (codes "1") (some (codes "echo")) refl refl (finite (codes "2.0"))
          (finite (codes "2.1")) refl (ground arith),
      (
        can_attest R _ 2 (codes "2") none refl refl (finite (codes "3.0")) (finite (codes "3.1"))
            refl (ground arith),
        (
          can_attest R _ 3 (codes "3") (some (codes "echo")) refl refl (finite (codes "4.0"))
              (finite (codes "4.1")) refl (ground arith),
          (
            can_attest R _ 4 (codes "4") (some (codes "add")) refl refl (finite (codes "5.0"))
                (finite (codes "5.1")) refl (ground arith),
            tt,
          ),
        ),
      ),
    ),
  )
