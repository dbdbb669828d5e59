-- ===== src/Examples/Server.antt =====
-- examples/mock_mcp_server.py: the answers of `handle_request`.
use mcp_attest.Base.{◌==◌, Bool, true, false, not, Option, none, some, [], ◌∷◌, ◌++◌, if◌then◌else◌}
use mcp_attest.Base.Int.{ℤ, pos, negsuc, ◌+ℤ◌}
use mcp_attest.Base.Text.{Text, codes, text_eq}
use mcp_attest.Errors.{Result, ok, raised, ◌>>=◌, or_raise, type_error, attribute_error, key_error}
use mcp_attest.Runtime.{Runtime}
use mcp_attest.Value.{
  Value, no_items, item, Fields, no_fields, field, null, bool, int, float, str, list, tuple, dict,
  foreign,
}
use mcp_attest.Value.Dict.{get}
use mcp_attest.Value.Convert.{to_str, to_int}
use mcp_attest.Value.Convert.Repr.{repr, int_repr}

abbrev pub fail_message : Text
fail_message = codes "tool 'fail' always fails (this is by design)"

module _ {F : Type 0} where
  abbrev field_of : Text → Value F → Fields F
  field_of k v = field k v no_fields

  -- _TOOLS
  abbrev pub tools : Value F
  tools = list (
      item
        (dict (
          field (codes "name") (str (codes "add")) (
            field (codes "description") (str (codes "Return a + b for two integers.")) (
              field_of (codes "inputSchema") (
                dict (
                  field (codes "type") (str (codes "object")) (
                    field (codes "properties")
                      (dict (
                        field (codes "a") (dict (field_of (codes "type") (str (codes "integer")))) (
                          field_of (codes "b")
                            (dict (field_of (codes "type") (str (codes "integer")))))))
                      (field_of (codes "required")
                        (list (item (str (codes "a")) (item (str (codes "b")) no_items)))))))))))
        (item
          (dict (
            field (codes "name") (str (codes "echo")) (
              field (codes "description") (str (codes "Return the text argument unchanged.")) (
                field_of (codes "inputSchema") (
                  dict (
                    field (codes "type") (str (codes "object")) (
                      field (codes "properties")
                        (dict (
                          field_of (codes "text")
                            (dict (field_of (codes "type") (str (codes "string"))))))
                        (field_of (codes "required")
                          (list (item (str (codes "text")) no_items))))))))))
          (item
            (dict (
              field (codes "name") (str (codes "fail")) (
                field (codes "description")
                  (str (codes "Always returns a JSON-RPC error (for testing error attestation)."))
                  (field_of (codes "inputSchema") (
                    dict (
                      field (codes "type") (str (codes "object"))
                        (field_of (codes "properties") (dict no_fields))))))))
            no_items)))

  -- _ok
  abbrev pub ok_response : Value F → Value F → Fields F
  ok_response request_id result =
      field (codes "jsonrpc") (str (codes "2.0"))
        (field (codes "id") request_id (field_of (codes "result") result))

  -- _err
  abbrev pub err_response : Value F → ℤ → Text → Fields F
  err_response request_id code message = field (codes "jsonrpc") (str (codes "2.0")) (
      field (codes "id") request_id (
        field_of (codes "error")
          (dict (field (codes "code") (int code) (field_of (codes "message") (str message))))))

  -- `{"content": [{"type": "text", "text": text}]}`
  abbrev pub text_content : Text → Value F
  text_content text = dict (
      field_of (codes "content") (
        list (
          item
            (dict (field (codes "type") (str (codes "text")) (field_of (codes "text") (str text))))
            no_items)))

  abbrev pub server_info : Value F
  server_info = dict (
      field (codes "protocolVersion") (str (codes "2024-11-05")) (
        field (codes "capabilities") (dict (field_of (codes "tools") (dict no_fields))) (
          field_of (codes "serverInfo") (
            dict (
              field (codes "name") (str (codes "mock-mcp-server"))
                (field_of (codes "version") (str (codes "0.1.0"))))))))

  -- `v == text`
  abbrev pub is_text : Option (Value F) → Text → Bool
  is_text (some (str s)) t = text_eq s t
  is_text _ t = false

  -- `arguments[k]`
  unfoldable pub subscript : Text → Value F → Result (Value F)
  subscript k (dict fs) = or_raise key_error (get k fs)
  subscript k _ = raised type_error

  -- `v.get(k)`, which only a dict has
  unfoldable pub get_of : Text → Value F → Result (Option (Value F))
  get_of k (dict fs) = ok (get k fs)
  get_of k _ = raised attribute_error

  abbrev pub or_value : Value F → Option (Value F) → Value F
  or_value v none = v
  or_value v (some w) = w

-- `is_zero` is the comparison of a float with zero.
module _ (R : Runtime) (is_zero : R.Float → Bool) where
  -- bool(v). An object of another type counts as true, as it does unless its class says otherwise.
  unfoldable pub truth : Value R.Float → Bool
  truth null = false
  truth (bool b) = b
  truth (int (pos n)) = not (n == 0)
  truth (int (negsuc n)) = true
  truth (float x) = not (is_zero x)
  truth (str []) = false
  truth (str (c ∷ s)) = true
  truth (list no_items) = false
  truth (list (item v xs)) = true
  truth (tuple no_items) = false
  truth (tuple (item v xs)) = true
  truth (dict no_fields) = false
  truth (dict (field k v fs)) = true
  truth (foreign s) = true

  -- `v or {}`
  unfoldable pub or_empty : Value R.Float → Value R.Float
  or_empty v = if truth v then v else dict no_fields

  unfoldable pub call_add : Value R.Float → Value R.Float → Result (Fields R.Float)
  unfolding subscript
  call_add request_id arguments = do
    a ← (do v ← subscript (codes "a") arguments; to_int R v)
    b ← (do v ← subscript (codes "b") arguments; to_int R v)
    text ← int_repr (a +ℤ b)
    ok (ok_response request_id (text_content text))

  unfoldable pub call_echo : Value R.Float → Value R.Float → Result (Fields R.Float)
  unfolding get_of
  call_echo request_id arguments = do
    v ← get_of (codes "text") arguments
    text ← to_str R (or_value (str []) v)
    ok (ok_response request_id (text_content text))

  -- The error -32601 with a message that ends with the `repr` of what was asked for.
  unfoldable pub not_found : Value R.Float → Text → Option (Value R.Float) → Result (Fields R.Float)
  not_found request_id message asked = do
    shown ← repr R (or_value null asked)
    ok (err_response request_id (negsuc 32600) (message ++ shown))

  abbrev pub choose_tool :
      Value R.Float → Option (Value R.Float) → Value R.Float → Result (Fields R.Float)
  choose_tool request_id name arguments =
      if is_text name (codes "add")
      then call_add request_id arguments
      else if is_text name (codes "echo")
      then call_echo request_id arguments
      else if is_text name (codes "fail")
      then ok (err_response request_id (negsuc 31999) fail_message)
      else not_found request_id (codes "unknown tool: ") name

  -- _tools_call
  unfoldable pub tools_call : Value R.Float → Value R.Float → Result (Fields R.Float)
  unfolding get_of or_empty
  tools_call request_id params = do
    name ← get_of (codes "name") params
    given ← get_of (codes "arguments") params
    choose_tool request_id name (or_empty (or_value (dict no_fields) given))

  -- handle_request
  unfoldable pub handle_request : Fields R.Float → Result (Fields R.Float)
  unfolding tools_call not_found or_empty get
  handle_request request =
      let method = get (codes "method") request in
      let request_id = or_value null (get (codes "id") request) in
      let params = or_empty (or_value null (get (codes "params") request)) in
      if is_text method (codes "initialize")
      then ok (ok_response request_id server_info)
      else if is_text method (codes "tools/list")
      then ok (ok_response request_id (dict (field_of (codes "tools") tools)))
      else if is_text method (codes "tools/call")
      then tools_call request_id params
      else not_found request_id (codes "method not found: ") method

  -- `handle_request` as the upstream of a proxy.
  abbrev pub mock_upstream : Fields R.Float → Result (Value R.Float)
  mock_upstream request = do fs ← handle_request request; ok (dict fs)
