-- ===== src/Examples/Post.antt =====
-- examples/mock_mcp_server.py: the body of `do_POST`.
use mcp_attest.Base.{Bool, [], ◌∷◌, if◌then◌else◌}
use mcp_attest.Base.Text.{Bytes, codes}
use mcp_attest.Errors.{
  ErrorClass, Result, ok, raised, ◌>>=◌, is_instance, attribute_error, json_decode_error,
}
use mcp_attest.Runtime.{Runtime}
use mcp_attest.Value.{Value, dict}
use mcp_attest.Json
use mcp_attest.Utf8
use mcp_attest.Json.Ascii.{ascii_encode, default_separators}
use mcp_attest.Examples.Server.{handle_request}

module _ (R : Runtime) (is_zero : R.Float → Bool) where
  -- What `do_POST` sends.
  pub data Reply : Type 0 where
    bad_request : Reply  -- 400
    sent : Bytes → Reply  -- 200
    broken : ErrorClass → Reply  -- an exception that ends the handler

  abbrev pub reply_with : Result Bytes → Reply
  reply_with (ok payload) = sent payload
  reply_with (raised e) = broken e

  -- The answer to a parsed body; what is no dict has no `get`.
  unfoldable pub respond : Value R.Float → Result Bytes
  unfolding handle_request
  respond (dict request) = do
    fs ← handle_request R is_zero request
    s ← ascii_encode R default_separators (dict fs)
    Utf8.encode s
  respond _ = raised attribute_error

  abbrev pub after_parse : Result (Value R.Float) → Reply
  after_parse (ok request) = reply_with (respond request)
  after_parse (raised e) = if is_instance e json_decode_error then bad_request else broken e

  abbrev body_or_empty : Bytes → Bytes
  body_or_empty [] = codes "{}"
  body_or_empty (b ∷ bs) = b ∷ bs

  -- do_POST, on a body of the length that the header names
  unfoldable pub do_post : Bytes → Reply
  do_post body = elim (Utf8.decode (body_or_empty body)) [
    | raised e ↦ broken e
    | ok s ↦ after_parse (Json.loads R s)
  ]
