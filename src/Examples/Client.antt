-- ===== src/Examples/Client.antt =====
-- examples/mock_mcp_client.py: a call through the proxy in the process, and the body of a call over HTTP.
use mcp_attest.Base.Text.{Text, codes}
use mcp_attest.Errors.{Result, ◌>>=◌}
use mcp_attest.Runtime.{Runtime}
use mcp_attest.Value.{Value, Fields, no_fields, field, str, dict}
use mcp_attest.Crypto.{Primitives}
use mcp_attest.Entry.{Receipt}
use mcp_attest.Log.Reader.{Disk, AttestationLog}
use mcp_attest.Proxy.{handle}
use mcp_attest.Json.Ascii.{ascii_encode, default_separators}

module _ {F : Type 0} where
  -- `params` is a dict or None, `request_id` an int or a str.
  abbrev pub request_of : Text → Value F → Value F → Fields F
  request_of method params request_id = field (codes "jsonrpc") (str (codes "2.0")) (
      field (codes "id") request_id
        (field (codes "method") (str method) (field (codes "params") params no_fields)))

module _ (R : Runtime) (C : Primitives) where
  -- call_through_proxy
  abbrev pub call_through_proxy :
      AttestationLog
      → (Fields R.Float → Result (Value R.Float))
      → Text
      → Value R.Float
      → Value R.Float
      → R.Float
      → R.Float
      → Disk
      → Result (Fields R.Float × Receipt) × Disk
  call_through_proxy log upstream method params request_id ts_request ts_response d =
      handle R C log upstream (request_of method params request_id) ts_request ts_response d

  -- call_http. `post` sends a body and gives back the parsed body of the answer.
  unfoldable pub call_http :
      (Text → Result (Value R.Float))
      → Text
      → Value R.Float
      → Value R.Float
      → Result (Value R.Float)
  call_http post method params request_id = do
    content ← ascii_encode R default_separators (dict (request_of method params request_id))
    post content
