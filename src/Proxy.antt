-- ===== src/Proxy.antt =====
-- proxy.py: `AttestingProxy`. The upstream is a parameter, a function that answers a request or raises;
-- the two readings of the clock are arguments.
pub mod Attested
use mcp_attest.Base.{Bool, true, false, Option, none, some, List, [], ◌∷◌, if◌then◌else◌}
use mcp_attest.Base.Text.{Text, Bytes, codes, contains, text_eq}
use mcp_attest.Errors.{Result, ok, raised, ◌>>=◌, type_error, attribute_error}
use mcp_attest.Runtime.{Runtime}
use mcp_attest.Value.{Value, Fields, null, bool, int, float, str, list, tuple, dict, foreign}
use mcp_attest.Value.Dict.{keys, get}
use mcp_attest.Value.Convert.{to_str}
use mcp_attest.Crypto.{Primitives}
use mcp_attest.Entry.{EntryStatus, ok_status, error_status, Receipt, SignedRecord}
use mcp_attest.Log.Reader.{AttestationLog, Disk}
use mcp_attest.Log.Writer.{Call, append}

module _ {F : Type 0} where
  -- d.get(k, default)
  abbrev pub get_default : Text → Value F → Fields F → Value F
  get_default k v fs = elim (get k fs) [ none ↦ v | some w ↦ w ]

  -- The operations on the response, which only a dict survives: `in` refuses some types, `get` the rest.
  unfoldable pub response_fields : Value F → Result (Fields F)
  response_fields (dict fs) = ok fs
  response_fields (str s) = raised attribute_error
  response_fields (list xs) = raised attribute_error
  response_fields (tuple xs) = raised attribute_error
  response_fields _ = raised type_error

  unfoldable pub response_status : Fields F → EntryStatus
  unfolding contains text_eq
  response_status fs = if contains (codes "result") (keys fs) then ok_status else error_status

  unfoldable pub attested_payload : Fields F → Value F
  unfolding get text_eq
  attested_payload fs = get_default (codes "result") (get_default (codes "error") null fs) fs

module _ (R : Runtime) where
  -- _stringify_request_id
  unfoldable pub stringify_request_id : Value R.Float → Result Text
  stringify_request_id null = ok (codes "<missing>")
  stringify_request_id v = to_str R v

  -- What `handle` reads from the request before it forwards it: method, id and params.
  unfoldable pub read_request : Fields R.Float → Result (Text × Text × Value R.Float)
  unfolding stringify_request_id get text_eq
  read_request request = do
    method ← to_str R (get_default (codes "method") (str []) request)
    request_id ← stringify_request_id (get_default (codes "id") null request)
    ok (method, request_id, get_default (codes "params") null request)

  -- The arguments of `append` for a request and the response to it.
  unfoldable pub attested_call :
      Text × Text × Value R.Float → R.Float → R.Float → Fields R.Float → Call R.Float
  unfolding response_status attested_payload
  attested_call (method, request_id, params) ts_request ts_response response = record {
    method = method;
    request_id = request_id;
    params = params;
    result_or_error = attested_payload response;
    status = response_status response;
    ts_request = ts_request;
    ts_response = ts_response;
  }

  -- The request read and forwarded, and the response in the form that `append` takes.
  unfoldable pub forward :
      (Fields R.Float → Result (Value R.Float))
      → Fields R.Float
      → R.Float
      → R.Float
      → Result (Fields R.Float × Call R.Float)
  unfolding read_request attested_call response_fields
  forward upstream request ts_request ts_response = do
    read ← read_request request
    response ← upstream request
    fs ← response_fields response
    ok (fs, attested_call read ts_request ts_response fs)

module _ (R : Runtime) (C : Primitives) where
  -- The response goes back with the receipt of the record that was appended.
  abbrev with_receipt :
      Fields R.Float
      → Result (SignedRecord R.Float × Receipt) × Disk
      → Result (Fields R.Float × Receipt) × Disk
  with_receipt fs (r, d) = ((do (_, receipt) ← r; ok (fs, receipt)), d)

  -- `d` is the file when the response has come back.
  unfoldable pub handle :
      AttestationLog
      → (Fields R.Float → Result (Value R.Float))
      → Fields R.Float
      → R.Float
      → R.Float
      → Disk
      → Result (Fields R.Float × Receipt) × Disk
  unfolding forward
  handle log upstream request ts_request ts_response d =
      elim (forward R upstream request ts_request ts_response) [
        | raised e ↦ (raised e, d)
        | ok (fs, call) ↦ with_receipt fs (append R C log call d)
      ]
