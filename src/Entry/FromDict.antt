-- ===== src/Entry/FromDict.antt =====
-- The four `from_dict` class methods.
use mcp_attest.Base.{Bool, true, ◌&&◌, Option, none, some, List, [], ◌∷◌, if◌then◌else◌}
use mcp_attest.Base.Text.{Text, codes, contains, text_eq}
use mcp_attest.Errors.{
  Result, ok, raised, ◌>>=◌, ◌>>◌, require, or_raise, value_error, key_error, attribute_error,
}
use mcp_attest.Runtime.{Runtime}
use mcp_attest.Value.{Value, Fields, null, str, dict}
use mcp_attest.Value.Dict.{keys, get}
use mcp_attest.Value.Convert.{to_int, to_float, to_str}
use mcp_attest.Entry.{
  EntryStatus, ok_status, error_status, AttestationEntry, SignedRecord, Receipt, SignedTreeHead,
}

-- Every key of the first list is in the second.
unfoldable pub all_in : List Text → List Text → Bool
unfolding contains text_eq
all_in [] ks = true
all_in (j ∷ js) ks = contains j ks && all_in js ks

module _ {F : Type 0} where
  -- `d.keys()`: only a dict has it.
  unfoldable pub fields_of : Value F → Result (Fields F)
  fields_of (dict fs) = ok fs
  fields_of _ = raised attribute_error

  -- Extra keys are refused first, then missing ones.
  unfoldable pub check_keys : List Text → Fields F → Result (Unit {0})
  unfolding all_in
  check_keys expected fs = do
    require (all_in (keys fs) expected) value_error
    require (all_in expected (keys fs)) value_error

  -- d[k]
  unfoldable pub at_key : Text → Fields F → Result (Value F)
  unfolding get text_eq
  at_key k fs = or_raise key_error (get k fs)

  unfoldable pub to_status : Value F → Result EntryStatus
  unfolding text_eq
  to_status (str s) =
      if text_eq s (codes "ok")
      then ok ok_status
      else if text_eq s (codes "error")
      then ok error_status
      else raised value_error
  to_status _ = raised value_error

abbrev pub entry_keys : List Text
entry_keys =
    codes "seq"
    ∷ codes "prev_hash"
    ∷ codes "ts_request"
    ∷ codes "ts_response"
    ∷ codes "server_id"
    ∷ codes "request_id"
    ∷ codes "method"
    ∷ codes "tool_name"
    ∷ codes "params_hash"
    ∷ codes "result_hash"
    ∷ codes "status"
    ∷ []

abbrev pub record_keys : List Text
record_keys = codes "entry" ∷ codes "signature" ∷ []

abbrev pub receipt_keys : List Text
receipt_keys = codes "seq" ∷ codes "entry_hash" ∷ codes "signature" ∷ codes "server_id" ∷ []

abbrev pub sth_keys : List Text
sth_keys = codes "chain_length" ∷ codes "head_hash" ∷ codes "timestamp" ∷ codes "signature" ∷ []

module _ (R : Runtime) where
  unfoldable pub to_optional_str : Value R.Float → Result (Option Text)
  unfolding to_str
  to_optional_str null = ok none
  to_optional_str v = do s ← to_str R v; ok (some s)

  -- AttestationEntry.from_dict
  unfoldable pub entry_from_dict : Value R.Float → Result (AttestationEntry R.Float)
  unfolding fields_of check_keys at_key to_status to_optional_str to_int to_float to_str
  entry_from_dict d = do
    fs ← fields_of d
    check_keys entry_keys fs
    status ← to_status (← at_key (codes "status") fs)
    seq ← to_int R (← at_key (codes "seq") fs)
    prev_hash ← to_str R (← at_key (codes "prev_hash") fs)
    ts_request ← to_float R (← at_key (codes "ts_request") fs)
    ts_response ← to_float R (← at_key (codes "ts_response") fs)
    server_id ← to_str R (← at_key (codes "server_id") fs)
    request_id ← to_str R (← at_key (codes "request_id") fs)
    method ← to_str R (← at_key (codes "method") fs)
    tool_name ← to_optional_str (← at_key (codes "tool_name") fs)
    params_hash ← to_str R (← at_key (codes "params_hash") fs)
    result_hash ← to_str R (← at_key (codes "result_hash") fs)
    ok (record {
      seq = seq;
      prev_hash = prev_hash;
      ts_request = ts_request;
      ts_response = ts_response;
      server_id = server_id;
      request_id = request_id;
      method = method;
      tool_name = tool_name;
      params_hash = params_hash;
      result_hash = result_hash;
      status = status;
    })

  -- SignedRecord.from_dict
  unfoldable pub record_from_dict : Value R.Float → Result (SignedRecord R.Float)
  unfolding entry_from_dict
  record_from_dict d = do
    fs ← fields_of d
    check_keys record_keys fs
    entry ← entry_from_dict (← at_key (codes "entry") fs)
    signature ← to_str R (← at_key (codes "signature") fs)
    ok (record { entry = entry; signature = signature })

  -- Receipt.from_dict
  unfoldable pub receipt_from_dict : Value R.Float → Result Receipt
  unfolding fields_of check_keys at_key to_int to_str
  receipt_from_dict d = do
    fs ← fields_of d
    check_keys receipt_keys fs
    seq ← to_int R (← at_key (codes "seq") fs)
    entry_hash ← to_str R (← at_key (codes "entry_hash") fs)
    signature ← to_str R (← at_key (codes "signature") fs)
    server_id ← to_str R (← at_key (codes "server_id") fs)
    ok (record { seq = seq; entry_hash = entry_hash; signature = signature; server_id = server_id })

  -- SignedTreeHead.from_dict
  unfoldable pub sth_from_dict : Value R.Float → Result (SignedTreeHead R.Float)
  unfolding fields_of check_keys at_key to_int to_float to_str
  sth_from_dict d = do
    fs ← fields_of d
    check_keys sth_keys fs
    chain_length ← to_int R (← at_key (codes "chain_length") fs)
    head_hash ← to_str R (← at_key (codes "head_hash") fs)
    timestamp ← to_float R (← at_key (codes "timestamp") fs)
    signature ← to_str R (← at_key (codes "signature") fs)
    ok (record {
      chain_length = chain_length;
      head_hash = head_hash;
      timestamp = timestamp;
      signature = signature;
    })
