-- ===== src/Entry.antt =====
-- entry.py: the four wire types, their dicts, bytes and hashes.
pub mod FromDict
pub mod RoundTrip
pub mod Returns
use mcp_attest.Base.{ℕ, Option, none, some, List, [], ◌∷◌}
use mcp_attest.Base.Int.{ℤ}
use mcp_attest.Base.Hex.{to_hex}
use mcp_attest.Base.Text.{Text, Bytes, codes}
use mcp_attest.Errors.{Result, ok, ◌>>=◌}
use mcp_attest.Runtime.{Runtime}
use mcp_attest.Value.{Value, Fields, no_fields, field, null, int, float, str, dict}
use mcp_attest.Crypto.{Primitives, hash_bytes}
use mcp_attest.Canonical
use mcp_attest.Utf8

pub data EntryStatus : Type 0 where
  ok_status error_status : EntryStatus

abbrev pub status_text : EntryStatus → Text
status_text ok_status = codes "ok"
status_text error_status = codes "error"

-- "00" * 32
abbrev pub zero_hash_hex : Text
zero_hash_hex = codes "0000000000000000000000000000000000000000000000000000000000000000"

-- `F` is the type of floats.
pub record AttestationEntry (F : Type 0) : Type 0 where
  pub seq : ℤ
  pub prev_hash : Text
  pub ts_request : F
  pub ts_response : F
  pub server_id : Text
  pub request_id : Text
  pub method : Text
  pub tool_name : Option Text
  pub params_hash : Text
  pub result_hash : Text
  pub status : EntryStatus

pub record SignedRecord (F : Type 0) : Type 0 where
  pub entry : AttestationEntry F
  pub signature : Text

pub record Receipt : Type 0 where
  pub seq : ℤ
  pub entry_hash : Text
  pub signature : Text
  pub server_id : Text

pub record SignedTreeHead (F : Type 0) : Type 0 where
  pub chain_length : ℤ
  pub head_hash : Text
  pub timestamp : F
  pub signature : Text

module _ {F : Type 0} where
  abbrev pub optional_str : Option Text → Value F
  optional_str none = null
  optional_str (some s) = str s

  -- AttestationEntry.to_dict
  unfoldable pub entry_to_dict : AttestationEntry F → Value F
  entry_to_dict e = dict (
      field (codes "seq") (int e.seq) (
        field (codes "prev_hash") (str e.prev_hash) (
          field (codes "ts_request") (float e.ts_request) (
            field (codes "ts_response") (float e.ts_response) (
              field (codes "server_id") (str e.server_id) (
                field (codes "request_id") (str e.request_id) (
                  field (codes "method") (str e.method) (
                    field (codes "tool_name") (optional_str e.tool_name) (
                      field (codes "params_hash") (str e.params_hash) (
                        field (codes "result_hash") (str e.result_hash)
                          (field (codes "status") (str (status_text e.status)) no_fields)))))))))))

  -- SignedRecord.to_dict
  unfoldable pub record_to_dict : SignedRecord F → Value F
  unfolding entry_to_dict
  record_to_dict r = dict (
      field (codes "entry") (entry_to_dict r.entry)
        (field (codes "signature") (str r.signature) no_fields))

  -- Receipt.to_dict
  unfoldable pub receipt_to_dict : Receipt → Value F
  receipt_to_dict r = dict (
      field (codes "seq") (int r.seq) (
        field (codes "entry_hash") (str r.entry_hash) (
          field (codes "signature") (str r.signature)
            (field (codes "server_id") (str r.server_id) no_fields))))

  -- the dict that `to_canonical_payload` and `emit_sth` sign
  unfoldable pub sth_payload : ℤ → Text → F → Value F
  sth_payload chain_length head_hash timestamp = dict (
      field (codes "chain_length") (int chain_length) (
        field (codes "head_hash") (str head_hash)
          (field (codes "timestamp") (float timestamp) no_fields)))

  -- SignedTreeHead.to_dict
  unfoldable pub sth_to_dict : SignedTreeHead F → Value F
  sth_to_dict h = dict (
      field (codes "chain_length") (int h.chain_length) (
        field (codes "head_hash") (str h.head_hash) (
          field (codes "timestamp") (float h.timestamp)
            (field (codes "signature") (str h.signature) no_fields))))

module _ (R : Runtime) where
  -- AttestationEntry.to_canonical_bytes
  unfoldable pub entry_bytes : AttestationEntry R.Float → Result Bytes
  entry_bytes e = Canonical.dumps R (entry_to_dict e)

  -- SignedRecord.to_canonical_bytes
  unfoldable pub record_bytes : SignedRecord R.Float → Result Bytes
  record_bytes r = Canonical.dumps R (record_to_dict r)

  -- SignedRecord.to_json_line
  unfoldable pub to_json_line : SignedRecord R.Float → Result Text
  to_json_line r = do bs ← record_bytes r; Utf8.decode bs

  -- SignedTreeHead.to_canonical_payload
  unfoldable pub sth_bytes : SignedTreeHead R.Float → Result Bytes
  sth_bytes h = Canonical.dumps R (sth_payload h.chain_length h.head_hash h.timestamp)

module _ (R : Runtime) (C : Primitives) where
  -- SignedRecord.entry_hash
  unfoldable pub entry_hash : SignedRecord R.Float → Result Text
  entry_hash r = do bs ← record_bytes R r; ok (to_hex (hash_bytes C bs))
