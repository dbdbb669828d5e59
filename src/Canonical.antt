-- ===== src/Canonical.antt =====
-- canonical.py
pub mod RoundTrip
pub mod Returns
use mcp_attest.Base.{◌≡◌, Bool, true, false, if◌then◌else◌}
use mcp_attest.Base.Text.{Bytes}
use mcp_attest.Errors.{
  Result, ok, raised, ◌>>=◌, ◌>>◌, require, translate, canonicalization_error, type_error,
  value_error, is_instance,
}
use mcp_attest.Runtime.{Runtime}
use mcp_attest.Value.{
  Value, Items, no_items, item, Fields, no_fields, field, null, bool, int, float, str, list, tuple,
  dict, foreign,
}
use mcp_attest.Crypto.{Primitives}
use mcp_attest.Json
use mcp_attest.Utf8

module _ (R : Runtime) where
  -- _reject_non_finite
  unfoldable mutual
    pub reject_non_finite : Value R.Float → Result (Unit {0})
    reject_non_finite (float x) = require (R.is_finite x) canonicalization_error
    reject_non_finite (dict fs) = reject_fields fs
    reject_non_finite (list xs) = reject_items xs
    reject_non_finite (tuple xs) = reject_items xs
    reject_non_finite null = ok tt
    reject_non_finite (bool b) = ok tt
    reject_non_finite (int n) = ok tt
    reject_non_finite (str s) = ok tt
    reject_non_finite (foreign s) = ok tt

    pub reject_items : Items R.Float → Result (Unit {0})
    reject_items no_items = ok tt
    reject_items (item v xs) = do reject_non_finite v; reject_items xs

    pub reject_fields : Fields R.Float → Result (Unit {0})
    reject_fields no_fields = ok tt
    reject_fields (field k v fs) = do reject_non_finite v; reject_fields fs

  unfoldable pub dumps : Value R.Float → Result Bytes
  dumps v = do
    reject_non_finite v
    translate type_error value_error canonicalization_error do s ← Json.dumps R v; Utf8.encode s

  unfoldable pub loads : Bytes → Result (Value R.Float)
  loads bs = do s ← Utf8.decode bs; Json.loads R s

module _ (R : Runtime) (C : Primitives) where
  unfoldable pub hash : Value R.Float → Result Bytes
  hash v = do bs ← dumps R v; ok (C.blake2b bs)
