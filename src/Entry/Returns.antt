-- ===== src/Entry/Returns.antt =====
-- Which entries and records have canonical bytes.
use mcp_attest.Base.{◌≡◌, true, Option, none, some, arith, All}
use mcp_attest.Base.Text.{Text, Bytes}
use mcp_attest.Errors.{ok}
use mcp_attest.Runtime.{Runtime, IsLawful}
use mcp_attest.Value.{int}
use mcp_attest.Json.Returns.{IsScalar, IsEncodable}
use mcp_attest.Canonical.Returns.{dumps-returns}
use mcp_attest.Entry.{
  EntryStatus, ok_status, error_status, status_text, AttestationEntry, SignedRecord, optional_str,
  entry_to_dict, record_to_dict, entry_bytes, record_bytes,
}

abbrev pub AllOptional : Option Text → Type 0
AllOptional none = Unit
AllOptional (some s) = All IsScalar s

module _ (R : Runtime) where
  -- The fields that canonical JSON can write.
  pub record IsWritable (e : AttestationEntry R.Float) : Type 0 where
    pub seq : IsEncodable R (int e.seq)
    pub prev_hash : All IsScalar e.prev_hash
    pub ts_request : R.is_finite e.ts_request ≡ true
    pub ts_response : R.is_finite e.ts_response ≡ true
    pub server_id : All IsScalar e.server_id
    pub request_id : All IsScalar e.request_id
    pub method : All IsScalar e.method
    pub tool_name : AllOptional e.tool_name
    pub params_hash : All IsScalar e.params_hash
    pub result_hash : All IsScalar e.result_hash

  optional_str-IsEncodable : (o : Option Text) → AllOptional o → IsEncodable R (optional_str o)
  unfolding IsEncodable
  optional_str-IsEncodable none h = tt
  optional_str-IsEncodable (some s) h = h

  status-IsEncodable : (s : EntryStatus) → All IsScalar (status_text s)
  status-IsEncodable ok_status = ground arith
  status-IsEncodable error_status = ground arith

  entry_to_dict-IsEncodable :
      (e : AttestationEntry R.Float) → IsWritable e → IsEncodable R (entry_to_dict e)
  unfolding entry_to_dict IsEncodable
  entry_to_dict-IsEncodable e w = (
    ground arith,
    (
      w.seq,
      (
        ground arith,
        (
          w.prev_hash,
          (
            ground arith,
            (
              w.ts_request,
              (
                ground arith,
                (
                  w.ts_response,
                  (
                    ground arith,
                    (
                      w.server_id,
                      (
                        ground arith,
                        (
                          w.request_id,
                          (
                            ground arith,
                            (
                              w.method,
                              (
                                ground arith,
                                (
                                  optional_str-IsEncodable e.tool_name w.tool_name,
                                  (
                                    ground arith,
                                    (
                                      w.params_hash,
                                      (
                                        ground arith,
                                        (
                                          w.result_hash,
                                          (ground arith, (status-IsEncodable e.status, tt)),
                                        ),
                                      ),
                                    ),
                                  ),
                                ),
                              ),
                            ),
                          ),
                        ),
                      ),
                    ),
                  ),
                ),
              ),
            ),
          ),
        ),
      ),
    ),
  )

  record_to_dict-IsEncodable :
      (r : SignedRecord R.Float)
      → IsWritable r.entry
      → All IsScalar r.signature
      → IsEncodable R (record_to_dict r)
  unfolding record_to_dict IsEncodable
  record_to_dict-IsEncodable r w h =
      (ground arith, (entry_to_dict-IsEncodable r.entry w, (ground arith, (h, tt))))

module _ (R : Runtime) (L : IsLawful R) where
  pub entry_bytes-returns :
      (e : AttestationEntry R.Float) → IsWritable R e → (bs : Bytes) × (entry_bytes R e ≡ ok bs)
  unfolding entry_bytes
  entry_bytes-returns e w = dumps-returns R L (entry_to_dict e) (entry_to_dict-IsEncodable R e w)

  pub record_bytes-returns :
      (r : SignedRecord R.Float)
      → IsWritable R r.entry
      → All IsScalar r.signature
      → (bs : Bytes) × (record_bytes R r ≡ ok bs)
  unfolding record_bytes
  record_bytes-returns r w h =
      dumps-returns R L (record_to_dict r) (record_to_dict-IsEncodable R r w h)
