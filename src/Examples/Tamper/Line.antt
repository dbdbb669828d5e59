-- ===== src/Examples/Tamper/Line.antt =====
-- scripts/tamper_attack.py: the edit of a canonical line whose texts are printable ASCII.
use mcp_attest.Base.{◌<◌, ◌≡◌, refl, sym, ap, ◌∙◌, true, Option, none, some, [], ◌∷◌, arith, All}
use mathlib.Core.Path.{subst}
use mcp_attest.Base.Text.{Text, Bytes, text_eq, text_le}
use mcp_attest.Errors.{Result, ok, ◌>>=◌}
use mcp_attest.Errors.Laws.{ok-injective}
use mcp_attest.Runtime.{Runtime, IsLawful}
use mcp_attest.Value.{Value}
use mcp_attest.Value.Dict.{get, set}
use mcp_attest.Json
use mcp_attest.Json.Sort.{sort_keys, insert_field}
use mcp_attest.Json.Plain.{IsPlain}
use mcp_attest.Json.RoundTrip.{canonical_form, loads-dumps}
use mcp_attest.Json.Parse.RoundTrip.{json_form}
use mcp_attest.Json.Ascii.{ascii_encode, compact_separators}
use mcp_attest.Json.Ascii.Agrees.{IsAscii, encode-ascii_encode}
use mcp_attest.Utf8
use mcp_attest.Canonical.RoundTrip.{dumps-eq-ok}
use mcp_attest.Entry.{
  SignedRecord, ok_status, error_status, EntryStatus, record_to_dict, entry_to_dict, record_bytes,
  optional_str, status_text,
}
use mcp_attest.Entry.RoundTrip.{record_to_dict-Distinct}
use mcp_attest.Examples.Tamper.{set_result_hash, assign, edit_line}

abbrev pub OptionalPlain : Option Text → Type 0
OptionalPlain none = Unit
OptionalPlain (some s) = All IsPlain s

-- The texts of a record are printable ASCII, and its times are finite.
pub record HasAsciiTexts (R : Runtime) (r : SignedRecord R.Float) : Type 0 where
  pub prev_hash : All IsPlain r.entry.prev_hash
  pub ts_request : R.is_finite r.entry.ts_request ≡ true
  pub ts_response : R.is_finite r.entry.ts_response ≡ true
  pub server_id : All IsPlain r.entry.server_id
  pub request_id : All IsPlain r.entry.request_id
  pub method : All IsPlain r.entry.method
  pub tool_name : OptionalPlain r.entry.tool_name
  pub params_hash : All IsPlain r.entry.params_hash
  pub result_hash : All IsPlain r.entry.result_hash
  pub signature : All IsPlain r.signature

module _ {F : Type 0} where
  -- The record with another result hash.
  abbrev pub with_result_hash : Text → SignedRecord F → SignedRecord F
  with_result_hash hash r = record r { entry = record r.entry { result_hash = hash } }

  set_result_hash-canonical_form :
      (hash : Text) (r : SignedRecord F)
      → set_result_hash hash (canonical_form (record_to_dict r))
        ≡ ok (canonical_form (record_to_dict (with_result_hash hash r)))
  unfolding set_result_hash assign get set canonical_form json_form sort_keys insert_field text_le
      text_eq record_to_dict entry_to_dict
  set_result_hash-canonical_form hash r = refl

  optional_str-canonical :
      (t : Option Text)
      → sort_keys (json_form (sort_keys (optional_str {F = F} t))) ≡ optional_str t
  unfolding json_form sort_keys
  optional_str-canonical none = refl
  optional_str-canonical (some s) = refl

  sort_keys-canonical_form :
      (r : SignedRecord F)
      → sort_keys (canonical_form (record_to_dict r)) ≡ sort_keys (record_to_dict r)
  unfolding canonical_form json_form sort_keys insert_field text_le record_to_dict entry_to_dict
  sort_keys-canonical_form r = by_tool r.entry.tool_name refl
    where
      by_tool :
          (t : Option Text)
          → r.entry.tool_name ≡ t
          → sort_keys (canonical_form (record_to_dict r)) ≡ sort_keys (record_to_dict r)
      by_tool none e = rw e refl
      by_tool (some s) e = rw e refl

pub utf8-plain : (s : Text) → All (λ c. c < 128) s → Utf8.encode s ≡ ok s
unfolding Utf8.encode Utf8.encode_char
utf8-plain [] h = refl
utf8-plain (c ∷ s) (h, hs) = ground (arith, utf8-plain s hs)

pub plain-below : (s : Text) → All IsPlain s → All (λ c. c < 128) s
plain-below [] h = tt
plain-below (c ∷ s) (h, hs) = (omega arith, plain-below s hs)

module _ (R : Runtime) where
  status-IsPlain : (s : EntryStatus) → All IsPlain (status_text s)
  status-IsPlain ok_status = ground arith
  status-IsPlain error_status = ground arith

  tool_name-IsAscii : (t : Option Text) → OptionalPlain t → IsAscii R (sort_keys (optional_str t))
  unfolding IsAscii sort_keys
  tool_name-IsAscii none h = tt
  tool_name-IsAscii (some s) h = h

  record-IsAscii :
      (r : SignedRecord R.Float) → HasAsciiTexts R r → IsAscii R (sort_keys (record_to_dict r))
  unfolding IsAscii sort_keys insert_field text_le record_to_dict entry_to_dict
  record-IsAscii r h =
      let name = tool_name-IsAscii r.entry.tool_name h.tool_name in
      let status = status-IsPlain r.entry.status in
      (
        ground arith,
        (
          (
            ground arith,
            (
              h.method,
              (
                ground arith,
                (
                  h.params_hash,
                  (
                    ground arith,
                    (
                      h.prev_hash,
                      (
                        ground arith,
                        (
                          h.request_id,
                          (
                            ground arith,
                            (
                              h.result_hash,
                              (
                                ground arith,
                                (
                                  tt,
                                  (
                                    ground arith,
                                    (
                                      h.server_id,
                                      (
                                        ground arith,
                                        (
                                          status,
                                          (
                                            ground arith,
                                            (
                                              name,
                                              (
                                                ground arith,
                                                (h.ts_request, (ground arith, (h.ts_response, tt))),
                                              ),
                                            ),
                                          ),
                                        ),
                                      ),
                                    ),
                                  ),
                                ),
                              ),
                            ),
                          ),
                        ),
                      ),
                    ),
                  ),
                ),
              ),
            ),
          ),
          (ground arith, (h.signature, tt)),
        ),
      )

module _ (R : Runtime) (L : IsLawful R) where
  -- The canonical line of such a record, as text, is its bytes, and both encoders write it.
  pub line_texts :
      (r : SignedRecord R.Float) (line : Bytes)
      → HasAsciiTexts R r
      → record_bytes R r ≡ ok line
      → (Json.dumps R (record_to_dict r) ≡ ok line)
        × (ascii_encode R compact_separators (sort_keys (record_to_dict r)) ≡ ok line)
        × All IsPlain line
  unfolding record_bytes Json.dumps
  line_texts r line h k =
      let (text, dumped, encoded) = dumps-eq-ok R (record_to_dict r) line k in
      let (same, plain) =
        encode-ascii_encode R L (sort_keys (record_to_dict r)) text (record-IsAscii R r h) dumped in
      let is : text ≡ line =
        ok-injective (sym (utf8-plain text (plain-below text plain)) ∙ encoded) in
      (dumped ∙ ap ok is, same ∙ ap ok is, subst (All IsPlain) is plain)

  -- The edit of the canonical line of a record gives that of the record with the other hash.
  pub edit_line-canonical :
      (hash : Text) (r : SignedRecord R.Float) (line line' : Bytes)
      → HasAsciiTexts R r
      → HasAsciiTexts R (with_result_hash hash r)
      → record_bytes R r ≡ ok line
      → record_bytes R (with_result_hash hash r) ≡ ok line'
      → edit_line R hash line ≡ ok line'
  unfolding edit_line
  edit_line-canonical hash r line line' h h' k k' =
      let r' = with_result_hash hash r in
      let (dumped, _, _) = line_texts r line h k in
      let (_, encoded, _) = line_texts r' line' h' k' in
      let write : Value R.Float → Result Text =
        λ v. ascii_encode R compact_separators (sort_keys v) in
      ap (λ (m : Result (Value R.Float)). m >>= λ v. set_result_hash hash v >>= write)
        (loads-dumps R L (record_to_dict r) line (record_to_dict-Distinct r) dumped)
      ∙ ap (λ (m : Result (Value R.Float)). m >>= write) (set_result_hash-canonical_form hash r)
      ∙ ap (ascii_encode R compact_separators) (sort_keys-canonical_form r')
      ∙ encoded
