-- ===== src/Entry/RoundTrip.antt =====
-- entry.py: `from_dict` behind `to_dict` and behind the canonical bytes.
use mcp_attest.Base.{◌≡◌, refl, sym, ap, ◌∙◌, none, some, Option, [], arith}
use mcp_attest.Base.Int.{ℤ}
use mcp_attest.Base.Text.{Text, Bytes, text_eq, text_le, contains}
use mcp_attest.Errors.{ok, ◌>>=◌}
use mcp_attest.Errors.Laws.{ok-injective}
use mcp_attest.Runtime.{Runtime, IsLawful}
use mcp_attest.Value.Keys.{HasDistinctKeys}
use mcp_attest.Json.Sort.{sort_keys, insert_field}
use mcp_attest.Json.Parse.RoundTrip.{json_form}
use mcp_attest.Json.RoundTrip.{canonical_form}
use mcp_attest.Canonical
use mcp_attest.Canonical.RoundTrip.{loads-dumps, dumps-injective}
use mcp_attest.Entry.{
  EntryStatus, ok_status, error_status, AttestationEntry, SignedRecord, Receipt, SignedTreeHead,
  entry_to_dict, record_to_dict, receipt_to_dict, sth_payload, sth_to_dict, entry_bytes,
  record_bytes, sth_bytes,
}
use mcp_attest.Entry.FromDict.{entry_from_dict, record_from_dict, receipt_from_dict, sth_from_dict}

module _ {F : Type 0} where
  -- An entry with the two fields given on which the code branches.
  abbrev with_branches : AttestationEntry F → Option Text → EntryStatus → AttestationEntry F
  with_branches e t s = record e { tool_name = t; status = s }

  entry_branches-Distinct :
      (e : AttestationEntry F) (t : Option Text) (s : EntryStatus) (signature : Text)
      → HasDistinctKeys
          (record_to_dict (record { entry = with_branches e t s; signature = signature }))
  unfolding record_to_dict HasDistinctKeys contains text_eq
  entry_branches-Distinct e none s signature = ground arith
  entry_branches-Distinct e (some t) s signature = ground arith

  pub record_to_dict-Distinct : (r : SignedRecord F) → HasDistinctKeys (record_to_dict r)
  record_to_dict-Distinct r =
      entry_branches-Distinct r.entry r.entry.tool_name r.entry.status r.signature

  pub entry_to_dict-Distinct : (e : AttestationEntry F) → HasDistinctKeys (entry_to_dict e)
  unfolding record_to_dict HasDistinctKeys
  entry_to_dict-Distinct e = (record_to_dict-Distinct (record { entry = e; signature = [] })).1.0

  pub sth_payload-Distinct : (n : ℤ) (h : Text) (t : F) → HasDistinctKeys (sth_payload n h t)
  unfolding sth_payload HasDistinctKeys contains text_eq
  sth_payload-Distinct n h t = ground arith

module _ (R : Runtime) where
  record_branches :
      (e : AttestationEntry R.Float) (t : Option Text) (s : EntryStatus) (signature : Text)
      → let r : SignedRecord R.Float = record {
        entry = with_branches e t s;
        signature = signature;
      } in
        (record_from_dict R (record_to_dict r) ≡ ok r)
        × (record_from_dict R (canonical_form (record_to_dict r)) ≡ ok r)
  unfolding record_from_dict record_to_dict canonical_form sort_keys insert_field json_form text_le
  record_branches e none ok_status signature = (refl, refl)
  record_branches e none error_status signature = (refl, refl)
  record_branches e (some t) ok_status signature = (refl, refl)
  record_branches e (some t) error_status signature = (refl, refl)

  -- `from_dict` of the `to_dict` of a record is the record, and it still is if the dict is first brought
  -- into canonical form, with sorted keys.
  pub record_from_dict-to_dict :
      (r : SignedRecord R.Float)
      → (record_from_dict R (record_to_dict r) ≡ ok r)
        × (record_from_dict R (canonical_form (record_to_dict r)) ≡ ok r)
  record_from_dict-to_dict r = record_branches r.entry r.entry.tool_name r.entry.status r.signature

  entry_branches :
      (e : AttestationEntry R.Float) (t : Option Text) (s : EntryStatus)
      → let e' = with_branches e t s in
        (entry_from_dict R (entry_to_dict e') ≡ ok e')
        × (entry_from_dict R (canonical_form (entry_to_dict e')) ≡ ok e')
  unfolding entry_from_dict entry_to_dict canonical_form sort_keys insert_field json_form text_le
  entry_branches e none ok_status = (refl, refl)
  entry_branches e none error_status = (refl, refl)
  entry_branches e (some t) ok_status = (refl, refl)
  entry_branches e (some t) error_status = (refl, refl)

  pub entry_from_dict-to_dict :
      (e : AttestationEntry R.Float)
      → (entry_from_dict R (entry_to_dict e) ≡ ok e)
        × (entry_from_dict R (canonical_form (entry_to_dict e)) ≡ ok e)
  entry_from_dict-to_dict e = entry_branches e e.tool_name e.status

  pub receipt_from_dict-to_dict :
      (r : Receipt) → receipt_from_dict R (receipt_to_dict {F = R.Float} r) ≡ ok r
  unfolding receipt_from_dict receipt_to_dict
  receipt_from_dict-to_dict r = refl

  pub sth_from_dict-to_dict : (h : SignedTreeHead R.Float) → sth_from_dict R (sth_to_dict h) ≡ ok h
  unfolding sth_from_dict sth_to_dict
  sth_from_dict-to_dict h = refl

  -- The payload determines what an STH claims.
  pub sth_payload-injective :
      (n m : ℤ) (g h : Text) (t u : R.Float)
      → canonical_form (sth_payload n g t) ≡ canonical_form (sth_payload m h u)
      → (n ≡ m) × (g ≡ h) × (t ≡ u)
  unfolding sth_payload canonical_form sort_keys insert_field json_form text_le
  sth_payload-injective n m g h t u e = ground arith

module _ (R : Runtime) (L : IsLawful R) where
  -- The canonical bytes of a record, parsed, are the record.
  pub record_from_bytes :
      (r : SignedRecord R.Float) (bs : Bytes)
      → record_bytes R r ≡ ok bs
      → (Canonical.loads R bs >>= record_from_dict R) ≡ ok r
  unfolding record_bytes
  record_from_bytes r bs h =
      rw (loads-dumps R L (record_to_dict r) bs (record_to_dict-Distinct r) h)
        (record_from_dict-to_dict R r).1

  -- No two records have the same canonical bytes.
  pub record_bytes-injective :
      (r s : SignedRecord R.Float) (bs : Bytes)
      → record_bytes R r ≡ ok bs
      → record_bytes R s ≡ ok bs
      → r ≡ s
  record_bytes-injective r s bs h k =
      ok-injective (sym (record_from_bytes r bs h) ∙ record_from_bytes s bs k)

  -- No two entries have the same canonical bytes: a signature is over one entry only.
  pub entry_bytes-injective :
      (d e : AttestationEntry R.Float) (bs : Bytes)
      → entry_bytes R d ≡ ok bs
      → entry_bytes R e ≡ ok bs
      → d ≡ e
  unfolding entry_bytes
  entry_bytes-injective d e bs h k =
      let same =
        dumps-injective R L (entry_to_dict d) (entry_to_dict e) bs (entry_to_dict-Distinct d)
          (entry_to_dict-Distinct e) h k in
      ok-injective (
        sym (entry_from_dict-to_dict R d).1
        ∙ ap (entry_from_dict R) same
        ∙ (entry_from_dict-to_dict R e).1)

  -- Two tree heads with the same signed bytes claim the same length, head hash and time.
  pub sth_bytes-injective :
      (g h : SignedTreeHead R.Float) (bs : Bytes)
      → sth_bytes R g ≡ ok bs
      → sth_bytes R h ≡ ok bs
      → (g.chain_length ≡ h.chain_length)
        × (g.head_hash ≡ h.head_hash)
        × (g.timestamp ≡ h.timestamp)
  unfolding sth_bytes
  sth_bytes-injective g h bs p q = sth_payload-injective R _ _ _ _ _ _ (
      dumps-injective R L _ _ bs (sth_payload-Distinct g.chain_length g.head_hash g.timestamp)
        (sth_payload-Distinct h.chain_length h.head_hash h.timestamp) p q)
