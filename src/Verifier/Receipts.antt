-- ===== src/Verifier/Receipts.antt =====
-- verifier.py, `verify_receipt`, with the receipts that `append` (log.py) gives.
use mcp_attest.Base.{
  ◌≡◌, refl, sym, ap, ◌∙◌, ◌↔◌, ◌⊎◌, inl, inr, Bool, some, true, false, List, [], ◌∷◌, ◌++◌,
  append_assoc, length, get_elem?, get_elem?-append_length,
}
use mcp_attest.Base.Int.{pos}
use mcp_attest.Base.Text.{Text, Bytes, text_eq, text_eq_iff, text_eq_refl}
use mcp_attest.Base.Hex.{to_hex}
use mcp_attest.Errors.{
  ErrorClass, ok, require, or_raise, index_error, signature_invalid_error, hash_mismatch_error,
}
use mcp_attest.Errors.Laws.{>>=-eq-ok, ok-injective}
use mcp_attest.Runtime.{Runtime, IsLawful}
use mcp_attest.Value.{Value}
use mcp_attest.Value.Keys.{HasDistinctKeys}
use mcp_attest.Json.RoundTrip.{canonical_form}
use mcp_attest.Canonical
use mcp_attest.Canonical.RoundTrip.{dumps-injective}
use mcp_attest.Crypto.{Primitives, IsSound, public_key_from_private, hash_bytes}
use mcp_attest.Entry.{SignedRecord, Receipt, entry_hash}
use mcp_attest.Log.Reader.{Disk, AttestationLog, read_record}
use mcp_attest.Log.Writer.{Call, append, payload_hash}
use mcp_attest.Log.Append.{append-Appended}
use mcp_attest.Log.Read.{read_record-IsLog}
use mcp_attest.Verifier.{signature_valid, verify_receipt}
use mcp_attest.Verifier.Growth.{Written, Written-IsChain, append-seq, signature_valid-Appended}
use mcp_attest.Verifier.Tamper.{Collision, same_digest}

module _ (R : Runtime) (C : Primitives) where
  -- The canonical bytes of a value.
  abbrev pub IsCanonical : Value R.Float → Bytes → Type 0
  IsCanonical v bs = Canonical.dumps R v ≡ ok bs

  -- A record and a receipt that agree with a call.
  pub record Attested (receipt : Receipt) (params result_or_error : Value R.Float) (key : Bytes)
      (r : SignedRecord R.Float) : Type 0 where
    pub valid : signature_valid R C key r ≡ ok true
    pub same_params : payload_hash R C params ≡ ok r.entry.params_hash
    pub same_result : payload_hash R C result_or_error ≡ ok r.entry.result_hash
    pub same_hash : entry_hash R C r ≡ ok receipt.entry_hash
    pub same_signature : r.signature ≡ receipt.signature

  require-ok : (b : Bool) (e : ErrorClass) (u : Unit {0}) → require b e ≡ ok u → b ≡ true
  require-ok true e u h = refl
  require-ok false e u h = cc h

  attested :
      (receipt : Receipt) (params result_or_error : Value R.Float) (key : Bytes) (d : Disk)
      → verify_receipt R C receipt params result_or_error key d ≡ ok tt
      → (r : SignedRecord R.Float) × (read_record R receipt.seq d ≡ ok r)
        × Attested receipt params result_or_error key r
  unfolding verify_receipt
  attested receipt params result_or_error key d h =
      let (r, hr, h1) = >>=-eq-ok (read_record R receipt.seq d) _ h in
      let (valid, hv, h2) = >>=-eq-ok (signature_valid R C key r) _ h1 in
      let (u, hu, h3) = >>=-eq-ok (require valid signature_invalid_error) _ h2 in
      let (p, hp, h4) = >>=-eq-ok (payload_hash R C params) _ h3 in
      let (v, hv2, h5) =
        >>=-eq-ok (require (text_eq p r.entry.params_hash) hash_mismatch_error) _ h4 in
      let (q, hq, h6) = >>=-eq-ok (payload_hash R C result_or_error) _ h5 in
      let (w, hw, h7) =
        >>=-eq-ok (require (text_eq q r.entry.result_hash) hash_mismatch_error) _ h6 in
      let (t, ht, h8) = >>=-eq-ok (entry_hash R C r) _ h7 in
      let (x, hx, h9) =
        >>=-eq-ok (require (text_eq t receipt.entry_hash) hash_mismatch_error) _ h8 in
      (
        r,
        hr,
        record {
          valid = hv ∙ ap ok (require-ok valid _ u hu);
          same_params = hp ∙ ap ok ((text_eq_iff p r.entry.params_hash).0 (require-ok _ _ v hv2));
          same_result = hq ∙ ap ok ((text_eq_iff q r.entry.result_hash).0 (require-ok _ _ w hw));
          same_hash = ht ∙ ap ok ((text_eq_iff t receipt.entry_hash).0 (require-ok _ _ x hx));
          same_signature = (text_eq_iff r.signature receipt.signature).0 (require-ok _ _ tt h9);
        },
      )

  accepted_by :
      (receipt : Receipt) (params result_or_error : Value R.Float) (key : Bytes) (d : Disk)
      (r : SignedRecord R.Float)
      → read_record R receipt.seq d ≡ ok r
      → Attested receipt params result_or_error key r
      → verify_receipt R C receipt params result_or_error key d ≡ ok tt
  unfolding verify_receipt
  accepted_by receipt params result_or_error key d r hr a =
      let same : text_eq r.signature receipt.signature ≡ true =
        (text_eq_iff r.signature receipt.signature).1 a.same_signature in
      rw (
        hr,
        a.valid,
        a.same_params,
        text_eq_refl r.entry.params_hash,
        a.same_result,
        text_eq_refl r.entry.result_hash,
        a.same_hash,
        text_eq_refl receipt.entry_hash,
        same,
      )

  -- `verify_receipt` returns, without an exception, exactly when there is a record at the index of the receipt
  -- and it is signed under the key, has the hashes of the two payloads, and has the hash and the
  -- signature of the receipt.
  pub verify_receipt_iff :
      (receipt : Receipt) (params result_or_error : Value R.Float) (key : Bytes) (d : Disk)
      → (verify_receipt R C receipt params result_or_error key d ≡ ok tt) ↔ (
          (r : SignedRecord R.Float) × (read_record R receipt.seq d ≡ ok r)
          × Attested receipt params result_or_error key r)
  verify_receipt_iff receipt params result_or_error key d = (
    attested receipt params result_or_error key d,
    λ (r, hr, a). accepted_by receipt params result_or_error key d r hr a,
  )

module _ (R : Runtime) (L : IsLawful R) (C : Primitives) (S : IsSound C) where
  same_payload_hash :
      (v w : Value R.Float) (hash : Text)
      → HasDistinctKeys v
      → HasDistinctKeys w
      → payload_hash R C v ≡ ok hash
      → payload_hash R C w ≡ ok hash
      → (canonical_form v ≡ canonical_form w) ⊎ Collision C (IsCanonical R C v) (IsCanonical R C w)
  unfolding payload_hash
  same_payload_hash v w hash dv dw h k =
      let (a, ha, p) = >>=-eq-ok (Canonical.dumps R v) (λ bs. ok (to_hex (hash_bytes C bs))) h in
      let (b, hb, q) = >>=-eq-ok (Canonical.dumps R w) (λ bs. ok (to_hex (hash_bytes C bs))) k in
      elim (same_digest R L C S a b (ok-injective p ∙ sym (ok-injective q))) [
        | inl same ↦ inl (dumps-injective R L v w a dv dw ha (hb ∙ ap ok (sym same)))
        | inr (differ, collide) ↦ inr (a, b, ha, hb, differ, collide)
      ]

  -- A receipt fits one call only: two pairs of payloads, whose dicts have distinct keys, that it verifies
  -- against the same file are equal as canonical JSON, or else the canonical bytes of the two params, or of
  -- the two results, differ and have the same BLAKE2b digest.
  pub receipt_fits_one :
      (receipt : Receipt) (params result params' result' : Value R.Float) (key key' : Bytes)
      (d : Disk)
      → HasDistinctKeys params
      → HasDistinctKeys result
      → HasDistinctKeys params'
      → HasDistinctKeys result'
      → verify_receipt R C receipt params result key d ≡ ok tt
      → verify_receipt R C receipt params' result' key' d ≡ ok tt
      → ((canonical_form params ≡ canonical_form params')
          × (canonical_form result ≡ canonical_form result'))
        ⊎ (Collision C (IsCanonical R C params) (IsCanonical R C params')
            ⊎ Collision C (IsCanonical R C result) (IsCanonical R C result'))
  receipt_fits_one receipt params result params' result' key key' d dp dr dp' dr' h h' =
      let (r, hr, a) = attested R C receipt params result key d h in
      let (r', hr', a') = attested R C receipt params' result' key' d h' in
      let same : r' ≡ r = ok-injective (sym hr' ∙ hr) in
      let p = a'.same_params ∙ ap (λ (x : SignedRecord R.Float). ok x.entry.params_hash) same in
      let q = a'.same_result ∙ ap (λ (x : SignedRecord R.Float). ok x.entry.result_hash) same in
      elim (same_payload_hash params params' r.entry.params_hash dp dp' a.same_params p) [
        | inr found ↦ inr (inl found)
        | inl params_are ↦
            elim (same_payload_hash result result' r.entry.result_hash dr dr' a.same_result q) [
              | inr found ↦ inr (inr found)
              | inl results_are ↦ inl (params_are, results_are)
            ]
      ]

  -- A receipt stays good: the one that `append` gave for a call is verified, with the payloads of that
  -- call, in the file that it left and in every file to which that grows.
  pub verify_receipt-append :
      (log : AttestationLog) (call : Call R.Float) (d d' d'' : Disk)
      (rs ss : List (SignedRecord R.Float)) (r : SignedRecord R.Float) (receipt : Receipt)
      (key public : Bytes)
      → Written R L C S key d rs
      → log.private_key ≡ some key
      → public_key_from_private C key ≡ ok public
      → append R C log call d ≡ (ok (r, receipt), d')
      → Written R L C S key d'' ((rs ++ (r ∷ [])) ++ ss)
      → verify_receipt R C receipt call.params call.result_or_error public d'' ≡ ok tt
  verify_receipt-append log call d d' d'' rs ss r receipt key public w opened is_public h later =
      let whole = (rs ++ (r ∷ [])) ++ ss in
      let at : get_elem? whole (length rs) ≡ some r =
        ap (λ qs. get_elem? qs (length rs)) (append_assoc rs (r ∷ []) ss)
        ∙ get_elem?-append_length rs r ss in
      let (is_log, _) = Written-IsChain R L C S key public d'' whole later is_public in
      let (_, _, _, a, _, _) = append-Appended R C log call d d' r receipt h in
      let seq : receipt.seq ≡ pos (length rs) =
        a.receipt_seq ∙ append-seq R L C S log call d d' rs r receipt key public w is_public h in
      let found =
        ap (λ n. read_record R n d'') seq
        ∙ (read_record-IsLog R L d'' whole (length rs) is_log).1
        ∙ ap (or_raise index_error) at in
      accepted_by R C receipt call.params call.result_or_error public d'' r found (record {
        valid = signature_valid-Appended R L C S log call _ r receipt key public a opened is_public;
        same_params = a.params_hashed;
        same_result = a.result_hashed;
        same_hash = a.receipt_hash;
        same_signature = sym a.receipt_signature;
      })
