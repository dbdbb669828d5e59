-- ===== src/Proxy/Attested.antt =====
-- proxy.py: the log when `handle` returns, and when it raises.
use mcp_attest.Base.{◌≡◌, refl, sym, ap, ◌∙◌, ◌⊎◌, inl, some, List, [], ◌∷◌, ◌++◌, append-nil}
use mathlib.Core.Path.{subst}
use mcp_attest.Base.Text.{Text, Bytes, codes}
use mcp_attest.Errors.{ErrorClass, Result, ok, raised}
use mcp_attest.Errors.Laws.{>>=-eq-ok, ok-injective}
use mcp_attest.Runtime.{Runtime, IsLawful}
use mcp_attest.Value.{Value, Fields, null, str, list, tuple, bool, int, float, dict, foreign}
use mcp_attest.Value.Convert.{to_str}
use mcp_attest.Crypto.{Primitives, IsSound, public_key_from_private}
use mcp_attest.Entry.{SignedRecord, Receipt}
use mcp_attest.Log.Reader.{Disk, AttestationLog, touch}
use mcp_attest.Log.Writer.{Call, append}
use mcp_attest.Log.Failure.{append-raised}
use mcp_attest.Verifier.{verify_receipt}
use mcp_attest.Verifier.Growth.{Written, appended}
use mcp_attest.Verifier.Receipts.{verify_receipt-append}
use mcp_attest.Proxy.{
  get_default, stringify_request_id, response_fields, attested_payload, read_request, attested_call,
  forward, with_receipt, handle,
}

module _ (R : Runtime) where
  response_fields-eq-ok :
      (v : Value R.Float) (fs : Fields R.Float) → response_fields v ≡ ok fs → v ≡ dict fs
  unfolding response_fields
  response_fields-eq-ok (dict gs) fs h = ap dict (ok-injective h)
  response_fields-eq-ok (str s) fs h = cc h
  response_fields-eq-ok (list xs) fs h = cc h
  response_fields-eq-ok (tuple xs) fs h = cc h
  response_fields-eq-ok null fs h = cc h
  response_fields-eq-ok (bool b) fs h = cc h
  response_fields-eq-ok (int n) fs h = cc h
  response_fields-eq-ok (float x) fs h = cc h
  response_fields-eq-ok (foreign s) fs h = cc h

  forward-eq-ok :
      (upstream : Fields R.Float → Result (Value R.Float)) (request : Fields R.Float)
      (t t' : R.Float) (fs : Fields R.Float) (call : Call R.Float)
      → forward R upstream request t t' ≡ ok (fs, call)
      → (read : Text × Text × Value R.Float) × (read_request R request ≡ ok read)
        × (upstream request ≡ ok (dict fs))
        × (call ≡ attested_call R read t t' fs)
  unfolding forward
  forward-eq-ok upstream request t t' fs call h =
      let (read, hr, h1) = >>=-eq-ok (read_request R request) _ h in
      let (response, hu, h2) = >>=-eq-ok (upstream request) _ h1 in
      let (gs, hg, e) = >>=-eq-ok (response_fields response) _ h2 in
      let same = ok-injective e in
      let same_fields = ap (λ p. p.0) same in
      (
        read,
        hr,
        hu ∙ ap ok (response_fields-eq-ok response gs hg ∙ ap dict same_fields),
        sym (ap (λ p. p.1) same) ∙ ap (attested_call R read t t') same_fields,
      )

  read_request-params :
      (request : Fields R.Float) (read : Text × Text × Value R.Float)
      → read_request R request ≡ ok read
      → read.2 ≡ get_default (codes "params") null request
  unfolding read_request
  read_request-params request read h =
      let method = to_str R (get_default (codes "method") (str []) request) in
      let id = stringify_request_id R (get_default (codes "id") null request) in
      let (_, _, h1) = >>=-eq-ok method _ h in
      let (_, _, e) = >>=-eq-ok id _ h1 in ap (λ p. p.2) (sym (ok-injective e))

module _ (R : Runtime) (C : Primitives) where
  abbrev finish :
      AttestationLog
      → Disk
      → Result (Fields R.Float × Call R.Float)
      → Result (Fields R.Float × Receipt) × Disk
  finish log d (raised e) = (raised e, d)
  finish log d (ok (fs, call)) = with_receipt R C fs (append R C log call d)

  handle-finish :
      (log : AttestationLog) (upstream : Fields R.Float → Result (Value R.Float))
      (request : Fields R.Float) (t t' : R.Float) (d : Disk)
      → handle R C log upstream request t t' d ≡ finish log d (forward R upstream request t t')
  unfolding handle
  handle-finish log upstream request t t' d = by_cases (forward R upstream request t t')
    where
      by_cases :
          (m : Result (Fields R.Float × Call R.Float))
          → elim m [
            | raised e ↦ (raised e, d)
            | ok (fs, call) ↦ with_receipt R C fs (append R C log call d)
          ]
            ≡ finish log d m
      by_cases (raised e) = refl
      by_cases (ok (fs, call)) = refl

  -- What was read and forwarded, and then appended, is returned.
  pub handle-returns :
      (log : AttestationLog) (upstream : Fields R.Float → Result (Value R.Float))
      (request : Fields R.Float) (t t' : R.Float) (d d' : Disk) (fs : Fields R.Float)
      (call : Call R.Float) (r : SignedRecord R.Float) (receipt : Receipt)
      → forward R upstream request t t' ≡ ok (fs, call)
      → append R C log call d ≡ (ok (r, receipt), d')
      → handle R C log upstream request t t' d ≡ (ok (fs, receipt), d')
  handle-returns log upstream request t t' d d' fs call r receipt h k =
      handle-finish log upstream request t t' d ∙ ap (finish log d) h ∙ ap (with_receipt R C fs) k

  finish-eq-ok :
      (log : AttestationLog) (d d' : Disk) (m : Result (Fields R.Float × Call R.Float))
      (fs : Fields R.Float) (receipt : Receipt)
      → finish log d m ≡ (ok (fs, receipt), d')
      → (call : Call R.Float) × (m ≡ ok (fs, call))
        × ((r : SignedRecord R.Float) × (append R C log call d ≡ (ok (r, receipt), d')))
  finish-eq-ok log d d' (raised e) fs receipt h = cc (ap (λ p. p.0) h)
  finish-eq-ok log d d' (ok (gs, call)) fs receipt h =
      let m = append R C log call d in
      let (p, hp, e) = >>=-eq-ok m.0 _ (ap (λ p. p.0) h) in
      let same = ok-injective e in
      (call, ap (λ x. ok (x.0, call)) same, (p.0, cc (hp, ap (λ x. x.1) same, ap (λ x. x.1) h)))

  -- A request that is answered was forwarded as it came, and its answer comes back unchanged, with the
  -- receipt of one append that attests the request's method, id and params and the answer.
  pub handle-append :
      (log : AttestationLog) (upstream : Fields R.Float → Result (Value R.Float))
      (request : Fields R.Float) (t t' : R.Float) (d d' : Disk) (fs : Fields R.Float)
      (receipt : Receipt)
      → handle R C log upstream request t t' d ≡ (ok (fs, receipt), d')
      → (read : Text × Text × Value R.Float) × (r : SignedRecord R.Float) × (read_request R request
          ≡ ok read)
        × (upstream request ≡ ok (dict fs))
        × (append R C log (attested_call R read t t' fs) d ≡ (ok (r, receipt), d'))
  handle-append log upstream request t t' d d' fs receipt h =
      let (call, hf, (r, ha)) =
        finish-eq-ok log d d' (forward R upstream request t t') fs receipt
          (sym (handle-finish log upstream request t t' d) ∙ h) in
      let (read, hr, hu, e) = forward-eq-ok R upstream request t t' fs call hf in
      (read, r, hr, hu, ap (λ c. append R C log c d) (sym e) ∙ ha)

  finish-raised :
      (log : AttestationLog) (d d' : Disk) (m : Result (Fields R.Float × Call R.Float))
      (e : ErrorClass)
      → finish log d m ≡ (raised e, d')
      → (d' ≡ d) ⊎ (d' ≡ some (touch d))
  finish-raised log d d' (raised e') e h = inl (sym (ap (λ p. p.1) h))
  finish-raised log d d' (ok (fs, call)) e h = from_append (append R C log call d) refl h
    where
      from_append :
          (m : Result (SignedRecord R.Float × Receipt) × Disk)
          → append R C log call d ≡ m
          → with_receipt R C fs m ≡ (raised e, d')
          → (d' ≡ d) ⊎ (d' ≡ some (touch d))
      from_append (ok p, file) k q = cc (ap (λ x. x.0) q)
      from_append (raised e', file) k q =
          append-raised R C log call d d' e' (k ∙ ap (λ x. (raised e', x)) (ap (λ x. x.1) q))

  -- If `handle` raises, be it for the upstream or for the append, the bytes of the log file are as they
  -- were; and an exception of the upstream is passed on with the file untouched.
  pub handle-raised :
      (log : AttestationLog) (upstream : Fields R.Float → Result (Value R.Float))
      (request : Fields R.Float) (t t' : R.Float) (d : Disk) (e : ErrorClass)
      → ((d' : Disk)
          → handle R C log upstream request t t' d ≡ (raised e, d')
          → (d' ≡ d) ⊎ (d' ≡ some (touch d)))
        × ((read : Text × Text × Value R.Float)
            → read_request R request ≡ ok read
            → upstream request ≡ raised e
            → handle R C log upstream request t t' d ≡ (raised e, d))
  unfolding forward
  handle-raised log upstream request t t' d e = (
    λ d' h.
        finish-raised log d d' (forward R upstream request t t') e
          (sym (handle-finish log upstream request t t' d) ∙ h),
    λ read hr hu. handle-finish log upstream request t t' d ∙ rw (hr, hu) refl,
  )

module _ (R : Runtime) (L : IsLawful R) (C : Primitives) (S : IsSound C) where
  -- The proxy keeps its promise: behind a log that writers with its key have made, the receipt that
  -- `handle` returns is verified, with the params of the request and the payload of the response, in
  -- the file that it leaves, to which one record has been added.
  pub verify_receipt-handle :
      (log : AttestationLog) (upstream : Fields R.Float → Result (Value R.Float))
      (request : Fields R.Float) (t t' : R.Float) (d d' : Disk) (rs : List (SignedRecord R.Float))
      (fs : Fields R.Float) (receipt : Receipt) (key public : Bytes)
      → Written R L C S key d rs
      → log.private_key ≡ some key
      → public_key_from_private C key ≡ ok public
      → handle R C log upstream request t t' d ≡ (ok (fs, receipt), d')
      → (verify_receipt R C receipt
            (get_default (codes "params") null request)
            (attested_payload fs)
            public
            d'
          ≡ ok tt)
        × ((r : SignedRecord R.Float) × Written R L C S key d' (rs ++ (r ∷ [])))
  unfolding attested_call
  verify_receipt-handle log upstream request t t' d d' rs fs receipt key public w opened is_public
        h =
      let (read, r, hr, hu, ha) = handle-append R C log upstream request t t' d d' fs receipt h in
      let now = appended log _ d d' rs r receipt w opened ha in
      let good =
        verify_receipt-append R L C S log _ d d' d' rs [] r receipt key public w opened is_public ha
          (subst (Written R L C S key d') (sym (append-nil (rs ++ (r ∷ [])))) now) in
      (
        ap (λ v. verify_receipt R C receipt v (attested_payload fs) public d')
              (sym (read_request-params R request read hr))
            ∙ good,
        (r, now),
      )
