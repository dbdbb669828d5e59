-- ===== src/Examples/Attested.antt =====
-- examples/: what a call through the proxy to the mock server answers, and what is attested of it.
use mcp_attest.Base.{
  ◌≡◌, refl, sym, ap, ◌∙◌, ◌⊎◌, inl, inr, Bool, true, false, Option, some, List, [], ◌∷◌, ◌++◌,
  if◌then◌else◌,
}
use mathlib.Core.Path.{subst}
use mcp_attest.Base.Int.{ℤ, negsuc, ◌+ℤ◌}
use mcp_attest.Base.Text.{Text, Bytes, codes}
use mcp_attest.Errors.{Result, ok, raised, ◌>>=◌}
use mcp_attest.Errors.Laws.{>>=-eq-ok, ok-injective}
use mcp_attest.Runtime.{Runtime, IsLawful}
use mcp_attest.Value.{Value, Fields, no_fields, field, null, int, str, dict}
use mcp_attest.Value.Dict.{get}
use mcp_attest.Value.Convert.{to_str, to_int}
use mcp_attest.Value.Convert.Repr.{repr, int_repr}
use mcp_attest.Crypto.{Primitives, IsSound, public_key_from_private}
use mcp_attest.Entry.{EntryStatus, ok_status, error_status, SignedRecord, Receipt}
use mcp_attest.Log.Reader.{Disk, AttestationLog}
use mcp_attest.Log.Append.{append-Appended}
use mcp_attest.Verifier.{verify_receipt}
use mcp_attest.Verifier.Growth.{Written, appended}
use mcp_attest.Proxy.{attested_call, response_status, attested_payload}
use mcp_attest.Proxy.Attested.{handle-append, verify_receipt-handle}
use mcp_attest.Examples.Server.{
  ok_response, err_response, text_content, or_value, or_empty, subscript, get_of, call_add,
  call_echo, not_found, tools_call, handle_request, mock_upstream, is_text, server_info,
}
use mcp_attest.Examples.Client.{request_of, call_through_proxy}

module _ {F : Type 0} where
  -- The error object of a JSON-RPC response.
  abbrev pub error_object : ℤ → Text → Value F
  error_object code message =
      dict (field (codes "code") (int code) (field (codes "message") (str message) no_fields))

  -- A response to `request_id` with a result, or with one of the server's two errors; `payload` is what is
  -- attested of it, with the status.
  pub data Answers (request_id : Value F) : Fields F → Value F → EntryStatus → Type 0 where
    result :
        (payload : Value F) → Answers request_id (ok_response request_id payload) payload ok_status
    error :
        (code : ℤ) (message : Text)
        → (code ≡ negsuc 32600) ⊎ (code ≡ negsuc 31999)
        → Answers request_id
            (err_response request_id code message)
            (error_object code message)
            error_status

  -- What a call answers if it returns.
  abbrev Responds : Value F → Result (Fields F) → Type 0
  Responds request_id m =
      (fs : Fields F)
      → m ≡ ok fs
      → (payload : Value F) × (status : EntryStatus) × Answers request_id fs payload status

  ok-Responds : (request_id v : Value F) → Responds request_id (ok (ok_response request_id v))
  ok-Responds request_id v fs h =
      (v, ok_status, subst (λ gs. Answers request_id gs v ok_status) (ok-injective h) (result v))

  err-Responds :
      (request_id : Value F) (code : ℤ) (message : Text)
      → (code ≡ negsuc 32600) ⊎ (code ≡ negsuc 31999)
      → Responds request_id (ok (err_response request_id code message))
  err-Responds request_id code message c fs h = (
    error_object code message,
    error_status,
    subst (λ gs. Answers request_id gs (error_object code message) error_status) (ok-injective h)
        (error code message c),
  )

  if-Responds :
      (request_id : Value F) (b : Bool) (m n : Result (Fields F))
      → Responds request_id m
      → Responds request_id n
      → Responds request_id (if b then m else n)
  if-Responds request_id true m n p q = p
  if-Responds request_id false m n p q = q

  bind-Responds :
      {A : Type 0} (request_id : Value F) (m : Result A) (rest : A → Result (Fields F))
      → ((a : A) → Responds request_id (rest a))
      → Responds request_id (m >>= rest)
  bind-Responds request_id (ok a) rest h = h a
  bind-Responds request_id (raised e) rest h = λ fs k. cc k

module _ (R : Runtime) (is_zero : R.Float → Bool) where
  not_found-Responds :
      (request_id : Value R.Float) (message : Text) (asked : Option (Value R.Float))
      → Responds request_id (not_found R is_zero request_id message asked)
  unfolding not_found
  not_found-Responds request_id message asked =
      bind-Responds request_id (repr R (or_value null asked)) _
        (λ shown. err-Responds request_id (negsuc 32600) (message ++ shown) (inl refl))

  call_add-Responds :
      (request_id arguments : Value R.Float)
      → Responds request_id (call_add R is_zero request_id arguments)
  unfolding call_add
  call_add-Responds request_id arguments =
      bind-Responds request_id (subscript (codes "a") arguments >>= to_int R) _ (λ a.
        bind-Responds request_id (subscript (codes "b") arguments >>= to_int R) _ (λ b.
          bind-Responds request_id (int_repr (a +ℤ b)) _
            (λ text. ok-Responds request_id (text_content text))))

  call_echo-Responds :
      (request_id arguments : Value R.Float)
      → Responds request_id (call_echo R is_zero request_id arguments)
  unfolding call_echo
  call_echo-Responds request_id arguments =
      bind-Responds request_id (get_of (codes "text") arguments) _ (λ v.
        bind-Responds request_id (to_str R (or_value (str []) v)) _
          (λ text. ok-Responds request_id (text_content text)))

  tools_call-Responds :
      (request_id params : Value R.Float)
      → Responds request_id (tools_call R is_zero request_id params)
  unfolding tools_call
  tools_call-Responds request_id params =
      bind-Responds request_id (get_of (codes "name") params) _ (λ name.
        bind-Responds request_id (get_of (codes "arguments") params) _ (λ given.
          let arguments = or_empty R is_zero (or_value (dict no_fields) given) in
          if-Responds request_id (is_text name (codes "add")) _ _
            (call_add-Responds request_id arguments)
            (if-Responds request_id (is_text name (codes "echo")) _ _
              (call_echo-Responds request_id arguments)
              (if-Responds request_id (is_text name (codes "fail")) _ _
                (err-Responds request_id (negsuc 31999) _ (inr refl))
                (not_found-Responds request_id (codes "unknown tool: ") name)))))

  -- Each response is to the request's id.
  handle_request-Responds :
      (request : Fields R.Float)
      → Responds (or_value null (get (codes "id") request)) (handle_request R is_zero request)
  unfolding handle_request
  handle_request-Responds request =
      let method = get (codes "method") request in
      let id = or_value null (get (codes "id") request) in
      if-Responds id (is_text method (codes "initialize")) _ _ (ok-Responds id server_info) (
        if-Responds id (is_text method (codes "tools/list")) _ _ (ok-Responds id _) (
          if-Responds id (is_text method (codes "tools/call")) _ _ (tools_call-Responds id _)
            (not_found-Responds id (codes "method not found: ") method)))

module _ (R : Runtime) (L : IsLawful R) (is_zero : R.Float → Bool) (C : Primitives)
    (S : IsSound C) where
  mock_upstream-eq-ok :
      (request fs : Fields R.Float)
      → mock_upstream R is_zero request ≡ ok (dict fs)
      → handle_request R is_zero request ≡ ok fs
  mock_upstream-eq-ok request fs h =
      let (gs, k, e) = >>=-eq-ok (handle_request R is_zero request) _ h in cc (k, ok-injective e)

  -- The status and the payload that the proxy reads off a response are those of the response.
  Answers-attested :
      (request_id : Value R.Float) (fs : Fields R.Float) (payload : Value R.Float)
      (status : EntryStatus)
      → Answers request_id fs payload status
      → (attested_payload fs ≡ payload) × (response_status fs ≡ status)
  unfolding attested_payload response_status
  Answers-attested request_id _ _ _ (result payload) = (refl, refl)
  Answers-attested request_id _ _ _ (error code message c) = (refl, refl)

  -- A call through the proxy to the mock server that returns is answered under the id of the call, with a
  -- result or with one of the server's two errors. Behind a log that writers with the proxy's key have
  -- made, one record has been added to the log, with status ok for a result and error for an error, and
  -- the receipt is verified with the params of the call and that result or error object.
  pub call_through_proxy-Answers :
      (log : AttestationLog) (method : Text) (params request_id : Value R.Float) (t t' : R.Float)
      (d d' : Disk) (rs : List (SignedRecord R.Float)) (fs : Fields R.Float) (receipt : Receipt)
      (key public : Bytes)
      → Written R L C S key d rs
      → log.private_key ≡ some key
      → public_key_from_private C key ≡ ok public
      → call_through_proxy R C log (mock_upstream R is_zero) method params request_id t t' d
        ≡ (ok (fs, receipt), d')
      → (payload : Value R.Float) × (status : EntryStatus) × (r : SignedRecord R.Float) × Answers
          request_id fs payload status
        × (r.entry.status ≡ status)
        × Written R L C S key d' (rs ++ (r ∷ []))
        × (verify_receipt R C receipt params payload public d' ≡ ok tt)
  unfolding attested_call get
  call_through_proxy-Answers log method params request_id t t' d d' rs fs receipt key public w
        opened is_public h =
      let request = request_of method params request_id in
      let (read, r, hr, hu, ha) =
        handle-append R C log (mock_upstream R is_zero) request t t' d d' fs receipt h in
      let (payload, status, answers) =
        handle_request-Responds R is_zero request fs (mock_upstream-eq-ok request fs hu) in
      let (paid, stated) = Answers-attested request_id fs payload status answers in
      let (_, _, _, a, _, _) = append-Appended R C log _ d d' r receipt ha in
      let (verified, _) =
        verify_receipt-handle R L C S log (mock_upstream R is_zero) request t t' d d' rs fs receipt
          key public w opened is_public h in
      (
        payload,
        status,
        r,
        answers,
        a.status_kept ∙ stated,
        appended log _ d d' rs r receipt w opened ha,
        ap (λ v. verify_receipt R C receipt params v public d') (sym paid) ∙ verified,
      )
