-- ===== src/Log/Failure.antt =====
-- log.py, `append`: a call that raises.
use mcp_attest.Base.{◌≡◌, refl, sym, ap, Option, some, ◌⊎◌, inl, inr}
use mcp_attest.Base.Hex.{to_hex}
use mcp_attest.Base.Text.{Text, Bytes}
use mcp_attest.Errors.{ErrorClass, Result, ok, raised, ◌>>=◌}
use mcp_attest.Runtime.{Runtime}
use mcp_attest.Crypto.{Primitives, hash_bytes}
use mcp_attest.Entry.{SignedRecord, Receipt, entry_hash}
use mcp_attest.Log.Reader.{Disk, AttestationLog, touch}
use mcp_attest.Log.Writer.{
  Call, append_locked, prepare, receipt_of, commit, after_prepare, append, line_bytes,
}
use mcp_attest.Log.Steps.{append_locked-eq-ok, make_record-eq-ok, line_bytes-eq-ok}

module _ (R : Runtime) (C : Primitives) where
  -- A record that could be written has a receipt.
  pub written-receipt :
      (log : AttestationLog) (r : SignedRecord R.Float) (written : Bytes)
      → line_bytes R C r ≡ ok written
      → (receipt : Receipt) × (receipt_of R C log r ≡ ok receipt)
  unfolding receipt_of entry_hash
  written-receipt log r written h =
      let (line, hl, _) = line_bytes-eq-ok R C r written h in
      let receipt : Text → Receipt = λ t. record {
        seq = r.entry.seq;
        entry_hash = t;
        signature = r.signature;
        server_id = log.server_id;
      } in
      (
        receipt (to_hex (hash_bytes C line)),
        ap
            (λ (m : Result Bytes).
              (m >>= λ bs. ok (to_hex (hash_bytes C bs))) >>= λ t. ok (receipt t))
            hl,
      )

  commit-raised :
      (log : AttestationLog) (bs : Bytes) (m : Result (SignedRecord R.Float × Bytes))
      (e : ErrorClass) (d : Disk)
      → ((r : SignedRecord R.Float) (file : Bytes)
          → m ≡ ok (r, file)
          → (receipt : Receipt) × (receipt_of R C log r ≡ ok receipt))
      → commit R C log bs m ≡ (raised e, d)
      → d ≡ some bs
  commit-raised log bs (raised e') e d has h = sym (ap (λ p. p.1) h)
  commit-raised log bs (ok (r, file)) e d has h =
      let (receipt, k) = has r file refl in
      let pair : Receipt → Result (SignedRecord R.Float × Receipt) = λ rc. ok (r, rc) in
      cc (ap (λ (q : Result Receipt). q >>= pair) k, ap (λ p. p.0) h)

  after_prepare-raised :
      (log : AttestationLog) (call : Call R.Float) (d d' : Disk)
      (m : Result (Bytes × Option Text × Text × Text)) (e : ErrorClass)
      → after_prepare R C log call d m ≡ (raised e, d')
      → (d' ≡ d) ⊎ (d' ≡ some (touch d))
  after_prepare-raised log call d d' (raised e') e h = inl (sym (ap (λ p. p.1) h))
  after_prepare-raised log call d d' (ok (key, tool_name, params_hash, result_hash)) e h = inr (
      commit-raised log (touch d)
        (append_locked R C log.server_id key call tool_name params_hash result_hash (touch d)) e d'
        (λ r file hl.
          let (before, written, _, hm, _) =
            append_locked-eq-ok R C log.server_id key call tool_name params_hash result_hash
              (touch d) r file hl in
          let (_, _, _, hw) =
            make_record-eq-ok R C log.server_id key call tool_name params_hash result_hash before r
              written hm in
          written-receipt log r written hw)
        h)

  -- If `append` raises and the operating system refuses nothing, it leaves the bytes of the file as they were:
  -- at most an empty file comes into being.
  pub append-raised :
      (log : AttestationLog) (call : Call R.Float) (d d' : Disk) (e : ErrorClass)
      → append R C log call d ≡ (raised e, d')
      → (d' ≡ d) ⊎ (d' ≡ some (touch d))
  unfolding append
  append-raised log call d d' e h = after_prepare-raised log call d d' (prepare R C log call) e h
