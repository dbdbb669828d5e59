-- ===== src/Log/Faults.antt =====
-- log.py, `append`: a call in which the operating system refuses something.
use mcp_attest.Base.{
  ℕ, zero, suc, ◌≡◌, ◌≢◌, refl, sym, ap, ◌∙◌, ◌⊎◌, inl, inr, Option, none, some, [], ◌∷◌, ◌++◌,
}
use mcp_attest.Base.Text.{Text, Bytes}
use mcp_attest.Errors.{ErrorClass, Result, ok, raised, ◌>>=◌, os_error}
use mcp_attest.Errors.Laws.{>>=-eq-ok}
use mcp_attest.Runtime.{Runtime}
use mcp_attest.Crypto.{Primitives}
use mcp_attest.Entry.{SignedRecord, Receipt}
use mcp_attest.Log.Reader.{Disk, AttestationLog, scan_last_record, touch}
use mcp_attest.Log.Writer.{Call, prepare, make_record, append_locked, append}
use mcp_attest.Log.Steps.{make_record-eq-ok}
use mcp_attest.Log.Failure.{append-raised, written-receipt}
use mcp_attest.Verifier.Returns.{append-steps}

-- What raises OSError: opening the file; the first `flock`, a seek or a read behind it; or `write`, `flush`,
-- `fsync` or the last `flock`, when so many bytes of the line are in the file.
pub data Fault : Type 0 where
  at_open : Fault
  at_scan : Fault
  at_write : (written : ℕ) → Fault

-- The first bytes of a line, all of them if there are fewer.
abbrev pub first_bytes : ℕ → Bytes → Bytes
first_bytes zero bs = []
first_bytes (suc n) [] = []
first_bytes (suc n) (b ∷ bs) = b ∷ first_bytes n bs

first_bytes-rest : (n : ℕ) (bs : Bytes) → (rest : Bytes) × (bs ≡ first_bytes n bs ++ rest)
first_bytes-rest zero bs = (bs, refl)
first_bytes-rest (suc n) [] = ([], refl)
first_bytes-rest (suc n) (b ∷ bs) =
    let (rest, e) = first_bytes-rest n bs in (rest, ap (λ t. b ∷ t) e)

module _ (R : Runtime) (C : Primitives) where
  -- How the critical section ends if the line gets no further than its first bytes, or if `fsync` raises
  -- behind them: nothing takes back what has been written.
  abbrev pub refuse_write :
      ℕ
      → Bytes
      → Result (SignedRecord R.Float × Bytes)
      → Result (SignedRecord R.Float × Receipt) × Disk
  refuse_write n bs (raised e) = (raised e, some bs)
  refuse_write n bs (ok (r, line)) = (raised os_error, some (bs ++ first_bytes n line))

  abbrev pub after_prepare_refused :
      Fault
      → AttestationLog
      → Call R.Float
      → Disk
      → Result (Bytes × Option Text × Text × Text)
      → Result (SignedRecord R.Float × Receipt) × Disk
  after_prepare_refused fault log call d (raised e) = (raised e, d)
  after_prepare_refused at_open log call d (ok prepared) = (raised os_error, d)
  after_prepare_refused at_scan log call d (ok prepared) = (raised os_error, some (touch d))
  after_prepare_refused (at_write n) log call d (ok (key, tool_name, params_hash, result_hash)) =
      refuse_write n (touch d) do
        before ← scan_last_record R (touch d)
        make_record R C log.server_id key call tool_name params_hash result_hash before

  -- `append`, with what the operating system refuses in it.
  unfoldable pub append_with :
      Option Fault
      → AttestationLog
      → Call R.Float
      → Disk
      → Result (SignedRecord R.Float × Receipt) × Disk
  append_with none log call d = append R C log call d
  append_with (some fault) log call d =
      after_prepare_refused fault log call d (prepare R C log call)

  -- What a refused call may add: a part of the line that the call would have added.
  abbrev pub HasPart : AttestationLog → Call R.Float → Disk → Disk → Type 0
  HasPart log call d d' =
      (r : SignedRecord R.Float) × (receipt : Receipt) × (part : Bytes) × (rest : Bytes) × (append R
          C log call d
        ≡ (ok (r, receipt), some (touch d ++ (part ++ rest))))
      × (d' ≡ some (touch d ++ part))

  abbrev returned :
      SignedRecord R.Float
      → Receipt
      → Bytes
      → Bytes
      → Result (SignedRecord R.Float × Receipt) × Disk
  returned r receipt bs line = (ok (r, receipt), some (bs ++ line))

  abbrev Kept : Disk → Disk → Type 0
  Kept d d' = (d' ≡ d) ⊎ (d' ≡ some (touch d))

  would_append :
      (log : AttestationLog) (call : Call R.Float) (d : Disk) (key : Bytes)
      (tool_name : Option Text) (params_hash result_hash : Text)
      (before : Option (SignedRecord R.Float)) (r : SignedRecord R.Float) (line : Bytes)
      → prepare R C log call ≡ ok (key, tool_name, params_hash, result_hash)
      → scan_last_record R (touch d) ≡ ok before
      → make_record R C log.server_id key call tool_name params_hash result_hash before
        ≡ ok (r, line)
      → (receipt : Receipt) × (append R C log call d ≡ (ok (r, receipt), some (touch d ++ line)))
  unfolding append_locked
  would_append log call d key tool_name params_hash result_hash before r line prepared found made =
      let (_, _, _, written) =
        make_record-eq-ok R C log.server_id key call tool_name params_hash result_hash before r line
          made in
      let (receipt, given) = written-receipt R C log r line written in
      (
        receipt,
        append-steps R C log call key tool_name params_hash result_hash d (touch d ++ line) r
            receipt prepared (rw (found, made) refl) given,
      )

  refuse_write-raised :
      (n : ℕ) (log : AttestationLog) (call : Call R.Float) (d d' : Disk) (e : ErrorClass)
      (m : Result (SignedRecord R.Float × Bytes))
      → ((r : SignedRecord R.Float) (line : Bytes)
          → m ≡ ok (r, line)
          → (receipt : Receipt) × (append R C log call d
              ≡ (ok (r, receipt), some (touch d ++ line))))
      → refuse_write n (touch d) m ≡ (raised e, d')
      → Kept d d' ⊎ ((e ≡ os_error) × HasPart log call d d')
  refuse_write-raised n log call d d' e (raised e') would h = inl (inr (sym (ap (λ x. x.1) h)))
  refuse_write-raised n log call d d' e (ok (r, line)) would h =
      let (receipt, k) = would r line refl in
      let (rest, split) = first_bytes-rest n line in
      inr (
        cc (ap (λ x. x.0) h),
        (
          r,
          receipt,
          first_bytes n line,
          rest,
          k ∙ ap (returned r receipt (touch d)) split,
          sym (ap (λ x. x.1) h),
        ),
      )

  after_prepare_refused-raised :
      (fault : Fault) (log : AttestationLog) (call : Call R.Float) (d d' : Disk) (e : ErrorClass)
      (m : Result (Bytes × Option Text × Text × Text))
      → prepare R C log call ≡ m
      → after_prepare_refused fault log call d m ≡ (raised e, d')
      → Kept d d' ⊎ ((e ≡ os_error) × HasPart log call d d')
  after_prepare_refused-raised fault log call d d' e (raised e') p h =
      inl (inl (sym (ap (λ x. x.1) h)))
  after_prepare_refused-raised at_open log call d d' e (ok prepared) p h =
      inl (inl (sym (ap (λ x. x.1) h)))
  after_prepare_refused-raised at_scan log call d d' e (ok prepared) p h =
      inl (inr (sym (ap (λ x. x.1) h)))
  after_prepare_refused-raised (at_write n) log call d d' e
        (ok (key, tool_name, params_hash, result_hash)) p h =
      let made = λ (before : Option (SignedRecord R.Float)).
        make_record R C log.server_id key call tool_name params_hash result_hash before in
      refuse_write-raised n log call d d' e (scan_last_record R (touch d) >>= made)
        (λ r line k.
          let (before, found, k') = >>=-eq-ok (scan_last_record R (touch d)) made k in
          would_append log call d key tool_name params_hash result_hash before r line p found k')
        h

  -- If `append` raises, whatever the exception, the file keeps all its bytes. Without a refusal of the
  -- operating system nothing is added to them: at most an empty file comes into being. With one, what is
  -- behind them is nothing or a part, the whole included, of the line that the call would have added, and the
  -- part is only there if the exception is an OSError.
  pub append_with-raised :
      (fault : Option Fault) (log : AttestationLog) (call : Call R.Float) (d d' : Disk)
      (e : ErrorClass)
      → append_with fault log call d ≡ (raised e, d')
      → ((d' ≡ d) ⊎ (d' ≡ some (touch d)))
        ⊎ ((e ≡ os_error) × (fault ≢ none) × HasPart log call d d')
  unfolding append_with
  append_with-raised none log call d d' e h = inl (append-raised R C log call d d' e h)
  append_with-raised (some fault) log call d d' e h =
      elim (after_prepare_refused-raised fault log call d d' e (prepare R C log call) refl h) [
        | inl kept ↦ inl kept
        | inr (same, part) ↦ inr (same, (λ p. cc p), part)
      ]
