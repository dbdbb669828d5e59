-- ===== src/Writers.antt =====
-- log.py: many `append` calls at once, on one file, a shared access at a time. What orders them is the
-- exclusive `flock`; the thread lock of an `AttestationLog` only keeps some of these orders out, so that it
-- is left out here. The calls stand on numbered threads, which may be of any process. The file is there
-- before the first of them, since making an `AttestationLog` touches it. Writes that the system refuses
-- are not modelled.
pub mod Exclusion
pub mod Invariant
pub mod Sequential
pub mod Progress
use mcp_attest.Base.{ℕ, ◌≡◌, Bool, true, false, Option, none, some, List, [], ◌∷◌, ◌++◌}
use mathlib.Core.Logic.{ite}
use native.Mathlib.Decide.{ℕ_discrete}
use mcp_attest.Base.Text.{Text, Bytes}
use mcp_attest.Errors.{ErrorClass, Result, ok, raised}
use mcp_attest.Runtime.{Runtime}
use mcp_attest.Crypto.{Primitives}
use mcp_attest.Entry.{SignedRecord}
use mcp_attest.Log.Reader.{AttestationLog, scan_last_record}
use mcp_attest.Log.Writer.{Call, prepare, make_record, append_locked}

-- The family with `a` at `i`.
abbrev pub update {ℓ} : {A : Type ℓ} → ℕ → A → (ℕ → A) → ℕ → A
update i a f j = ite (ℕ_discrete i j) a (f j)

module _ (R : Runtime) (C : Primitives) (key : Bytes) where
  -- A call of `append` that `prepare` let through, on a log with the private key.
  pub record Job : Type 0 where
    pub log : AttestationLog
    pub call : Call R.Float
    pub tool_name : Option Text
    pub params_hash : Text
    pub result_hash : Text
    pub keyed : log.private_key ≡ some key
    pub prepared : prepare R C log call ≡ ok (key, tool_name, params_hash, result_hash)

  -- Where a thread stands in `append`, with the local variables that are live there.
  pub data Pc : Type 0 where
    idle : Pc
    waiting : Job → Pc  -- before `flock(LOCK_EX)`
    locked : Job → Pc  -- before the scan
    writing : SignedRecord R.Float → (todo : Bytes) → Pc  -- in `write` and `flush`
    leaving : Pc  -- before `flock(LOCK_UN)`

  -- Between the two calls of `flock`.
  abbrev pub critical : Pc → Bool
  critical idle = false
  critical (waiting _) = false
  critical (locked _) = true
  critical (writing _ _) = true
  critical leaving = true

  -- The file, the thread that holds the lock on it, and the records that have been written whole.
  pub record Shared : Type 0 where
    pub file : Bytes
    pub holder : Option ℕ
    pub history : List (SignedRecord R.Float)

  -- The record of a job behind the last record, and its line.
  abbrev pub make : Job → Option (SignedRecord R.Float) → Result (SignedRecord R.Float × Bytes)
  make j before =
      make_record R C j.log.server_id key j.call j.tool_name j.params_hash j.result_hash before

  abbrev pub section_of : Job → Bytes → Result (SignedRecord R.Float × Bytes)
  section_of j bs =
      append_locked R C j.log.server_id key j.call j.tool_name j.params_hash j.result_hash bs

  -- One step of thread `i`. The bytes of a line reach the file in pieces of any size.
  pub data Move (i : ℕ) (m : Shared) : Pc → Shared → Pc → Type 0 where
    start : (j : Job) → Move i m idle m (waiting j)
    acquire :
        (j : Job) → m.holder ≡ none → Move i m (waiting j) (record m { holder = some i }) (locked j)
    scan :
        (j : Job) (before : Option (SignedRecord R.Float)) (r : SignedRecord R.Float)
        (written : Bytes)
        → scan_last_record R m.file ≡ ok before
        → make j before ≡ ok (r, written)
        → Move i m (locked j) m (writing r written)
    fail :
        (j : Job) (e : ErrorClass) → section_of j m.file ≡ raised e → Move i m (locked j) m leaving
    write :
        (r : SignedRecord R.Float) (todo piece rest : Bytes)
        → todo ≡ piece ++ rest
        → Move i m (writing r todo) (record m { file = m.file ++ piece }) (writing r rest)
    finish :
        (r : SignedRecord R.Float) (todo : Bytes)
        → todo ≡ []
        → Move i m (writing r todo) (record m { history = m.history ++ (r ∷ []) }) leaving
    release : Move i m leaving (record m { holder = none }) idle

  pub record System : Type 0 where
    pub shared : Shared
    pub pc : ℕ → Pc

  pub data Step (s : System) : System → Type 0 where
    pick :
        (i : ℕ) {m : Shared} {p : Pc}
        → Move i s.shared (s.pc i) m p
        → Step s (record { shared = m; pc = update i p s.pc })

  -- The file has just been made, and no call has begun.
  abbrev pub init : System
  init = record { shared = record { file = []; holder = none; history = [] }; pc = λ _. idle }

  pub data Reach : System → Type 0 where
    begin : Reach init
    later : {s t : System} → Reach s → Step s t → Reach t

  -- A system and the ones that steps lead to from it.
  pub data Steps (s : System) : System → Type 0 where
    stay : Steps s s
    go : {t u : System} → Steps s t → Step t u → Steps s u
