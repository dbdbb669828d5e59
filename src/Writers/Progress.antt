-- ===== src/Writers/Progress.antt =====
-- log.py: the holder of the lock in `append` comes to give it back.
use mcp_attest.Base.{ℕ, ◌≡◌, refl, sym, true, none, some, [], ◌∷◌, ◌++◌, append-nil}
use mathlib.Core.Path.{subst}
use mcp_attest.Base.Text.{Bytes}
use mcp_attest.Errors.{Result, ok, raised}
use mcp_attest.Runtime.{Runtime, IsLawful}
use mcp_attest.Crypto.{Primitives, IsSound}
use mcp_attest.Entry.{SignedRecord}
use mcp_attest.Log.Steps.{append_locked-eq-ok}
use mcp_attest.Writers.{
  Job, Pc, idle, waiting, locked, writing, leaving, critical, Shared, section_of, Move, scan, fail,
  write, finish, release, System, Step, pick, Reach, Steps, stay, go, update,
}
use mcp_attest.Writers.Exclusion.{update-same}
use mcp_attest.Writers.Sequential.{holder-critical}

module _ (R : Runtime) (C : Primitives) (key : Bytes) where
  abbrev after : System R C key → ℕ → Shared R C key → Pc R C key → System R C key
  after s k m p = record { shared = m; pc = update k p s.pc }

  -- Steps lead to a system where no thread holds the lock and thread `k` is out of `append`.
  abbrev Frees : System R C key → ℕ → Type 0
  Frees s k = (t : System R C key) × Steps R C key s t × (t.shared.holder ≡ none) × (t.pc k ≡ idle)

  step :
      (s : System R C key) (k : ℕ) (p q : Pc R C key) (m : Shared R C key)
      → s.pc k ≡ p
      → Move R C key k s.shared p m q
      → Step R C key s (after s k m q)
  step s k p q m at mv = pick k (subst (λ x. Move R C key k s.shared x m q) (sym at) mv)

  before : (s t u : System R C key) → Step R C key s t → Steps R C key t u → Steps R C key s u
  before s t _ first stay = go stay first
  before s t _ first (go {t = v} steps last) = go (before s t v first steps) last

  -- What frees the lock after a step frees it before.
  earlier :
      (s : System R C key) (k : ℕ) (p q : Pc R C key) (m : Shared R C key)
      → s.pc k ≡ p
      → Move R C key k s.shared p m q
      → Frees (after s k m q) k
      → Frees s k
  earlier s k p q m at mv (t, steps, free, out) =
      (t, before s (after s k m q) t (step s k p q m at mv) steps, free, out)

  leaving-Frees : (s : System R C key) (k : ℕ) → s.pc k ≡ leaving → Frees s k
  leaving-Frees s k at = (
    after s k (record s.shared { holder = none }) idle,
    go stay (step s k leaving idle _ at release),
    refl,
    update-same k idle s.pc,
  )

  writing-Frees :
      (s : System R C key) (k : ℕ) (r : SignedRecord R.Float) (todo : Bytes)
      → s.pc k ≡ writing r todo
      → Frees s k
  writing-Frees s k r todo at =
      let s1 = after s k (record s.shared { file = s.shared.file ++ todo }) (writing r []) in
      let m2 = record s1.shared { history = s1.shared.history ++ (r ∷ []) } in
      earlier s k _ _ _ at (write r todo todo [] (sym (append-nil todo))) (
        earlier s1 k _ leaving m2 (update-same k (writing r []) s.pc) (finish r [] refl)
          (leaving-Frees (after s1 k m2 leaving) k (update-same k leaving s1.pc)))

  locked-Frees :
      (s : System R C key) (k : ℕ) (j : Job R C key) (m : Result (SignedRecord R.Float × Bytes))
      → section_of R C key j s.shared.file ≡ m
      → s.pc k ≡ locked j
      → Frees s k
  locked-Frees s k j (raised e) h at =
      earlier s k _ leaving s.shared at (fail j e h)
        (leaving-Frees (after s k s.shared leaving) k (update-same k leaving s.pc))
  locked-Frees s k j (ok (r, file)) h at =
      let (last, written, found, made, _) =
        append_locked-eq-ok R C j.log.server_id key j.call j.tool_name j.params_hash j.result_hash
          s.shared.file r file h in
      earlier s k _ (writing r written) s.shared at (scan j last r written found made) (
        writing-Frees (after s k s.shared (writing r written)) k r written
          (update-same k (writing r written) s.pc))

  critical-Frees :
      (s : System R C key) (k : ℕ) (p : Pc R C key)
      → s.pc k ≡ p
      → critical R C key p ≡ true
      → Frees s k
  critical-Frees s k idle at c = cc c
  critical-Frees s k (waiting j) at c = cc c
  critical-Frees s k (locked j) at c = locked-Frees s k j _ refl at
  critical-Frees s k (writing r todo) at c = writing-Frees s k r todo at
  critical-Frees s k leaving at c = leaving-Frees s k at

module _ (R : Runtime) (L : IsLawful R) (C : Primitives) (S : IsSound C) (key : Bytes) where
  -- The lock is never stuck: from each moment at which a thread holds it, whether the call will return or
  -- raise, there are steps after which no thread holds it and that thread is out of `append`.
  pub holder-Frees :
      (s : System R C key) (k : ℕ)
      → Reach R C key s
      → s.shared.holder ≡ some k
      → (t : System R C key) × Steps R C key s t × (t.shared.holder ≡ none) × (t.pc k ≡ idle)
  holder-Frees s k reach h =
      critical-Frees R C key s k (s.pc k) refl (holder-critical R L C S key s k reach h)
