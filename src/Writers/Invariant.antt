-- ===== src/Writers/Invariant.antt =====
-- log.py: what the steps of concurrent `append` calls keep.
use mcp_attest.Base.{
  ℕ, ◌≡◌, refl, sym, ap, ◌∙◌, Option, none, some, List, [], ◌∷◌, ◌++◌, append_assoc, append-nil,
}
use mathlib.Core.Path.{subst}
use mcp_attest.Base.Text.{Bytes}
use mcp_attest.Errors.{ok}
use mcp_attest.Runtime.{Runtime, IsLawful}
use mcp_attest.Crypto.{Primitives, IsSound}
use mcp_attest.Entry.{SignedRecord, Receipt}
use mcp_attest.Log.Reader.{AttestationLog, open_log, scan_last_record}
use mcp_attest.Log.Writer.{Call, append, append_locked}
use mcp_attest.Log.Failure.{written-receipt}
use mcp_attest.Log.Steps.{make_record-eq-ok}
use mcp_attest.Verifier.Growth.{Written, missing, opened, appended}
use mcp_attest.Verifier.Returns.{append-steps}
use mcp_attest.Writers.{
  Job, Pc, idle, waiting, locked, writing, leaving, critical, Shared, make, Move, start, acquire,
  scan, fail, write, finish, release, System, pick, Reach, begin, later, update,
}
use mcp_attest.Writers.Exclusion.{IsExclusive, outside, taking, inside, giving}

module _ (R : Runtime) (L : IsLawful R) (C : Primitives) (S : IsSound C) (key : Bytes) where
  -- The file is a sequential one with a part of the line of an `append` to that one.
  pub record IsWriting (file : Bytes) (history : List (SignedRecord R.Float))
      (r : SignedRecord R.Float) (todo : Bytes) : Type 0 where
    pub before : Bytes
    pub log : AttestationLog
    pub call : Call R.Float
    pub receipt : Receipt
    pub line : Bytes
    pub done : Bytes
    pub keyed : log.private_key ≡ some key
    pub sequential : Written R L C S key (some before) history
    pub returns : append R C log call (some before) ≡ (ok (r, receipt), some (before ++ line))
    pub so_far : file ≡ before ++ done
    pub remaining : line ≡ done ++ todo

  abbrev pub Free : Bytes → List (SignedRecord R.Float) → Type 0
  Free file history = Written R L C S key (some file) history

  abbrev pub Held : Bytes → List (SignedRecord R.Float) → Pc R C key → Type 0
  Held file history (locked _) = Free file history
  Held file history (writing r todo) = IsWriting file history r todo
  Held file history leaving = Free file history
  Held file history idle = ⊥
  Held file history (waiting _) = ⊥

  abbrev pub Inv : System R C key → Type 0
  Inv s = IsExclusive R C key Free Held s

  scanned :
      (j : Job R C key) (file : Bytes) (history : List (SignedRecord R.Float))
      (before : Option (SignedRecord R.Float)) (r : SignedRecord R.Float) (written : Bytes)
      → scan_last_record R file ≡ ok before
      → make R C key j before ≡ ok (r, written)
      → Free file history
      → IsWriting file history r written
  unfolding append_locked
  scanned j file history before r written found made w =
      let (_, _, _, line) =
        make_record-eq-ok R C j.log.server_id key j.call j.tool_name j.params_hash j.result_hash
          before r written made in
      let (receipt, given) = written-receipt R C j.log r written line in
      record {
        before = file;
        log = j.log;
        call = j.call;
        receipt = receipt;
        line = written;
        done = [];
        keyed = j.keyed;
        sequential = w;
        returns =
            append-steps R C j.log j.call key j.tool_name j.params_hash j.result_hash (some file)
              (file ++ written) r receipt j.prepared (rw (found, made) refl) given;
        so_far = sym (append-nil file);
        remaining = refl;
      }

  wrote :
      (file : Bytes) (history : List (SignedRecord R.Float)) (r : SignedRecord R.Float)
      (todo piece rest : Bytes)
      → todo ≡ piece ++ rest
      → IsWriting file history r todo
      → IsWriting (file ++ piece) history r rest
  wrote file history r todo piece rest e w = record {
    before = w.before;
    log = w.log;
    call = w.call;
    receipt = w.receipt;
    line = w.line;
    done = w.done ++ piece;
    keyed = w.keyed;
    sequential = w.sequential;
    returns = w.returns;
    so_far = ap (λ f. f ++ piece) w.so_far ∙ append_assoc w.before w.done piece;
    remaining = w.remaining ∙ ap (λ t. w.done ++ t) e ∙ sym (append_assoc w.done piece rest);
  }

  finished :
      (file : Bytes) (history : List (SignedRecord R.Float)) (r : SignedRecord R.Float)
      (todo : Bytes)
      → todo ≡ []
      → IsWriting file history r todo
      → Free file (history ++ (r ∷ []))
  finished file history r todo e w =
      let whole : w.line ≡ w.done = w.remaining ∙ ap (λ t. w.done ++ t) e ∙ append-nil w.done in
      subst (λ f. Free f (history ++ (r ∷ []))) (ap (λ t. w.before ++ t) whole ∙ sym w.so_far)
        (appended w.log w.call (some w.before) (some (w.before ++ w.line)) history r w.receipt
          w.sequential w.keyed w.returns)

  Move-Inv :
      (s : System R C key) (i : ℕ) (p q : Pc R C key) (m : Shared R C key)
      → s.pc i ≡ p
      → Move R C key i s.shared p m q
      → Inv s
      → Inv (record { shared = m; pc = update i q s.pc })
  Move-Inv s i _ _ _ at (start j) inv =
      outside R C key Free Held s inv i (waiting j) (ap (critical R C key) at) refl
        (λ h. subst (Held s.shared.file s.shared.history) at (inv.held i h))
  Move-Inv s i _ _ _ at (acquire j free) inv =
      taking R C key Free Held s inv i (locked j) free (λ w. w)
  Move-Inv s i _ _ _ at (scan j before r written found made) inv =
      inside R C key Free Held s inv i (writing r written) s.shared.file s.shared.history
        (ap (critical R C key) at)
        (λ h.
          scanned j s.shared.file s.shared.history before r written found made
            (subst (Held s.shared.file s.shared.history) at h))
  Move-Inv s i _ _ _ at (fail j e raises) inv =
      inside R C key Free Held s inv i leaving s.shared.file s.shared.history
        (ap (critical R C key) at) (subst (Held s.shared.file s.shared.history) at)
  Move-Inv s i _ _ _ at (write r todo piece rest e) inv =
      inside R C key Free Held s inv i (writing r rest) (s.shared.file ++ piece) s.shared.history
        (ap (critical R C key) at)
        (λ h.
          wrote s.shared.file s.shared.history r todo piece rest e
            (subst (Held s.shared.file s.shared.history) at h))
  Move-Inv s i _ _ _ at (finish r todo e) inv =
      inside R C key Free Held s inv i leaving s.shared.file (s.shared.history ++ (r ∷ []))
        (ap (critical R C key) at)
        (λ h.
          finished s.shared.file s.shared.history r todo e
            (subst (Held s.shared.file s.shared.history) at h))
  Move-Inv s i _ _ _ at release inv =
      giving R C key Free Held s inv i idle (ap (critical R C key) at) refl
        (subst (Held s.shared.file s.shared.history) at)

  pub Reach-Inv : (s : System R C key) → Reach R C key s → Inv s
  unfolding open_log
  Reach-Inv _ begin = record {
    alone = λ k h. cc h;
    free = λ _. opened [] none none [] missing;
    held = λ k h. cc h;
  }
  Reach-Inv _ (later {s} reach (pick i mv)) = Move-Inv s i (s.pc i) _ _ refl mv (Reach-Inv s reach)
