-- ===== src/Writers/Exclusion.antt =====
-- log.py: the lock of concurrent `append` calls, whose file the holder alone changes.
use mcp_attest.Base.{ℕ, ◌≡◌, refl, true, false, none, some, List}
use mathlib.Core.Logic.{if_pos, if_neg}
use mathlib.Core.Path.{subst}
use native.Mathlib.Decide.{ℕ_discrete}
use mcp_attest.Base.Text.{Bytes}
use mcp_attest.Runtime.{Runtime}
use mcp_attest.Crypto.{Primitives}
use mcp_attest.Entry.{SignedRecord}
use mcp_attest.Writers.{Pc, critical, System, update}

-- What holds of a family at each index holds after an update, if it holds of the new value.
update-all {ℓ} :
    {A : Type ℓ} (B : ℕ → A → Type 0) (i : ℕ) (a : A) (f : ℕ → A)
    → B i a
    → ((j : ℕ) → (i ≡ j → ⊥) → B j (f j))
    → (j : ℕ) → B j (update i a f j)
update-all {A} B i a f h k j = elim (ℕ_discrete i j) [
  | yes e ↦ rw (if_pos (ℕ_discrete i j) e) (subst (λ x. B x a) e h)
  | no n ↦ rw (if_neg (ℕ_discrete i j) n) (k j n)
]

pub update-same {ℓ} : {A : Type ℓ} (i : ℕ) (a : A) (f : ℕ → A) → update i a f i ≡ a
update-same i a f = rw (if_pos (ℕ_discrete i i) refl) refl

module _ (R : Runtime) (C : Primitives) (key : Bytes) where
  -- `Free` is what holds of the file and the history while no thread holds the lock, and `Held` what holds
  -- of them and of the place of the thread that does.
  module _ (Free : Bytes → List (SignedRecord R.Float) → Type 0)
      (Held : Bytes → List (SignedRecord R.Float) → Pc R C key → Type 0) where
    -- Only the holder is between the two calls of `flock`.
    pub record IsExclusive (s : System R C key) : Type 0 where
      pub alone : (k : ℕ) → critical R C key (s.pc k) ≡ true → s.shared.holder ≡ some k
      pub free : s.shared.holder ≡ none → Free s.shared.file s.shared.history
      pub held : (k : ℕ) → s.shared.holder ≡ some k → Held s.shared.file s.shared.history (s.pc k)

    module _ (s : System R C key) (inv : IsExclusive s) (i : ℕ) where
      -- A step outside of the lock.
      pub outside :
          (p : Pc R C key)
          → critical R C key (s.pc i) ≡ false
          → critical R C key p ≡ false
          → (s.shared.holder ≡ some i → Held s.shared.file s.shared.history p)
          → IsExclusive (record s { pc = update i p s.pc })
      outside p was now none_held = record {
        alone =
            update-all (λ k x. critical R C key x ≡ true → s.shared.holder ≡ some k) i p s.pc
              (λ c. cc (c, now)) (λ k _. inv.alone k);
        free = inv.free;
        held =
            update-all (λ k x. s.shared.holder ≡ some k → Held s.shared.file s.shared.history x) i p
              s.pc none_held (λ k _. inv.held k);
      }

      -- The lock is taken.
      pub taking :
          (p : Pc R C key)
          → s.shared.holder ≡ none
          → (Free s.shared.file s.shared.history → Held s.shared.file s.shared.history p)
          → IsExclusive
              (record s { shared = record s.shared { holder = some i }; pc = update i p s.pc })
      taking p is_free enter = record {
        alone =
            update-all (λ k x. critical R C key x ≡ true → some i ≡ some k) i p s.pc (λ _. refl)
              (λ k _ c. cc (inv.alone k c, is_free));
        free = λ h. cc h;
        held =
            update-all (λ k x. some i ≡ some k → Held s.shared.file s.shared.history x) i p s.pc
              (λ _. enter (inv.free is_free)) (λ k other h. absurd (other (cc h)));
      }

      -- A step of the holder.
      pub inside :
          (p : Pc R C key) (file : Bytes) (history : List (SignedRecord R.Float))
          → critical R C key (s.pc i) ≡ true
          → (Held s.shared.file s.shared.history (s.pc i) → Held file history p)
          → IsExclusive (record {
            shared = record { file = file; holder = s.shared.holder; history = history };
            pc = update i p s.pc;
          })
      inside p file history was go =
          let mine = inv.alone i was in
          record {
            alone =
                update-all (λ k x. critical R C key x ≡ true → s.shared.holder ≡ some k) i p s.pc
                  (λ _. mine) (λ k _. inv.alone k);
            free = λ h. cc (h, mine);
            held =
                update-all (λ k x. s.shared.holder ≡ some k → Held file history x) i p s.pc
                  (λ _. go (inv.held i mine)) (λ k other h. absurd (other (cc (h, mine))));
          }

      -- The lock is given back.
      pub giving :
          (p : Pc R C key)
          → critical R C key (s.pc i) ≡ true
          → critical R C key p ≡ false
          → (Held s.shared.file s.shared.history (s.pc i) → Free s.shared.file s.shared.history)
          → IsExclusive
              (record s { shared = record s.shared { holder = none }; pc = update i p s.pc })
      giving p was now leave =
          let mine = inv.alone i was in
          record {
            alone =
                update-all (λ k x. critical R C key x ≡ true → none ≡ some k) i p s.pc
                  (λ c. cc (c, now)) (λ k other c. absurd (other (cc (inv.alone k c, mine))));
            free = λ _. leave (inv.held i mine);
            held = λ k h. cc h;
          }
