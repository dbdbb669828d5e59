-- ===== src/Writers/Sequential.antt =====
-- log.py: what concurrent calls of `append` leave, against calls that are made one after the other.
use mcp_attest.Base.{
  ℕ, ◌≡◌, refl, sym, ap, ◌∙◌, ◌⊎◌, inl, inr, true, Option, none, some, List, [], ◌++◌, append-nil,
  length,
}
use mcp_attest.Base.Text.{Bytes}
use mcp_attest.Errors.{Result, ok}
use mcp_attest.Runtime.{Runtime, IsLawful}
use mcp_attest.Crypto.{Primitives, IsSound, public_key_from_private}
use mcp_attest.Entry.{SignedRecord, Receipt}
use mcp_attest.Log.Reader.{Disk, AttestationLog, iter_records}
use mcp_attest.Log.Writer.{Call, append}
use mcp_attest.Verifier.{verify_chain, passed}
use mcp_attest.Verifier.Growth.{Written, verify_chain-Written}
use mcp_attest.Writers.{Pc, idle, waiting, locked, writing, leaving, critical, System, Reach}
use mcp_attest.Writers.Invariant.{Inv, Free, Held, Reach-Inv}

module _ (R : Runtime) (L : IsLawful R) (C : Primitives) (S : IsSound C) (key : Bytes) where
  Held-critical :
      (file : Bytes) (history : List (SignedRecord R.Float)) (p : Pc R C key)
      → Held R L C S key file history p
      → critical R C key p ≡ true
  Held-critical file history idle h = elim h [ ]
  Held-critical file history (waiting j) h = elim h [ ]
  Held-critical file history (locked j) h = refl
  Held-critical file history (writing r todo) h = refl
  Held-critical file history leaving h = refl

  -- The holder is between the two calls of `flock`.
  pub holder-critical :
      (s : System R C key) (k : ℕ)
      → Reach R C key s
      → s.shared.holder ≡ some k
      → critical R C key (s.pc k) ≡ true
  holder-critical s k reach h =
      Held-critical s.shared.file s.shared.history (s.pc k)
        ((Reach-Inv R L C S key s reach).held k h)

  -- Whatever steps any number of threads and processes make, two of them are never between the two calls of
  -- `flock` at once.
  pub Reach-exclusive :
      (s : System R C key) (i j : ℕ)
      → Reach R C key s
      → critical R C key (s.pc i) ≡ true
      → critical R C key (s.pc j) ≡ true
      → i ≡ j
  Reach-exclusive s i j reach p q =
      let inv = Reach-Inv R L C S key s reach in cc (inv.alone i p, inv.alone j q)

  -- Nothing, or what has been written so far of the line of one `append` to the file `base`, by a writer with
  -- the key.
  abbrev pub IsPartOfLine : Bytes → Bytes → Type 0
  IsPartOfLine base part =
      (part ≡ [])
      ⊎ ((log : AttestationLog) × (call : Call R.Float) × (r : SignedRecord R.Float)
          × (receipt : Receipt) × (rest : Bytes) × (log.private_key ≡ some key)
          × (append R C log call (some base) ≡ (ok (r, receipt), some (base ++ (part ++ rest)))))

  -- What an append returns that adds the line.
  abbrev returned :
      SignedRecord R.Float
      → Receipt
      → Bytes
      → Bytes
      → Result (SignedRecord R.Float × Receipt) × Disk
  returned r receipt base line = (ok (r, receipt), some (base ++ line))

  -- What the file is of: a sequential file with the same records, and a part of a line behind it.
  record IsPartly (file : Bytes) (history : List (SignedRecord R.Float)) : Type 0 where
    base : Bytes
    part : Bytes
    sequential : Written R L C S key (some base) history
    split : file ≡ base ++ part
    of_line : IsPartOfLine base part

  whole :
      (file : Bytes) (history : List (SignedRecord R.Float))
      → Free R L C S key file history
      → IsPartly file history
  whole file history w = record {
    base = file;
    part = [];
    sequential = w;
    split = sym (append-nil file);
    of_line = inl refl;
  }

  partly :
      (file : Bytes) (history : List (SignedRecord R.Float)) (p : Pc R C key)
      → Held R L C S key file history p
      → IsPartly file history
  partly file history idle h = elim h [ ]
  partly file history (waiting j) h = elim h [ ]
  partly file history (locked j) h = whole file history h
  partly file history leaving h = whole file history h
  partly file history (writing r todo) h = record {
    base = h.before;
    part = h.done;
    sequential = h.sequential;
    split = h.so_far;
    of_line = inr (
      h.log,
      h.call,
      r,
      h.receipt,
      todo,
      h.keyed,
      h.returns ∙ ap (returned r h.receipt h.before) h.remaining,
    );
  }

  by_holder :
      (s : System R C key) (o : Option ℕ)
      → s.shared.holder ≡ o
      → Inv R L C S key s
      → IsPartly s.shared.file s.shared.history
  by_holder s none e inv = whole s.shared.file s.shared.history (inv.free e)
  by_holder s (some k) e inv = partly s.shared.file s.shared.history (s.pc k) (inv.held k e)

  -- Concurrent appends implement sequential ones. Whatever steps any number of threads and processes with
  -- one private key make, the file is at each moment one that appends made one after the other, with the
  -- records written so far in the order of the locks, and behind it a part of the line of one more append to
  -- that file, or nothing; and while no thread holds the lock there is no such part, `iter_records` gives
  -- these records and `verify_chain` passes them.
  pub Reach-Written :
      (s : System R C key) (public : Bytes)
      → Reach R C key s
      → public_key_from_private C key ≡ ok public
      → ((base : Bytes) × (part : Bytes) × Written R L C S key (some base) s.shared.history
          × (s.shared.file ≡ base ++ part)
          × IsPartOfLine base part)
        × (s.shared.holder ≡ none
            → Written R L C S key (some s.shared.file) s.shared.history
              × (iter_records R (some s.shared.file) ≡ ok s.shared.history)
              × (verify_chain R C public (some s.shared.file)
                  ≡ ok (passed (length s.shared.history))))
  Reach-Written s public reach is_public =
      let inv = Reach-Inv R L C S key s reach in
      let p = by_holder s s.shared.holder refl inv in
      (
        (p.base, p.part, p.sequential, p.split, p.of_line),
        λ e.
            let w = inv.free e in
            let (read, passes) =
              verify_chain-Written R L C S key public (some s.shared.file) s.shared.history w
                is_public in
            (w, read, passes),
      )
