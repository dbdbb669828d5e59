-- ===== src/Value/Dict.antt =====
-- Operations of a dict: its keys, `get`, `in`, and assignment, which keeps the place of an old key.
use mcp_attest.Base.{
  ◌≡◌, refl, ap, false, Option, none, some, List, [], ◌∷◌, ◌++◌, arith, if◌then◌else◌,
}
use mcp_attest.Base.Text.{Text, text_eq, contains, text_eq_iff}
use mcp_attest.Value.{Value, Items, no_items, item, Fields, no_fields, field}

module _ {F : Type 0} where
  -- d.keys()
  abbrev pub keys : Fields F → List Text
  keys no_fields = []
  keys (field k v fs) = k ∷ keys fs

  -- d.get(k)
  unfoldable pub get : Text → Fields F → Option (Value F)
  get k no_fields = none
  get k (field j v fs) = if text_eq k j then some v else get k fs

  -- d[k] = v
  unfoldable pub set : Text → Value F → Fields F → Fields F
  set k v no_fields = field k v no_fields
  set k v (field j w fs) = if text_eq k j then field j v fs else field j w (set k v fs)

  abbrev pub append_fields : Fields F → Fields F → Fields F
  append_fields no_fields gs = gs
  append_fields (field k v fs) gs = field k v (append_fields fs gs)

  abbrev pub append_items : Items F → Items F → Items F
  append_items no_items ys = ys
  append_items (item v xs) ys = item v (append_items xs ys)

  -- Setting a key that the dict lacks puts it last.
  pub set-absent :
      (k : Text) (v : Value F) (fs : Fields F)
      → contains k (keys fs) ≡ false
      → set k v fs ≡ append_fields fs (field k v no_fields)
  unfolding set contains
  set-absent k v no_fields h = refl
  set-absent k v (field j w fs) h = ground (arith, set-absent k v fs)

  pub get-set :
      (j k : Text) (v : Value F) (fs : Fields F)
      → get j (set k v fs) ≡ (if text_eq j k then some v else get j fs)
  unfolding get set
  get-set j k v no_fields = refl
  get-set j k v (field i w fs) =
      ground (arith, get-set j k v fs, text_eq_iff k i, text_eq_iff j i, text_eq_iff j k)

  pub append_fields-snoc :
      (fs : Fields F) (k : Text) (v : Value F) (gs : Fields F)
      → append_fields (append_fields fs (field k v no_fields)) gs ≡ append_fields fs (field k v gs)
  append_fields-snoc no_fields k v gs = refl
  append_fields-snoc (field j w fs) k v gs = ap (field j w) (append_fields-snoc fs k v gs)

  pub append_items-snoc :
      (xs : Items F) (v : Value F) (ys : Items F)
      → append_items (append_items xs (item v no_items)) ys ≡ append_items xs (item v ys)
  append_items-snoc no_items v ys = refl
  append_items-snoc (item w xs) v ys = ap (item w) (append_items-snoc xs v ys)

  pub append_fields-nil : (fs : Fields F) → append_fields fs no_fields ≡ fs
  append_fields-nil no_fields = refl
  append_fields-nil (field j w fs) = ap (field j w) (append_fields-nil fs)

  pub append_items-nil : (xs : Items F) → append_items xs no_items ≡ xs
  append_items-nil no_items = refl
  append_items-nil (item w xs) = ap (item w) (append_items-nil xs)

  pub keys-append : (fs gs : Fields F) → keys (append_fields fs gs) ≡ keys fs ++ keys gs
  keys-append no_fields gs = refl
  keys-append (field k v fs) gs = ap (λ ks. k ∷ ks) (keys-append fs gs)
