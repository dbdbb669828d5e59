-- ===== src/Value/Keys.antt =====
-- The keys of a Python dict are distinct. The invariant on values, at every depth.
use mcp_attest.Base.{◌≡◌, refl, false, ◌||◌, List, [], ◌∷◌, ◌++◌, arith}
use mcp_attest.Base.Text.{Text, contains, text_eq_iff}
use mcp_attest.Value.{
  Value, Items, no_items, item, Fields, no_fields, field, null, bool, int, float, str, list, tuple,
  dict, foreign,
}
use mcp_attest.Value.Dict.{keys}

abbrev pub Distinct : List Text → Type 0
Distinct [] = Unit
Distinct (k ∷ ks) = (contains k ks ≡ false) × Distinct ks

module _ {F : Type 0} where
  -- Every dict inside the value has distinct keys.
  unfoldable mutual
    pub HasDistinctKeys : Value F → Type 0
    HasDistinctKeys null = Unit
    HasDistinctKeys (bool b) = Unit
    HasDistinctKeys (int n) = Unit
    HasDistinctKeys (float x) = Unit
    HasDistinctKeys (str s) = Unit
    HasDistinctKeys (list xs) = ItemsHaveDistinctKeys xs
    HasDistinctKeys (tuple xs) = ItemsHaveDistinctKeys xs
    HasDistinctKeys (dict fs) = Distinct (keys fs) × FieldsHaveDistinctKeys fs
    HasDistinctKeys (foreign s) = Unit

    pub ItemsHaveDistinctKeys : Items F → Type 0
    ItemsHaveDistinctKeys no_items = Unit
    ItemsHaveDistinctKeys (item v xs) = HasDistinctKeys v × ItemsHaveDistinctKeys xs

    pub FieldsHaveDistinctKeys : Fields F → Type 0
    FieldsHaveDistinctKeys no_fields = Unit
    FieldsHaveDistinctKeys (field k v fs) = HasDistinctKeys v × FieldsHaveDistinctKeys fs

pub contains-append :
    (k : Text) (js ks : List Text) → contains k (js ++ ks) ≡ (contains k js || contains k ks)
unfolding contains
contains-append k [] ks = refl
contains-append k (j ∷ js) ks = ground (arith, contains-append k js ks)

-- In a list with distinct keys none of the keys behind a key comes before it.
pub Distinct-middle :
    (js : List Text) (k : Text) (ks : List Text) → Distinct (js ++ (k ∷ ks)) → contains k js ≡ false
unfolding contains
Distinct-middle [] k ks d = refl
Distinct-middle (j ∷ js) k ks d = ground (
  arith,
  Distinct-middle js k ks d.1,
  contains-append j js (k ∷ ks),
  text_eq_iff k j,
  text_eq_iff j k,
)
