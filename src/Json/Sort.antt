-- ===== src/Json/Sort.antt =====
-- `sort_keys=True`: the items of every dict in the order of their keys.
use mcp_attest.Base.{if◌then◌else◌}
use mcp_attest.Base.Text.{Text, text_le}
use mcp_attest.Value.{
  Value, Items, no_items, item, Fields, no_fields, field, null, bool, int, float, str, list, tuple,
  dict, foreign,
}

module _ {F : Type 0} where
  -- Insertion before the first key that is not smaller.
  unfoldable pub insert_field : Text → Value F → Fields F → Fields F
  insert_field k v no_fields = field k v no_fields
  insert_field k v (field j w fs) =
      if text_le k j then field k v (field j w fs) else field j w (insert_field k v fs)

  unfoldable mutual
    pub sort_keys : Value F → Value F
    sort_keys (list xs) = list (sort_items xs)
    sort_keys (tuple xs) = tuple (sort_items xs)
    sort_keys (dict fs) = dict (sort_fields fs)
    sort_keys null = null
    sort_keys (bool b) = bool b
    sort_keys (int n) = int n
    sort_keys (float x) = float x
    sort_keys (str s) = str s
    sort_keys (foreign s) = foreign s

    pub sort_items : Items F → Items F
    sort_items no_items = no_items
    sort_items (item v xs) = item (sort_keys v) (sort_items xs)

    pub sort_fields : Fields F → Fields F
    sort_fields no_fields = no_fields
    sort_fields (field k v fs) = insert_field k (sort_keys v) (sort_fields fs)
