-- ===== src/Json/Parse.antt =====
-- The decoder on tokens: one step for each token, with the containers that are open on a stack.
pub mod RoundTrip
use mcp_attest.Base.{ℕ, Bool, true, false, Option, none, some, List, [], ◌∷◌, ◌++◌}
use mcp_attest.Base.Text.{Text}
use mcp_attest.Errors.{Result, ok, raised, json_decode_error}
use mcp_attest.Value.{Value, Items, no_items, item, Fields, no_fields, field, str, list, dict}
use mcp_attest.Value.Dict.{set, append_items}
use mcp_attest.Json.Token.{Token, lbrace, rbrace, lbrack, rbrack, comma, colon, text, scalar}

-- An open container: the items before the one being read, or the fields and the key.
pub data Frame (F : Type 0) : Type 0 where
  in_list : Items F → Frame F
  in_dict : Fields F → Text → Frame F

-- What may come next. `value_done` holds the value that has just been read.
pub data State (F : Type 0) : Type 0 where
  value_wanted : State F
  first_item : State F
  first_key : State F
  key_wanted : Fields F → State F
  colon_wanted : Fields F → Text → State F
  value_done : Value F → State F

module _ {F : Type 0} where
  -- The list with the item that has just been read.
  abbrev pub snoc : Items F → Value F → Items F
  snoc xs v = append_items xs (item v no_items)

  unfoldable pub parse : State F → List (Frame F) → List (Token F) → Result (Value F)
  parse value_wanted st (scalar v ∷ ts) = parse (value_done v) st ts
  parse value_wanted st (text s ∷ ts) = parse (value_done (str s)) st ts
  parse value_wanted st (lbrack ∷ ts) = parse first_item st ts
  parse value_wanted st (lbrace ∷ ts) = parse first_key st ts
  parse first_item st (rbrack ∷ ts) = parse (value_done (list no_items)) st ts
  parse first_item st (scalar v ∷ ts) = parse (value_done v) (in_list no_items ∷ st) ts
  parse first_item st (text s ∷ ts) = parse (value_done (str s)) (in_list no_items ∷ st) ts
  parse first_item st (lbrack ∷ ts) = parse first_item (in_list no_items ∷ st) ts
  parse first_item st (lbrace ∷ ts) = parse first_key (in_list no_items ∷ st) ts
  parse first_key st (rbrace ∷ ts) = parse (value_done (dict no_fields)) st ts
  parse first_key st (text k ∷ ts) = parse (colon_wanted no_fields k) st ts
  parse (key_wanted fs) st (text k ∷ ts) = parse (colon_wanted fs k) st ts
  parse (colon_wanted fs k) st (colon ∷ ts) = parse value_wanted (in_dict fs k ∷ st) ts
  parse (value_done v) (in_list xs ∷ st) (comma ∷ ts) =
      parse value_wanted (in_list (snoc xs v) ∷ st) ts
  parse (value_done v) (in_list xs ∷ st) (rbrack ∷ ts) = parse (value_done (list (snoc xs v))) st ts
  parse (value_done v) (in_dict fs k ∷ st) (comma ∷ ts) = parse (key_wanted (set k v fs)) st ts
  parse (value_done v) (in_dict fs k ∷ st) (rbrace ∷ ts) =
      parse (value_done (dict (set k v fs))) st ts
  parse (value_done v) [] [] = ok v
  parse _ _ _ = raised json_decode_error
