-- ===== src/Json/Parse/RoundTrip.antt =====
-- The tokens of a value, and that the decoder reads them back.
use mcp_attest.Base.{
  ◌≡◌, refl, sym, ap, ◌∙◌, Bool, true, false, List, [], ◌∷◌, ◌++◌, append_assoc, if◌then◌else◌,
}
use mcp_attest.Base.Text.{Text}
use mcp_attest.Value.{
  Value, Items, no_items, item, Fields, no_fields, field, null, bool, int, float, str, list, tuple,
  dict, foreign,
}
use mcp_attest.Value.Dict.{
  keys, set, append_items, append_fields, set-absent, append_items-snoc, append_fields-snoc,
  append_items-nil, keys-append,
}
use mcp_attest.Value.Keys.{
  Distinct, Distinct-middle, HasDistinctKeys, ItemsHaveDistinctKeys, FieldsHaveDistinctKeys,
}
use mcp_attest.Json.Token.{Token, lbrace, rbrace, lbrack, rbrack, comma, colon, text, scalar}
use mcp_attest.Json.Parse.{
  Frame, in_list, in_dict, value_wanted, first_item, first_key, value_done, snoc, parse,
}

module _ {F : Type 0} where
  -- A JSON text does not tell a tuple from a list.
  unfoldable mutual
    pub json_form : Value F → Value F
    json_form (list xs) = list (json_items xs)
    json_form (tuple xs) = list (json_items xs)
    json_form (dict fs) = dict (json_fields fs)
    json_form null = null
    json_form (bool b) = bool b
    json_form (int n) = int n
    json_form (float x) = float x
    json_form (str s) = str s
    json_form (foreign s) = foreign s

    pub json_items : Items F → Items F
    json_items no_items = no_items
    json_items (item v xs) = item (json_form v) (json_items xs)

    pub json_fields : Fields F → Fields F
    json_fields no_fields = no_fields
    json_fields (field k v fs) = field k (json_form v) (json_fields fs)

  abbrev pub comma_token_unless : Bool → List (Token F)
  comma_token_unless first = if first then [] else comma ∷ []

  unfoldable mutual
    pub tokens : Value F → List (Token F)
    tokens (list xs) = lbrack ∷ item_tokens xs true
    tokens (tuple xs) = lbrack ∷ item_tokens xs true
    tokens (dict fs) = lbrace ∷ field_tokens fs true
    tokens (str s) = text s ∷ []
    tokens null = scalar null ∷ []
    tokens (bool b) = scalar (bool b) ∷ []
    tokens (int n) = scalar (int n) ∷ []
    tokens (float x) = scalar (float x) ∷ []
    tokens (foreign s) = scalar (foreign s) ∷ []

    pub item_tokens : Items F → Bool → List (Token F)
    item_tokens no_items first = rbrack ∷ []
    item_tokens (item v xs) first = comma_token_unless first ++ (tokens v ++ item_tokens xs false)

    pub field_tokens : Fields F → Bool → List (Token F)
    field_tokens no_fields first = rbrace ∷ []
    field_tokens (field k v fs) first =
        comma_token_unless first ++ (text k ∷ colon ∷ (tokens v ++ field_tokens fs false))

  -- An opened list expects its first item like any value.
  first_item-tokens :
      (v : Value F) (st : List (Frame F)) (ts : List (Token F))
      → parse first_item st (tokens v ++ ts)
        ≡ parse value_wanted (in_list no_items ∷ st) (tokens v ++ ts)
  unfolding parse tokens
  first_item-tokens null st ts = refl
  first_item-tokens _ st ts = refl

  -- Setting a fresh key behind those of the dict.
  set-fresh :
      (k : Text) (v : Value F) (fs : Fields F) (ks : List Text)
      → Distinct (keys fs ++ (k ∷ ks))
      → set k v fs ≡ append_fields fs (field k v no_fields)
  set-fresh k v fs ks d = set-absent k v fs (Distinct-middle (keys fs) k ks d)

  Distinct-snoc :
      (fs : Fields F) (k : Text) (v : Value F) (ks : List Text)
      → Distinct (keys fs ++ (k ∷ ks))
      → Distinct (keys (append_fields fs (field k v no_fields)) ++ ks)
  Distinct-snoc fs k v ks d = rw (keys-append, append_assoc) d

  mutual
    unfolding parse tokens json_form HasDistinctKeys

    parse-tokens_lem :
        (v : Value F) (st : List (Frame F)) (ts : List (Token F))
        → HasDistinctKeys v
        → parse value_wanted st (tokens v ++ ts) ≡ parse (value_done (json_form v)) st ts
    parse-tokens_lem null st ts d = refl
    parse-tokens_lem (bool b) st ts d = refl
    parse-tokens_lem (int n) st ts d = refl
    parse-tokens_lem (float x) st ts d = refl
    parse-tokens_lem (str s) st ts d = refl
    parse-tokens_lem (foreign s) st ts d = refl
    parse-tokens_lem (list xs) st ts d = parse-item_tokens_first xs st ts d
    parse-tokens_lem (tuple xs) st ts d = parse-item_tokens_first xs st ts d
    parse-tokens_lem (dict fs) st ts d = parse-field_tokens_first fs st ts d.0 d.1

    parse-item_tokens_first :
        (xs : Items F) (st : List (Frame F)) (ts : List (Token F))
        → ItemsHaveDistinctKeys xs
        → parse first_item st (item_tokens xs true ++ ts)
          ≡ parse (value_done (list (json_items xs))) st ts
    parse-item_tokens_first no_items st ts d = refl
    parse-item_tokens_first (item v xs) st ts d =
        rw (append_assoc (tokens v) (item_tokens xs false) ts) (
          first_item-tokens v st (item_tokens xs false ++ ts)
          ∙ parse-tokens_lem v (in_list no_items ∷ st) (item_tokens xs false ++ ts) d.0
          ∙ parse-item_tokens_more xs (json_form v) no_items st ts d.1)

    parse-item_tokens_more :
        (xs : Items F) (w : Value F) (acc : Items F) (st : List (Frame F)) (ts : List (Token F))
        → ItemsHaveDistinctKeys xs
        → parse (value_done w) (in_list acc ∷ st) (item_tokens xs false ++ ts)
          ≡ parse (value_done (list (append_items (snoc acc w) (json_items xs)))) st ts
    parse-item_tokens_more no_items w acc st ts d =
        ap (λ ys. parse (value_done (list ys)) st ts) (sym (append_items-nil (snoc acc w)))
    parse-item_tokens_more (item v xs) w acc st ts d =
        rw (append_assoc (tokens v) (item_tokens xs false) ts) (
          parse-tokens_lem v (in_list (snoc acc w) ∷ st) (item_tokens xs false ++ ts) d.0
          ∙ parse-item_tokens_more xs (json_form v) (snoc acc w) st ts d.1
          ∙ ap (λ ys. parse (value_done (list ys)) st ts)
              (append_items-snoc (snoc acc w) (json_form v) (json_items xs)))

    parse-field_tokens_first :
        (fs : Fields F) (st : List (Frame F)) (ts : List (Token F))
        → Distinct (keys fs)
        → FieldsHaveDistinctKeys fs
        → parse first_key st (field_tokens fs true ++ ts)
          ≡ parse (value_done (dict (json_fields fs))) st ts
    parse-field_tokens_first no_fields st ts k d = refl
    parse-field_tokens_first (field k v fs) st ts u d =
        rw (append_assoc (tokens v) (field_tokens fs false) ts) (
          parse-tokens_lem v (in_dict no_fields k ∷ st) (field_tokens fs false ++ ts) d.0
          ∙ parse-field_tokens_more fs (json_form v) no_fields k st ts u d.1)

    parse-field_tokens_more :
        (fs : Fields F) (w : Value F) (acc : Fields F) (k : Text) (st : List (Frame F))
        (ts : List (Token F))
        → Distinct (keys acc ++ (k ∷ keys fs))
        → FieldsHaveDistinctKeys fs
        → parse (value_done w) (in_dict acc k ∷ st) (field_tokens fs false ++ ts)
          ≡ parse (value_done (dict (append_fields acc (field k w (json_fields fs))))) st ts
    parse-field_tokens_more no_fields w acc k st ts u d =
        ap (λ gs. parse (value_done (dict gs)) st ts) (set-fresh k w acc [] u)
    parse-field_tokens_more (field j v fs) w acc k st ts u d =
        rw (append_assoc (tokens v) (field_tokens fs false) ts) (
          ap
            (λ gs.
              parse value_wanted (in_dict gs j ∷ st) (tokens v ++ (field_tokens fs false ++ ts)))
            (set-fresh k w acc (j ∷ keys fs) u)
          ∙ parse-tokens_lem v (in_dict (append_fields acc (field k w no_fields)) j ∷ st)
              (field_tokens fs false ++ ts) d.0
          ∙ parse-field_tokens_more fs (json_form v) (append_fields acc (field k w no_fields)) j st
              ts (Distinct-snoc acc k w (j ∷ keys fs) u) d.1
          ∙ ap (λ gs. parse (value_done (dict gs)) st ts)
              (append_fields-snoc acc k w (field j (json_form v) (json_fields fs))))

  -- The tokens of a value, in front of any others, are read as the value.
  pub parse-tokens :
      (v : Value F) (st : List (Frame F)) (ts : List (Token F))
      → HasDistinctKeys v
      → parse value_wanted st (tokens v ++ ts) ≡ parse (value_done (json_form v)) st ts
  parse-tokens v st ts d = parse-tokens_lem v st ts d
