-- ===== src/Json/RoundTrip.antt =====
-- `json.loads` reads back what `json.dumps` wrote.
use mcp_attest.Base.{◌≡◌, refl, sym, ap, ◌∙◌, false, ◌||◌, List, [], ◌++◌, append-nil, arith}
use mcp_attest.Base.Text.{Text, text_eq, contains, text_eq_iff}
use mcp_attest.Errors.{Result, ok, raised, ◌>>=◌, json_decode_error}
use mcp_attest.Runtime.{Runtime, IsLawful}
use mcp_attest.Value.{
  Value, Items, no_items, item, Fields, no_fields, field, null, bool, int, float, str, list, tuple,
  dict, foreign,
}
use mcp_attest.Value.Dict.{keys}
use mcp_attest.Value.Keys.{Distinct, HasDistinctKeys, ItemsHaveDistinctKeys, FieldsHaveDistinctKeys}
use mcp_attest.Json.{dumps, loads}
use mcp_attest.Json.Sort.{sort_keys, sort_items, sort_fields, insert_field}
use mcp_attest.Json.Token.{between}
use mcp_attest.Json.Lex.{lex}
use mcp_attest.Json.Scan.{lex-encode, lex-encode_dict}
use mcp_attest.Json.Encode.{encode}
use mcp_attest.Json.Token.{Token}
use mcp_attest.Json.Parse.{parse, value_wanted}
use mcp_attest.Json.Parse.RoundTrip.{tokens, json_form, parse-tokens}

-- The value that `loads` makes of the text of `v`: keys in order, tuples as lists.
module _ {F : Type 0} where
  unfoldable pub canonical_form : Value F → Value F
  canonical_form v = json_form (sort_keys v)

  contains-insert_field :
      (j k : Text) (v : Value F) (fs : Fields F)
      → contains j (keys (insert_field k v fs)) ≡ (text_eq j k || contains j (keys fs))
  unfolding insert_field contains
  contains-insert_field j k v no_fields = refl
  contains-insert_field j k v (field i w fs) = ground (arith, contains-insert_field j k v fs)

  contains-sort_fields :
      (j : Text) (fs : Fields F) → contains j (keys (sort_fields fs)) ≡ contains j (keys fs)
  unfolding sort_keys contains
  contains-sort_fields j no_fields = refl
  contains-sort_fields j (field k v fs) =
      contains-insert_field j k (sort_keys v) (sort_fields fs)
      ∙ ap (λ b. text_eq j k || b) (contains-sort_fields j fs)

  Distinct-insert_field :
      (k : Text) (v : Value F) (fs : Fields F)
      → contains k (keys fs) ≡ false
      → Distinct (keys fs)
      → Distinct (keys (insert_field k v fs))
  unfolding insert_field contains
  Distinct-insert_field k v no_fields h d = (h, tt)
  Distinct-insert_field k v (field j w fs) h (absent, d) = ground (
    arith,
    Distinct-insert_field k v fs,
    contains-insert_field j k v fs,
    text_eq_iff j k,
    text_eq_iff k j,
  )

  Distinct-sort_fields : (fs : Fields F) → Distinct (keys fs) → Distinct (keys (sort_fields fs))
  unfolding sort_keys
  Distinct-sort_fields no_fields d = tt
  Distinct-sort_fields (field k v fs) (absent, d) =
      Distinct-insert_field k (sort_keys v) (sort_fields fs) (contains-sort_fields k fs ∙ absent)
        (Distinct-sort_fields fs d)

  FieldsHaveDistinctKeys-insert_field :
      (k : Text) (v : Value F) (fs : Fields F)
      → HasDistinctKeys v
      → FieldsHaveDistinctKeys fs
      → FieldsHaveDistinctKeys (insert_field k v fs)
  unfolding insert_field HasDistinctKeys
  FieldsHaveDistinctKeys-insert_field k v no_fields h d = (h, tt)
  FieldsHaveDistinctKeys-insert_field k v (field j w fs) h (e, d) =
      ground (arith, FieldsHaveDistinctKeys-insert_field k v fs h d)

  mutual
    unfolding sort_keys HasDistinctKeys

    sort_keys-Distinct : (v : Value F) → HasDistinctKeys v → HasDistinctKeys (sort_keys v)
    sort_keys-Distinct null d = tt
    sort_keys-Distinct (bool b) d = tt
    sort_keys-Distinct (int n) d = tt
    sort_keys-Distinct (float x) d = tt
    sort_keys-Distinct (str s) d = tt
    sort_keys-Distinct (foreign s) d = tt
    sort_keys-Distinct (list xs) d = sort_items-Distinct xs d
    sort_keys-Distinct (tuple xs) d = sort_items-Distinct xs d
    sort_keys-Distinct (dict fs) (k, d) = (Distinct-sort_fields fs k, sort_fields-Distinct fs d)

    sort_items-Distinct :
        (xs : Items F) → ItemsHaveDistinctKeys xs → ItemsHaveDistinctKeys (sort_items xs)
    sort_items-Distinct no_items d = tt
    sort_items-Distinct (item v xs) (h, d) = (sort_keys-Distinct v h, sort_items-Distinct xs d)

    sort_fields-Distinct :
        (fs : Fields F) → FieldsHaveDistinctKeys fs → FieldsHaveDistinctKeys (sort_fields fs)
    sort_fields-Distinct no_fields d = tt
    sort_fields-Distinct (field k v fs) (h, d) =
        FieldsHaveDistinctKeys-insert_field k (sort_keys v) (sort_fields fs)
          (sort_keys-Distinct v h) (sort_fields-Distinct fs d)

module _ (R : Runtime) (L : IsLawful R) where
  -- Text written for a value with distinct keys is read back as the value in canonical form.
  pub loads-dumps :
      (v : Value R.Float) (s : Text)
      → HasDistinctKeys v
      → dumps R v ≡ ok s
      → loads R s ≡ ok (canonical_form v)
  unfolding dumps loads canonical_form
  loads-dumps v s d h =
      let w = sort_keys v in
      let scanned = lex-encode R L w s [] h tt in
      let whole : lex R between s ≡ ok (tokens w) =
        ap (lex R between) (sym (append-nil s))
        ∙ scanned
        ∙ unfold lex in ap ok (append-nil (tokens w)) in
      rw whole (
        ap (parse value_wanted []) (sym (append-nil (tokens w)))
        ∙ parse-tokens w [] [] (sort_keys-Distinct v d)
        ∙ unfold parse in refl)

  lex-encode_all :
      (fs : Fields R.Float) (s : Text)
      → encode R (dict fs) ≡ ok s
      → lex R between s ≡ ok (tokens (dict fs))
  lex-encode_all fs s h =
      ap (lex R between) (sym (append-nil s))
      ∙ lex-encode_dict R L fs s [] h
      ∙ unfold lex in ap ok (append-nil (tokens (dict fs)))

  parse-glued :
      (fs gs : Fields R.Float)
      → HasDistinctKeys (dict fs)
      → parse value_wanted [] (tokens (dict fs) ++ tokens (dict gs)) ≡ raised json_decode_error
  unfolding tokens parse
  parse-glued fs gs d = parse-tokens (dict fs) [] (tokens (dict gs)) d

  -- The texts of two dicts behind each other are no JSON.
  pub loads-glued :
      (fs gs : Fields R.Float) (s t : Text)
      → HasDistinctKeys (dict fs)
      → dumps R (dict fs) ≡ ok s
      → dumps R (dict gs) ≡ ok t
      → loads R (s ++ t) ≡ raised json_decode_error
  unfolding dumps loads sort_keys
  loads-glued fs gs s t d h k =
      let us = tokens (dict (sort_fields gs)) in
      let scanned : lex R between (s ++ t) ≡ ok (tokens (dict (sort_fields fs)) ++ us) =
        lex-encode_dict R L (sort_fields fs) s t h
        ∙ ap
            (λ (m : Result (List (Token R.Float))). do
              vs ← m
              ok (tokens (dict (sort_fields fs)) ++ vs))
            (lex-encode_all (sort_fields gs) t k) in
      rw scanned (parse-glued (sort_fields fs) (sort_fields gs) (sort_keys-Distinct (dict fs) d))
