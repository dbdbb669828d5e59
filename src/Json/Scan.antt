-- ===== src/Json/Scan.antt =====
-- The scanner splits an encoded value into its tokens.
use mcp_attest.Base.{
  ◌≡◌, refl, sym, ap, ◌∙◌, Bool, true, false, List, [], ◌∷◌, ◌++◌, append_assoc, if◌then◌else◌,
}
use mcp_attest.Base.Text.{Text, codes}
use mcp_attest.Errors.{Result, ok, raised, ◌>>=◌}
use mcp_attest.Errors.Laws.{>>=-eq-ok, ok-injective}
use mcp_attest.Runtime.{Runtime, IsLawful}
use mcp_attest.Value.{
  Value, Items, no_items, item, Fields, no_fields, field, null, bool, int, float, str, list, tuple,
  dict, foreign,
}
use mcp_attest.Json.Encode.{encode, encode_items, encode_fields, comma_unless, quoted}
use mcp_attest.Json.Token.{Token, lbrace, rbrace, lbrack, rbrack, colon, text, scalar, between}
use mcp_attest.Json.Lex.{push, step, start, lex}
use mcp_attest.Json.Lex.Strings.{lex-closed, lex-quoted}
use mcp_attest.Json.Lex.Digits.{Delimited}
use mcp_attest.Json.Lex.Numbers.{lex-int, lex-float}
use mcp_attest.Json.Parse.RoundTrip.{tokens, item_tokens, field_tokens, comma_token_unless}

module _ {F : Type 0} where
  -- The tokens in front of those of the rest.
  abbrev pub pushes : List (Token F) → Result (List (Token F)) → Result (List (Token F))
  pushes ts r = do us ← r; ok (ts ++ us)

  pushes-pushes :
      (ts us : List (Token F)) (r : Result (List (Token F)))
      → pushes ts (pushes us r) ≡ pushes (ts ++ us) r
  pushes-pushes ts us (ok vs) = ap ok (sym (append_assoc ts us vs))
  pushes-pushes ts us (raised e) = refl

module _ (R : Runtime) where
  lex-null :
      (s : Text) → lex R between (codes "null" ++ s) ≡ push R (ok (scalar null)) (lex R between s)
  unfolding lex step start
  lex-null s = refl

  lex-bool :
      (b : Bool) (s : Text)
      → lex R between ((if b then codes "true" else codes "false") ++ s)
        ≡ push R (ok (scalar (bool b))) (lex R between s)
  unfolding lex step start
  lex-bool true s = refl
  lex-bool false s = refl

  lex-comma_unless :
      (first : Bool) (s : Text)
      → lex R between (comma_unless first ++ s)
        ≡ pushes (comma_token_unless first) (lex R between s)
  unfolding lex step start
  lex-comma_unless true s = pushes-nil (lex R between s)
    where
      pushes-nil : (r : Result (List (Token R.Float))) → r ≡ pushes [] r
      pushes-nil (ok us) = refl
      pushes-nil (raised e) = refl
  lex-comma_unless false s = refl

  Delimited-items :
      (xs : Items R.Float) (b rest : Text) → encode_items R xs false ≡ ok b → Delimited (b ++ rest)
  unfolding encode
  Delimited-items no_items b rest h = rw (← ok-injective h) refl
  Delimited-items (item v xs) b rest h =
      let (s, hs, k) =
        >>=-eq-ok (encode R v) (λ s. do t ← encode_items R xs false; ok (b',' ∷ (s ++ t))) h in
      let (t, ht, e) = >>=-eq-ok (encode_items R xs false) (λ t. ok (b',' ∷ (s ++ t))) k in
      rw (← ok-injective e) refl

  Delimited-fields :
      (fs : Fields R.Float) (b rest : Text)
      → encode_fields R fs false ≡ ok b
      → Delimited (b ++ rest)
  unfolding encode
  Delimited-fields no_fields b rest h = rw (← ok-injective h) refl
  Delimited-fields (field k v fs) b rest h =
      let f = λ (s : Text) (t : Text). b',' ∷ (quoted k ++ (b':' ∷ (s ++ t))) in
      let (s, hs, l) =
        >>=-eq-ok (encode R v) (λ s. do t ← encode_fields R fs false; ok (f s t)) h in
      let (t, ht, e) = >>=-eq-ok (encode_fields R fs false) (λ t. ok (f s t)) l in
      rw (← ok-injective e) refl

  -- A list behind its bracket, if its items are scanned to their tokens.
  lex-opened_list :
      (xs : Items R.Float) (s rest : Text)
      → (do t ← encode_items R xs true; ok (b'[' ∷ t)) ≡ ok s
      → ((t : Text)
          → encode_items R xs true ≡ ok t
          → lex R between (t ++ rest) ≡ pushes (item_tokens xs true) (lex R between rest))
      → lex R between (s ++ rest) ≡ pushes (lbrack ∷ item_tokens xs true) (lex R between rest)
  unfolding step start
  lex-opened_list xs s rest h scanned =
      let (t, ht, e) = >>=-eq-ok (encode_items R xs true) (λ t. ok (b'[' ∷ t)) h in
      rw (← ok-injective e) (
        lex-closed R between (ok lbrack) b'[' (t ++ rest) refl
        ∙ ap (pushes (lbrack ∷ [])) (scanned t ht)
        ∙ pushes-pushes (lbrack ∷ []) (item_tokens xs true) (lex R between rest))

module _ (R : Runtime) (L : IsLawful R) where
  mutual
    unfolding encode tokens step start

    lex-encode_lem :
        (v : Value R.Float) (s rest : Text)
        → encode R v ≡ ok s
        → Delimited rest
        → lex R between (s ++ rest) ≡ pushes (tokens v) (lex R between rest)
    lex-encode_lem null s rest h d = rw (← ok-injective h) (lex-null R rest)
    lex-encode_lem (bool b) s rest h d = rw (← ok-injective h) (lex-bool R b rest)
    lex-encode_lem (int n) s rest h d = lex-int R n s rest h d
    lex-encode_lem (float x) s rest h d = lex-float R L x s rest h d
    lex-encode_lem (str u) s rest h d = rw (← ok-injective h) (lex-quoted R u rest)
    lex-encode_lem (foreign u) s rest h d = cc
    lex-encode_lem (list xs) s rest h d =
        lex-opened_list R xs s rest h (λ t. lex-encode_items xs true t rest)
    lex-encode_lem (tuple xs) s rest h d =
        lex-opened_list R xs s rest h (λ t. lex-encode_items xs true t rest)
    lex-encode_lem (dict fs) s rest h d =
        let (t, ht, e) = >>=-eq-ok (encode_fields R fs true) (λ t. ok (b'{' ∷ t)) h in
        rw (← ok-injective e) (
          lex-closed R between (ok lbrace) b'{' (t ++ rest) refl
          ∙ ap (pushes (lbrace ∷ [])) (lex-encode_fields fs true t rest ht)
          ∙ pushes-pushes (lbrace ∷ []) (field_tokens fs true) (lex R between rest))

    lex-encode_items :
        (xs : Items R.Float) (first : Bool) (s rest : Text)
        → encode_items R xs first ≡ ok s
        → lex R between (s ++ rest) ≡ pushes (item_tokens xs first) (lex R between rest)
    lex-encode_items no_items first s rest h =
        rw (← ok-injective h) (lex-closed R between (ok rbrack) b']' rest refl)
    lex-encode_items (item v xs) first s rest h =
        let f = λ (a : Text) (b : Text). comma_unless first ++ (a ++ b) in
        let (a, ha, k) =
          >>=-eq-ok (encode R v) (λ a. do b ← encode_items R xs false; ok (f a b)) h in
        let (b, hb, e) = >>=-eq-ok (encode_items R xs false) (λ b. ok (f a b)) k in
        rw
          (← ok-injective e, append_assoc (comma_unless first) (a ++ b) rest, append_assoc a b rest)
          (lex-comma_unless R first (a ++ (b ++ rest))
            ∙ ap (pushes (comma_token_unless first)) (
                lex-encode_lem v a (b ++ rest) ha (Delimited-items R xs b rest hb)
                ∙ ap (pushes (tokens v)) (lex-encode_items xs false b rest hb)
                ∙ pushes-pushes (tokens v) (item_tokens xs false) (lex R between rest))
            ∙ pushes-pushes (comma_token_unless first) (tokens v ++ item_tokens xs false)
                (lex R between rest))

    lex-encode_fields :
        (fs : Fields R.Float) (first : Bool) (s rest : Text)
        → encode_fields R fs first ≡ ok s
        → lex R between (s ++ rest) ≡ pushes (field_tokens fs first) (lex R between rest)
    lex-encode_fields no_fields first s rest h =
        rw (← ok-injective h) (lex-closed R between (ok rbrace) b'}' rest refl)
    lex-encode_fields (field k v fs) first s rest h =
        let f = λ (a : Text) (b : Text). comma_unless first ++ (quoted k ++ (b':' ∷ (a ++ b))) in
        let (a, ha, l) =
          >>=-eq-ok (encode R v) (λ a. do b ← encode_fields R fs false; ok (f a b)) h in
        let (b, hb, e) = >>=-eq-ok (encode_fields R fs false) (λ b. ok (f a b)) l in
        rw
          (
            ← ok-injective e,
            append_assoc (comma_unless first) (quoted k ++ (b':' ∷ (a ++ b))) rest,
            append_assoc (quoted k) (b':' ∷ (a ++ b)) rest,
            append_assoc a b rest,
          )
          (lex-comma_unless R first (quoted k ++ (b':' ∷ (a ++ (b ++ rest))))
            ∙ ap (pushes (comma_token_unless first)) (
                lex-quoted R k (b':' ∷ (a ++ (b ++ rest)))
                ∙ ap (pushes (text k ∷ [])) (
                    lex-closed R between (ok colon) b':' (a ++ (b ++ rest)) refl
                    ∙ ap (pushes (colon ∷ [])) (
                        lex-encode_lem v a (b ++ rest) ha (Delimited-fields R fs b rest hb)
                        ∙ ap (pushes (tokens v)) (lex-encode_fields fs false b rest hb)
                        ∙ pushes-pushes (tokens v) (field_tokens fs false) (lex R between rest))
                    ∙ pushes-pushes (colon ∷ []) (tokens v ++ field_tokens fs false)
                        (lex R between rest))
                ∙ pushes-pushes (text k ∷ []) (colon ∷ (tokens v ++ field_tokens fs false))
                    (lex R between rest))
            ∙ pushes-pushes (comma_token_unless first)
                (text k ∷ colon ∷ (tokens v ++ field_tokens fs false)) (lex R between rest))

  -- An encoded value in front of a delimiter is scanned to its tokens.
  pub lex-encode :
      (v : Value R.Float) (s rest : Text)
      → encode R v ≡ ok s
      → Delimited rest
      → lex R between (s ++ rest) ≡ pushes (tokens v) (lex R between rest)
  lex-encode v s rest h d = lex-encode_lem v s rest h d

  -- An encoded dict is scanned to its tokens whatever stands behind it.
  pub lex-encode_dict :
      (fs : Fields R.Float) (s rest : Text)
      → encode R (dict fs) ≡ ok s
      → lex R between (s ++ rest) ≡ pushes (tokens (dict fs)) (lex R between rest)
  unfolding encode tokens step start
  lex-encode_dict fs s rest h =
      let (t, ht, e) = >>=-eq-ok (encode_fields R fs true) (λ t. ok (b'{' ∷ t)) h in
      rw (← ok-injective e) (
        lex-closed R between (ok lbrace) b'{' (t ++ rest) refl
        ∙ ap (pushes (lbrace ∷ [])) (lex-encode_fields fs true t rest ht)
        ∙ pushes-pushes (lbrace ∷ []) (field_tokens fs true) (lex R between rest))
