-- ===== src/Json/Ascii/Agrees.antt =====
-- On a value whose texts are printable ASCII, `ensure_ascii` makes no difference.
use mcp_attest.Base.{
  ℕ, ◌≡◌, refl, ap, ◌∙◌, Bool, true, false, [], ◌∷◌, ◌++◌, arith, All, All-append, if◌then◌else◌,
}
use mathlib.Core.Path.{subst}
use mcp_attest.Base.Text.{Text, codes}
use mcp_attest.Errors.{Result, ok, ◌>>=◌}
use mcp_attest.Errors.Laws.{>>=-eq-ok, ok-injective}
use mcp_attest.Runtime.{Runtime, IsLawful}
use mcp_attest.Value.{
  Value, Items, no_items, item, Fields, no_fields, field, null, bool, int, float, str, list, tuple,
  dict, foreign,
}
use mcp_attest.Json.Plain.{IsPlain, int_repr-IsPlain, encode_float-IsPlain}
use mcp_attest.Json.Lex.Numbers.{encode_float_finite}
use mcp_attest.Json.Encode.{
  encode, encode_items, encode_fields, encode_float, comma_unless, quoted, escape, escape_char,
}
use mcp_attest.Json.Ascii.{
  ascii_char, ascii, ascii_quoted, float_text, compact_separators, ascii_encode, ascii_items,
  ascii_fields, separator_unless,
}

-- The characters that the encoder writes for a printable one.
escape_char-IsPlain :
    (c : ℕ) → IsPlain c → (ascii_char c ≡ escape_char c) × All IsPlain (escape_char c)
unfolding ascii_char escape_char
escape_char-IsPlain c h = (ground arith, ground arith)

escape-IsPlain : (s : Text) → All IsPlain s → (ascii s ≡ escape s) × All IsPlain (escape s)
unfolding ascii escape
escape-IsPlain [] h = (refl, ground arith)
escape-IsPlain (c ∷ s) (h, hs) =
    let (one, good) = escape_char-IsPlain c h in
    let (more, goods) = escape-IsPlain s hs in
    (cc (one, more), All-append IsPlain (escape_char c) (escape s) good goods)

quoted-IsPlain : (s : Text) → All IsPlain s → (ascii_quoted s ≡ quoted s) × All IsPlain (quoted s)
unfolding ascii_quoted quoted
quoted-IsPlain s h =
    let (same, good) = escape-IsPlain s h in (ap (λ t. b'"' ∷ t) same, (ground arith, good))

module _ (R : Runtime) where
  -- All texts of the value, keys too, are printable.
  unfoldable mutual
    pub IsAscii : Value R.Float → Type 0
    IsAscii null = Unit
    IsAscii (bool b) = Unit
    IsAscii (int n) = Unit
    IsAscii (float x) = R.is_finite x ≡ true
    IsAscii (str s) = All IsPlain s
    IsAscii (list xs) = AreAscii xs
    IsAscii (tuple xs) = AreAscii xs
    IsAscii (dict fs) = HasAscii fs
    IsAscii (foreign s) = ⊥

    pub AreAscii : Items R.Float → Type 0
    AreAscii no_items = Unit
    AreAscii (item v xs) = IsAscii v × AreAscii xs

    pub HasAscii : Fields R.Float → Type 0
    HasAscii no_fields = Unit
    HasAscii (field k v fs) = All IsPlain k × (IsAscii v × HasAscii fs)

comma-IsPlain : (first : Bool) → All IsPlain (comma_unless first)
comma-IsPlain true = tt
comma-IsPlain false = (ground arith, tt)

bool-IsPlain : (b : Bool) → All IsPlain (if b then codes "true" else codes "false")
bool-IsPlain true = ground arith
bool-IsPlain false = ground arith

-- The two encoders write the same printable text.
abbrev Agree : Result Text → Result Text → Type 0
Agree m n = (s : Text) → m ≡ ok s → (n ≡ ok s) × All IsPlain s

bracket-Agree :
    (c : ℕ) (m n : Result Text)
    → IsPlain c
    → Agree m n
    → Agree (do t ← m; ok (c ∷ t)) (do t ← n; ok (c ∷ t))
bracket-Agree c m n hc h s k =
    let (t, ht, e) = >>=-eq-ok m (λ t. ok (c ∷ t)) k in
    let (same, good) = h t ht in
    (
      ap (λ (r : Result Text). do u ← r; ok (c ∷ u)) same ∙ e,
      subst (All IsPlain) (ok-injective e) (hc, good),
    )

separator-comma : (first : Bool) → separator_unless compact_separators first ≡ comma_unless first
separator-comma true = refl
separator-comma false = refl

module _ (R : Runtime) (L : IsLawful R) where
  float-Agree :
      (x : R.Float) → R.is_finite x ≡ true → Agree (encode_float R x) (ok (float_text R x))
  unfolding float_text
  float-Agree x h s k =
      (rw h (ap ok (encode_float_finite R x s k).1), encode_float-IsPlain R L x s k)

  mutual
    unfolding encode ascii_encode IsAscii

    encode-Agree :
        (v : Value R.Float) → IsAscii R v → Agree (encode R v) (ascii_encode R compact_separators v)
    encode-Agree null h s k = (k, subst (All IsPlain) (ok-injective k) (ground arith))
    encode-Agree (bool b) h s k = (k, subst (All IsPlain) (ok-injective k) (bool-IsPlain b))
    encode-Agree (int n) h s k = (k, int_repr-IsPlain n s k)
    encode-Agree (float x) h s k = float-Agree x h s k
    encode-Agree (str u) h s k =
        let (same, good) = quoted-IsPlain u h in
        (ap ok same ∙ k, subst (All IsPlain) (ok-injective k) good)
    encode-Agree (foreign u) h s k = elim h [ ]
    encode-Agree (list xs) h s k =
        bracket-Agree b'[' (encode_items R xs true) (ascii_items R compact_separators xs true)
          (ground arith) (items-Agree xs true h) s k
    encode-Agree (tuple xs) h s k =
        bracket-Agree b'[' (encode_items R xs true) (ascii_items R compact_separators xs true)
          (ground arith) (items-Agree xs true h) s k
    encode-Agree (dict fs) h s k =
        bracket-Agree b'{' (encode_fields R fs true) (ascii_fields R compact_separators fs true)
          (ground arith) (fields-Agree fs true h) s k

    items-Agree :
        (xs : Items R.Float) (first : Bool)
        → AreAscii R xs
        → Agree (encode_items R xs first) (ascii_items R compact_separators xs first)
    items-Agree no_items first h s k = (k, subst (All IsPlain) (ok-injective k) (ground arith))
    items-Agree (item v xs) first (hv, h) s k =
        let (a, ha, k1) = >>=-eq-ok (encode R v) _ k in
        let (b, hb, e) = >>=-eq-ok (encode_items R xs false) _ k1 in
        let (same, good) = encode-Agree v hv a ha in
        let (sames, goods) = items-Agree xs false h b hb in
        (
          rw (same, sames) (ap (λ t. ok (t ++ (a ++ b))) (separator-comma first) ∙ e),
          subst (All IsPlain) (ok-injective e) (
              All-append IsPlain (comma_unless first) (a ++ b) (comma-IsPlain first)
                (All-append IsPlain a b good goods)),
        )

    fields-Agree :
        (fs : Fields R.Float) (first : Bool)
        → HasAscii R fs
        → Agree (encode_fields R fs first) (ascii_fields R compact_separators fs first)
    fields-Agree no_fields first h s k = (k, subst (All IsPlain) (ok-injective k) (ground arith))
    fields-Agree (field key v fs) first (hk, (hv, h)) s k =
        let (a, ha, k1) = >>=-eq-ok (encode R v) _ k in
        let (b, hb, e) = >>=-eq-ok (encode_fields R fs false) _ k1 in
        let (same, good) = encode-Agree v hv a ha in
        let (sames, goods) = fields-Agree fs false h b hb in
        let (named, plain) = quoted-IsPlain key hk in
        (
          rw (same, sames, named)
              (ap (λ t. ok (t ++ (quoted key ++ (b':' ∷ (a ++ b))))) (separator-comma first) ∙ e),
          subst (All IsPlain) (ok-injective e) (
              All-append IsPlain (comma_unless first) (quoted key ++ (b':' ∷ (a ++ b)))
                (comma-IsPlain first)
                (All-append IsPlain (quoted key) (b':' ∷ (a ++ b)) plain
                  (ground arith, All-append IsPlain a b good goods))),
        )

  -- A value with printable texts that `encode` writes is written the same with `ensure_ascii`, and what
  -- is written is printable.
  pub encode-ascii_encode :
      (v : Value R.Float) (s : Text)
      → IsAscii R v
      → encode R v ≡ ok s
      → (ascii_encode R compact_separators v ≡ ok s) × All IsPlain s
  encode-ascii_encode v s h k = encode-Agree v h s k
