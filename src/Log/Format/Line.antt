-- ===== src/Log/Format/Line.antt =====
-- One canonical line of a log file.
use mathlib.Core.List.{reverse, reverse-append, reverse-reverse}
use mcp_attest.Base.{ℕ, ◌≤◌, ◌≡◌, sym, ap, ◌∙◌, ◌||◌, Bool, false, [], ◌∷◌, ◌++◌, arith, All, ◌==◌}
use mcp_attest.Base.Text.{Text, Bytes}
use mcp_attest.Errors.{ok}
use mcp_attest.Runtime.{Runtime, IsLawful}
use mcp_attest.Value.Convert.{strip, drop_space}
use mcp_attest.Value.Convert.Repr.{is_space}
use mcp_attest.Json
use mcp_attest.Json.Sort.{sort_keys}
use mcp_attest.Json.RoundTrip.{loads-dumps}
use mcp_attest.Json.Visible.{encode-IsVisible, encode-braces}
use mcp_attest.Utf8
use mcp_attest.Utf8.RoundTrip.{decode-encode}
use mcp_attest.Utf8.Visible.{encode-IsVisible as bytes-IsVisible}
use mcp_attest.Canonical.RoundTrip.{dumps-eq-ok}
use mcp_attest.Entry.{SignedRecord, record_to_dict, record_bytes}
use mcp_attest.Entry.RoundTrip.{record_to_dict-Distinct, record_from_dict-to_dict}
use mcp_attest.Log.Reader.{parse_line, is_blank}

abbrev pub text_end : ℕ → Bool
text_end c = c == b'\n' || c == b'\r'

abbrev pub binary_end : ℕ → Bool
binary_end c = c == b'\n'

no_text_end : (s : Text) → All (λ c. 32 ≤ c) s → All (λ c. text_end c ≡ false) s
no_text_end [] h = tt
no_text_end (c ∷ s) (h, hs) = (ground arith, no_text_end s hs)

no_binary_end : (s : Bytes) → All (λ c. 32 ≤ c) s → All (λ c. binary_end c ≡ false) s
no_binary_end [] h = tt
no_binary_end (c ∷ s) (h, hs) = (ground arith, no_binary_end s hs)

-- `strip` leaves a text between braces as it is.
pub strip-braces : (m : Text) → strip ((b'{' ∷ m) ++ (b'}' ∷ [])) ≡ (b'{' ∷ m) ++ (b'}' ∷ [])
unfolding strip is_space
strip-braces m =
    let s = (b'{' ∷ m) ++ (b'}' ∷ []) in
    let turned : reverse s ≡ b'}' ∷ reverse (b'{' ∷ m) = reverse-append (b'{' ∷ m) (b'}' ∷ []) in
    ap (λ t. reverse (drop_space t)) turned ∙ ap reverse (sym turned) ∙ reverse-reverse s

module _ (R : Runtime) where
  -- The text of the line, and what reading it does.
  pub record IsLine (r : SignedRecord R.Float) (bytes : Bytes) : Type 0 where
    pub text : Text
    pub inside : Text
    pub braces : text ≡ (b'{' ∷ inside) ++ (b'}' ∷ [])
    pub dumped : Json.dumps R (record_to_dict r) ≡ ok text
    pub encoded : Utf8.encode text ≡ ok bytes
    pub decoded : Utf8.decode bytes ≡ ok text
    pub parsed : parse_line R text ≡ ok r
    pub stripped : strip text ≡ text
    pub filled : is_blank text ≡ false
    pub one_text_line : All (λ c. text_end c ≡ false) text
    pub one_binary_line : All (λ c. binary_end c ≡ false) bytes

module _ (R : Runtime) (L : IsLawful R) where
  -- The canonical bytes of a record are such a line.
  pub line_of :
      (r : SignedRecord R.Float) (bytes : Bytes) → record_bytes R r ≡ ok bytes → IsLine R r bytes
  unfolding record_bytes parse_line Json.dumps record_to_dict sort_keys
  line_of r bytes h =
      let (s, k, e) = dumps-eq-ok R (record_to_dict r) bytes h in
      let (m, braces) = encode-braces R _ s k in
      let visible = encode-IsVisible R L _ s k in
      record {
        text = s;
        inside = m;
        braces = braces;
        dumped = k;
        encoded = e;
        decoded = decode-encode s bytes e;
        parsed =
            rw (loads-dumps R L (record_to_dict r) s (record_to_dict-Distinct r) k)
              (record_from_dict-to_dict R r).1;
        stripped = ap strip braces ∙ strip-braces m ∙ sym braces;
        filled = ap is_blank braces;
        one_text_line = no_text_end s visible;
        one_binary_line = no_binary_end bytes (bytes-IsVisible s bytes visible e);
      }
