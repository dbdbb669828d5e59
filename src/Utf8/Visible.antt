-- ===== src/Utf8/Visible.antt =====
-- Encoding a text without control characters gives bytes without control codes.
use mcp_attest.Base.{ℕ, ◌≤◌, ◌≡◌, ◌++◌, [], ◌∷◌, All, All-append, arith}
use mathlib.Core.Path.{subst}
use mcp_attest.Base.Text.{Text, Bytes}
use mcp_attest.Errors.{ok, ◌>>=◌}
use mcp_attest.Errors.Laws.{>>=-eq-ok, ok-injective}
use mcp_attest.Utf8.{encode_char, encode}

abbrev IsVisible : ℕ → Type 0
IsVisible b = 32 ≤ b

encode_char-IsVisible :
    (c : ℕ) (bs : Bytes) → IsVisible c → encode_char c ≡ ok bs → All IsVisible bs
unfolding encode_char
encode_char-IsVisible c bs v h = ground arith

pub encode-IsVisible :
    (s : Text) (bs : Bytes) → All IsVisible s → encode s ≡ ok bs → All IsVisible bs
unfolding encode
encode-IsVisible [] bs v h = subst (All IsVisible) (ok-injective h) tt
encode-IsVisible (c ∷ s) bs (v, vs) h =
    let (b, hb, k) = >>=-eq-ok (encode_char c) (λ b. do r ← encode s; ok (b ++ r)) h in
    let (r, hr, e) = >>=-eq-ok (encode s) (λ r. ok (b ++ r)) k in
    subst (All IsVisible) (ok-injective e)
      (All-append IsVisible b r (encode_char-IsVisible c b v hb) (encode-IsVisible s r vs hr))
