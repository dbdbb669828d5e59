-- ===== src/Errors/Laws.antt =====
-- Inversion of successful calls, and the hierarchy of errors.py.
use mcp_attest.Base.{◌≡◌, refl, true, false}
use mcp_attest.Errors.{
  Result, ok, raised, ◌>>=◌, is_instance, inherits, ErrorClass-discrete, mcp_attest_error,
  canonicalization_error, verification_error, signature_invalid_error, hash_mismatch_error,
  chain_broken_error, value_error,
}

-- What a chain of two calls that returned did.
pub >>=-eq-ok {ℓ κ} :
    {V : Type ℓ} {W : Type κ} (first : Result V) (rest : V → Result W) {w : W}
    → (first >>= rest) ≡ ok w
    → (v : V) × (first ≡ ok v) × (rest v ≡ ok w)
>>=-eq-ok (ok v) rest h = (v, refl, h)
>>=-eq-ok (raised e) rest h = cc

pub ok-injective {ℓ} : {A : Type ℓ} {a b : A} → ok a ≡ ok b → a ≡ b
ok-injective h = cc

caught_by_base :
    (is_instance hash_mismatch_error verification_error ≡ true)
    × (is_instance signature_invalid_error mcp_attest_error ≡ true)
    × (is_instance canonicalization_error verification_error ≡ false)
    × (is_instance chain_broken_error value_error ≡ false)
unfolding is_instance inherits ErrorClass-discrete
caught_by_base = (refl, refl, refl, refl)
