-- ===== src/Errors.antt =====
-- errors.py, and the built-in exceptions that the package raises, catches or lets through. An
-- exception is its class: messages are not modelled.
pub mod Laws
use mcp_attest.Base.{ℕ, zero, suc, ◌≡◌, Bool, true, false, ◌||◌, Option, none, some}

pub data ErrorClass : Type 0 where
  exception mcp_attest_error canonicalization_error verification_error : ErrorClass
  signature_invalid_error hash_mismatch_error chain_broken_error : ErrorClass
  value_error unicode_error json_decode_error type_error attribute_error : ErrorClass
  lookup_error key_error index_error arithmetic_error overflow_error runtime_error os_error :
      ErrorClass

pub ErrorClass-discrete : Discrete ErrorClass
ErrorClass-discrete = hlevel

-- The base class that the `class` statement names; the built-in ones are Python's.
abbrev pub superclass : ErrorClass → Option ErrorClass
superclass exception = none
superclass canonicalization_error = some mcp_attest_error
superclass verification_error = some mcp_attest_error
superclass signature_invalid_error = some verification_error
superclass hash_mismatch_error = some verification_error
superclass chain_broken_error = some verification_error
superclass unicode_error = some value_error
superclass json_decode_error = some value_error
superclass key_error = some lookup_error
superclass index_error = some lookup_error
superclass overflow_error = some arithmetic_error
superclass _ = some exception

abbrev pub same_class : ErrorClass → ErrorClass → Bool
same_class c d = elim (ErrorClass-discrete c d) [ yes _ ↦ true | no _ ↦ false ]

-- `isinstance(e, c)`, following at most `n` bases upwards.
unfoldable pub inherits : ℕ → ErrorClass → ErrorClass → Bool
inherits zero e c = false
inherits (suc n) e c =
    same_class e c || elim (superclass e) [ none ↦ false | some b ↦ inherits n b c ]

-- No class of the hierarchy has more than three bases above it.
unfoldable pub is_instance : ErrorClass → ErrorClass → Bool
unfolding inherits ErrorClass-discrete
is_instance e c = inherits 4 e c

-- The value of a call, or the exception that it raises.
pub data Result {ℓ} (A : Type ℓ) : Type ℓ where
  ok : A → Result A
  raised : ErrorClass → Result A

-- `if not test: raise e`
abbrev pub require : Bool → ErrorClass → Result (Unit {0})
require true e = ok tt
require false e = raised e

infixl 5 ◌>>=◌ ◌>>◌
abbrev pub ◌>>=◌ {ℓ κ} : {V : Type ℓ} {W : Type κ} → Result V → (V → Result W) → Result W
ok v >>= rest = rest v
raised e >>= rest = raised e

abbrev pub ◌>>◌ {ℓ} : {W : Type ℓ} → Result (Unit {0}) → Result W → Result W
check >> rest = check >>= λ _. rest

-- A partial operation of the runtime, with the exception that it raises.
abbrev pub or_raise {ℓ} : {A : Type ℓ} → ErrorClass → Option A → Result A
or_raise e none = raised e
or_raise e (some a) = ok a

-- `try: r except (c, d): raise t`
abbrev pub translate {ℓ} : {A : Type ℓ} → ErrorClass → ErrorClass → ErrorClass → Result A → Result A
translate c d t (ok a) = ok a
translate c d t (raised e) = elim (is_instance e c || is_instance e d) [
  | true ↦ raised t
  | false ↦ raised e
]
