-- ===== src/Value.antt =====
-- The Python values that reach the package: what `json.loads` returns, and what a caller may pass to
-- `append`. A dict is a list of its items in insertion order, with text keys.
pub mod Dict
pub mod Convert
pub mod Keys
use mcp_attest.Base.{ℕ, suc, ◌≡◌, Bool}
use mcp_attest.Base.Int.{ℤ}
use mcp_attest.Base.Text.{Text}

-- `F` is the type of floats. `foreign` is an object of any other type, with its `repr`.
mutual
  pub data Value (F : Type 0) : Type 0 where
    null : Value F
    bool : Bool → Value F
    int : ℤ → Value F
    float : F → Value F
    str : Text → Value F
    list : Items F → Value F
    tuple : Items F → Value F
    dict : Fields F → Value F
    foreign : Text → Value F

  pub data Items (F : Type 0) : Type 0 where
    no_items : Items F
    item : Value F → Items F → Items F

  pub data Fields (F : Type 0) : Type 0 where
    no_fields : Fields F
    field : Text → Value F → Fields F → Fields F
