-- ===== src/Json.antt =====
-- The standard library's `json`, as canonical.py, log.py and cli.py call it: `dumps` with sorted keys and
-- compact separators, and `loads` of a text.
pub mod Sort
pub mod Encode
pub mod Token
pub mod Lex
pub mod Parse
pub mod Scan
pub mod RoundTrip
pub mod Plain
pub mod Visible
pub mod Returns
pub mod Encodes
pub mod Ascii
use mcp_attest.Base.{[]}
use mcp_attest.Base.Text.{Text}
use mcp_attest.Errors.{Result, ◌>>=◌}
use mcp_attest.Runtime.{Runtime}
use mcp_attest.Value.{Value}
use mcp_attest.Json.Sort.{sort_keys}
use mcp_attest.Json.Encode.{encode}
use mcp_attest.Json.Token.{between}
use mcp_attest.Json.Lex.{lex}
use mcp_attest.Json.Parse.{parse, value_wanted}

module _ (R : Runtime) where
  -- json.dumps(v, ensure_ascii=False, sort_keys=True, separators=(",", ":"), allow_nan=False)
  unfoldable pub dumps : Value R.Float → Result Text
  dumps v = encode R (sort_keys v)

  -- json.loads(s)
  unfoldable pub loads : Text → Result (Value R.Float)
  loads s = do ts ← lex R between s; parse value_wanted [] ts
