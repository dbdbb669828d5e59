-- ===== src/Log/Reader.antt =====
-- log.py: the log file and how it is read. The file is its bytes, or `none` while it does not exist.
use mcp_attest.Base.{
  ℕ, Bool, true, false, Option, none, some, List, [], ◌∷◌, if◌then◌else◌, length, get_elem?,
}
use mcp_attest.Base.Int.{ℤ, pos, negsuc}
use mcp_attest.Base.Text.{Text, Bytes}
use mcp_attest.Errors.{Result, ok, raised, ◌>>=◌, or_raise, is_instance, value_error, index_error}
use mcp_attest.Runtime.{Runtime}
use mcp_attest.Value.Convert.{strip}
use mcp_attest.Json
use mcp_attest.Utf8
use mcp_attest.Entry.{SignedRecord}
use mcp_attest.Entry.FromDict.{record_from_dict}
use mcp_attest.Log.Lines.{binary_lines, text_lines}

abbrev pub Disk : Type 0
Disk = Option Bytes

-- The object behind one path: `private_key` is `none` if the log was opened for reading only.
pub record AttestationLog : Type 0 where
  pub server_id : Text
  pub private_key : Option Bytes

-- path.touch(), open("a+b")
abbrev pub touch : Disk → Bytes
touch none = []
touch (some bs) = bs

abbrev pub is_blank : Text → Bool
is_blank [] = true
is_blank (c ∷ s) = false

-- __init__: the file exists afterwards.
unfoldable pub open_log : Text → Option Bytes → Disk → AttestationLog × Disk
open_log server_id private_key d =
    (record { server_id = server_id; private_key = private_key }, some (touch d))

module _ (R : Runtime) where
  -- SignedRecord.from_dict(json.loads(line))
  unfoldable pub parse_line : Text → Result (SignedRecord R.Float)
  parse_line line = do v ← Json.loads R line; record_from_dict R v

  -- _iter_lines. The file is decoded whole before the first line.
  unfoldable pub iter_lines : Disk → Result (List Text)
  iter_lines none = ok []
  iter_lines (some bs) = do s ← Utf8.decode bs; ok (text_lines s)

  unfoldable pub parse_lines : List Text → Result (List (SignedRecord R.Float))
  parse_lines [] = ok []
  parse_lines (line ∷ lines) = do r ← parse_line line; rs ← parse_lines lines; ok (r ∷ rs)

  -- list(iter_records())
  unfoldable pub iter_records : Disk → Result (List (SignedRecord R.Float))
  unfolding parse_lines
  iter_records d = do lines ← iter_lines d; parse_lines lines

  -- len(log): blank lines do not count, malformed ones do
  unfoldable pub chain_length : Disk → Result ℕ
  chain_length d = do lines ← iter_lines d; ok (length lines)

  abbrev pub last :
      Option (SignedRecord R.Float) → List (SignedRecord R.Float) → Option (SignedRecord R.Float)
  last o [] = o
  last o (r ∷ rs) = last (some r) rs

  -- _last_record
  unfoldable pub last_record : Disk → Result (Option (SignedRecord R.Float))
  last_record d = do rs ← iter_records d; ok (last none rs)

  -- What a line of `_scan_last_record` leaves: the record, or the one before if the line raised a
  -- ValueError. Other errors get through.
  unfoldable pub keep_last :
      Option (SignedRecord R.Float)
      → Result (SignedRecord R.Float)
      → Result (Option (SignedRecord R.Float))
  keep_last before (ok r) = ok (some r)
  keep_last before (raised e) = if is_instance e value_error then ok before else raised e

  -- _scan_last_record
  unfoldable pub scan_lines :
      Option (SignedRecord R.Float) → List Bytes → Result (Option (SignedRecord R.Float))
  unfolding keep_last
  scan_lines before [] = ok before
  scan_lines before (raw ∷ rest) = do
    decoded ← Utf8.decode raw
    let line = strip decoded
    now ← if is_blank line then ok before else keep_last before (parse_line line)
    scan_lines now rest

  unfoldable pub scan_last_record : Bytes → Result (Option (SignedRecord R.Float))
  scan_last_record bs = scan_lines none (binary_lines bs)

  -- read_record: only the line at `seq` is parsed
  unfoldable pub read_record : ℤ → Disk → Result (SignedRecord R.Float)
  read_record (negsuc n) d = raised value_error
  read_record (pos n) d = do
    lines ← iter_lines d
    line ← or_raise index_error (get_elem? lines n)
    parse_line line
