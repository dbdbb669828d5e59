-- ===== src/Tests/Wire.antt =====
-- The theorems on records, their bytes and signatures, applied to the runs.
use mcp_attest.Base.{◌≡◌, some, [], ◌∷◌}
use mcp_attest.Base.Int.{pos}
use mcp_attest.Base.Text.{Bytes}
use mcp_attest.Errors.{ok, ◌>>=◌}
use mcp_attest.Json.RoundTrip.{canonical_form}
use mcp_attest.Canonical
use mcp_attest.Canonical.RoundTrip.{loads-dumps, dumps-injective}
use mcp_attest.Entry.{record_to_dict}
use mcp_attest.Entry.FromDict.{record_from_dict}
use mcp_attest.Entry.RoundTrip.{record_from_bytes, entry_bytes-injective, record_from_dict-to_dict}
use mcp_attest.Log.Reader.{touch, scan_last_record, chain_length, read_record}
use mcp_attest.Log.Refine.{reads-IsLog}
use mcp_attest.Log.Reader.{last_record, iter_records}
use mcp_attest.Log.Writer.{head_hash, head_hash_of}
use mcp_attest.Tests.World.{toy, toy-IsLawful, toy_crypto}
use mcp_attest.Tests.Runs.{add_params, record1, disk2, record2, line1, entry1, params_bytes, bytes}
use mcp_attest.Tests.Examples.{add_params-Distinct, log2}

abbrev short_signature : Bytes
short_signature = []

loads-dumps_example : Canonical.loads toy params_bytes ≡ ok (canonical_form add_params)
loads-dumps_example =
    loads-dumps toy toy-IsLawful add_params params_bytes add_params-Distinct bytes.3

dumps-injective_example : canonical_form add_params ≡ canonical_form add_params
dumps-injective_example =
    dumps-injective toy toy-IsLawful add_params add_params params_bytes add_params-Distinct
      add_params-Distinct bytes.3 bytes.3

record_from_bytes_example : (Canonical.loads toy line1 >>= record_from_dict toy) ≡ ok record1
record_from_bytes_example = record_from_bytes toy toy-IsLawful record1 line1 bytes.0

entry_bytes-injective_example : record1.entry ≡ record1.entry
entry_bytes-injective_example =
    entry_bytes-injective toy toy-IsLawful record1.entry record1.entry entry1 bytes.1 bytes.1

record_from_dict-to_dict_example :
    (record_from_dict toy (record_to_dict record1) ≡ ok record1)
    × (record_from_dict toy (canonical_form (record_to_dict record1)) ≡ ok record1)
record_from_dict-to_dict_example = record_from_dict-to_dict toy record1

reads-IsLog_example :
    (iter_records toy disk2 ≡ ok (record1 ∷ record2 ∷ []))
    × (chain_length toy disk2 ≡ ok 2)
    × (last_record toy disk2 ≡ ok (some record2))
    × (scan_last_record toy (touch disk2) ≡ ok (some record2))
    × (head_hash toy toy_crypto disk2 ≡ head_hash_of toy toy_crypto (some record2))
    × (read_record toy (pos 1) disk2 ≡ ok record2)
reads-IsLog_example =
    reads-IsLog toy toy-IsLawful toy_crypto disk2 (record1 ∷ record2 ∷ []) (pos 1) log2
