-- ===== src/Tests/Examples.antt =====
-- The theorems applied to the runs.
use mcp_attest.Base.{
  ℕ, ◌≡◌, ◌≢◌, ◌↔◌, ◌⊎◌, refl, Option, none, some, List, [], ◌∷◌, ◌++◌, length, arith, true,
}
use mcp_attest.Base.Int.{pos}
use mcp_attest.Base.Text.{Text, Bytes, codes}
use mcp_attest.Errors.{ok, raised, runtime_error}
use mcp_attest.Value.{Value, null, int}
use mcp_attest.Value.Keys.{HasDistinctKeys}
use mcp_attest.Base.Text.{contains, text_eq}
use mcp_attest.Json.RoundTrip.{canonical_form}
use mcp_attest.Entry.{SignedRecord, zero_hash_hex, record_bytes}
use mcp_attest.Log.Reader.{Disk, touch, iter_records, scan_last_record, chain_length, read_record}
use mcp_attest.Log.Writer.{head_hash}
use mcp_attest.Log.Format.{IsLog}
use mcp_attest.Log.Refine.{Behind, append-Behind}
use mcp_attest.Log.Append.{Appended, append-Appended}
use mcp_attest.Verifier.{verify_chain, passed, verify_receipt, verify_sth, detect_equivocation}
use mcp_attest.Verifier.Chain.{IsChain, verify_chain_iff}
use mcp_attest.Verifier.Tamper.{Collision, Holds, truncation_passes}
use mcp_attest.Verifier.Growth.{Written, missing, appended, Written-IsChain, verify_chain-Written}
use mcp_attest.Verifier.Receipts.{
  IsCanonical, Attested, verify_receipt_iff, receipt_fits_one, verify_receipt-append,
}
use mcp_attest.Verifier.Race.{raced_head-accused}
use mcp_attest.Verifier.TreeHead.{
  detect_equivocation_iff, verify_sth-emit_sth, honest_not_accused, fork_detected,
}
use mcp_attest.Proxy.{get_default, attested_payload, handle, read_request}
use mcp_attest.Proxy.Attested.{handle-raised, verify_receipt-handle}
use mcp_attest.Log.Faults.{at_write, HasPart, append_with-raised}
use mcp_attest.Log.Digits.{HasHexTexts, append-HasHexTexts}
use mcp_attest.Errors.{os_error}
use mcp_attest.Tests.World.{toy, toy-IsLawful, toy_crypto, toy_crypto-IsSound, toy_key}
use mcp_attest.Tests.Runs.{
  writer, add_params, first_call, second_call, disk1, record1, receipt1, disk2, record2, receipt2,
  disk1', record1', receipt1', head1, head1', head2, request, answer, upstream, broken_upstream,
  disk3, raced_head, refused_disk, receipt3, public_ok, runs, heads,
}

abbrev pub ToyWritten : Disk → List (SignedRecord (Option ℕ)) → Type 0
ToyWritten d rs = Written toy toy-IsLawful toy_crypto toy_crypto-IsSound toy_key d rs

pub written1 : ToyWritten disk1 (record1 ∷ [])
written1 = appended writer first_call none disk1 [] record1 receipt1 missing refl runs.0

pub written2 : ToyWritten disk2 (record1 ∷ record2 ∷ [])
written2 =
    appended writer second_call disk1 disk2 (record1 ∷ []) record2 receipt2 written1 refl runs.1

written1' : ToyWritten disk1' (record1' ∷ [])
written1' = appended writer second_call none disk1' [] record1' receipt1' missing refl runs.2

abbrev three : Value (Option ℕ)
three = int (pos 3)

pub add_params-Distinct : HasDistinctKeys add_params
unfolding HasDistinctKeys contains text_eq
add_params-Distinct = ground arith

result-Distinct : HasDistinctKeys first_call.result_or_error
unfolding HasDistinctKeys
result-Distinct = tt

verify_chain-Written_example :
    (iter_records toy disk2 ≡ ok (record1 ∷ record2 ∷ []))
    × (verify_chain toy toy_crypto toy_key disk2 ≡ ok (passed 2))
verify_chain-Written_example =
    verify_chain-Written toy toy-IsLawful toy_crypto toy_crypto-IsSound toy_key toy_key disk2
      (record1 ∷ record2 ∷ []) written2 public_ok

passes1 : verify_chain toy toy_crypto toy_key disk1 ≡ ok (passed 1)
passes1 =
    (verify_chain-Written toy toy-IsLawful toy_crypto toy_crypto-IsSound toy_key toy_key disk1
      (record1 ∷ []) written1 public_ok).1

passes1' : verify_chain toy toy_crypto toy_key disk1' ≡ ok (passed 1)
passes1' =
    (verify_chain-Written toy toy-IsLawful toy_crypto toy_crypto-IsSound toy_key toy_key disk1'
      (record1' ∷ []) written1' public_ok).1

pub passes2 : verify_chain toy toy_crypto toy_key disk2 ≡ ok (passed 2)
passes2 =
    (verify_chain-Written toy toy-IsLawful toy_crypto toy_crypto-IsSound toy_key toy_key disk2
      (record1 ∷ record2 ∷ []) written2 public_ok).1

pub reads1 : iter_records toy disk1 ≡ ok (record1 ∷ [])
reads1 =
    (verify_chain-Written toy toy-IsLawful toy_crypto toy_crypto-IsSound toy_key toy_key disk1
      (record1 ∷ []) written1 public_ok).0

pub reads2 : iter_records toy disk2 ≡ ok (record1 ∷ record2 ∷ [])
reads2 =
    (verify_chain-Written toy toy-IsLawful toy_crypto toy_crypto-IsSound toy_key toy_key disk2
      (record1 ∷ record2 ∷ []) written2 public_ok).0

log1 : IsLog toy (record1 ∷ []) (touch disk1)
log1 =
    (Written-IsChain toy toy-IsLawful toy_crypto toy_crypto-IsSound toy_key toy_key disk1
      (record1 ∷ []) written1 public_ok).0

pub log2 : IsLog toy (record1 ∷ record2 ∷ []) (touch disk2)
log2 =
    (Written-IsChain toy toy-IsLawful toy_crypto toy_crypto-IsSound toy_key toy_key disk2
      (record1 ∷ record2 ∷ []) written2 public_ok).0

verify_chain_iff_example :
    (rs : List (SignedRecord (Option ℕ))) × (iter_records toy disk2 ≡ ok rs)
    × IsChain toy toy_crypto toy_key 0 zero_hash_hex rs
    × (length rs ≡ 2)
verify_chain_iff_example = (verify_chain_iff toy toy_crypto toy_key disk2 2).0 passes2

append-Appended_example :
    (before : Option (SignedRecord (Option ℕ))) × (line : Bytes) × (scan_last_record toy
        (touch disk1)
      ≡ ok before)
    × Appended toy toy_crypto writer second_call before record2 receipt2
    × (record_bytes toy record2 ≡ ok line)
    × (disk2 ≡ some (touch disk1 ++ (line ++ (b'\n' ∷ []))))
append-Appended_example =
    append-Appended toy toy_crypto writer second_call disk1 disk2 record2 receipt2 runs.1

append_with-raised_example :
    ((refused_disk ≡ disk1) ⊎ (refused_disk ≡ some (touch disk1)))
    ⊎ ((os_error ≡ os_error)
        × (some (at_write 5) ≢ none)
        × HasPart toy toy_crypto writer second_call disk1 refused_disk)
append_with-raised_example =
    append_with-raised toy toy_crypto (some (at_write 5)) writer second_call disk1 refused_disk
      os_error heads.5

verify_receipt-append_example :
    verify_receipt toy toy_crypto receipt1 add_params (int (pos 3)) toy_key disk2 ≡ ok tt
verify_receipt-append_example =
    verify_receipt-append toy toy-IsLawful toy_crypto toy_crypto-IsSound writer first_call none
      disk1 disk2 [] (record2 ∷ []) record1 receipt1 toy_key toy_key missing refl public_ok runs.0
      written2

receipt1_passes :
    verify_receipt toy toy_crypto receipt1 add_params (int (pos 3)) toy_key disk2 ≡ ok tt
receipt1_passes =
    verify_receipt-append toy toy-IsLawful toy_crypto toy_crypto-IsSound writer first_call none
      disk1 disk2 [] (record2 ∷ []) record1 receipt1 toy_key toy_key missing refl public_ok runs.0
      written2

verify_receipt_iff_example :
    (r : SignedRecord (Option ℕ)) × (read_record toy receipt1.seq disk2 ≡ ok r)
    × Attested toy toy_crypto receipt1 add_params (int (pos 3)) toy_key r
verify_receipt_iff_example =
    (verify_receipt_iff toy toy_crypto receipt1 add_params (int (pos 3)) toy_key disk2).0
      receipt1_passes

receipt_fits_one_example :
    ((canonical_form add_params ≡ canonical_form add_params)
      × (canonical_form three ≡ canonical_form three))
    ⊎ (Collision toy_crypto
          (IsCanonical toy toy_crypto add_params)
          (IsCanonical toy toy_crypto add_params)
        ⊎ Collision toy_crypto
            (IsCanonical toy toy_crypto three)
            (IsCanonical toy toy_crypto three))
receipt_fits_one_example =
    receipt_fits_one toy toy-IsLawful toy_crypto toy_crypto-IsSound receipt1 add_params three
      add_params three toy_key toy_key disk2 add_params-Distinct result-Distinct add_params-Distinct
      result-Distinct receipt1_passes receipt1_passes

detect_equivocation_iff_example :
    (detect_equivocation toy toy_crypto head1 head1' toy_key ≡ ok true) ↔ (
      (verify_sth toy toy_crypto head1 toy_key ≡ ok true)
      × (verify_sth toy toy_crypto head1' toy_key ≡ ok true)
      × (head1.chain_length ≡ head1'.chain_length)
      × (head1.head_hash ≢ head1'.head_hash))
detect_equivocation_iff_example = detect_equivocation_iff toy toy_crypto head1 head1' toy_key

verify_sth-emit_sth_example :
    (verify_sth toy toy_crypto head2 toy_key ≡ ok true)
    × (head_hash toy toy_crypto disk2 ≡ ok head2.head_hash)
    × (head2.timestamp ≡ some 9)
    × ((n : ℕ) × (chain_length toy disk2 ≡ ok n) × (head2.chain_length ≡ pos n))
verify_sth-emit_sth_example =
    verify_sth-emit_sth toy toy-IsLawful toy_crypto toy_crypto-IsSound writer (some 9) disk2 head2
      toy_key toy_key refl public_ok heads.2

honest_not_accused_example : detect_equivocation toy toy_crypto head1 head2 toy_key ≢ ok true
honest_not_accused_example =
    honest_not_accused toy toy-IsLawful toy_crypto toy_crypto-IsSound writer writer (some 7)
      (some 9) disk1 disk2 (record1 ∷ []) (record2 ∷ []) head1 head2 toy_key toy_key toy_key
      written1 written2 public_ok heads.0 heads.2

raced_head-accused_example :
    (detect_equivocation toy toy_crypto raced_head head1 toy_key ≡ ok true)
    ⊎ Collision toy_crypto
        (λ x. record_bytes toy record1 ≡ ok x)
        (λ x. record_bytes toy record2 ≡ ok x)
raced_head-accused_example =
    raced_head-accused toy toy-IsLawful toy_crypto toy_crypto-IsSound writer writer writer
      second_call (some 8) (some 7) disk1 disk2 [] record1 record2 receipt2 raced_head head1 toy_key
      toy_key written1 refl refl refl public_ok runs.1 heads.4 heads.0

fork_detected_example :
    (detect_equivocation toy toy_crypto head1 head1' toy_key ≡ ok true)
    ⊎ ((iter_records toy disk1 ≡ iter_records toy disk1')
        ⊎ Collision toy_crypto (Holds toy disk1) (Holds toy disk1'))
fork_detected_example =
    fork_detected toy toy-IsLawful toy_crypto toy_crypto-IsSound writer writer (some 7) (some 8)
      disk1 disk1' 1 head1 head1' toy_key toy_key refl refl public_ok passes1 passes1' heads.3
      heads.0 heads.1

verify_receipt-handle_example :
    (verify_receipt toy toy_crypto receipt3
        (get_default (codes "params") null request)
        (attested_payload answer)
        toy_key
        disk3
      ≡ ok tt)
    × ((r : SignedRecord (Option ℕ)) × ToyWritten disk3 (record1 ∷ r ∷ []))
verify_receipt-handle_example =
    verify_receipt-handle toy toy-IsLawful toy_crypto toy_crypto-IsSound writer upstream request
      (some 1) (some 2) disk1 disk3 (record1 ∷ []) answer receipt3 toy_key toy_key written1 refl
      public_ok runs.4

handle-raised_example :
    ((d : Disk)
      → handle toy toy_crypto writer broken_upstream request (some 1) (some 2) disk1
        ≡ (raised runtime_error, d)
      → (d ≡ disk1) ⊎ (d ≡ some (touch disk1)))
    × ((read : Text × Text × Value (Option ℕ))
        → read_request toy request ≡ ok read
        → broken_upstream request ≡ raised runtime_error
        → handle toy toy_crypto writer broken_upstream request (some 1) (some 2) disk1
          ≡ (raised runtime_error, disk1))
handle-raised_example =
    handle-raised toy toy_crypto writer broken_upstream request (some 1) (some 2) disk1
      runtime_error

truncation_passes_example : verify_chain toy toy_crypto toy_key disk1 ≡ ok (passed 1)
truncation_passes_example =
    truncation_passes toy toy-IsLawful toy_crypto toy_crypto-IsSound toy_key disk2 disk1 2
      (record1 ∷ []) (record2 ∷ []) passes2 reads2 reads1

append-Behind_example :
    Behind toy toy-IsLawful toy_crypto (record1 ∷ []) disk2 (ok (record2, receipt2))
append-Behind_example =
    append-Behind toy toy-IsLawful toy_crypto writer second_call disk1 disk2 (record1 ∷ [])
      (ok (record2, receipt2)) log1 runs.1

append-HasHexTexts_example :
    HasHexTexts toy toy_crypto toy_crypto-IsSound writer second_call record2 receipt2
append-HasHexTexts_example =
    append-HasHexTexts toy toy_crypto toy_crypto-IsSound writer second_call disk1 disk2 record2
      receipt2 runs.1
