-- ===== src/Tests/Record.antt =====
-- Segment records (crates/analyzer/src/storage/record.rs): runs, and the theorems at concrete inputs.
use newhatch.Common.{
  ℕ, ◌+◌, ◌%◌, ◌^◌, ◌≡◌, refl, arith, List, [], ◌∷◌, ◌++◌, length, take, ok, err, if◌then◌else◌,
}
use newhatch.Common.Int.{pos, negsuc, eq_ℤ}
use newhatch.Storage.Record.{
  RecordLocation, wrong_session, checksum_mismatch, header_length, header_bytes, append_record,
  read_record, check_record,
}
use newhatch.Storage.Record.Reads.{read_record-append_record, read_record_corrupted}
use newhatch.Storage.Record.Stable.{read_record-append_record_later}

-- A checksum that tells the example's payloads apart.
abbrev sum : List ℕ → ℕ
sum [] = 0
sum (b ∷ bs) = b + sum bs

abbrev checksum : List ℕ → ℕ
checksum bytes = sum bytes % 2 ^ 32

abbrev request : List ℕ
request = b'r' ∷ b'e' ∷ b'q' ∷ []

abbrev response : List ℕ
response = b'o' ∷ b'k' ∷ []

abbrev first_place : RecordLocation
first_place = record { offset = 2; length = 57 }

abbrev file : List ℕ
file = 1 ∷ 2 ∷ (header_bytes checksum (negsuc 41) 57 request response ++ (request ++ response))

record_appended :
    append_record checksum (1 ∷ 2 ∷ []) (negsuc 41) request response ≡ ok (file, first_place)
unfolding append_record
record_appended = refl

record_read :
    read_record checksum file (negsuc 41) first_place
    ≡ ok (record { c2s = request; s2c = response })
unfolding read_record check_record
record_read = refl

read_record-append_record_example :
    (read_record checksum (file ++ (9 ∷ [])) (pos 42) first_place ≡ (
      if eq_ℤ (negsuc 41) (pos 42)
      then ok (record { c2s = request; s2c = response })
      else err (wrong_session (negsuc 41))))
    × (take 2 file ≡ 1 ∷ 2 ∷ [])
    × (2 + 57 ≡ length file)
read_record-append_record_example =
    read_record-append_record checksum (negsuc 41) request response (1 ∷ 2 ∷ []) file (9 ∷ [])
      (pos 42) first_place (omega arith) (omega arith) record_appended

-- The last byte of the payload is changed.
abbrev corrupted : List ℕ
corrupted = b'r' ∷ b'e' ∷ b'q' ∷ b'o' ∷ b'x' ∷ []

read_record_corrupted_example :
    read_record checksum
      (take (2 + header_length) file ++ (corrupted ++ []))
      (negsuc 41)
      first_place
    ≡ err checksum_mismatch
read_record_corrupted_example =
    read_record_corrupted checksum (negsuc 41) request response (1 ∷ 2 ∷ []) file [] corrupted
      first_place (omega arith) (omega arith) record_appended refl (omega arith)

abbrev longer : List ℕ
longer = file ++ (header_bytes checksum (pos 7) 52 [] [] ++ [])

later_appended :
    append_record checksum file (pos 7) [] [] ≡ ok (longer, record { offset = 59; length = 52 })
unfolding append_record
later_appended = refl

read_record-append_record_later_example :
    read_record checksum longer (negsuc 41) first_place
    ≡ ok (record { c2s = request; s2c = response })
read_record-append_record_later_example =
    read_record-append_record_later checksum file longer (negsuc 41) (pos 7) [] [] first_place
      (record { offset = 59; length = 52 }) (record { c2s = request; s2c = response }) record_read
      later_appended
