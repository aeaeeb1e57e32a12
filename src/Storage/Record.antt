-- ===== src/Storage/Record.antt =====
-- `append_record` and `read_record` of crates/analyzer/src/storage/record.rs. A segment file is the
-- list of its bytes, and its reads and writes fail only where the file ends. `crc32fast::hash` is a
-- parameter; a `Hasher` that is updated by one slice after another hashes their concatenation.
-- `usize` has 64 bits, so that its conversions from `u64` cannot fail.
pub mod Reads
pub mod Stable
use newhatch.Common.{ℕ, ◌+◌, ◌-◌, ◌<◌, ◌^◌, ltb, leb, ◌==◌, bytes_eq, if◌then◌else◌}
use newhatch.Common.{Bool, true, false, List, [], ◌∷◌, ◌++◌, length, take, drop}
use newhatch.Common.{Result, ok, err, ensure, ◌>>=◌, ◌>>◌}
use newhatch.Common.Int.{ℤ, bits_of_i64, i64_of_bits, eq_ℤ}
use newhatch.Common.Bytes.{to_le_bytes, from_le_bytes}

-- b"NHSEGREC"
abbrev pub magic : List ℕ
magic = b'N' ∷ b'H' ∷ b'S' ∷ b'E' ∷ b'G' ∷ b'R' ∷ b'E' ∷ b'C' ∷ []

abbrev pub version : ℕ
version = 1

abbrev pub header_length : ℕ
header_length = 52

pub record RecordLocation : Type 0 where
  pub offset : ℕ
  pub length : ℕ

pub record SessionPayload : Type 0 where
  pub c2s : List ℕ
  pub s2c : List ℕ

-- The failures, one for each message.
pub data RecordError : Type 0 where
  payload_length_overflow record_length_overflow : RecordError
  short_header bad_magic : RecordError
  bad_version bad_header_length : ℕ → RecordError
  length_mismatch : RecordError
  wrong_session : ℤ → RecordError
  invalid_record_length invalid_stream_lengths short_payload checksum_mismatch : RecordError

module _ (hash : List ℕ → ℕ) where
  -- The header that `append_record` builds.
  abbrev pub header_bytes : ℤ → ℕ → List ℕ → List ℕ → List ℕ
  header_bytes session_id record_length c2s s2c =
      magic
      ++ (to_le_bytes 2 version
          ++ (to_le_bytes 2 header_length
              ++ (to_le_bytes 8 record_length
                  ++ (to_le_bytes 8 (bits_of_i64 session_id)
                      ++ (to_le_bytes 8 (length c2s)
                          ++ (to_le_bytes 8 (length s2c)
                              ++ (to_le_bytes 4 (hash (c2s ++ s2c)) ++ to_le_bytes 4 0)))))))

  -- The file after the call, and the place of the record.
  unfoldable pub append_record :
      List ℕ → ℤ → List ℕ → List ℕ → Result RecordError (List ℕ × RecordLocation)
  append_record file session_id c2s s2c = do
    let payload_length = length c2s + length s2c
    ensure (ltb payload_length (2 ^ 64)) payload_length_overflow
    let record_length = header_length + payload_length
    ensure (ltb record_length (2 ^ 64)) record_length_overflow
    ok (
      file ++ (header_bytes session_id record_length c2s s2c ++ (c2s ++ s2c)),
      record { offset = length file; length = record_length },
    )

  -- `header[from..from + n]`
  abbrev pub field : List ℕ → ℕ → ℕ → List ℕ
  field header from n = take n (drop from header)

  -- The part of `read_record` behind the reading of the header; `rest` is what follows it.
  unfoldable pub check_record :
      List ℕ → List ℕ → ℤ → RecordLocation → Result RecordError SessionPayload
  check_record header rest expected_session_id location = do
    ensure (bytes_eq (field header 0 8) magic) bad_magic
    let found_version = from_le_bytes (field header 8 2)
    ensure (found_version == version) (bad_version found_version)
    let found_header_length = from_le_bytes (field header 10 2)
    ensure (found_header_length == header_length) (bad_header_length found_header_length)
    let record_length = from_le_bytes (field header 12 8)
    ensure (record_length == location.length) length_mismatch
    let session_id = i64_of_bits (from_le_bytes (field header 20 8))
    ensure (eq_ℤ session_id expected_session_id) (wrong_session session_id)
    let c2s_length = from_le_bytes (field header 28 8)
    let s2c_length = from_le_bytes (field header 36 8)
    ensure (leb header_length record_length) invalid_record_length
    let payload_length = record_length - header_length
    ensure (ltb (c2s_length + s2c_length) (2 ^ 64)) invalid_stream_lengths
    ensure (c2s_length + s2c_length == payload_length) invalid_stream_lengths
    ensure (leb payload_length (length rest)) short_payload
    let payload = take payload_length rest
    let expected_checksum = from_le_bytes (field header 44 4)
    ensure (hash payload == expected_checksum) checksum_mismatch
    ok (record { c2s = take c2s_length payload; s2c = drop c2s_length payload })

  unfoldable pub read_record : List ℕ → ℤ → RecordLocation → Result RecordError SessionPayload
  read_record file expected_session_id location =
      let tail = drop location.offset file in
      if leb header_length (length tail)
      then check_record (take header_length tail) (drop header_length tail) expected_session_id
          location
      else err short_header
