-- ===== src/Storage/Record/Reads.antt =====
-- What `read_record` answers for a record that `append_record` wrote.
use newhatch.Common.{ℕ, ◌+◌, ◌-◌, ◌<◌, ◌^◌, ◌≡◌, refl, arith, ◌==◌, if◌then◌else◌}
use newhatch.Common.{
  List, ◌++◌, length, take, drop, length-append, drop-append_exact, take-append_exact, append_assoc,
  take-append_ge, ◌≢◌,
}
use newhatch.Common.{ok, err}
use newhatch.Common.Int.{
  ℤ, bits_of_i64, eq_ℤ, eq_ℤ_iff, IsI64, i64_of_bits-bits_of_i64, bits_of_i64-lt,
}
use newhatch.Common.Bytes.{from_le_bytes-to_le_bytes}
use newhatch.Storage.Record.{header_length, RecordLocation}
use newhatch.Storage.Record.{
  wrong_session, checksum_mismatch, header_bytes, append_record, check_record, read_record,
}

module _ (hash : List ℕ → ℕ) (id : ℤ) (c2s s2c : List ℕ) where
  -- The checks on a header of `append_record`, over a payload of the right length.
  check_record_header :
      (payload more : List ℕ) (expected : ℤ) (location : RecordLocation)
      → IsI64 id
      → hash (c2s ++ s2c) < 2 ^ 32
      → header_length + (length c2s + length s2c) < 2 ^ 64
      → length payload ≡ length c2s + length s2c
      → location.length ≡ header_length + (length c2s + length s2c)
      → check_record hash
          (header_bytes hash id location.length c2s s2c)
          (payload ++ more)
          expected
          location
        ≡ (if eq_ℤ id expected
            then (if hash payload == hash (c2s ++ s2c)
                then ok
                    (record { c2s = take (length c2s) payload; s2c = drop (length c2s) payload })
                else err checksum_mismatch)
            else err (wrong_session id))
  unfolding check_record
  check_record_header payload more expected location i64 crc fits sized located = ground (
    arith,
    from_le_bytes-to_le_bytes 8 location.length,
    from_le_bytes-to_le_bytes 8 (bits_of_i64 id),
    from_le_bytes-to_le_bytes 8 (length c2s),
    from_le_bytes-to_le_bytes 8 (length s2c),
    from_le_bytes-to_le_bytes 4 (hash (c2s ++ s2c)),
    i64_of_bits-bits_of_i64 id,
    bits_of_i64-lt id,
    length-append payload more,
    take-append_exact (location.length - header_length) payload more,
  )

  -- The bytes of a record, with a payload that may have changed since.
  read_record_stored :
      (file payload more : List ℕ) (expected : ℤ) (location : RecordLocation)
      → IsI64 id
      → hash (c2s ++ s2c) < 2 ^ 32
      → header_length + (length c2s + length s2c) < 2 ^ 64
      → length payload ≡ length c2s + length s2c
      → location.length ≡ header_length + (length c2s + length s2c)
      → location.offset ≡ length file
      → read_record hash
          (file ++ (header_bytes hash id location.length c2s s2c ++ (payload ++ more)))
          expected
          location
        ≡ (if eq_ℤ id expected
            then (if hash payload == hash (c2s ++ s2c)
                then ok
                    (record { c2s = take (length c2s) payload; s2c = drop (length c2s) payload })
                else err checksum_mismatch)
            else err (wrong_session id))
  unfolding read_record
  read_record_stored file payload more expected location i64 crc fits sized located at =
      let tail = header_bytes hash id location.length c2s s2c ++ (payload ++ more) in
      rw (drop-append_exact location.offset file tail at) (
        ground
          (arith, check_record_header payload more expected location i64 crc fits sized located))

  appended :
      (file file' : List ℕ) (location : RecordLocation)
      → append_record hash file id c2s s2c ≡ ok (file', location)
      → (file' ≡ file ++ (header_bytes hash id location.length c2s s2c ++ (c2s ++ s2c)))
        × (location.offset ≡ length file)
        × (location.length ≡ header_length + (length c2s + length s2c))
        × (location.length < 2 ^ 64)
  unfolding append_record
  appended file file' location h = (ground arith, ground arith, ground arith, ground arith)

  -- A record is read back as it was written, under its own session's id alone, from the file with
  -- whatever was appended later; its location is the part of the file that the call added.
  pub read_record-append_record :
      (file file' more : List ℕ) (expected : ℤ) (location : RecordLocation)
      → IsI64 id
      → hash (c2s ++ s2c) < 2 ^ 32
      → append_record hash file id c2s s2c ≡ ok (file', location)
      → (read_record hash (file' ++ more) expected location ≡ (
          if eq_ℤ id expected
          then ok (record { c2s = c2s; s2c = s2c })
          else err (wrong_session id)))
        × (take location.offset file' ≡ file)
        × (location.offset + location.length ≡ length file')
  read_record-append_record file file' more expected location i64 crc h =
      let (written, at, sized, fits) = appended file file' location h in
      let body : List ℕ = header_bytes hash id location.length c2s s2c ++ (c2s ++ s2c) in
      (
        rw (written, append_assoc file body more, append_assoc c2s s2c more)
            (ground (
              arith,
              append_assoc c2s s2c more,
              read_record_stored file (c2s ++ s2c) more expected location i64 crc,
              length-append c2s s2c,
              take-append_exact (length c2s) c2s s2c,
              drop-append_exact (length c2s) c2s s2c,
            )),
        rw written (take-append_exact location.offset file body at),
        rw written (omega (arith, length-append file body, length-append c2s s2c)),
      )

  -- Where the payload of a stored record was replaced by one of another checksum, reading it fails.
  pub read_record_corrupted :
      (file file' more payload : List ℕ) (location : RecordLocation)
      → IsI64 id
      → hash (c2s ++ s2c) < 2 ^ 32
      → append_record hash file id c2s s2c ≡ ok (file', location)
      → length payload ≡ length c2s + length s2c
      → hash payload ≢ hash (c2s ++ s2c)
      → read_record hash
          (take (location.offset + header_length) file' ++ (payload ++ more))
          id
          location
        ≡ err checksum_mismatch
  read_record_corrupted file file' more payload location i64 crc h sized differs =
      let (written, at, long, fits) = appended file file' location h in
      let header : List ℕ = header_bytes hash id location.length c2s s2c in
      rw
        (
          written,
          take-append_ge (location.offset + header_length) header_length file
              (header ++ (c2s ++ s2c)) (omega arith),
          append_assoc file header (payload ++ more),
        )
        (ground (
          arith,
          read_record_stored file payload more id location i64 crc,
          (eq_ℤ_iff id id).1 refl,
        ))
