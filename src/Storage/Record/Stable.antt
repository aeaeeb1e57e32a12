-- ===== src/Storage/Record/Stable.antt =====
-- A record that can be read stays readable, with the same result, whatever is appended to the file.
use newhatch.Common.{ℕ, ◌-◌, ◌≤◌, ◌≡◌, arith, le→leb}
use newhatch.Common.{
  List, ◌++◌, length, take, drop, length-append, drop-append_le, take-append_le, length-drop,
}
use newhatch.Common.{ok}
use newhatch.Common.Int.{ℤ}
use newhatch.Common.Bytes.{from_le_bytes}
use newhatch.Storage.Record.{
  header_length, RecordLocation, SessionPayload, header_bytes, append_record, check_record,
  read_record,
}

module _ (hash : List ℕ → ℕ) where
  check_record-append :
      (header rest more : List ℕ) (id : ℤ) (location : RecordLocation) (p : SessionPayload)
      → check_record hash header rest id location ≡ ok p
      → check_record hash header (rest ++ more) id location ≡ ok p
  unfolding check_record
  check_record-append header rest more id location p h = ground (
    arith,
    length-append rest more,
    take-append_le (from_le_bytes (take 8 (drop 12 header)) - header_length) rest more,
  )

  drop_length : (n : ℕ) (xs : List ℕ) → header_length ≤ length (drop n xs) → n ≤ length xs
  drop_length n xs h = omega (arith, length-drop n xs)

  readable :
      (file : List ℕ) (id : ℤ) (location : RecordLocation) (p : SessionPayload)
      → read_record hash file id location ≡ ok p
      → (header_length ≤ length (drop location.offset file))
        × (check_record hash
              (take header_length (drop location.offset file))
              (drop header_length (drop location.offset file))
              id
              location
            ≡ ok p)
  unfolding read_record
  readable file id location p h = ground arith

  read_record-append :
      (file more : List ℕ) (id : ℤ) (location : RecordLocation) (p : SessionPayload)
      → read_record hash file id location ≡ ok p
      → read_record hash (file ++ more) id location ≡ ok p
  unfolding read_record
  read_record-append file more id location p h =
      let (room, checked) = readable file id location p h in
      let tail : List ℕ = drop location.offset file in
      simp
        (
          drop-append_le location.offset file more (drop_length location.offset file room),
          le→leb header_length (length (tail ++ more)) (omega (arith, length-append tail more)),
          take-append_le header_length tail more room,
          drop-append_le header_length tail more room,
        )
        (check_record-append (take header_length tail) (drop header_length tail) more id location p
          checked)

  grown :
      (file file' : List ℕ) (other : ℤ) (c2s s2c : List ℕ) (location : RecordLocation)
      → append_record hash file other c2s s2c ≡ ok (file', location)
      → file' ≡ file ++ (header_bytes hash other location.length c2s s2c ++ (c2s ++ s2c))
  unfolding append_record
  grown file file' other c2s s2c location h = ground arith

  -- What `read_record` returns it returns again after every later `append_record`.
  pub read_record-append_record_later :
      (file file' : List ℕ) (id other : ℤ) (c2s s2c : List ℕ) (location location' : RecordLocation)
      (p : SessionPayload)
      → read_record hash file id location ≡ ok p
      → append_record hash file other c2s s2c ≡ ok (file', location')
      → read_record hash file' id location ≡ ok p
  read_record-append_record_later file file' id other c2s s2c location location' p h k =
      rw (grown file file' other c2s s2c location' k) (read_record-append file _ id location p h)
