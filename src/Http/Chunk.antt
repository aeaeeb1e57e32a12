-- ===== src/Http/Chunk.antt =====
-- The framing of a message's body: `Body`, `Chunk`, `append_line` and `consume_chunk` of
-- crates/analyzer/src/http_sessions.rs.
use newhatch.Common.{
  ℕ, zero, suc, ◌+◌, ◌-◌, ◌*◌, ◌^◌, min, ltb, leb, ◌==◌, bytes_eq, if◌then◌else◌, Bool, ◌&&◌,
  Option, none, some, List, [], ◌∷◌, ◌++◌, length, take, drop, is_empty, Result, ok, err,
}
use newhatch.Common.Text.{trim_text}
use newhatch.Flow.Stream.{append_bounded}

pub data Chunk : Type 0 where
  size : List ℕ → Chunk
  data_left : ℕ → Chunk
  data_end : ℕ → Chunk
  trailers : List ℕ → ℕ → Chunk

pub data Body : Type 0 where
  headers : Body
  fixed : ℕ → Body
  chunked : Chunk → Body
  until_close : Body
  done : Body

-- The error of the module's functions, Rust's `()`.
pub data Malformed : Type 0 where
  malformed : Malformed

-- `bytes.ends_with(suffix)`
unfoldable pub ends_with : List ℕ → List ℕ → Bool
ends_with suffix bytes =
    leb (length suffix) (length bytes)
    && bytes_eq (drop (length bytes - length suffix) bytes) suffix

abbrev pub crlf : List ℕ
crlf = 13 ∷ 10 ∷ []

-- The line with what was added to it, and the number of bytes used.
unfoldable pub append_line : List ℕ → List ℕ → ℕ → Result Malformed (List ℕ × ℕ)
append_line line [] limit = ok (line, 0)
append_line line (byte ∷ bytes) limit =
    let line' = append_bounded line (byte ∷ []) limit in
    let rest = append_line line' bytes limit in
    if leb limit (length line)
    then err malformed
    else if byte == 10
    then (if ends_with crlf line' then ok (line', 1) else err malformed)
    else elim rest [ ok (line'', count) ↦ ok (line'', suc count) | err e ↦ err e ]

-- The first part of `split(|byte| *byte == b';')`.
unfoldable pub before_semicolon : List ℕ → List ℕ
before_semicolon [] = []
before_semicolon (byte ∷ bytes) = if byte == b';' then [] else byte ∷ before_semicolon bytes

-- `is_ascii_hexdigit` and the digit's value.
unfoldable pub hex_digit : ℕ → Option ℕ
hex_digit byte =
    if leb b'0' byte && leb byte b'9'
    then some (byte - b'0')
    else if leb b'a' byte && leb byte b'f'
    then some (byte - b'a' + 10)
    else if leb b'A' byte && leb byte b'F'
    then some (byte - b'A' + 10)
    else none

-- `u64::from_str_radix(size, 16)` behind the check of the digits: an error on overflow.
unfoldable pub hex_from : ℕ → List ℕ → Option ℕ
hex_from acc [] = some acc
hex_from acc (byte ∷ bytes) = elim (hex_digit byte) [
  | none ↦ none
  | some digit ↦
      let acc' = acc * 16 + digit in
      let rest = hex_from acc' bytes in if ltb acc' (2 ^ 64) then rest else none
]

unfoldable pub parse_hex : List ℕ → Option ℕ
parse_hex digits = if is_empty digits then none else hex_from 0 digits

-- `u64`'s `parse` behind the check that the text is of ASCII digits and not empty.
unfoldable pub decimal_from : ℕ → List ℕ → Option ℕ
decimal_from acc [] = some acc
decimal_from acc (byte ∷ bytes) =
    let acc' = acc * 10 + (byte - b'0') in
    let rest = decimal_from acc' bytes in
    if leb b'0' byte && leb byte b'9' && ltb acc' (2 ^ 64) then rest else none

unfoldable pub parse_decimal : List ℕ → Option ℕ
parse_decimal digits = if is_empty digits then none else decimal_from 0 digits

-- A size of 0 begins the trailers.
unfoldable pub after_size : ℕ → Chunk
after_size count = if count == 0 then trailers [] 0 else data_left count

-- The size line, complete with its line end.
unfoldable pub read_size : List ℕ → Result Malformed Chunk
read_size line = elim (trim_text (before_semicolon (take (length line - 2) line))) [
  | none ↦ err malformed
  | some digits ↦ elim (parse_hex digits) [
    | none ↦ err malformed
    | some count ↦ ok (after_size count)
  ]
]

unfoldable pub next_size : Result Malformed (List ℕ × ℕ) → Result Malformed (ℕ × Body)
next_size (err e) = err e
next_size (ok (line, count)) =
    if ends_with crlf line
    then (elim (read_size line) [ err e ↦ err e | ok chunk ↦ ok (count, chunked chunk) ])
    else ok (count, chunked (size line))

-- `check` tells whether `httparse::parse_headers` is complete on one line with room for one header.
unfoldable pub next_trailer :
    (List ℕ → Bool) → ℕ → ℕ → Result Malformed (List ℕ × ℕ) → Result Malformed (ℕ × Body)
next_trailer check total limit (err e) = err e
next_trailer check total limit (ok (line, count)) =
    if ltb limit (total + count)
    then err malformed
    else if bytes_eq line crlf
    then ok (count, done)
    else if ends_with crlf line
    then (if check (line ++ crlf)
        then ok (count, chunked (trailers [] (total + count)))
        else err malformed)
    else ok (count, chunked (trailers line (total + count)))

-- `b"\r\n"[index]`
unfoldable pub line_end : ℕ → Option ℕ
line_end zero = some 13
line_end (suc zero) = some 10
line_end (suc (suc index)) = none

-- The byte behind a chunk's data; its caller has a byte, and the index is 0 or 1, so that neither
-- index of the source is out of bounds.
unfoldable pub next_data_end : ℕ → List ℕ → Result Malformed (ℕ × Body)
next_data_end index [] = err malformed
next_data_end index (byte ∷ bytes) = elim (line_end index) [
  | none ↦ err malformed
  | some expected ↦
      if byte == expected
      then ok (1, chunked (if index == 0 then data_end 1 else size []))
      else err malformed
]

unfoldable pub next_data : ℕ → List ℕ → ℕ × Body
next_data remaining bytes =
    let count = min remaining (length bytes) in
    (count, chunked (if count == remaining then data_end 0 else data_left (remaining - count)))

module _ (check : List ℕ → Bool) where
  -- The number of bytes used, and the body's next state.
  unfoldable pub consume_chunk : Chunk → List ℕ → ℕ → Result Malformed (ℕ × Body)
  consume_chunk (size line) bytes limit = next_size (append_line line bytes limit)
  consume_chunk (data_left remaining) bytes limit = ok (next_data remaining bytes)
  consume_chunk (data_end index) bytes limit = next_data_end index bytes
  consume_chunk (trailers line total) bytes limit =
      next_trailer check total limit (append_line line bytes limit)
