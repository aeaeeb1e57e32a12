-- ===== src/Payload/Escapes.antt =====
-- `decode` of crates/analyzer/src/payload_text.rs: escapes of JSON strings in any text.
use newhatch.Common.{
  ℕ, zero, suc, ◌+◌, ◌-◌, ◌*◌, ◌==◌, if◌then◌else◌, ◌&&◌, Option, none, some, List, [], ◌∷◌, ◌++◌,
  length, drop,
}
use newhatch.Common.Text.{in_range}
use newhatch.Common.Lossy.{encode_char}
use newhatch.Http.Chunk.{hex_digit}
use newhatch.Payload.Percent.{percent}

-- A character that one letter behind the backslash stands for.
unfoldable pub simple_escape : ℕ → Option ℕ
simple_escape c =
    if c == b'"'
    then some b'"'
    else if c == 92
    then some 92
    else if c == b'/'
    then some b'/'
    else if c == b'b'
    then some 8
    else if c == b'f'
    then some 12
    else if c == b'n'
    then some 10
    else if c == b'r'
    then some 13
    else if c == b't'
    then some 9
    else none

-- The value of the first four bytes, where they are hexadecimal digits.
unfoldable pub hex4 : List ℕ → Option ℕ
hex4 [] = none
hex4 (a ∷ []) = none
hex4 (a ∷ b ∷ []) = none
hex4 (a ∷ b ∷ c ∷ []) = none
hex4 (a ∷ b ∷ c ∷ d ∷ text) = elim (hex_digit a) [
  | none ↦ none
  | some x ↦ elim (hex_digit b) [
    | none ↦ none
    | some y ↦ elim (hex_digit c) [
      | none ↦ none
      | some z ↦ elim (hex_digit d) [
        | none ↦ none
        | some w ↦ some (((x * 16 + y) * 16 + z) * 16 + w)
      ]
    ]
  ]
]

-- The low half of a surrogate pair: an escape `\uXXXX` at the beginning of the text.
unfoldable pub low_surrogate : List ℕ → Option ℕ
low_surrogate [] = none
low_surrogate (a ∷ []) = none
low_surrogate (a ∷ b ∷ text) =
    if a == 92 && b == b'u'
    then (elim (hex4 text) [
      | none ↦ none
      | some low ↦ if in_range 0xdc00 0xdfff low then some low else none
    ])
    else none

-- The code of the escape whose first half is `first`, and the number of bytes behind its digits
-- that belong to it.
unfoldable pub pair_surrogates : ℕ → List ℕ → ℕ × ℕ
pair_surrogates first text =
    if in_range 0xd800 0xdbff first
    then (elim (low_surrogate text) [
      | none ↦ (first, 0)
      | some low ↦ (0x10000 + (first - 0xd800) * 1024 + (low - 0xdc00), 6)
    ])
    else (first, 0)

-- What a backslash before the text makes: the bytes written, and the number of bytes used.
unfoldable pub unicode_escape : List ℕ → List ℕ × ℕ
unicode_escape text = elim (hex4 text) [
  | none ↦ (92 ∷ [], 0)
  | some first ↦
      let (code, more) = pair_surrogates first (drop 4 text) in (encode_char code, 5 + more)
]

unfoldable pub escape : List ℕ → List ℕ × ℕ
escape [] = (92 ∷ [], 0)
escape (c ∷ text) = elim (simple_escape c) [
  | some replaced ↦ (replaced ∷ [], 1)
  | none ↦ if c == b'u' then unicode_escape text else (92 ∷ [], 0)
]

-- The loop of `decode`; a round uses a byte at least, so that as many rounds as bytes are enough.
unfoldable pub decode_rounds : ℕ → List ℕ → List ℕ
decode_rounds rounds [] = []
decode_rounds zero (c ∷ text) = []
decode_rounds (suc rounds) (c ∷ text) =
    let (written, used) = escape text in
    if c == 92
    then written ++ decode_rounds rounds (drop used text)
    else c ∷ decode_rounds rounds text

unfoldable pub decode : List ℕ → List ℕ
decode text = percent (decode_rounds (length text) text)
