-- ===== src/Payload/Percent.antt =====
-- `percent` of crates/analyzer/src/payload_text.rs. Text is its UTF-8 bytes.
use newhatch.Common.{ℕ, ◌+◌, ◌*◌, ◌==◌, if◌then◌else◌, Option, none, some, List, [], ◌∷◌, ◌++◌}
use newhatch.Common.Text.{is_utf8}
use newhatch.Http.Chunk.{hex_digit}

-- The value of `%XY`, where the three bytes are that.
unfoldable pub percent_byte : ℕ → ℕ → ℕ → Option ℕ
percent_byte p x y =
    if p == b'%'
    then (elim (hex_digit x) [
      | none ↦ none
      | some high ↦ elim (hex_digit y) [ none ↦ none | some low ↦ some (high * 16 + low) ]
    ])
    else none

-- A run of such triples: its bytes, if they are text, and the run itself otherwise.
unfoldable pub flush : List ℕ → List ℕ → List ℕ
flush decoded raw = if is_utf8 decoded then decoded else raw

-- `decoded` and `raw` are the bytes of the run that ends here, and the run itself.
unfoldable pub percent_from : List ℕ → List ℕ → List ℕ → List ℕ
unfolding flush percent_byte
percent_from decoded raw [] = flush decoded raw
percent_from decoded raw (x ∷ []) = flush decoded raw ++ (x ∷ [])
percent_from decoded raw (x ∷ y ∷ []) = flush decoded raw ++ (x ∷ y ∷ [])
percent_from decoded raw (x ∷ y ∷ z ∷ text) = elim (percent_byte x y z) [
  | some byte ↦ percent_from (decoded ++ (byte ∷ [])) (raw ++ (x ∷ y ∷ z ∷ [])) text
  | none ↦ flush decoded raw ++ (x ∷ percent_from [] [] (y ∷ z ∷ text))
]

unfoldable pub percent : List ℕ → List ℕ
percent text = percent_from [] [] text
