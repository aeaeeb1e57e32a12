-- ===== src/Payload/Encoded.antt =====
-- `percent` (crates/analyzer/src/payload_text.rs) on text that is percent-encoded.
use newhatch.Common.{
  ℕ, ◌+◌, ◌-◌, ◌/◌, ◌%◌, ◌<◌, ◌≡◌, ap, ◌∙◌, arith, ltb, if◌then◌else◌, some, List, [], ◌∷◌, ◌++◌,
  append_assoc, append-nil,
}
use newhatch.Common.Bytes.{AreBytes}
use newhatch.Common.Text.{is_utf8}
use newhatch.Http.Chunk.{hex_digit}
use newhatch.Payload.Percent.{percent_byte, flush, percent_from, percent}

-- The hexadecimal digit of a value below 16.
abbrev pub digit : ℕ → ℕ
digit n = if ltb n 10 then b'0' + n else b'A' + n - 10

-- Each byte as `%XY`.
abbrev pub encode : List ℕ → List ℕ
encode [] = []
encode (byte ∷ bytes) = b'%' ∷ digit (byte / 16) ∷ digit (byte % 16) ∷ encode bytes

hex_digit-digit : (n : ℕ) → n < 16 → hex_digit (digit n) ≡ some n
unfolding hex_digit
hex_digit-digit n h = ground arith

percent_byte-digits :
    (byte : ℕ) → byte < 256 → percent_byte b'%' (digit (byte / 16)) (digit (byte % 16)) ≡ some byte
unfolding percent_byte
percent_byte-digits byte h =
    rw (hex_digit-digit (byte / 16) (omega arith), hex_digit-digit (byte % 16) (omega arith))
      (ap some (omega arith))

percent_from-encode :
    (decoded raw bytes : List ℕ)
    → AreBytes bytes
    → percent_from decoded raw (encode bytes) ≡ flush (decoded ++ bytes) (raw ++ encode bytes)
unfolding percent_from
percent_from-encode decoded raw [] h = rw (append-nil decoded, append-nil raw)
percent_from-encode decoded raw (byte ∷ bytes) (h, hs) =
    rw (percent_byte-digits byte h, percent_from)
      (percent_from-encode (decoded ++ (byte ∷ []))
          (raw ++ (b'%' ∷ digit (byte / 16) ∷ digit (byte % 16) ∷ [])) bytes hs
        ∙ ap
            (λ t.
              flush t
                ((raw ++ (b'%' ∷ digit (byte / 16) ∷ digit (byte % 16) ∷ [])) ++ encode bytes))
            (append_assoc decoded (byte ∷ []) bytes)
        ∙ ap (flush (decoded ++ (byte ∷ bytes)))
            (append_assoc raw (b'%' ∷ digit (byte / 16) ∷ digit (byte % 16) ∷ []) (encode bytes)))

-- Text of which every byte is percent-encoded is decoded to that text, and bytes that are no text
-- are left encoded.
pub percent-encode :
    (bytes : List ℕ)
    → AreBytes bytes
    → percent (encode bytes) ≡ (if is_utf8 bytes then bytes else encode bytes)
unfolding percent flush
percent-encode bytes h = percent_from-encode [] [] bytes h
