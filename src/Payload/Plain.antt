-- ===== src/Payload/Plain.antt =====
-- `display` (crates/analyzer/src/payload_text.rs) on text that has nothing to decode.
use newhatch.Common.{
  ℕ, zero, suc, ◌+◌, ◌≤◌, ◌≡◌, refl, ap, ◌∙◌, arith, ◌==◌, Bool, true, false, Option, none, some,
  List, [], ◌∷◌, ◌++◌, length, drop, All, Option-cases, inl, inr, append_assoc,
}
use newhatch.Common.Text.{is_utf8, utf8_from, utf8_lead, in_range, starts_with}
use newhatch.Common.Lossy.{begin_with, begin_char, lossy_from, from_utf8_lossy}
use newhatch.Payload.Percent.{percent_byte, flush, percent_from, percent}
use newhatch.Payload.Escapes.{decode_rounds, decode}
use newhatch.Payload.Json.{JsonLibrary, js_trim}
use newhatch.Payload.Display.{strip_mark, boundary, json_text, display_parts, display}

-- Between characters the range does not matter.
utf8_from_start :
    (low high : ℕ) (bytes : List ℕ)
    → utf8_from 0 low high bytes ≡ true
    → utf8_from 0 0 0 bytes ≡ true
unfolding utf8_from
utf8_from_start low high [] v = v
utf8_from_start low high (byte ∷ bytes) v = v

utf8_both :
    (low high byte left : ℕ) (bytes : List ℕ)
    → utf8_from (suc left) low high (byte ∷ bytes) ≡ true
    → (in_range low high byte ≡ true) × (utf8_from left 0x80 0xbf bytes ≡ true)
unfolding utf8_from
utf8_both low high byte left bytes v = ground (arith, v)

begin_char_lead :
    (byte : ℕ) (lead : ℕ × ℕ × ℕ)
    → utf8_lead byte ≡ some lead
    → begin_char byte ≡ begin_with byte lead
unfolding begin_char
begin_char_lead byte lead e = rw (e, begin_char)

lossy_valid :
    (held : List ℕ) (left low high : ℕ) (bytes : List ℕ)
    → (left ≡ 0 → held ≡ [])
    → utf8_from left low high bytes ≡ true
    → lossy_from held left low high bytes ≡ held ++ bytes
unfolding lossy_from utf8_from begin_with
lossy_valid held zero low high [] h v = rw (h refl)
lossy_valid held (suc left) low high [] h v = absurd (ground arith)
lossy_valid held zero low high (byte ∷ bytes) h v = elim (Option-cases (utf8_lead byte)) [
  | inl e ↦ absurd (cc (rw (e, utf8_from) at v))
  | inr ((zero, lo, hi), e) ↦
      rw (begin_char_lead byte _ e, lossy_from, h refl)
        (ap (λ t. byte ∷ t)
          (lossy_valid [] 0 0 0 bytes (λ _. refl)
            (utf8_from_start lo hi bytes (rw (e, utf8_from) at v))))
  | inr ((suc n, lo, hi), e) ↦
      rw (begin_char_lead byte _ e, lossy_from, h refl)
        (lossy_valid (byte ∷ []) (suc n) lo hi bytes (λ z. absurd (omega arith))
          (rw (e, utf8_from) at v))
]
lossy_valid held (suc zero) low high (byte ∷ bytes) h v =
    let (now, rest) = utf8_both low high byte zero bytes v in
    rw now (
      ap (λ t. (held ++ (byte ∷ [])) ++ t)
        (lossy_valid [] 0 0 0 bytes (λ _. refl) (utf8_from_start 0x80 0xbf bytes rest))
      ∙ append_assoc held (byte ∷ []) bytes)
lossy_valid held (suc (suc left)) low high (byte ∷ bytes) h v =
    let (now, rest) = utf8_both low high byte (suc left) bytes v in
    rw now (
      lossy_valid (held ++ (byte ∷ [])) (suc left) 0x80 0xbf bytes (λ z. absurd (omega arith)) rest
      ∙ append_assoc held (byte ∷ []) bytes)

pub from_utf8_lossy-valid : (bytes : List ℕ) → is_utf8 bytes ≡ true → from_utf8_lossy bytes ≡ bytes
unfolding from_utf8_lossy is_utf8
from_utf8_lossy-valid bytes v = lossy_valid [] 0 0 0 bytes (λ _. refl) v

percent_byte-plain : (x y z : ℕ) → (x == b'%') ≡ false → percent_byte x y z ≡ none
unfolding percent_byte
percent_byte-plain x y z h = rw h

abbrev pub IsPlain : ℕ → Type 0
IsPlain byte = ((byte == b'%') ≡ false) × ((byte == 92) ≡ false)

percent_plain : (text : List ℕ) → All IsPlain text → percent_from [] [] text ≡ text
unfolding percent_from flush is_utf8 utf8_from
percent_plain [] h = refl
percent_plain (x ∷ []) h = refl
percent_plain (x ∷ y ∷ []) h = refl
percent_plain (x ∷ y ∷ z ∷ text) (h, hs) =
    rw (percent_byte-plain x y z h.0, percent_from)
      (ap (λ t. x ∷ t) (percent_plain (y ∷ z ∷ text) hs))

decode_rounds-plain :
    (rounds : ℕ) (text : List ℕ)
    → length text ≤ rounds
    → All IsPlain text
    → decode_rounds rounds text ≡ text
unfolding decode_rounds
decode_rounds-plain rounds [] l h = refl
decode_rounds-plain zero (c ∷ text) l h = absurd (omega arith)
decode_rounds-plain (suc rounds) (c ∷ text) l (h, hs) =
    rw (h.1, decode_rounds) (ap (λ t. c ∷ t) (decode_rounds-plain rounds text (omega arith) hs))

pub decode_plain : (text : List ℕ) → All IsPlain text → decode text ≡ text
unfolding decode percent
decode_plain text h =
    rw (decode_rounds-plain (length text) text (omega arith) h) (percent_plain text h)

-- The part of a payload in which JSON is looked for.
abbrev pub json_part : Option (ℕ × ℕ) → List ℕ → List ℕ
json_part none bytes = bytes
json_part (some (n, separator)) bytes = drop (n + separator) bytes

shown :
    (json : JsonLibrary) (bytes : List ℕ) (pretty : Bool) (where_body : Option (ℕ × ℕ))
    → All IsPlain bytes
    → json.parse (js_trim (json_part where_body bytes)) ≡ none
    → display_parts json bytes pretty where_body ≡ bytes
unfolding display_parts json_text
shown json bytes pretty none h n = rw (n, display_parts, json_text) (decode_plain bytes h)
shown json bytes pretty (some (k, separator)) h n =
    rw (n, display_parts, json_text) (decode_plain bytes h)

-- A payload that is text, without a mark at its beginning, without a percent sign and a backslash,
-- and without JSON as a whole or behind its first blank line, is shown as it is.
pub display_plain :
    (json : JsonLibrary) (bytes : List ℕ) (pretty : Bool)
    → is_utf8 bytes ≡ true
    → starts_with (0xef ∷ 0xbb ∷ 0xbf ∷ []) bytes ≡ false
    → All IsPlain bytes
    → json.parse (js_trim (json_part (boundary bytes) bytes)) ≡ none
    → display json bytes pretty ≡ bytes
unfolding display strip_mark
display_plain json bytes pretty v m h n =
    rw (from_utf8_lossy-valid bytes v, m) (shown json bytes pretty (boundary bytes) h n)
