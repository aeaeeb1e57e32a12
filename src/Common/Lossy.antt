-- ===== src/Common/Lossy.antt =====
-- `String::from_utf8_lossy` and `char::from_u32` over bytes.
use newhatch.Common.Tests.{ltb, if◌then◌else◌}
use newhatch.Common.Text.{in_range, utf8_lead}
use Prim.Native.Nat.{ℕ, zero, suc, ◌+◌, ◌/◌, ◌%◌}
use mathlib.Core.Bool.{◌||◌}
use mathlib.Core.List.{List, [], ◌∷◌, ◌++◌}
use mathlib.Core.Option.{none, some}

-- U+FFFD
abbrev pub replacement : List ℕ
replacement = 0xef ∷ 0xbf ∷ 0xbd ∷ []

-- How a byte goes on where a character may begin: what is written for it, and the bytes begun with
-- the number of those to come and the range of the next.
pub record Begun : Type 0 where
  pub written : List ℕ
  pub held : List ℕ
  pub left : ℕ
  pub low : ℕ
  pub high : ℕ

unfoldable pub begin_with : ℕ → ℕ × ℕ × ℕ → Begun
begin_with byte (zero, low, high) = record {
  written = byte ∷ [];
  held = [];
  left = 0;
  low = 0;
  high = 0;
}
begin_with byte (suc left, low, high) = record {
  written = [];
  held = byte ∷ [];
  left = suc left;
  low = low;
  high = high;
}

unfoldable pub begin_char : ℕ → Begun
begin_char byte = elim (utf8_lead byte) [
  | none ↦ record { written = replacement; held = []; left = 0; low = 0; high = 0 }
  | some lead ↦ begin_with byte lead
]

-- The bytes with each longest beginning of a character that is not completed, and each byte that
-- begins none, replaced; `held` are the bytes of a character with `left` bytes to come.
unfoldable pub lossy_from : List ℕ → ℕ → ℕ → ℕ → List ℕ → List ℕ
lossy_from held zero low high [] = []
lossy_from held (suc left) low high [] = replacement
lossy_from held zero low high (byte ∷ bytes) =
    let b = begin_char byte in b.written ++ lossy_from b.held b.left b.low b.high bytes
lossy_from held (suc left) low high (byte ∷ bytes) =
    let b = begin_char byte in
    let next = lossy_from (held ++ (byte ∷ [])) left 0x80 0xbf bytes in
    let whole = (held ++ (byte ∷ [])) ++ lossy_from [] 0 0 0 bytes in
    let again = replacement ++ (b.written ++ lossy_from b.held b.left b.low b.high bytes) in
    if in_range low high byte then (elim left [ zero ↦ whole | suc n ↦ next ]) else again

-- `String::from_utf8_lossy`
unfoldable pub from_utf8_lossy : List ℕ → List ℕ
from_utf8_lossy bytes = lossy_from [] 0 0 0 bytes

-- The bytes of a code point; U+FFFD for one that `char::from_u32` refuses.
unfoldable pub encode_char : ℕ → List ℕ
encode_char code =
    if ltb code 0x80
    then code ∷ []
    else if ltb code 0x800
    then (0xc0 + code / 64) ∷ (0x80 + code % 64) ∷ []
    else if in_range 0xd800 0xdfff code || ltb 0x10ffff code
    then replacement
    else if ltb code 0x10000
    then (0xe0 + code / 4096) ∷ (0x80 + code / 64 % 64) ∷ (0x80 + code % 64) ∷ []
    else (0xf0 + code / 262144)
      ∷ (0x80 + code / 4096 % 64)
      ∷ (0x80 + code / 64 % 64)
      ∷ (0x80 + code % 64)
      ∷ []
