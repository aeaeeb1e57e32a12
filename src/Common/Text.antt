-- ===== src/Common/Text.antt =====
-- Text as UTF-8 bytes: `str::from_utf8`, `str::trim` and `eq_ignore_ascii_case`.
use newhatch.Common.Tests.{ltb, leb, ◌==◌, if◌then◌else◌}
use newhatch.Common.Lists.{length, drop}
use Prim.Native.Nat.{ℕ, zero, suc, ◌+◌}
use mathlib.Core.Bool.{Bool, true, false, ◌&&◌, ◌||◌}
use mathlib.Core.List.{List, [], ◌∷◌, ◌++◌}
use mathlib.Core.Option.{Option, none, some}

unfoldable pub in_range : ℕ → ℕ → ℕ → Bool
in_range low high byte = leb low byte && leb byte high

-- For a character's first byte, how many bytes follow, and the range of the next one.
unfoldable pub utf8_lead : ℕ → Option (ℕ × ℕ × ℕ)
utf8_lead byte =
    if ltb byte 0x80
    then some (0, 0, 0)
    else if in_range 0xc2 0xdf byte
    then some (1, 0x80, 0xbf)
    else if byte == 0xe0
    then some (2, 0xa0, 0xbf)
    else if byte == 0xed
    then some (2, 0x80, 0x9f)
    else if in_range 0xe1 0xef byte
    then some (2, 0x80, 0xbf)
    else if byte == 0xf0
    then some (3, 0x90, 0xbf)
    else if in_range 0xf1 0xf3 byte
    then some (3, 0x80, 0xbf)
    else if byte == 0xf4
    then some (3, 0x80, 0x8f)
    else none

-- Whether the bytes are UTF-8, with some bytes of a character to come, the next in a range.
unfoldable pub utf8_from : ℕ → ℕ → ℕ → List ℕ → Bool
utf8_from left low high [] = left == 0
utf8_from zero low high (byte ∷ bytes) = elim (utf8_lead byte) [
  | none ↦ false
  | some (left, low', high') ↦ utf8_from left low' high' bytes
]
utf8_from (suc left) low high (byte ∷ bytes) =
    in_range low high byte && utf8_from left 0x80 0xbf bytes

unfoldable pub is_utf8 : List ℕ → Bool
is_utf8 bytes = utf8_from 0 0 0 bytes

-- The characters with the property White_Space: of one byte, of two and of three.
unfoldable pub is_space : ℕ → Bool
is_space byte = in_range 9 13 byte || byte == 32

unfoldable pub is_space_of_two : ℕ → ℕ → Bool
is_space_of_two b0 b1 = b0 == 0xc2 && (b1 == 0x85 || b1 == 0xa0)

unfoldable pub is_space_of_three : ℕ → ℕ → ℕ → Bool
is_space_of_three b0 b1 b2 =
    b0 == 0xe1 && b1 == 0x9a && b2 == 0x80
    || b0 == 0xe2 && b1 == 0x80 && (in_range 0x80 0x8a b2 || b2 == 0xa8 || b2 == 0xa9 || b2 == 0xaf)
    || b0 == 0xe2 && b1 == 0x81 && b2 == 0x9f
    || b0 == 0xe3 && b1 == 0x80 && b2 == 0x80

-- The length of the white space character that the bytes begin with, or 0.
unfoldable pub space_at_start : List ℕ → ℕ
space_at_start [] = 0
space_at_start (a ∷ []) = if is_space a then 1 else 0
space_at_start (a ∷ b ∷ []) = if is_space a then 1 else if is_space_of_two a b then 2 else 0
space_at_start (a ∷ b ∷ c ∷ bytes) =
    if is_space a
    then 1
    else if is_space_of_two a b
    then 2
    else if is_space_of_three a b c
    then 3
    else 0

-- The same for bytes in reverse order.
unfoldable pub space_at_end : List ℕ → ℕ
space_at_end [] = 0
space_at_end (a ∷ []) = if is_space a then 1 else 0
space_at_end (a ∷ b ∷ []) = if is_space a then 1 else if is_space_of_two b a then 2 else 0
space_at_end (a ∷ b ∷ c ∷ bytes) =
    if is_space a
    then 1
    else if is_space_of_two b a
    then 2
    else if is_space_of_three c b a
    then 3
    else 0

-- A round drops at least a byte, so that as many rounds as bytes are enough.
unfoldable pub strip : (List ℕ → ℕ) → ℕ → List ℕ → List ℕ
strip space zero bytes = bytes
strip space (suc rounds) bytes =
    let count = space bytes in
    let rest = strip space rounds (drop count bytes) in if count == 0 then bytes else rest

unfoldable pub reverse : List ℕ → List ℕ
reverse [] = []
reverse (byte ∷ bytes) = reverse bytes ++ (byte ∷ [])

unfoldable pub trim_str : List ℕ → List ℕ
trim_str bytes =
    let rest = reverse (strip space_at_start (length bytes) bytes) in
    reverse (strip space_at_end (length rest) rest)

-- `str::from_utf8(bytes)` and `trim`: `none` where the bytes are not UTF-8.
unfoldable pub trim_text : List ℕ → Option (List ℕ)
trim_text bytes = if is_utf8 bytes then some (trim_str bytes) else none

unfoldable pub to_ascii_lowercase : ℕ → ℕ
to_ascii_lowercase byte = if in_range b'A' b'Z' byte then byte + 32 else byte

unfoldable pub eq_ignore_ascii_case : List ℕ → List ℕ → Bool
eq_ignore_ascii_case [] [] = true
eq_ignore_ascii_case [] (y ∷ ys) = false
eq_ignore_ascii_case (x ∷ xs) [] = false
eq_ignore_ascii_case (x ∷ xs) (y ∷ ys) =
    to_ascii_lowercase x == to_ascii_lowercase y && eq_ignore_ascii_case xs ys

unfoldable pub starts_with : List ℕ → List ℕ → Bool
starts_with [] bytes = true
starts_with (x ∷ prefix) [] = false
starts_with (x ∷ prefix) (y ∷ bytes) = x == y && starts_with prefix bytes

-- `text.contains(pattern)`
unfoldable pub contains : List ℕ → List ℕ → Bool
contains pattern [] = starts_with pattern []
contains pattern (byte ∷ bytes) = starts_with pattern (byte ∷ bytes) || contains pattern bytes
