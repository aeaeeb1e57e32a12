-- ===== src/Common/Bytes.antt =====
-- `to_le_bytes`, `from_le_bytes` and their big-endian counterparts, over lists of bytes.
use newhatch.Common.Lists.{length, All}
use Prim.Native.Nat.{ℕ, zero, suc, ◌+◌, ◌*◌, ◌/◌, ◌%◌, ◌^◌, ◌<◌}
use mathlib.Core.Path.{◌≡◌, refl}
use mathlib.Core.List.{List, [], ◌∷◌}
use native.Mathlib.Omega.{arith}

abbrev pub IsByte : ℕ → Type 0
IsByte b = b < 256

abbrev pub AreBytes : List ℕ → Type 0
AreBytes bytes = All IsByte bytes

-- The `width` low bytes of a word, lowest first.
abbrev pub to_le_bytes : ℕ → ℕ → List ℕ
to_le_bytes zero v = []
to_le_bytes (suc width) v = (v % 256) ∷ to_le_bytes width (v / 256)

abbrev pub from_le_bytes : List ℕ → ℕ
from_le_bytes [] = 0
from_le_bytes (b ∷ bs) = b + 256 * from_le_bytes bs

pub from_le_bytes-to_le_bytes :
    (width v : ℕ) → v < 256 ^ width → from_le_bytes (to_le_bytes width v) ≡ v
from_le_bytes-to_le_bytes zero v h = omega arith
from_le_bytes-to_le_bytes (suc width) v h =
    omega (arith, from_le_bytes-to_le_bytes width (v / 256) (omega arith))

pub length-to_le_bytes : (width v : ℕ) → length (to_le_bytes width v) ≡ width
length-to_le_bytes zero v = refl
length-to_le_bytes (suc width) v = omega (arith, length-to_le_bytes width (v / 256))

pub to_le_bytes-AreBytes : (width v : ℕ) → AreBytes (to_le_bytes width v)
to_le_bytes-AreBytes zero v = tt
to_le_bytes-AreBytes (suc width) v = (omega arith, to_le_bytes-AreBytes width (v / 256))

abbrev pub be_u16 : ℕ → ℕ → ℕ
be_u16 b0 b1 = b0 * 256 + b1

abbrev pub be_u32 : ℕ → ℕ → ℕ → ℕ → ℕ
be_u32 b0 b1 b2 b3 = b0 * 16777216 + b1 * 65536 + b2 * 256 + b3

abbrev pub u16_to_be_bytes : ℕ → List ℕ
u16_to_be_bytes v = (v / 256) ∷ (v % 256) ∷ []

abbrev pub u32_to_be_bytes : ℕ → List ℕ
u32_to_be_bytes v = (v / 16777216) ∷ (v / 65536 % 256) ∷ (v / 256 % 256) ∷ (v % 256) ∷ []

pub be_u32-to_be_bytes :
    (v : ℕ) → be_u32 (v / 16777216) (v / 65536 % 256) (v / 256 % 256) (v % 256) ≡ v
be_u32-to_be_bytes v = omega arith
