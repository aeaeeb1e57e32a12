-- ===== src/Flow/Sequence.antt =====
-- Sequence numbers, 32-bit words that wrap around (crates/analyzer/src/flow.rs).
use newhatch.Common.{ℕ, ◌+◌, ◌-◌, ◌%◌, ◌^◌, ◌≤◌, ◌<◌, ◌≡◌, Bool, leb, ltb, arith}

-- `u32::wrapping_add` and `u32::wrapping_sub`.
unfoldable pub wrapping_add : ℕ → ℕ → ℕ
wrapping_add a b = (a + b) % 2 ^ 32

unfoldable pub wrapping_sub : ℕ → ℕ → ℕ
wrapping_sub a b = (a + 2 ^ 32 - b) % 2 ^ 32

-- `(left.wrapping_sub(right) as i32) < 0`: the top bit of the difference.
unfoldable pub sequence_before : ℕ → ℕ → Bool
unfolding wrapping_sub
sequence_before left right = leb (2 ^ 31) (wrapping_sub left right)

-- The sequence number of the byte at an offset of a stream that begins at `origin`.
unfoldable pub seq : ℕ → ℕ → ℕ
seq origin offset = (origin + offset) % 2 ^ 32

pub seq-lt : (origin offset : ℕ) → seq origin offset < 2 ^ 32
unfolding seq
seq-lt origin offset = omega arith

pub wrapping_add-seq :
    (origin offset n : ℕ) → wrapping_add (seq origin offset) n ≡ seq origin (offset + n)
unfolding seq wrapping_add
wrapping_add-seq origin offset n = omega arith

-- The distance of two bytes less than 2 GiB apart.
pub wrapping_sub-seq :
    (origin i j : ℕ) → j ≤ i → i < j + 2 ^ 31 → wrapping_sub (seq origin i) (seq origin j) ≡ i - j
unfolding seq wrapping_sub
wrapping_sub-seq origin i j h k = omega arith

-- On bytes less than 2 GiB apart the comparison of sequence numbers is that of the offsets, also
-- where the numbers wrap around.
pub sequence_before-seq :
    (origin i j : ℕ)
    → i < 2 ^ 31
    → j < 2 ^ 31
    → sequence_before (seq origin i) (seq origin j) ≡ ltb i j
unfolding sequence_before seq
sequence_before-seq origin i j h k = ground arith
