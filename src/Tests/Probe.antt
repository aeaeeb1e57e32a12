-- ===== src/Tests/Probe.antt =====
-- `Probe` and `worker_index` (crates/analyzer/src/flow.rs): runs, and the theorem at an input.
use newhatch.Common.{◌≡◌, refl, some, [], ◌∷◌}
use newhatch.Flow.Probe.{
  new_probe, inspect, inspect_all, position, window_position, head_end, shift, or_else, joined,
  line_end-inspect_all,
}
use newhatch.Flow.Shard.{mix_bytes}

-- A head that ends in "\r\n\r\n" may have "\n\n" before it: shown whole, its end is the later one.
head_found : (inspect new_probe (b'a' ∷ 10 ∷ 10 ∷ 13 ∷ 10 ∷ 13 ∷ 10 ∷ [])).header_end ≡ some 7
unfolding inspect new_probe position window_position head_end shift or_else
head_found = refl

-- Shown in two parts, the end is the earlier one.
head_found_in_parts :
    (inspect_all new_probe [] ((b'a' ∷ 10 ∷ 10 ∷ []) ∷ (13 ∷ 10 ∷ 13 ∷ 10 ∷ []) ∷ [])).header_end
    ≡ some 3
unfolding inspect inspect_all new_probe position window_position head_end shift or_else
head_found_in_parts = refl

line_end-inspect_all_example :
    (inspect_all new_probe [] ((b'a' ∷ b'b' ∷ []) ∷ (10 ∷ []) ∷ [])).line_end
    ≡ position 10 (joined ((b'a' ∷ b'b' ∷ []) ∷ (10 ∷ []) ∷ []))
line_end-inspect_all_example = line_end-inspect_all ((b'a' ∷ b'b' ∷ []) ∷ (10 ∷ []) ∷ [])

-- The FNV-1a hash of "a".
hash_of_a : mix_bytes 0xcbf29ce484222325 (b'a' ∷ []) ≡ 0xaf63dc4c8601ec8c
unfolding mix_bytes
hash_of_a = refl
