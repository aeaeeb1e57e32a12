-- ===== src/Flow/Shard.antt =====
-- Which worker a connection belongs to: `worker_index` of crates/analyzer/src/flow.rs, an FNV-1a hash
-- of 64 bits. The collector's id is given by its UTF-8 bytes; `usize` has 64 bits.
use newhatch.Common.{ℕ, ◌*◌, ◌%◌, ◌^◌, List, [], ◌∷◌}
use Prim.Native.Nat.{bit_xor}
use newhatch.Common.Bytes.{u16_to_be_bytes}
use newhatch.Wire.Messages.{IpAddr, v4, v6, Endpoint, FlowKey}

unfoldable pub mix_bytes : ℕ → List ℕ → ℕ
mix_bytes hash [] = hash
mix_bytes hash (byte ∷ bytes) = mix_bytes (bit_xor hash byte * 0x100000001b3 % 2 ^ 64) bytes

unfoldable pub ip_octets : IpAddr → List ℕ
ip_octets (v4 bytes) = bytes
ip_octets (v6 bytes) = bytes

unfoldable pub mix_endpoint : ℕ → Endpoint → ℕ
mix_endpoint hash endpoint =
    mix_bytes (mix_bytes hash (ip_octets endpoint.ip)) (u16_to_be_bytes endpoint.port)

unfoldable pub worker_index : List ℕ → FlowKey → ℕ → ℕ
worker_index collector_id key workers =
    mix_endpoint (mix_endpoint (mix_bytes 0xcbf29ce484222325 collector_id) key.client) key.server
    % workers
