-- ===== src/Packet/Parse.antt =====
-- `parse_ip_tcp` of crates/collector/src/packet.rs and the functions that it calls.
pub mod Safe
pub mod Layout
use newhatch.Common.{ℕ, zero, suc, ◌+◌, ◌-◌, ◌*◌, ◌/◌, ◌%◌, ◌^◌, min, ltb, leb, ◌==◌, if◌then◌else◌}
use newhatch.Common.{
  Bool, true, false, not, ◌||◌, Option, none, some, List, length, take, drop, get_elem?,
}
use newhatch.Common.Int.{ℤ}
use newhatch.Common.Bytes.{be_u16, be_u32}
use newhatch.Wire.Messages.{IpAddr, v4, v6, Endpoint, TcpPacket}

pub data Outcome {ℓ} (A : Type ℓ) : Type ℓ where
  done : A → Outcome A
  nothing : Outcome A
  panic : Outcome A

infixl 5 ◌>>=◌ ◌>>◌
abbrev pub ◌>>=◌ {ℓ κ} : {A : Type ℓ} {B : Type κ} → Outcome A → (A → Outcome B) → Outcome B
done a >>= f = f a
nothing >>= f = nothing
panic >>= f = panic

abbrev pub ◌>>◌ {ℓ κ} : {A : Type ℓ} {B : Type κ} → Outcome A → Outcome B → Outcome B
m >> k = m >>= λ _. k

-- `if test { return None; }`
abbrev pub none_if : Bool → Outcome (Unit {0})
none_if true = nothing
none_if false = done tt

-- `bytes[i]`
unfoldable pub byte_at : List ℕ → ℕ → Outcome ℕ
byte_at bytes i = elim (get_elem? bytes i) [ none ↦ panic | some b ↦ done b ]

-- `bytes[from..to]`
unfoldable pub slice : List ℕ → ℕ → ℕ → Outcome (List ℕ)
slice bytes from to =
    if leb from to
    then (if leb to (length bytes) then done (take (to - from) (drop from bytes)) else panic)
    else panic

-- `usize::saturating_add`
abbrev pub saturating_add : ℕ → ℕ → ℕ
saturating_add a b = min (a + b) (2 ^ 64 - 1)

-- `u16::from_be_bytes([bytes[i], bytes[i + 1]])`
unfoldable pub u16_at : List ℕ → ℕ → Outcome ℕ
u16_at bytes i = do b0 ← byte_at bytes i; b1 ← byte_at bytes (i + 1); done (be_u16 b0 b1)

-- `u32::from_be_bytes` of the four bytes from `i` on.
unfoldable pub u32_at : List ℕ → ℕ → Outcome ℕ
u32_at bytes i = do
  b0 ← byte_at bytes i
  b1 ← byte_at bytes (i + 1)
  b2 ← byte_at bytes (i + 2)
  b3 ← byte_at bytes (i + 3)
  done (be_u32 b0 b1 b2 b3)

-- The four or sixteen octets of an address that begin at `i`.
unfoldable pub octets : List ℕ → ℕ → ℕ → Outcome (List ℕ)
unfolding slice
octets frame i n = slice frame i (i + n)

pub record Network : Type 0 where
  pub src : IpAddr
  pub dst : IpAddr
  pub tcp_offset : ℕ
  pub network_end : ℕ

-- The operators `||` of the source stop at the first test that holds, so that `frame[offset]` is
-- read only if it is there: each test is a step of its own.
unfoldable pub parse_ipv4 : List ℕ → ℕ → Outcome Network
parse_ipv4 frame offset = do
  none_if (ltb (length frame) (offset + 20))
  first ← byte_at frame offset
  none_if (not (first / 16 == 4))
  protocol ← byte_at frame (offset + 9)
  none_if (not (protocol == 6))
  let header_length = first % 16 * 4
  none_if (ltb header_length 20)
  none_if (ltb (length frame) (offset + header_length))
  total_length ← u16_at frame (offset + 2)
  none_if (ltb total_length header_length)
  let network_end = min (length frame) (saturating_add offset total_length)
  src ← octets frame (offset + 12) 4
  dst ← octets frame (offset + 16) 4
  done (record {
    src = v4 src;
    dst = v4 dst;
    tcp_offset = offset + header_length;
    network_end = network_end;
  })

unfoldable pub parse_ipv6 : List ℕ → ℕ → Outcome Network
parse_ipv6 frame offset = do
  none_if (ltb (length frame) (offset + 40))
  first ← byte_at frame offset
  none_if (not (first / 16 == 6))
  next_header ← byte_at frame (offset + 6)
  none_if (not (next_header == 6))
  payload_length ← u16_at frame (offset + 4)
  let network_end = min (length frame) (saturating_add (saturating_add offset 40) payload_length)
  src ← octets frame (offset + 8) 16
  dst ← octets frame (offset + 24) 16
  done (record { src = v6 src; dst = v6 dst; tcp_offset = offset + 40; network_end = network_end })

-- `flags & (1 << bit) != 0`
abbrev pub flag_set : ℕ → ℕ → Bool
flag_set flags bit = flags / 2 ^ bit % 2 == 1

unfoldable pub parse_tcp : List ℕ → ℤ → Network → Outcome TcpPacket
parse_tcp frame timestamp_micros network = do
  let offset = network.tcp_offset
  let network_end = network.network_end
  none_if (ltb network_end (offset + 20) || ltb (length frame) (offset + 20))
  data_offset ← byte_at frame (offset + 12)
  let header_length = data_offset / 16 * 4
  none_if (ltb header_length 20 || ltb network_end (offset + header_length))
  flags ← byte_at frame (offset + 13)
  src_port ← u16_at frame offset
  dst_port ← u16_at frame (offset + 2)
  sequence ← u32_at frame (offset + 4)
  payload ← slice frame (offset + header_length) network_end
  done (record {
    timestamp_micros = timestamp_micros;
    src = record { ip = network.src; port = src_port };
    dst = record { ip = network.dst; port = dst_port };
    sequence = sequence;
    syn = flag_set flags 1;
    fin = flag_set flags 0;
    rst = flag_set flags 2;
    payload = payload;
  })

-- The match on the version, the high half of the first byte.
unfoldable pub parse_network : List ℕ → Outcome Network
parse_network frame = elim (get_elem? frame 0) [
  | none ↦ nothing
  | some first ↦
      if first / 16 == 4
      then parse_ipv4 frame 0
      else if first / 16 == 6
      then parse_ipv6 frame 0
      else nothing
]

unfoldable pub parse_ip_tcp : List ℕ → ℤ → Outcome TcpPacket
parse_ip_tcp frame timestamp_micros = do
  network ← parse_network frame
  parse_tcp frame timestamp_micros network
