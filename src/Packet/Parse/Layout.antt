-- ===== src/Packet/Parse/Layout.antt =====
-- A segment laid out in an IPv4 packet by hand is parsed to its fields, whatever the options of the
-- two headers, and whatever the link layer appended.
use newhatch.Common.{ℕ, zero, suc, ◌+◌, ◌-◌, ◌*◌, ◌/◌, ◌%◌, ◌^◌, ◌≤◌, ◌<◌, ◌≡◌, refl}
use newhatch.Common.{
  List, [], ◌∷◌, ◌++◌, length, take, drop, get_elem?, arith, length-append, drop-append_ge,
  append_assoc, drop-append_exact, take-append_exact,
}
use newhatch.Common.Int.{ℤ}
use newhatch.Common.Bytes.{be_u32-to_be_bytes}
use newhatch.Wire.Messages.{v4, TcpPacket}
use newhatch.Packet.Parse.{
  done, byte_at, u16_at, u32_at, slice, octets, Network, flag_set, parse_ipv4, parse_tcp,
  parse_network, parse_ip_tcp,
}

-- The fields of a TCP segment. The data offset of its header counts 32-bit words.
pub record Segment : Type 0 where
  pub src_port : ℕ
  pub dst_port : ℕ
  pub sequence : ℕ
  pub acknowledgment : ℕ
  pub flags : ℕ
  pub window : ℕ
  pub checksum : ℕ
  pub urgent : ℕ
  pub options : List ℕ
  pub option_words : ℕ
  pub payload : List ℕ

-- The header and the octets of the addresses of an IPv4 packet.
pub record Ipv4Header : Type 0 where
  pub service : ℕ
  pub identification : ℕ
  pub fragment : ℕ
  pub ttl : ℕ
  pub checksum : ℕ
  pub src0 : ℕ
  pub src1 : ℕ
  pub src2 : ℕ
  pub src3 : ℕ
  pub dst0 : ℕ
  pub dst1 : ℕ
  pub dst2 : ℕ
  pub dst3 : ℕ
  pub options : List ℕ
  pub option_words : ℕ

abbrev pub tcp_header_bytes : Segment → List ℕ
tcp_header_bytes s =
    (s.src_port / 256)
    ∷ (s.src_port % 256)
    ∷ (s.dst_port / 256)
    ∷ (s.dst_port % 256)
    ∷ (s.sequence / 16777216)
    ∷ (s.sequence / 65536 % 256)
    ∷ (s.sequence / 256 % 256)
    ∷ (s.sequence % 256)
    ∷ (s.acknowledgment / 16777216)
    ∷ (s.acknowledgment / 65536 % 256)
    ∷ (s.acknowledgment / 256 % 256)
    ∷ (s.acknowledgment % 256)
    ∷ ((5 + s.option_words) * 16)
    ∷ s.flags
    ∷ (s.window / 256)
    ∷ (s.window % 256)
    ∷ (s.checksum / 256)
    ∷ (s.checksum % 256)
    ∷ (s.urgent / 256)
    ∷ (s.urgent % 256)
    ∷ []

abbrev pub tcp_bytes : Segment → List ℕ
tcp_bytes s = tcp_header_bytes s ++ (s.options ++ s.payload)

abbrev pub ipv4_bytes : Ipv4Header → ℕ → List ℕ
ipv4_bytes h total =
    (64 + (5 + h.option_words))
    ∷ h.service
    ∷ (total / 256)
    ∷ (total % 256)
    ∷ (h.identification / 256)
    ∷ (h.identification % 256)
    ∷ (h.fragment / 256)
    ∷ (h.fragment % 256)
    ∷ h.ttl
    ∷ 6
    ∷ (h.checksum / 256)
    ∷ (h.checksum % 256)
    ∷ h.src0
    ∷ h.src1
    ∷ h.src2
    ∷ h.src3
    ∷ h.dst0
    ∷ h.dst1
    ∷ h.dst2
    ∷ h.dst3
    ∷ h.options

-- The packet: the IPv4 header, whose total length counts both headers and the payload, the segment,
-- and what the link layer appended.
abbrev pub total_length : Ipv4Header → Segment → ℕ
total_length h s = 20 + length h.options + (20 + length s.options + length s.payload)

abbrev pub ipv4_frame : Ipv4Header → Segment → List ℕ → List ℕ
ipv4_frame h s padding = ipv4_bytes h (total_length h s) ++ (tcp_bytes s ++ padding)

pub record IsLaidOut (h : Ipv4Header) (s : Segment) : Type 0 where
  pub ip_options_fit : h.option_words ≤ 10
  pub ip_options_sized : length h.options ≡ 4 * h.option_words
  pub tcp_options_fit : s.option_words ≤ 10
  pub tcp_options_sized : length s.options ≡ 4 * s.option_words
  pub total_fits : total_length h s < 2 ^ 16

abbrev pub parsed : Ipv4Header → Segment → ℤ → TcpPacket
parsed h s time = record {
  timestamp_micros = time;
  src = record { ip = v4 (h.src0 ∷ h.src1 ∷ h.src2 ∷ h.src3 ∷ []); port = s.src_port };
  dst = record { ip = v4 (h.dst0 ∷ h.dst1 ∷ h.dst2 ∷ h.dst3 ∷ []); port = s.dst_port };
  sequence = s.sequence;
  syn = flag_set s.flags 1;
  fin = flag_set s.flags 0;
  rst = flag_set s.flags 2;
  payload = s.payload;
}

get_elem?-append_ge :
    (xs ys : List ℕ) (n i : ℕ) → n ≡ length xs + i → get_elem? (xs ++ ys) n ≡ get_elem? ys i
get_elem?-append_ge [] ys n i h = let e : n ≡ i = omega arith in rw e
get_elem?-append_ge (x ∷ xs) ys zero i h = absurd (omega arith)
get_elem?-append_ge (x ∷ xs) ys (suc n) i h = get_elem?-append_ge xs ys n i (omega arith)

parse_ipv4_frame :
    (h : Ipv4Header) (s : Segment) (padding : List ℕ)
    → IsLaidOut h s
    → parse_network (ipv4_frame h s padding)
      ≡ done (record {
        src = v4 (h.src0 ∷ h.src1 ∷ h.src2 ∷ h.src3 ∷ []);
        dst = v4 (h.dst0 ∷ h.dst1 ∷ h.dst2 ∷ h.dst3 ∷ []);
        tcp_offset = 20 + length h.options;
        network_end = total_length h s;
      })
unfolding parse_network parse_ipv4 byte_at u16_at octets
parse_ipv4_frame h s padding l = ground (
  arith,
  length-append h.options (tcp_bytes s ++ padding),
  length-append (s.options ++ s.payload) padding,
  length-append s.options s.payload,
)

payload_cut :
    (front : List ℕ) (s : Segment) (padding : List ℕ) (from to : ℕ)
    → from ≡ length front + 20 + length s.options
    → to ≡ from + length s.payload
    → take (to - from) (drop from (front ++ (tcp_bytes s ++ padding))) ≡ s.payload
payload_cut front s padding from to h k = rw (
  drop-append_ge from (20 + length s.options) front (tcp_bytes s ++ padding) (omega arith),
  append_assoc s.options s.payload padding,
  drop-append_ge (20 + length s.options) (length s.options) (tcp_header_bytes s)
      (s.options ++ (s.payload ++ padding)) (omega arith),
  drop-append_exact (length s.options) s.options (s.payload ++ padding) refl,
  take-append_exact (to - from) s.payload padding (omega arith),
)

parse_tcp_frame :
    (front : List ℕ) (s : Segment) (padding : List ℕ) (time : ℤ) (n : Network)
    → n.tcp_offset ≡ length front
    → n.network_end ≡ length front + (20 + length s.options + length s.payload)
    → s.option_words ≤ 10
    → length s.options ≡ 4 * s.option_words
    → parse_tcp (front ++ (tcp_bytes s ++ padding)) time n
      ≡ done (record {
        timestamp_micros = time;
        src = record { ip = n.src; port = s.src_port };
        dst = record { ip = n.dst; port = s.dst_port };
        sequence = s.sequence;
        syn = flag_set s.flags 1;
        fin = flag_set s.flags 0;
        rst = flag_set s.flags 2;
        payload = s.payload;
      })
unfolding parse_tcp byte_at u16_at u32_at slice
parse_tcp_frame front s padding time n o e w l =
    let rest : List ℕ = tcp_bytes s ++ padding in
    ground (
      arith,
      length-append front rest,
      length-append (s.options ++ s.payload) padding,
      length-append s.options s.payload,
      get_elem?-append_ge front rest n.tcp_offset 0,
      get_elem?-append_ge front rest (n.tcp_offset + 1) 1,
      get_elem?-append_ge front rest (n.tcp_offset + 2) 2,
      get_elem?-append_ge front rest (n.tcp_offset + 2 + 1) 3,
      get_elem?-append_ge front rest (n.tcp_offset + 4) 4,
      get_elem?-append_ge front rest (n.tcp_offset + 4 + 1) 5,
      get_elem?-append_ge front rest (n.tcp_offset + 4 + 2) 6,
      get_elem?-append_ge front rest (n.tcp_offset + 4 + 3) 7,
      get_elem?-append_ge front rest (n.tcp_offset + 12) 12,
      get_elem?-append_ge front rest (n.tcp_offset + 13) 13,
      be_u32-to_be_bytes s.sequence,
      payload_cut front s padding (n.tcp_offset + (5 + s.option_words) * 16 / 16 * 4) n.network_end,
    )

-- A segment in an IPv4 packet is parsed to its ports, its sequence number, its flags and exactly its
-- payload, for options of any admitted length, and whatever the link layer appended.
pub parse_ip_tcp-ipv4_frame :
    (h : Ipv4Header) (s : Segment) (padding : List ℕ) (time : ℤ)
    → IsLaidOut h s
    → parse_ip_tcp (ipv4_frame h s padding) time ≡ done (parsed h s time)
unfolding parse_ip_tcp
parse_ip_tcp-ipv4_frame h s padding time l = rw (parse_ipv4_frame h s padding l) (
    parse_tcp_frame (ipv4_bytes h (total_length h s)) s padding time _ (omega arith) (omega arith)
      l.tcp_options_fit l.tcp_options_sized)
