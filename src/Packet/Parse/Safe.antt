-- ===== src/Packet/Parse/Safe.antt =====
-- No captured packet makes the parser panic, and what it returns lies within the packet.
use newhatch.Common.{ℕ, zero, suc, ◌+◌, ◌-◌, ◌*◌, ◌/◌, ◌^◌, ◌≤◌, ◌<◌, ◌≡◌, ◌≢◌, refl, ltb}
use newhatch.Common.{
  ◌||◌, Bool-cases, inl, inr, some, List, [], ◌∷◌, length, take, drop, get_elem?, arith,
  length-take, length-drop,
}
use newhatch.Common.Int.{ℤ}
use newhatch.Common.Bytes.{be_u16, be_u32, AreBytes}
use newhatch.Wire.Messages.{TcpPacket, IsIpAddr, IsEndpoint}
use newhatch.Packet.Parse.{
  Outcome, done, nothing, panic, ◌>>=◌, byte_at, slice, u16_at, u32_at, octets, Network, parse_ipv4,
  parse_ipv6, parse_tcp, parse_network, parse_ip_tcp,
}

-- An index within the bounds.
get_elem?_in : (bytes : List ℕ) (i : ℕ) → i < length bytes → (b : ℕ) × (get_elem? bytes i ≡ some b)
get_elem?_in [] i h = absurd (omega arith)
get_elem?_in (x ∷ xs) zero h = (x, refl)
get_elem?_in (x ∷ xs) (suc i) h = get_elem?_in xs i (omega arith)

byte_at-ne-panic : (bytes : List ℕ) (i : ℕ) → i < length bytes → byte_at bytes i ≢ panic
unfolding byte_at
byte_at-ne-panic bytes i h = let (b, e) = get_elem?_in bytes i h in rw (e, byte_at) (λ p. cc)

slice-ne-panic :
    (bytes : List ℕ) (from to : ℕ) → from ≤ to → to ≤ length bytes → slice bytes from to ≢ panic
unfolding slice
slice-ne-panic bytes from to h k p = ground arith

u16_at-ne-panic : (bytes : List ℕ) (i : ℕ) → i + 1 < length bytes → u16_at bytes i ≢ panic
unfolding u16_at
u16_at-ne-panic bytes i h p =
    ground (arith, byte_at-ne-panic bytes i, byte_at-ne-panic bytes (i + 1))

octets_length :
    (bytes : List ℕ) (i n : ℕ)
    → i + n ≤ length bytes
    → (a : List ℕ) × (octets bytes i n ≡ done a) × (length a ≡ n)
unfolding octets
octets_length bytes i n h = (
  take (i + n - i) (drop i bytes),
  ground arith,
  ground (arith, length-take (i + n - i) (drop i bytes), length-drop i bytes),
)

-- What the two network parsers promise of their result.
abbrev Fits : List ℕ → Outcome Network → Type 0
Fits frame (done n) = IsIpAddr n.src × IsIpAddr n.dst × (n.network_end ≤ length frame)
Fits frame nothing = Unit
Fits frame panic = ⊥

parse_ipv4-Fits : (frame : List ℕ) (offset : ℕ) → Fits frame (parse_ipv4 frame offset)
unfolding parse_ipv4
parse_ipv4-Fits frame offset = ground (
  arith,
  byte_at-ne-panic frame offset,
  byte_at-ne-panic frame (offset + 9),
  u16_at-ne-panic frame (offset + 2),
  octets_length frame (offset + 12) 4,
  octets_length frame (offset + 16) 4,
)

parse_ipv6-Fits : (frame : List ℕ) (offset : ℕ) → Fits frame (parse_ipv6 frame offset)
unfolding parse_ipv6
parse_ipv6-Fits frame offset = ground (
  arith,
  byte_at-ne-panic frame offset,
  byte_at-ne-panic frame (offset + 6),
  u16_at-ne-panic frame (offset + 4),
  octets_length frame (offset + 8) 16,
  octets_length frame (offset + 24) 16,
)

parse_network-Fits : (frame : List ℕ) → Fits frame (parse_network frame)
unfolding parse_network
parse_network-Fits frame = ground (arith, parse_ipv4-Fits frame 0, parse_ipv6-Fits frame 0)

get_elem?-IsByte :
    (bytes : List ℕ) (i b : ℕ) → AreBytes bytes → get_elem? bytes i ≡ some b → b < 256
get_elem?-IsByte [] i b h e = cc
get_elem?-IsByte (x ∷ xs) zero b h e = ground arith
get_elem?-IsByte (x ∷ xs) (suc i) b h e = get_elem?-IsByte xs i b h.1 e

slice_length :
    (bytes : List ℕ) (from to : ℕ)
    → from ≤ to
    → to ≤ length bytes
    → (a : List ℕ) × (slice bytes from to ≡ done a)
      × (a ≡ take (to - from) (drop from bytes))
      × (length a ≡ to - from)
unfolding slice
slice_length bytes from to h k = (
  take (to - from) (drop from bytes),
  ground arith,
  refl,
  ground (arith, length-take (to - from) (drop from bytes), length-drop from bytes),
)

-- The payload is the part of the frame that begins at `start`.
abbrev pub IsPart : List ℕ → ℕ → List ℕ → Type 0
IsPart frame start payload =
    (payload ≡ take (length payload) (drop start frame)) × (start + length payload ≤ length frame)

-- What the parser promises: it never panics, and a packet that it returns is well formed, carries
-- the given time, and has a payload that is part of the frame, behind a TCP header of 20 bytes.
abbrev pub Sound : List ℕ → ℤ → Outcome TcpPacket → Type 0
Sound frame time (done p) =
    IsEndpoint p.src
    × IsEndpoint p.dst
    × (p.sequence < 2 ^ 32)
    × (p.timestamp_micros ≡ time)
    × ((start : ℕ) × (20 ≤ start) × IsPart frame start p.payload)
Sound frame time nothing = Unit
Sound frame time panic = ⊥

byte_at_in :
    (bytes : List ℕ) (i : ℕ)
    → AreBytes bytes
    → i < length bytes
    → (b : ℕ) × (byte_at bytes i ≡ done b) × (b < 256)
unfolding byte_at
byte_at_in bytes i h k =
    let (b, e) = get_elem?_in bytes i k in (b, rw (e, byte_at), get_elem?-IsByte bytes i b h e)

u16_at_in :
    (bytes : List ℕ) (i : ℕ)
    → AreBytes bytes
    → i + 1 < length bytes
    → (v : ℕ) × (u16_at bytes i ≡ done v) × (v < 2 ^ 16)
unfolding u16_at
u16_at_in bytes i h k =
    let (b0, e0, l0) = byte_at_in bytes i h (omega arith) in
    let (b1, e1, l1) = byte_at_in bytes (i + 1) h k in (be_u16 b0 b1, simp (e0, e1), omega arith)

u32_at_in :
    (bytes : List ℕ) (i : ℕ)
    → AreBytes bytes
    → i + 3 < length bytes
    → (v : ℕ) × (u32_at bytes i ≡ done v) × (v < 2 ^ 32)
unfolding u32_at
u32_at_in bytes i h k =
    let (b0, e0, l0) = byte_at_in bytes i h (omega arith) in
    let (b1, e1, l1) = byte_at_in bytes (i + 1) h (omega arith) in
    let (b2, e2, l2) = byte_at_in bytes (i + 2) h (omega arith) in
    let (b3, e3, l3) = byte_at_in bytes (i + 3) h k in
    (be_u32 b0 b1 b2 b3, simp (e0, e1, e2, e3), omega arith)

-- Behind the test of the room, with the bytes of the header read.
module _ (frame : List ℕ) (time : ℤ) (n : Network) (bytes : AreBytes frame) where
  parse_tcp-Sound : Fits frame (done n) → Sound frame time (parse_tcp frame time n)
  unfolding parse_tcp
  parse_tcp-Sound fits =
      elim (Bool-cases
        (ltb n.network_end (n.tcp_offset + 20) || ltb (length frame) (n.tcp_offset + 20))) [
          | inl e ↦ rw e tt
          | inr e ↦
              let room : n.tcp_offset + 20 ≤ length frame = ground arith in
              let (d, at12, _) = byte_at_in frame (n.tcp_offset + 12) bytes (omega arith) in
              let (f, at13, _) = byte_at_in frame (n.tcp_offset + 13) bytes (omega arith) in
              let (sp, at0, l0) = u16_at_in frame n.tcp_offset bytes (omega arith) in
              let (dp, at2, l2) = u16_at_in frame (n.tcp_offset + 2) bytes (omega arith) in
              let (q, at4, l4) = u32_at_in frame (n.tcp_offset + 4) bytes (omega arith) in
              let start : ℕ = n.tcp_offset + d / 16 * 4 in
              elim (Bool-cases (ltb (d / 16 * 4) 20 || ltb n.network_end start)) [
                | inl e' ↦ simp (e, at12, e') tt
                | inr e' ↦
                    let (lo, hi) : (20 ≤ start) × (start ≤ n.network_end) = ground arith in
                    let (a, cut, part, size) = slice_length frame start n.network_end hi fits.2 in
                    simp (e, at12, e', at13, at0, at2, at4, cut)
                      (
                        (fits.0, l0),
                        (fits.1, l2),
                        l4,
                        refl,
                        (start, lo, (rw size part, omega arith)),
                      )
              ]
        ]

Sound-bind :
    (frame : List ℕ) (time : ℤ) (o : Outcome Network)
    → AreBytes frame
    → Fits frame o
    → Sound frame time (o >>= parse_tcp frame time)
Sound-bind frame time (done n) bytes fits = parse_tcp-Sound frame time n bytes fits
Sound-bind frame time nothing bytes fits = tt
Sound-bind frame time panic bytes fits = fits

-- On every captured frame of bytes the parser returns without a panic. A packet that it returns has
-- addresses of the family's length, 16-bit ports, a 32-bit sequence number and the capture's time,
-- and its payload is a part of the frame, behind at least 20 bytes.
pub parse_ip_tcp-Sound :
    (frame : List ℕ) (time : ℤ) → AreBytes frame → Sound frame time (parse_ip_tcp frame time)
unfolding parse_ip_tcp
parse_ip_tcp-Sound frame time bytes =
    Sound-bind frame time (parse_network frame) bytes (parse_network-Fits frame)
