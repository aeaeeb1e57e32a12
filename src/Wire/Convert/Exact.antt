-- ===== src/Wire/Convert/Exact.antt =====
-- The decoding of packets and sources accepts exactly what the encoding produces.
use mathlib.Core.Path.{subst}
use newhatch.Common.Int.{ℤ, pos, negsuc}
use newhatch.Common.{ℕ, zero, suc, ◌<◌, ◌^◌, ◌≡◌, refl, ◌↔◌, arith, List, ok}
use newhatch.Wire.Messages.{Endpoint, IsEndpoint, IsIpAddr, IpAddr, v4, v6, Direction, c2s, s2c}
use newhatch.Wire.Messages.{PacketMessage, ClassifiedPacket, IsClassified}
use newhatch.Wire.Messages.{Source, WireSource}
use newhatch.Wire.Convert.{ip_bytes, endpoint}
use newhatch.Wire.Convert.{direction_of_wire, direction_to_wire, packet_to_wire, packet_of_wire}
use newhatch.Wire.Convert.{source_to_wire, source_of_wire}

endpoint-octets :
    (ip : IpAddr) (port : ℕ)
    → IsIpAddr ip
    → port < 2 ^ 16
    → endpoint (ip_bytes ip) port ≡ ok (record { ip = ip; port = port })
unfolding endpoint ip_bytes
endpoint-octets (v4 octets) port h k = ground arith
endpoint-octets (v6 octets) port h k = ground arith

endpoint_accepts :
    (bytes : List ℕ) (port : ℕ) (e : Endpoint)
    → endpoint bytes port ≡ ok e
    → IsEndpoint e × (ip_bytes e.ip ≡ bytes) × (e.port ≡ port)
unfolding endpoint ip_bytes
endpoint_accepts bytes port e h = ground arith

direction_of_wire-direction_to_wire :
    (d : Direction) → direction_of_wire (direction_to_wire d) ≡ ok d
unfolding direction_of_wire direction_to_wire
direction_of_wire-direction_to_wire c2s = refl
direction_of_wire-direction_to_wire s2c = refl

direction_accepts : (z : ℤ) (d : Direction) → direction_of_wire z ≡ ok d → direction_to_wire d ≡ z
unfolding direction_of_wire direction_to_wire
direction_accepts (pos zero) d h = ground arith
direction_accepts (pos (suc zero)) d h = ground arith
direction_accepts (pos (suc (suc n))) d h = cc
direction_accepts (negsuc n) d h = cc

packet_of_wire-packet_to_wire :
    (p : ClassifiedPacket) → IsClassified p → packet_of_wire (packet_to_wire p) ≡ ok p
unfolding packet_of_wire packet_to_wire
packet_of_wire-packet_to_wire p h = rw (
  direction_of_wire-direction_to_wire p.direction,
  endpoint-octets p.flow_key.client.ip p.flow_key.client.port h.client.0 h.client.1,
  endpoint-octets p.flow_key.server.ip p.flow_key.server.port h.server.0 h.server.1,
  endpoint-octets p.packet.src.ip p.packet.src.port h.src.0 h.src.1,
  endpoint-octets p.packet.dst.ip p.packet.dst.port h.dst.0 h.dst.1,
)

accepted :
    (m : PacketMessage) (p : ClassifiedPacket)
    → packet_of_wire m ≡ ok p
    → IsClassified p × (packet_to_wire p ≡ m)
unfolding packet_of_wire packet_to_wire
accepted m p h = ground (
  arith,
  direction_accepts m.direction p.direction,
  endpoint_accepts m.client_ip m.client_port p.flow_key.client,
  endpoint_accepts m.server_ip m.server_port p.flow_key.server,
  endpoint_accepts m.src_ip m.src_port p.packet.src,
  endpoint_accepts m.dst_ip m.dst_port p.packet.dst,
)

-- A message is decoded to a packet exactly when the packet is well formed (each address of 4 or 16
-- octets with its family's length, each port a u16) and the message is the packet's encoding.
pub packet_of_wire_iff :
    (m : PacketMessage) (p : ClassifiedPacket)
    → (packet_of_wire m ≡ ok p) ↔ (IsClassified p × (packet_to_wire p ≡ m))
packet_of_wire_iff m p = (
  accepted m p,
  λ (h, e). subst (λ k. packet_of_wire k ≡ ok p) e (packet_of_wire-packet_to_wire p h),
)

-- A wire source is decoded to a source exactly when the port is a u16 and it is the encoding.
pub source_of_wire_iff :
    (w : WireSource) (s : Source)
    → (source_of_wire w ≡ ok s) ↔ ((s.port < 2 ^ 16) × (source_to_wire s ≡ w))
unfolding source_of_wire source_to_wire
source_of_wire_iff w s = ground arith
