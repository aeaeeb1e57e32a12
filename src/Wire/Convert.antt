-- ===== src/Wire/Convert.antt =====
-- The conversions between domain values and messages, `From` and `TryFrom` of
-- crates/protocol/src/lib.rs.
pub mod Exact
use newhatch.Common.{ℕ, zero, suc, ◌<◌, ◌^◌, ltb, ◌==◌, if◌then◌else◌, List, length}
use newhatch.Common.{Result, ok, err, ◌>>=◌}
use newhatch.Common.Int.{ℤ, pos, negsuc}
use newhatch.Wire.Messages.{Source, WireSource, Direction, c2s, s2c, IpAddr, v4, v6, Endpoint}
use newhatch.Wire.Messages.{FlowKey, TcpPacket, ClassifiedPacket, PacketMessage}
use newhatch.Wire.Messages.{ProtocolError, invalid_packet}

unfoldable pub checked_port : ℕ → Result ProtocolError ℕ
checked_port port = if ltb port (2 ^ 16) then ok port else err (invalid_packet "TCP port")

unfoldable pub ip_bytes : IpAddr → List ℕ
ip_bytes (v4 octets) = octets
ip_bytes (v6 octets) = octets

unfoldable pub parse_ip : List ℕ → Result ProtocolError IpAddr
parse_ip bytes =
    if length bytes == 4
    then ok (v4 bytes)
    else if length bytes == 16
    then ok (v6 bytes)
    else err (invalid_packet "IP address")

-- The closure `endpoint` of `TryFrom<PacketMessage>`.
unfoldable pub endpoint : List ℕ → ℕ → Result ProtocolError Endpoint
unfolding parse_ip checked_port
endpoint ip port = do
  address ← parse_ip ip
  checked ← checked_port port
  ok (record { ip = address; port = checked })

-- `WireDirection::try_from(i32)` with the match on its result.
unfoldable pub direction_of_wire : ℤ → Result ProtocolError Direction
direction_of_wire (pos zero) = ok c2s
direction_of_wire (pos (suc zero)) = ok s2c
direction_of_wire (pos (suc (suc n))) = err (invalid_packet "direction")
direction_of_wire (negsuc n) = err (invalid_packet "direction")

unfoldable pub direction_to_wire : Direction → ℤ
direction_to_wire c2s = pos 0
direction_to_wire s2c = pos 1

-- From<&Source> for WireSource
unfoldable pub source_to_wire : Source → WireSource
source_to_wire s = record { id = s.id; name = s.name; port = s.port; enabled = s.enabled }

-- TryFrom<WireSource> for Source
unfoldable pub source_of_wire : WireSource → Result ProtocolError Source
unfolding checked_port
source_of_wire w = do
  port ← checked_port w.port
  ok (record { id = w.id; name = w.name; port = port; enabled = w.enabled })

-- From<&ClassifiedPacket> for PacketMessage
unfoldable pub packet_to_wire : ClassifiedPacket → PacketMessage
unfolding ip_bytes direction_to_wire
packet_to_wire value = record {
  timestamp_micros = value.packet.timestamp_micros;
  source_id = value.source_id;
  direction = direction_to_wire value.direction;
  client_ip = ip_bytes value.flow_key.client.ip;
  client_port = value.flow_key.client.port;
  server_ip = ip_bytes value.flow_key.server.ip;
  server_port = value.flow_key.server.port;
  src_ip = ip_bytes value.packet.src.ip;
  src_port = value.packet.src.port;
  dst_ip = ip_bytes value.packet.dst.ip;
  dst_port = value.packet.dst.port;
  sequence = value.packet.sequence;
  syn = value.packet.syn;
  fin = value.packet.fin;
  rst = value.packet.rst;
  payload = value.packet.payload;
}

-- TryFrom<PacketMessage> for ClassifiedPacket
unfoldable pub packet_of_wire : PacketMessage → Result ProtocolError ClassifiedPacket
packet_of_wire value = do
  direction ← direction_of_wire value.direction
  client ← endpoint value.client_ip value.client_port
  server ← endpoint value.server_ip value.server_port
  src ← endpoint value.src_ip value.src_port
  dst ← endpoint value.dst_ip value.dst_port
  let flow_key : FlowKey = record { client = client; server = server }
  let packet : TcpPacket = record {
    timestamp_micros = value.timestamp_micros;
    src = src;
    dst = dst;
    sequence = value.sequence;
    syn = value.syn;
    fin = value.fin;
    rst = value.rst;
    payload = value.payload;
  }
  ok (record {
    source_id = value.source_id;
    direction = direction;
    flow_key = flow_key;
    packet = packet;
  })
