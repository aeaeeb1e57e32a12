-- ===== src/Wire/Messages.antt =====
-- The types of crates/protocol/src/lib.rs. A `u8` to `u64` is a natural number, whose range is a
-- hypothesis where it matters; an `i64` is an integer; the octets of an address are a list.
use newhatch.Common.{ℕ, ◌*◌, ◌<◌, ◌^◌, ◌≡◌, String, Bool, Option, some, List, length}
use newhatch.Common.Int.{ℤ}

pub record Source : Type 0 where
  pub id : ℤ
  pub name : String
  pub port : ℕ
  pub enabled : Bool

pub data Direction : Type 0 where
  c2s s2c : Direction

-- `std::net::IpAddr`, by its octets.
pub data IpAddr : Type 0 where
  v4 : List ℕ → IpAddr
  v6 : List ℕ → IpAddr

pub record Endpoint : Type 0 where
  pub ip : IpAddr
  pub port : ℕ

pub record FlowKey : Type 0 where
  pub client : Endpoint
  pub server : Endpoint

pub record TcpPacket : Type 0 where
  pub timestamp_micros : ℤ
  pub src : Endpoint
  pub dst : Endpoint
  pub sequence : ℕ
  pub syn : Bool
  pub fin : Bool
  pub rst : Bool
  pub payload : List ℕ

pub record ClassifiedPacket : Type 0 where
  pub source_id : ℤ
  pub direction : Direction
  pub flow_key : FlowKey
  pub packet : TcpPacket

pub record CollectorHello : Type 0 where
  pub collector_id : String

pub record HelloAck : Type 0 where
  pub server_time_micros : ℤ

pub record PacketMessage : Type 0 where
  pub timestamp_micros : ℤ
  pub source_id : ℤ
  pub direction : ℤ
  pub client_ip : List ℕ
  pub client_port : ℕ
  pub server_ip : List ℕ
  pub server_port : ℕ
  pub src_ip : List ℕ
  pub src_port : ℕ
  pub dst_ip : List ℕ
  pub dst_port : ℕ
  pub sequence : ℕ
  pub syn : Bool
  pub fin : Bool
  pub rst : Bool
  pub payload : List ℕ

pub record WireSource : Type 0 where
  pub id : ℤ
  pub name : String
  pub port : ℕ
  pub enabled : Bool

pub record SetSources : Type 0 where
  pub revision : ℕ
  pub sources : List WireSource

pub record Stats : Type 0 where
  pub captured_packets : ℕ
  pub sent_packets : ℕ
  pub dropped_packets : ℕ
  pub queue_depth : ℕ
  pub reconnect_count : ℕ

pub record Heartbeat : Type 0 where
  pub timestamp_micros : ℤ

pub record ErrorStatus : Type 0 where
  pub message : String

pub data Body : Type 0 where
  collector_hello : CollectorHello → Body
  hello_ack : HelloAck → Body
  packet : PacketMessage → Body
  set_sources : SetSources → Body
  stats : Stats → Body
  heartbeat : Heartbeat → Body
  error_status : ErrorStatus → Body

pub record Envelope : Type 0 where
  pub version : ℕ
  pub body : Option Body

-- The causes inside an I/O error and a decoding error are not modelled.
pub data ProtocolError : Type 0 where
  io : ProtocolError
  decode : ProtocolError
  bad_version : ℕ → ProtocolError
  frame_too_large : ℕ → ProtocolError
  invalid_packet : String → ProtocolError

abbrev pub wire_version : ℕ
wire_version = 1

abbrev pub max_frame_bytes : ℕ
max_frame_bytes = 2 * 1024 * 1024

-- Envelope::new
unfoldable pub new_envelope : Body → Envelope
new_envelope body = record { version = wire_version; body = some body }

-- What Rust's types guarantee: an address has 4 or 16 octets, a port is a u16.
abbrev pub IsIpAddr : IpAddr → Type 0
IsIpAddr (v4 octets) = length octets ≡ 4
IsIpAddr (v6 octets) = length octets ≡ 16

abbrev pub IsEndpoint : Endpoint → Type 0
IsEndpoint e = IsIpAddr e.ip × (e.port < 2 ^ 16)

pub record IsClassified (p : ClassifiedPacket) : Type 0 where
  pub client : IsEndpoint p.flow_key.client
  pub server : IsEndpoint p.flow_key.server
  pub src : IsEndpoint p.packet.src
  pub dst : IsEndpoint p.packet.dst
