-- ===== src/Tests/Wire.antt =====
-- Messages and frames (crates/protocol/src/lib.rs): runs, and the theorems at concrete inputs.
use newhatch.Common.{
  ℕ, ◌<◌, ◌≤◌, ◌≡◌, ◌↔◌, refl, true, false, some, none, List, [], ◌∷◌, ◌++◌, length, take, ok, err,
  ltb, leb, if◌then◌else◌, ◌^◌,
}
use newhatch.Common.Int.{pos, negsuc}
use newhatch.Common.Bytes.{be_u32}
use newhatch.Wire.Messages.{
  Source, v4, Endpoint, ClassifiedPacket, IsClassified, c2s, Envelope, heartbeat, wire_version,
  max_frame_bytes, frame_too_large, io, invalid_packet,
}
use newhatch.Wire.Convert.{
  packet_to_wire, packet_of_wire, source_to_wire, source_of_wire, direction_of_wire, endpoint,
}
use newhatch.Wire.Convert.Exact.{packet_of_wire_iff, source_of_wire_iff}
use newhatch.Wire.Frame.{Protobuf, IsFaithful, Writer, write_frame, read_frame, frame}
use newhatch.Wire.Frame.Exact.{write_frame_lem, read_frame-write_frame, read_frame_accepts}

abbrev client : Endpoint
client = record { ip = v4 (10 ∷ 0 ∷ 0 ∷ 2 ∷ []); port = 50123 }

abbrev server : Endpoint
server = record { ip = v4 (10 ∷ 0 ∷ 0 ∷ 1 ∷ []); port = 8080 }

-- The packet of the source's own test.
abbrev packet : ClassifiedPacket
packet = record {
  source_id = pos 7;
  direction = c2s;
  flow_key = record { client = client; server = server };
  packet = record {
    timestamp_micros = pos 42;
    src = client;
    dst = server;
    sequence = 9;
    syn = true;
    fin = false;
    rst = false;
    payload = b'h' ∷ b'i' ∷ [];
  };
}

packet_of_wire_iff_example :
    (packet_of_wire (packet_to_wire packet) ≡ ok packet)
    ↔ (IsClassified packet × (packet_to_wire packet ≡ packet_to_wire packet))
packet_of_wire_iff_example = packet_of_wire_iff (packet_to_wire packet) packet

packet_decoded : packet_of_wire (packet_to_wire packet) ≡ ok packet
unfolding packet_of_wire packet_to_wire direction_of_wire endpoint
packet_decoded = refl

three_octets : endpoint (1 ∷ 2 ∷ 3 ∷ []) 80 ≡ err (invalid_packet "IP address")
unfolding endpoint
three_octets = refl

wide_port : endpoint (1 ∷ 2 ∷ 3 ∷ 4 ∷ []) 65536 ≡ err (invalid_packet "TCP port")
unfolding endpoint
wide_port = refl

negative_direction : direction_of_wire (negsuc 0) ≡ err (invalid_packet "direction")
unfolding direction_of_wire
negative_direction = refl

abbrev web : Source
web = record { id = pos 7; name = "web"; port = 8080; enabled = true }

source_of_wire_iff_example :
    (source_of_wire (source_to_wire web) ≡ ok web)
    ↔ ((8080 < 2 ^ 16) × (source_to_wire web ≡ source_to_wire web))
source_of_wire_iff_example = source_of_wire_iff (source_to_wire web) web

abbrev beat : Envelope
beat = record { version = 1; body = some (heartbeat (record { timestamp_micros = pos 5 })) }

-- A library for one message: `beat` is the two bytes 8, 1, and nothing else decodes.
abbrev one_message : Protobuf
one_message = record {
  encoded_len = λ e. 2;
  encode = λ e. 8 ∷ 1 ∷ [];
  decode_bytes = λ bytes. if ltb (length bytes) 2 then none else some beat;
}

beat-IsFaithful : IsFaithful one_message beat
beat-IsFaithful = record { sized = refl; decodes = refl }

abbrev connection : Writer
connection = record { written = 7 ∷ []; room = 100; flushes = true }

abbrev after_beat : Writer
after_beat = record { written = 7 ∷ 0 ∷ 0 ∷ 0 ∷ 2 ∷ 8 ∷ 1 ∷ []; room = 94; flushes = true }

beat_written : write_frame one_message beat connection ≡ (ok tt, after_beat)
unfolding write_frame
beat_written = refl

-- A connection that fails after five bytes.
beat_cut :
    write_frame one_message beat (record { written = []; room = 5; flushes = true })
    ≡ (err io, record { written = 0 ∷ 0 ∷ 0 ∷ 2 ∷ 8 ∷ []; room = 0; flushes = true })
unfolding write_frame
beat_cut = refl

-- A connection that takes the frame and fails to flush it.
beat_unflushed :
    (write_frame one_message beat (record { written = []; room = 6; flushes = false })).0 ≡ err io
unfolding write_frame
beat_unflushed = refl

write_frame_lem_example : write_frame one_message beat connection ≡ (
    if ltb max_frame_bytes 2
    then (err (frame_too_large 2), connection)
    else if leb 6 100
    then (ok tt, after_beat)
    else (
      err io,
      record { written = 7 ∷ take 100 (frame one_message beat); room = 0; flushes = true },
    ))
write_frame_lem_example = write_frame_lem one_message beat beat-IsFaithful connection

read_frame-write_frame_example :
    (after_beat.written ≡ connection.written ++ frame one_message beat)
    × (read_frame one_message (frame one_message beat ++ (9 ∷ [])) ≡ (ok beat, 9 ∷ []))
read_frame-write_frame_example =
    read_frame-write_frame one_message beat beat-IsFaithful connection after_beat (9 ∷ []) refl
      beat_written

beat_read : read_frame one_message (0 ∷ 0 ∷ 0 ∷ 2 ∷ 8 ∷ 1 ∷ 9 ∷ []) ≡ (ok beat, 9 ∷ [])
unfolding read_frame
beat_read = refl

read_frame_accepts_example :
    (b0 b1 b2 b3 : ℕ) × (body : List ℕ) × ((0 ∷ 0 ∷ 0 ∷ 2 ∷ 8 ∷ 1 ∷ 9 ∷ [])
      ≡ b0 ∷ b1 ∷ b2 ∷ b3 ∷ (body ++ (9 ∷ [])))
    × (length body ≡ be_u32 b0 b1 b2 b3)
    × (length body ≤ max_frame_bytes)
    × (one_message.decode_bytes body ≡ some beat)
    × (beat.version ≡ wire_version)
read_frame_accepts_example = read_frame_accepts one_message _ (9 ∷ []) beat beat_read
