-- ===== src/Wire/Frame.antt =====
-- `write_frame` and `read_frame` of crates/protocol/src/lib.rs: an envelope in a frame of four
-- length bytes, most significant first, and as many bytes of protobuf. The protobuf library is a
-- parameter. A connection accepts `room` more bytes and then fails, and `flushes` tells whether
-- flushing it succeeds; an input is what the peer sent
-- before it closed the connection.
pub mod Exact
use newhatch.Common.{ℕ, zero, suc, ◌+◌, ◌-◌, ◌≤◌, ◌≡◌, ltb, leb, ◌==◌, if◌then◌else◌, Bool}
use newhatch.Common.{Option, none, some, List, [], ◌∷◌, ◌++◌, length, take, drop}
use newhatch.Common.{Result, ok, err}
use newhatch.Common.Bytes.{be_u32, u32_to_be_bytes}
use newhatch.Wire.Messages.{Envelope, wire_version, max_frame_bytes}
use newhatch.Wire.Messages.{ProtocolError, io, decode, bad_version, frame_too_large}

-- `prost::Message` for `Envelope`.
pub record Protobuf : Type 0 where
  pub encoded_len : Envelope → ℕ
  pub encode : Envelope → List ℕ
  pub decode_bytes : List ℕ → Option Envelope

-- What prost documents, for one envelope: the announced length is the length of the encoding, and
-- decoding gives the envelope back.
pub record IsFaithful (protobuf : Protobuf) (e : Envelope) : Type 0 where
  pub sized : protobuf.encoded_len e ≡ length (protobuf.encode e)
  pub decodes : protobuf.decode_bytes (protobuf.encode e) ≡ some e

pub record Writer : Type 0 where
  pub written : List ℕ
  pub room : ℕ
  pub flushes : Bool

-- `AsyncWriteExt::write_all`: what fits is written, also where the write then fails.
unfoldable pub write_all : List ℕ → Writer → Bool × Writer
write_all bytes w =
    if leb (length bytes) w.room
    then (Bool.true, record w { written = w.written ++ bytes; room = w.room - length bytes })
    else (Bool.false, record w { written = w.written ++ take w.room bytes; room = 0 })

-- `AsyncWriteExt::flush`
unfoldable pub flush_writer : Writer → Bool × Writer
flush_writer w = (w.flushes, w)

-- `AsyncReadExt::read_exact`: the bytes read and those left, or all of a short input consumed.
unfoldable pub read_exact : ℕ → List ℕ → Option (List ℕ) × List ℕ
read_exact n input =
    if leb n (length input) then (some (take n input), drop n input) else (none, [])

-- `AsyncReadExt::read_u32`, big-endian.
unfoldable pub read_u32 : List ℕ → Option ℕ × List ℕ
read_u32 (b0 ∷ b1 ∷ b2 ∷ b3 ∷ rest) = (some (be_u32 b0 b1 b2 b3), rest)
read_u32 _ = (none, [])

module _ (protobuf : Protobuf) where
  unfoldable pub write_frame : Envelope → Writer → Result ProtocolError (Unit {0}) × Writer
  unfolding write_all flush_writer
  write_frame e w =
      let len = protobuf.encoded_len e in
      if ltb max_frame_bytes len
      then (err (frame_too_large len), w)
      else let (head_done, w') = write_all (u32_to_be_bytes len) w in
        if head_done
        then (let (body_done, w'') = write_all (protobuf.encode e) w' in
            if body_done
            then (let (flushed, w3) = flush_writer w'' in (if flushed then ok tt else err io, w3))
            else (err io, w''))
        else (err io, w')

  -- `Envelope::decode` on the bytes of a frame, and the test of the version.
  unfoldable pub decode_frame : Option (List ℕ) → Result ProtocolError Envelope
  decode_frame none = err io
  decode_frame (some bytes) = elim (protobuf.decode_bytes bytes) [
    | none ↦ err decode
    | some e ↦ if e.version == wire_version then ok e else err (bad_version e.version)
  ]

  unfoldable pub read_body : Option ℕ → List ℕ → Result ProtocolError Envelope × List ℕ
  unfolding read_exact decode_frame
  read_body none input = (err io, input)
  read_body (some len) input =
      if ltb max_frame_bytes len
      then (err (frame_too_large len), input)
      else let (bytes, rest) = read_exact len input in (decode_frame bytes, rest)

  -- The result, and what is left of the input.
  unfoldable pub read_frame : List ℕ → Result ProtocolError Envelope × List ℕ
  unfolding read_u32 read_body
  read_frame input = let (len, rest) = read_u32 input in read_body len rest

  -- The bytes of an envelope's frame.
  abbrev pub frame : Envelope → List ℕ
  frame e = u32_to_be_bytes (length (protobuf.encode e)) ++ protobuf.encode e
