-- ===== src/Flow/Ingest.antt =====
-- `FlowState::ingest` and `finish` of crates/analyzer/src/flow.rs.
use newhatch.Common.{
  ℕ, ◌+◌, if◌then◌else◌, Bool, true, false, not, ◌&&◌, ◌||◌, Option, none, some, List, [], ◌∷◌,
  ◌++◌, length, is_empty,
}
use newhatch.Common.Int.{ℤ, min_ℤ, max_ℤ}
use newhatch.Common.Text.{starts_with}
use newhatch.Wire.Messages.{TcpPacket, ClassifiedPacket}
use newhatch.Domain.{
  SessionProtocol, raw_tcp, http, web_socket, CompletedSession, flags_from_counts,
}
use newhatch.Protocol.{classify_session}
use newhatch.Payload.Json.{JsonLibrary}
use newhatch.Http.Framing.{Httparse}
use newhatch.Http.Sessions.{HttpSessions}
use newhatch.Http.Feed.{close_response, finish_sessions}
use newhatch.Flow.Sequence.{wrapping_add}
use newhatch.Flow.Assembler.{TcpAssembler, seed, push, fin, closed, has_gap, is_some}
use newhatch.Flow.State.{
  at, set_at, FlowState, Regex, http_request_line, http_request_hint, http_mark, is_closed,
}
use newhatch.Flow.Consume.{flag_count, make_sessions, consume, consume_all}

unfoldable pub earliest : Option ℤ → ℤ → Option ℤ
earliest none time = some time
earliest (some old) time = some (min_ℤ old time)

-- The times of a connection, when a packet comes in at the instant `now`.
unfoldable pub see_packet : FlowState → ClassifiedPacket → ℕ → FlowState
see_packet f classified now =
    let time = classified.packet.timestamp_micros in
    let direction = classified.direction in
    record f {
      last_seen = now;
      started_at = min_ℤ f.started_at time;
      ended_at = max_ℤ f.ended_at time;
      first_payload_at =
          if is_empty classified.packet.payload
          then f.first_payload_at
          else set_at f.first_payload_at direction
              (earliest (at f.first_payload_at direction) time);
    }

-- The first SYN of a direction.
unfoldable pub see_syn : FlowState → ClassifiedPacket → FlowState
see_syn f classified =
    let direction = classified.direction in
    let sequence = classified.packet.sequence in
    if classified.packet.syn && not (is_some (at f.syn direction))
    then record f {
      syn = set_at f.syn direction (some sequence);
      ordered =
          set_at f.ordered direction (seed (at f.ordered direction) (wrapping_add sequence 1));
    }
    else f

-- The sequence number of the payload's first byte.
unfoldable pub payload_sequence : TcpPacket → ℕ
payload_sequence packet = wrapping_add packet.sequence (if packet.syn then 1 else 0)

unfoldable pub see_fin : TcpAssembler → TcpPacket → TcpAssembler
see_fin a packet =
    if packet.fin then fin a (wrapping_add (payload_sequence packet) (length packet.payload)) else a

-- The anchor of a connection whose client's SYN carried a request.
unfoldable pub is_anchor : FlowState → TcpPacket → Bool
is_anchor f packet =
    packet.syn
    && is_empty packet.payload
    && is_some f.syn.client
    && is_some f.syn.server
    && not (is_some f.http)
    && not f.raw_decided
    && not f.suppressed

-- `recognized` in `finish`: a connection that shows HTTP and is no websocket.
unfoldable pub shows_http : SessionProtocol → FlowState → Bool
shows_http raw_tcp f =
    http_request_line f.streams.client.bytes
    || starts_with http_mark f.streams.server.bytes
    || f.streams.client.truncated && not f.raw_decided && http_request_hint f.streams.client.bytes
shows_http http f = true
shows_http web_socket f = false

module _ (parser : Httparse) (json : JsonLibrary) (regex : Regex) where
  -- The packet's payload through the assembler of its direction. While the callback runs, the source
  -- has an empty assembler in its place; `consume` does not look at it.
  unfoldable pub push_payload : FlowState → ClassifiedPacket → ℕ → FlowState × List CompletedSession
  push_payload f classified now =
      let direction = classified.direction in
      let packet = classified.packet in
      let (assembler, accepted, slices) =
        push (at f.ordered direction) (payload_sequence packet) packet.payload
          packet.timestamp_micros in
      let (f', ready) = consume_all parser json regex f direction slices in
      (
        record f' {
          ordered = set_at f'.ordered direction (see_fin assembler packet);
          last_payload = if accepted then now else f'.last_payload;
        },
        ready,
      )

  unfoldable pub start_anchored : FlowState → ClassifiedPacket → FlowState × List CompletedSession
  start_anchored f classified =
      if is_anchor f classified.packet
      then consume parser json regex f classified.direction (payload_sequence classified.packet) []
          classified.packet.timestamp_micros
      else (f, [])

  unfoldable pub close_http : FlowState → Option HttpSessions → FlowState × List CompletedSession
  close_http f none = (f, [])
  close_http f (some h) =
      let (h', ready) = close_response parser h true in
      let f' = record f { http = some h' } in (f', make_sessions parser json regex f' ready)

  -- The end of the server's bytes is told once.
  unfoldable pub see_response_end : FlowState → FlowState × List CompletedSession
  see_response_end f =
      if closed f.ordered.server && not f.response_eof
      then close_http (record f { response_eof = true }) f.http
      else (f, [])

  -- FlowState::ingest
  unfoldable pub ingest : FlowState → ClassifiedPacket → ℕ → FlowState × List CompletedSession
  ingest f classified now =
      let (f1, ready1) =
        push_payload (see_syn (see_packet f classified now) classified) classified now in
      let (f2, ready2) = start_anchored f1 classified in
      let (f3, ready3) = see_response_end f2 in (f3, ready1 ++ (ready2 ++ ready3))

  unfoldable pub finish_http : FlowState → HttpSessions → Bool → List CompletedSession
  finish_http f h timed_out = make_sessions parser json regex f (
      finish_sessions parser h (closed f.ordered.server && not (has_gap f.ordered.server))
        (timed_out || not (is_closed f) || has_gap f.ordered.client || has_gap f.ordered.server))

  -- The one session of a connection that is no HTTP.
  unfoldable pub whole_session : FlowState → Bool → CompletedSession
  whole_session f timed_out =
      let c2s_bytes = f.streams.client.bytes in
      let s2c_bytes = f.streams.server.bytes in
      let c2s_flags = flag_count parser json regex c2s_bytes in
      let s2c_flags = flag_count parser json regex s2c_bytes in
      let (protocol, metadata) = classify_session parser c2s_bytes s2c_bytes in
      record {
        collector_id = f.collector_id;
        first_payload_to_server_at = f.first_payload_at.client;
        first_payload_to_client_at = f.first_payload_at.server;
        source_id = f.source_id;
        started_at = f.started_at;
        ended_at = f.ended_at;
        client = f.key.client;
        server = f.key.server;
        protocol = protocol;
        to_server = c2s_bytes;
        to_client = s2c_bytes;
        flag_direction = flags_from_counts c2s_flags s2c_flags;
        flag_count = c2s_flags + s2c_flags;
        incomplete =
            timed_out
            || f.streams.client.truncated
            || f.streams.server.truncated
            || not (is_closed f)
            || has_gap f.ordered.client
            || has_gap f.ordered.server;
        metadata = metadata;
      }

  unfoldable pub finish_raw : FlowState → Bool → List CompletedSession
  finish_raw f timed_out =
      if shows_http (classify_session parser f.streams.client.bytes f.streams.server.bytes).0 f
      then []
      else whole_session f timed_out ∷ []

  unfoldable pub finish_by : FlowState → Option HttpSessions → Bool → List CompletedSession
  finish_by f none timed_out = finish_raw f timed_out
  finish_by f (some h) timed_out = finish_http f h timed_out

  -- FlowState::finish
  unfoldable pub finish : FlowState → Bool → List CompletedSession
  finish f timed_out = if f.suppressed then [] else finish_by f f.http timed_out
