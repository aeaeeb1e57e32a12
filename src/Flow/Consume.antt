-- ===== src/Flow/Consume.antt =====
-- `FlowState::consume`, `make_session`, `ingest` and `finish` of crates/analyzer/src/flow.rs. What is
-- pushed to `ready` is returned as a list. The clock is read once in a call: `now`.
use newhatch.Common.{
  ℕ, ◌+◌, ◌-◌, ◌*◌, ltb, leb, if◌then◌else◌, Bool, true, false, not, ◌&&◌, ◌||◌, Option, none, some,
  List, [], ◌∷◌, ◌++◌, length, take, drop,
}
use newhatch.Common.Int.{ℤ, min_ℤ, max_ℤ}
use newhatch.Common.Text.{starts_with}
use newhatch.Wire.Messages.{Direction, c2s, s2c}
use newhatch.Domain.{
  SessionProtocol, raw_tcp, http, web_socket, CompletedSession, flags_from_counts,
}
use newhatch.Protocol.{classify_session}
use newhatch.Payload.Json.{JsonLibrary}
use newhatch.Payload.Display.{display}
use newhatch.Http.Framing.{Httparse}
use newhatch.Http.Sessions.{Exchange, HttpSessions, new_sessions}
use newhatch.Http.Feed.{feed_sessions, observe_probe_time}
use newhatch.Flow.Assembler.{Slice, is_some}
use newhatch.Flow.Stream.{StreamAssembler, new_stream, push_segment}
use newhatch.Flow.Probe.{inspect}
use newhatch.Flow.State.{
  at, set_at, both, Span, FlowState, Regex, or_length, http_version_line, http_request_hint,
  http_mark, scan_new_matches,
}

-- `spans.len() >= 256`: the oldest two become one.
unfoldable pub merge_oldest : List Span → List Span
merge_oldest [] = []
merge_oldest (first ∷ []) = first ∷ []
merge_oldest (first ∷ next ∷ spans) =
    record {
      stop = next.stop;
      timestamp = min_ℤ first.timestamp next.timestamp;
      last_timestamp = max_ℤ first.last_timestamp next.last_timestamp;
    }
    ∷ spans

unfoldable pub push_span : List Span → ℕ → ℤ → List Span
push_span spans stop timestamp =
    (if leb 256 (length spans) then merge_oldest spans else spans)
    ++ (record { stop = stop; timestamp = timestamp; last_timestamp = timestamp } ∷ [])

-- What `consume` does with bytes that the stream appended.
unfoldable pub note_appended : Regex → FlowState → Direction → ℤ → FlowState
note_appended regex f direction timestamp =
    let bytes = (at f.streams direction).bytes in
    let (count, scanned) = scan_new_matches regex bytes (at f.scanned_to direction) in
    record f {
      flag_count = set_at f.flag_count direction (at f.flag_count direction + count);
      scanned_to = set_at f.scanned_to direction scanned;
      spans =
          if f.raw_decided
          then f.spans
          else set_at f.spans direction (push_span (at f.spans direction) (length bytes) timestamp);
    }

unfoldable pub append_bytes : Regex → FlowState → Direction → ℕ → List ℕ → ℤ → FlowState
append_bytes regex f direction sequence bytes timestamp =
    let (stream, appended) = push_segment (at f.streams direction) sequence bytes in
    let f' = record f { streams = set_at f.streams direction stream } in
    if appended then note_appended regex f' direction timestamp else f'

unfoldable pub decide_raw : FlowState → FlowState
decide_raw f = record f { raw_decided = true; spans = both [] }

unfoldable pub suppress : FlowState → FlowState
suppress f = record f {
  suppressed = true;
  streams = both (new_stream f.max_stream_bytes);
  spans = both [];
}

unfoldable pub inspect_direction : FlowState → Direction → FlowState
inspect_direction f direction = record f {
  probe = set_at f.probe direction (inspect (at f.probe direction) (at f.streams direction).bytes);
}

unfoldable pub request_http : FlowState → Bool
request_http f =
    let bytes = f.streams.client.bytes in
    http_version_line (take (or_length f.probe.client.line_end bytes) bytes)

unfoldable pub response_http : FlowState → Bool
response_http f = starts_with http_mark f.streams.server.bytes

unfoldable pub headers_ready : FlowState → Bool
headers_ready f =
    request_http f && is_some f.probe.client.header_end
    || response_http f && is_some f.probe.server.header_end

unfoldable pub is_web_socket : SessionProtocol → Bool
is_web_socket raw_tcp = false
is_web_socket http = false
is_web_socket web_socket = true

unfoldable pub latest_of : Option ℤ → Option ℤ → ℤ → ℤ
latest_of none none otherwise = otherwise
latest_of none (some b) otherwise = b
latest_of (some a) none otherwise = a
latest_of (some a) (some b) otherwise = max_ℤ a b

unfoldable pub time_or : Option ℤ → ℤ → ℤ
time_or none otherwise = otherwise
time_or (some time) otherwise = time

unfoldable pub without_bytes : StreamAssembler → StreamAssembler
without_bytes stream = record stream { bytes = [] }

unfoldable pub take_bytes : FlowState → FlowState
take_bytes f = record f {
  streams = record {
    client = without_bytes f.streams.client;
    server = without_bytes f.streams.server;
  };
  spans = both [];
}

-- The regular expression that finds flags, and the libraries.
module _ (parser : Httparse) (json : JsonLibrary) (regex : Regex) where
  -- flag_count (crates/analyzer/src/payload_text.rs)
  unfoldable pub flag_count : List ℕ → ℕ
  flag_count bytes = length (regex (display json bytes false))

  unfoldable pub make_session : FlowState → Exchange → CompletedSession
  make_session f x =
      let to_server_flags = flag_count x.to_server in
      let to_client_flags = flag_count x.to_client in
      record {
        collector_id = f.collector_id;
        first_payload_to_server_at = x.request_times.first;
        first_payload_to_client_at = x.response_times.first;
        source_id = f.source_id;
        started_at = time_or x.request_times.first f.started_at;
        ended_at = latest_of x.request_times.last x.response_times.last f.ended_at;
        client = f.key.client;
        server = f.key.server;
        protocol = x.protocol;
        to_server = x.to_server;
        to_client = x.to_client;
        flag_direction = flags_from_counts to_server_flags to_client_flags;
        flag_count = to_server_flags + to_client_flags;
        incomplete = x.incomplete;
        metadata = (classify_session parser x.to_server x.to_client).1;
      }

  unfoldable pub make_sessions : FlowState → List Exchange → List CompletedSession
  make_sessions f [] = []
  make_sessions f (x ∷ exchanges) = make_session f x ∷ make_sessions f exchanges

  -- The spans of a direction, given to the new `HttpSessions`.
  unfoldable pub feed_spans :
      HttpSessions → Direction → List ℕ → ℕ → List Span → HttpSessions × List Exchange
  feed_spans h direction bytes start [] = (h, [])
  feed_spans h direction bytes start (span ∷ spans) =
      let (h', ready) =
        feed_sessions parser h direction (drop start (take span.stop bytes)) span.timestamp in
      let (h'', more) =
        feed_spans (observe_probe_time h' direction span.last_timestamp) direction bytes span.stop
          spans in
      (h'', ready ++ more)

  -- What was kept of both directions, and what of the new bytes was not kept.
  unfoldable pub feed_kept : FlowState → Direction → List ℕ → ℤ → ℕ → HttpSessions × List Exchange
  feed_kept f direction bytes timestamp retained_input =
      let (h, ready) =
        feed_spans (new_sessions f.max_stream_bytes) c2s f.streams.client.bytes 0 f.spans.client in
      let (h', ready') = feed_spans h s2c f.streams.server.bytes 0 f.spans.server in
      let (h'', ready'') =
        feed_sessions parser h' direction (drop retained_input bytes) timestamp in
      if ltb retained_input (length bytes)
      then (h'', ready ++ (ready' ++ ready''))
      else (h', ready ++ ready')

  unfoldable pub start_http :
      FlowState → Direction → List ℕ → ℤ → ℕ → FlowState × List CompletedSession
  start_http f direction bytes timestamp retained_input =
      let (h, ready) = feed_kept f direction bytes timestamp retained_input in
      (record (take_bytes f) { http = some h }, make_sessions f ready)

  -- A head is there.
  unfoldable pub recognize :
      FlowState → Direction → List ℕ → ℤ → ℕ → FlowState × List CompletedSession
  recognize f direction bytes timestamp retained_input =
      if is_web_socket (classify_session parser f.streams.client.bytes f.streams.server.bytes).0
      then (decide_raw f, [])
      else if is_some f.syn.client && is_some f.syn.server
      then start_http f direction bytes timestamp retained_input
      else if is_some f.syn.client
      then (f, [])
      else (suppress f, [])

  unfoldable pub decide : FlowState → Direction → List ℕ → ℤ → ℕ → FlowState × List CompletedSession
  decide f direction bytes timestamp retained_input =
      if headers_ready f
      then recognize f direction bytes timestamp retained_input
      else if not (request_http f) && is_some f.probe.client.line_end
          || leb (64 * 1024) (length f.streams.client.bytes)
            && not (http_request_hint f.streams.client.bytes)
      then (decide_raw f, [])
      else (f, [])

  unfoldable pub consume_unknown :
      FlowState → Direction → ℕ → List ℕ → ℤ → FlowState × List CompletedSession
  consume_unknown f direction sequence bytes timestamp =
      let f' = append_bytes regex f direction sequence bytes timestamp in
      let retained_input =
        length (at f'.streams direction).bytes - length (at f.streams direction).bytes in
      if f.raw_decided
      then (f', [])
      else decide (inspect_direction f' direction) direction bytes timestamp retained_input

  unfoldable pub consume_http :
      FlowState → HttpSessions → Direction → List ℕ → ℤ → FlowState × List CompletedSession
  consume_http f h direction bytes timestamp =
      let (h', ready) = feed_sessions parser h direction bytes timestamp in
      let f' = record f { http = some h' } in (f', make_sessions f' ready)

  unfoldable pub consume_by :
      FlowState
      → Option HttpSessions
      → Direction
      → ℕ
      → List ℕ
      → ℤ
      → FlowState × List CompletedSession
  consume_by f (some h) direction sequence bytes timestamp =
      consume_http f h direction bytes timestamp
  consume_by f none direction sequence bytes timestamp =
      consume_unknown f direction sequence bytes timestamp

  -- FlowState::consume
  unfoldable pub consume :
      FlowState → Direction → ℕ → List ℕ → ℤ → FlowState × List CompletedSession
  consume f direction sequence bytes timestamp =
      if f.suppressed then (f, []) else consume_by f f.http direction sequence bytes timestamp

  -- The calls of the callback that `TcpAssembler::push` makes.
  unfoldable pub consume_all :
      FlowState → Direction → List Slice → FlowState × List CompletedSession
  consume_all f direction [] = (f, [])
  consume_all f direction (slice ∷ slices) =
      let (f', ready) = consume f direction slice.sequence slice.bytes slice.timestamp in
      let (f'', more) = consume_all f' direction slices in (f'', ready ++ more)
