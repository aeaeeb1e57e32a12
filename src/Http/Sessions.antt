-- ===== src/Http/Sessions.antt =====
-- `HttpSessions` of crates/analyzer/src/http_sessions.rs: requests and responses of a connection
-- paired to exchanges. A deque is a list, front first; `ready` is returned as a list.
use newhatch.Common.{
  ℕ, zero, suc, ◌+◌, ◌-◌, ltb, leb, ◌==◌, if◌then◌else◌, Bool, true, false, not, ◌&&◌, ◌||◌, Option,
  none, some, List, [], ◌∷◌, ◌++◌, length, drop, is_empty, Result, ok, err,
}
use newhatch.Common.Int.{ℤ}
use newhatch.Domain.{SessionProtocol, web_socket, http}
use newhatch.Wire.Messages.{Direction, c2s, s2c}
use newhatch.Flow.Stream.{append_bounded}
use newhatch.Http.Chunk.{Malformed}
use newhatch.Http.Framing.{
  Httparse, head, connect, other, Head, request_head, response_head, is_informational, is_success,
  is_some,
}
use newhatch.Http.Decoder.{
  CaptureTimes, no_times, observe, request_role, response_role, Message, saturating_add, Decoder,
  new_decoder, feed, finish_message,
}

pub record Exchange : Type 0 where
  pub request_offset : ℕ
  pub response_offset : ℕ
  pub to_server : List ℕ
  pub to_client : List ℕ
  pub request_times : CaptureTimes
  pub response_times : CaptureTimes
  pub incomplete : Bool
  pub protocol : SessionProtocol

pub record BufferedChunk : Type 0 where
  pub bytes : List ℕ
  pub timestamp : ℤ

pub record HttpSessions : Type 0 where
  pub limit : ℕ
  pub request : Decoder
  pub response : Decoder
  pub requests : List Message
  pub request_bytes : ℕ
  pub responses : List BufferedChunk
  pub response_bytes : ℕ
  pub response_closed : Option Bool
  pub client_upgrade : Bool
  pub upgrade_client : List ℕ
  pub upgrade_times : CaptureTimes
  pub upgraded : Option Exchange
  pub failed : Bool
  pub discarded_requests : ℕ

-- HttpSessions::new
unfoldable pub new_sessions : ℕ → HttpSessions
new_sessions limit = record {
  limit = limit;
  request = new_decoder request_role limit;
  response = new_decoder response_role limit;
  requests = [];
  request_bytes = 0;
  responses = [];
  response_bytes = 0;
  response_closed = none;
  client_upgrade = false;
  upgrade_client = [];
  upgrade_times = no_times;
  upgraded = none;
  failed = false;
  discarded_requests = 0;
}

-- HttpSessions::fail
unfoldable pub fail_sessions : HttpSessions → HttpSessions
fail_sessions h = record h {
  failed = true;
  requests = [];
  responses = [];
  request = new_decoder request_role h.limit;
  response = new_decoder response_role h.limit;
  upgrade_client = [];
  request_bytes = 0;
  response_bytes = 0;
}

-- What a call did: the new state, and the exchanges that are ready.
abbrev pub Outcome : Type 0
Outcome = HttpSessions × List Exchange

unfoldable pub failed_call : HttpSessions → Outcome
failed_call h = (fail_sessions h, [])

-- `incomplete |= ...`, `append_bounded` and `observe` on an exchange that became a websocket.
unfoldable pub extend_upgraded : ℕ → Exchange → Direction → List ℕ → ℤ → Exchange
extend_upgraded limit x c2s bytes timestamp = record x {
  incomplete = x.incomplete || ltb (limit - length x.to_server) (length bytes);
  to_server = append_bounded x.to_server bytes limit;
  request_times = observe x.request_times timestamp;
}
extend_upgraded limit x s2c bytes timestamp = record x {
  incomplete = x.incomplete || ltb (limit - length x.to_client) (length bytes);
  to_client = append_bounded x.to_client bytes limit;
  response_times = observe x.response_times timestamp;
}

-- `matches!(head, Some(Head::Request { websocket: true, .. }))`
unfoldable pub asks_websocket : Option Head → Bool
asks_websocket none = false
asks_websocket (some (request_head method websocket)) = websocket
asks_websocket (some (response_head status)) = false

unfoldable pub is_connect : Option Head → Bool
is_connect none = false
is_connect (some (request_head connect websocket)) = true
is_connect (some (request_head head websocket)) = false
is_connect (some (request_head other websocket)) = false
is_connect (some (response_head status)) = false

unfoldable pub observe_last : CaptureTimes → Option ℤ → CaptureTimes
observe_last times none = times
observe_last times (some time) = observe times time

unfoldable pub exchange_of : Message → Message → Bool → SessionProtocol → Exchange
exchange_of request response incomplete protocol = record {
  request_offset = request.offset;
  response_offset = response.offset;
  to_server = request.bytes;
  to_client = response.bytes;
  request_times = request.times;
  response_times = response.times;
  incomplete = incomplete;
  protocol = protocol;
}

-- The exchange that becomes a websocket: with what the client sent behind its request.
unfoldable pub upgrade : HttpSessions → Exchange → HttpSessions
upgrade h x = record h {
  upgrade_client = [];
  upgraded = some (record x {
    incomplete = x.incomplete || ltb (h.limit - length x.to_server) (length h.upgrade_client);
    to_server = append_bounded x.to_server h.upgrade_client h.limit;
    request_times = observe_last x.request_times h.upgrade_times.last;
  });
}

-- `pair` for a response that is final and its request, which has left the queue.
unfoldable pub pair_final : HttpSessions → Message → Message → ℕ → Bool → Outcome
pair_final h request response status incomplete =
    let websocket = status == 101 || asks_websocket request.head in
    let tunnel = is_connect request.head && is_success status in
    let (h', ready) =
      if request.dropped
      then (h, [])
      else if websocket
      then (upgrade h (exchange_of request response incomplete web_socket), [])
      else (h, exchange_of request response incomplete http ∷ []) in
    if tunnel then (fail_sessions h', ready) else (h', ready)

unfoldable pub pair_status : HttpSessions → List Message → Message → ℕ → Bool → Outcome
pair_status h [] response status incomplete =
    if is_informational status && not (status == 101) then (h, []) else failed_call h
pair_status h (request ∷ requests) response status incomplete =
    if is_informational status && not (status == 101)
    then (h, [])
    else pair_final
        (record h { requests = requests; request_bytes = h.request_bytes - length request.bytes })
        request response status incomplete

unfoldable pub pair_head : HttpSessions → Option Head → Message → Bool → Outcome
pair_head h none response incomplete = failed_call h
pair_head h (some (request_head method websocket)) response incomplete = failed_call h
pair_head h (some (response_head status)) response incomplete =
    pair_status h h.requests response status incomplete

-- HttpSessions::pair
unfoldable pub pair : HttpSessions → Message → Bool → Outcome
pair h response incomplete = pair_head h response.head response incomplete

-- Response bytes that have no request yet.
unfoldable pub buffer_response : HttpSessions → List ℕ → ℤ → Bool → HttpSessions
buffer_response h rest timestamp prepend =
    let chunk : BufferedChunk = record { bytes = rest; timestamp = timestamp } in
    if ltb h.limit (saturating_add h.response_bytes (length rest)) || leb 256 (length h.responses)
    then fail_sessions h
    else record h {
      responses = if prepend then chunk ∷ h.responses else h.responses ++ (chunk ∷ []);
      response_bytes = h.response_bytes + length rest;
    }

-- What follows the response decoder's call: the state and what is ready, and the bytes left.
unfoldable pub after_response :
    HttpSessions → List ℕ → Result Malformed (Decoder × ℕ × Option Message) → Outcome × List ℕ
after_response h rest (err e) = (failed_call h, rest)
after_response h rest (ok (d, used, none)) = ((record h { response = d }, []), drop used rest)
after_response h rest (ok (d, used, some message)) =
    (pair (record h { response = d }) message false, drop used rest)

module _ (parser : Httparse) where
  -- The decoder's call, for the head of the first request.
  unfoldable pub respond : HttpSessions → List ℕ → ℤ → Option Head → Outcome × List ℕ
  respond h rest timestamp none = (failed_call h, [])
  respond h rest timestamp (some (response_head status)) = (failed_call h, [])
  respond h rest timestamp (some (request_head method websocket)) =
      after_response h rest (feed parser h.response rest timestamp (some method) h.limit)

  -- One round of `process_response`; no bytes are left where the source leaves the loop.
  unfoldable pub response_round :
      HttpSessions → List ℕ → ℤ → Bool → Option Exchange → List Message → Outcome × List ℕ
  response_round h rest timestamp prepend (some x) requests =
      ((record h { upgraded = some (extend_upgraded h.limit x s2c rest timestamp) }, []), [])
  response_round h rest timestamp prepend none [] =
      ((buffer_response h rest timestamp prepend, []), [])
  response_round h rest timestamp prepend none (request ∷ requests) =
      respond h rest timestamp request.head

  -- HttpSessions::process_response. A round uses a byte at least or ends the loop.
  unfoldable pub process_rounds : ℕ → HttpSessions → List ℕ → ℤ → Bool → Outcome
  process_rounds zero h rest timestamp prepend = (h, [])
  process_rounds (suc rounds) h rest timestamp prepend =
      let ((h', ready), rest') = response_round h rest timestamp prepend h.upgraded h.requests in
      let (h'', more) = process_rounds rounds h' rest' timestamp prepend in
      if is_empty rest || h.failed then (h, []) else (h'', ready ++ more)

  unfoldable pub process_response : HttpSessions → List ℕ → ℤ → Bool → Outcome
  process_response h bytes timestamp prepend =
      process_rounds (length bytes) h bytes timestamp prepend

  -- The loop of `flush_responses`: a round takes a chunk out, and one that comes back ends the loop.
  unfoldable pub flush_rounds : ℕ → HttpSessions → List BufferedChunk → Outcome
  flush_rounds rounds h [] = (h, [])
  flush_rounds zero h (chunk ∷ responses) = (h, [])
  flush_rounds (suc rounds) h (chunk ∷ responses) =
      let taken = record h {
        responses = responses;
        response_bytes = h.response_bytes - length chunk.bytes;
      } in
      let (h', ready) = process_response taken chunk.bytes chunk.timestamp true in
      let (h'', more) = flush_rounds rounds h' h'.responses in
      if h.failed || is_empty h.requests && not (is_some h.upgraded)
      then (h, [])
      else (h'', ready ++ more)

  -- `self.response_closed == Some(true)`
  unfoldable pub closed_cleanly : Option Bool → Bool
  closed_cleanly none = false
  closed_cleanly (some clean) = clean

  unfoldable pub finish_response : HttpSessions → Outcome
  finish_response h = elim (finish_message h.response (closed_cleanly h.response_closed)) [
    | none ↦ (h, [])
    | some (d, message, incomplete) ↦ pair (record h { response = d }) message incomplete
  ]

  -- The end of `flush_responses`.
  unfoldable pub flush_closed : HttpSessions → Outcome
  flush_closed h =
      if not h.failed
        && is_some h.response_closed
        && is_empty h.responses
        && not (is_empty h.requests)
      then finish_response h
      else (h, [])

  unfoldable pub flush_responses : HttpSessions → Outcome
  flush_responses h =
      let (h', ready) = flush_rounds (length h.responses) h h.responses in
      let (h'', more) = flush_closed h' in (h'', ready ++ more)
