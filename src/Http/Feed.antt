-- ===== src/Http/Feed.antt =====
-- The calls of `HttpSessions` (crates/analyzer/src/http_sessions.rs): `feed`, `close_response`,
-- `finish`, `is_websocket`, `has_pending` and `observe_probe_time`.
use newhatch.Common.{
  ℕ, zero, suc, ◌+◌, ◌-◌, leb, if◌then◌else◌, Bool, false, not, ◌||◌, Option, none, some, List, [],
  ◌∷◌, ◌++◌, length, drop, is_empty, Result, ok, err,
}
use newhatch.Common.Int.{ℤ}
use newhatch.Wire.Messages.{Direction, c2s, s2c}
use newhatch.Flow.Stream.{append_bounded}
use newhatch.Http.Chunk.{Malformed}
use newhatch.Http.Framing.{Httparse, is_some}
use newhatch.Http.Decoder.{observe, Message, saturating_add, Decoder, feed}
use newhatch.Http.Sessions.{
  Exchange, HttpSessions, fail_sessions, Outcome, extend_upgraded, asks_websocket, process_response,
  flush_responses,
}

-- A complete request joins the queue.
unfoldable pub queue_request : HttpSessions → Message → HttpSessions
queue_request h message =
    let counted = record h {
      discarded_requests =
          if message.dropped then saturating_add h.discarded_requests 1 else h.discarded_requests;
    } in
    if leb 256 (length h.requests) then fail_sessions counted else record counted {
      client_upgrade = asks_websocket message.head;
      request_bytes = h.request_bytes + length message.bytes;
      requests = h.requests ++ (message ∷ []);
    }

-- What follows the request decoder's call: the state, and the bytes left.
unfoldable pub after_request :
    HttpSessions → List ℕ → Result Malformed (Decoder × ℕ × Option Message) → HttpSessions × List ℕ
after_request h rest (err e) = (fail_sessions h, rest)
after_request h rest (ok (d, used, none)) = (record h { request = d }, drop used rest)
after_request h rest (ok (d, used, some message)) =
    (queue_request (record h { request = d }) message, drop used rest)

-- What the client sends behind a request for a websocket.
unfoldable pub hold_upgrade : HttpSessions → List ℕ → ℤ → HttpSessions
hold_upgrade h rest timestamp = record h {
  upgrade_client = append_bounded h.upgrade_client rest h.limit;
  upgrade_times = observe h.upgrade_times timestamp;
}

module _ (parser : Httparse) where
  -- One round of the loop over the client's bytes; no bytes are left where the loop is left.
  unfoldable pub request_round : HttpSessions → List ℕ → ℤ → HttpSessions × List ℕ
  request_round h rest timestamp =
      if h.client_upgrade
      then (hold_upgrade h rest timestamp, [])
      else after_request h rest
          (feed parser h.request rest timestamp none (h.limit - h.request_bytes))

  -- The loop. A round uses a byte at least or ends the loop.
  unfoldable pub request_rounds : ℕ → HttpSessions → List ℕ → ℤ → HttpSessions
  request_rounds zero h rest timestamp = h
  request_rounds (suc rounds) h rest timestamp =
      let (h', rest') = request_round h rest timestamp in
      let h'' = request_rounds rounds h' rest' timestamp in
      if is_empty rest || h.failed then h else h''

  unfoldable pub feed_direction : HttpSessions → Direction → List ℕ → ℤ → Outcome
  feed_direction h c2s bytes timestamp = (request_rounds (length bytes) h bytes timestamp, [])
  feed_direction h s2c bytes timestamp = process_response parser h bytes timestamp false

  unfoldable pub feed_unless_upgraded :
      HttpSessions → Direction → List ℕ → ℤ → Option Exchange → Outcome
  feed_unless_upgraded h direction bytes timestamp (some x) =
      (record h { upgraded = some (extend_upgraded h.limit x direction bytes timestamp) }, [])
  feed_unless_upgraded h direction bytes timestamp none =
      let (h', ready) = feed_direction h direction bytes timestamp in
      let (h'', more) = flush_responses parser h' in (h'', ready ++ more)

  -- HttpSessions::feed
  unfoldable pub feed_sessions : HttpSessions → Direction → List ℕ → ℤ → Outcome
  feed_sessions h direction bytes timestamp =
      if h.failed then (h, []) else feed_unless_upgraded h direction bytes timestamp h.upgraded

  -- HttpSessions::close_response
  unfoldable pub close_response : HttpSessions → Bool → Outcome
  close_response h clean_close =
      flush_responses parser (record h { response_closed = some clean_close })

  -- HttpSessions::finish
  unfoldable pub finish_sessions : HttpSessions → Bool → Bool → List Exchange
  finish_sessions h clean_close incomplete_connection =
      let (h', ready) = close_response h clean_close in
      elim h'.upgraded [
        | none ↦ ready
        | some x ↦ ready ++ (record x { incomplete = x.incomplete || incomplete_connection } ∷ [])
      ]

unfoldable pub is_websocket : HttpSessions → Bool
is_websocket h = is_some h.upgraded

unfoldable pub has_pending : HttpSessions → Bool
has_pending h =
    h.failed
    || not (is_empty h.requests)
    || not (is_empty h.responses)
    || is_some h.request.message.times.first
    || is_some h.response.message.times.first

unfoldable pub observe_decoder : Decoder → ℤ → Decoder
observe_decoder d timestamp =
    if is_some d.message.times.first
    then record d { message = record (d.message) { times = observe d.message.times timestamp } }
    else d

unfoldable pub observe_probe_time : HttpSessions → Direction → ℤ → HttpSessions
observe_probe_time h c2s timestamp = record h { request = observe_decoder h.request timestamp }
observe_probe_time h s2c timestamp = record h { response = observe_decoder h.response timestamp }
