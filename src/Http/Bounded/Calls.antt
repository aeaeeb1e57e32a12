-- ===== src/Http/Bounded/Calls.antt =====
-- The limits of `HttpSessions` (crates/analyzer/src/http_sessions.rs), through its calls.
use newhatch.Common.{
  ℕ, zero, suc, ◌-◌, ◌^◌, ◌<◌, refl, arith, if◌then◌else◌, Bool, false, ◌||◌, Option, none, some,
  List, [], ◌∷◌, length, is_empty, Result, ok, err, length-append, Bool-cases, inl, inr,
}
use newhatch.Common.Int.{ℤ}
use newhatch.Wire.Messages.{Direction, c2s, s2c}
use newhatch.Flow.Stream.Bounds.{length-append_bounded}
use newhatch.Http.Chunk.{Malformed}
use newhatch.Http.Framing.{Httparse}
use newhatch.Http.Decoder.{Message, Decoder, saturating_add, feed}
use newhatch.Http.Sessions.{
  HttpSessions, Exchange, new_sessions, process_response, flush_rounds, flush_closed,
  flush_responses,
}
use newhatch.Http.Feed.{
  queue_request, after_request, hold_upgrade, request_round, request_rounds, feed_direction,
  feed_unless_upgraded, feed_sessions, close_response,
}
use newhatch.Http.Bounded.{
  IsBounded, same-IsBounded, fail_sessions-IsBounded, process_rounds-IsBounded,
  flush_rounds-IsBounded, finish_response-IsBounded,
}

queue_request-IsBounded :
    (h : HttpSessions) (message : Message) → IsBounded h → IsBounded (queue_request h message)
unfolding queue_request
queue_request-IsBounded h message b =
    let counted : HttpSessions = record h {
      discarded_requests =
          if message.dropped then saturating_add h.discarded_requests 1 else h.discarded_requests;
    } in
    let b' : IsBounded counted = same-IsBounded h counted refl refl refl refl refl b in
    ground (
      arith,
      b.small,
      b.requests_few,
      b.responses_few,
      b.counted,
      b.room,
      b.upgrade_room,
      fail_sessions-IsBounded counted b',
      length-append h.requests (message ∷ []),
    )

after_request-IsBounded :
    (h : HttpSessions) (rest : List ℕ) (r : Result Malformed (Decoder × ℕ × Option Message))
    → IsBounded h
    → IsBounded (after_request h rest r).0
unfolding after_request
after_request-IsBounded h rest (err e) b = fail_sessions-IsBounded h b
after_request-IsBounded h rest (ok (d, used, none)) b =
    same-IsBounded h (record h { request = d }) refl refl refl refl refl b
after_request-IsBounded h rest (ok (d, used, some message)) b =
    queue_request-IsBounded (record h { request = d }) message
      (same-IsBounded h (record h { request = d }) refl refl refl refl refl b)

hold_upgrade-IsBounded :
    (h : HttpSessions) (rest : List ℕ) (timestamp : ℤ)
    → IsBounded h
    → IsBounded (hold_upgrade h rest timestamp)
unfolding hold_upgrade
hold_upgrade-IsBounded h rest timestamp b = record {
  small = b.small;
  requests_few = b.requests_few;
  responses_few = b.responses_few;
  counted = b.counted;
  room = b.room;
  upgrade_room = omega (arith, length-append_bounded h.upgrade_client rest h.limit, b.upgrade_room);
}

module _ (parser : Httparse) where
  request_round-IsBounded :
      (h : HttpSessions) (rest : List ℕ) (timestamp : ℤ)
      → IsBounded h
      → IsBounded (request_round parser h rest timestamp).0
  unfolding request_round
  request_round-IsBounded h rest timestamp b = ground (
    arith,
    hold_upgrade-IsBounded h rest timestamp b,
    after_request-IsBounded h rest
        (feed parser h.request rest timestamp none (h.limit - h.request_bytes)) b,
  )

  request_rounds-IsBounded :
      (rounds : ℕ) (h : HttpSessions) (rest : List ℕ) (timestamp : ℤ)
      → IsBounded h
      → IsBounded (request_rounds parser rounds h rest timestamp)
  unfolding request_rounds
  request_rounds-IsBounded zero h rest timestamp b = b
  request_rounds-IsBounded (suc rounds) h rest timestamp b =
      elim (Bool-cases (is_empty rest || h.failed)) [
        | inl e ↦ rw (e, request_rounds) b
        | inr e ↦
            rw (e, request_rounds)
              (request_rounds-IsBounded rounds _ _ timestamp
                (request_round-IsBounded h rest timestamp b))
      ]

  flush_closed-IsBounded : (h : HttpSessions) → IsBounded h → IsBounded (flush_closed parser h).0
  unfolding flush_closed
  flush_closed-IsBounded h b = ground (arith, b, finish_response-IsBounded parser h b)

  flush_responses-IsBounded :
      (h : HttpSessions) → IsBounded h → IsBounded (flush_responses parser h).0
  unfolding flush_responses
  flush_responses-IsBounded h b =
      flush_closed-IsBounded (flush_rounds parser (length h.responses) h h.responses).0
        (flush_rounds-IsBounded parser (length h.responses) h h.responses refl b)

  feed_direction-IsBounded :
      (h : HttpSessions) (direction : Direction) (bytes : List ℕ) (timestamp : ℤ)
      → IsBounded h
      → IsBounded (feed_direction parser h direction bytes timestamp).0
  unfolding feed_direction process_response
  feed_direction-IsBounded h c2s bytes timestamp b =
      request_rounds-IsBounded (length bytes) h bytes timestamp b
  feed_direction-IsBounded h s2c bytes timestamp b =
      process_rounds-IsBounded parser (length bytes) h bytes timestamp false b

  feed_unless_upgraded-IsBounded :
      (h : HttpSessions) (direction : Direction) (bytes : List ℕ) (timestamp : ℤ)
      (x : Option Exchange)
      → IsBounded h
      → IsBounded (feed_unless_upgraded parser h direction bytes timestamp x).0
  unfolding feed_unless_upgraded
  feed_unless_upgraded-IsBounded h direction bytes timestamp (some x) b =
      same-IsBounded h _ refl refl refl refl refl b
  feed_unless_upgraded-IsBounded h direction bytes timestamp none b =
      flush_responses-IsBounded (feed_direction parser h direction bytes timestamp).0
        (feed_direction-IsBounded h direction bytes timestamp b)

  feed_sessions-IsBounded :
      (h : HttpSessions) (direction : Direction) (bytes : List ℕ) (timestamp : ℤ)
      → IsBounded h
      → IsBounded (feed_sessions parser h direction bytes timestamp).0
  unfolding feed_sessions
  feed_sessions-IsBounded h direction bytes timestamp b =
      ground (arith, b, feed_unless_upgraded-IsBounded h direction bytes timestamp h.upgraded b)

  -- The pieces of a connection, in the order of their arrival.
  abbrev pub feed_each : HttpSessions → List (Direction × List ℕ × ℤ) → HttpSessions
  feed_each h [] = h
  feed_each h ((direction, bytes, timestamp) ∷ pieces) =
      feed_each (feed_sessions parser h direction bytes timestamp).0 pieces

  feed_each-IsBounded :
      (h : HttpSessions) (pieces : List (Direction × List ℕ × ℤ))
      → IsBounded h
      → IsBounded (feed_each h pieces)
  feed_each-IsBounded h [] b = b
  feed_each-IsBounded h ((direction, bytes, timestamp) ∷ pieces) b =
      feed_each-IsBounded (feed_sessions parser h direction bytes timestamp).0 pieces
        (feed_sessions-IsBounded h direction bytes timestamp b)

  new_sessions-IsBounded : (limit : ℕ) → limit < 2 ^ 64 - 1 → IsBounded (new_sessions limit)
  unfolding new_sessions
  new_sessions-IsBounded limit s = record {
    small = s;
    requests_few = omega arith;
    responses_few = omega arith;
    counted = refl;
    room = omega arith;
    upgrade_room = omega arith;
  }

  -- Whatever arrives in either direction, and whether or not it is closed behind that, new sessions
  -- hold at most 256 requests and 256 chunks of responses without a request, whose bytes are counted
  -- exactly and stay within the limit, as do the bytes held for an upgrade. The limit is less than
  -- 2 ^ 64 - 1.
  pub close_response-feed_each-IsBounded :
      (limit : ℕ) (pieces : List (Direction × List ℕ × ℤ)) (clean_close : Bool)
      → limit < 2 ^ 64 - 1
      → IsBounded (feed_each (new_sessions limit) pieces)
        × IsBounded (close_response parser (feed_each (new_sessions limit) pieces) clean_close).0
  unfolding close_response
  close_response-feed_each-IsBounded limit pieces clean_close s =
      let h : HttpSessions = feed_each (new_sessions limit) pieces in
      let b : IsBounded h =
        feed_each-IsBounded (new_sessions limit) pieces (new_sessions-IsBounded limit s) in
      (
        b,
        flush_responses-IsBounded (record h { response_closed = some clean_close })
            (same-IsBounded h _ refl refl refl refl refl b),
      )
