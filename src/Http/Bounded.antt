-- ===== src/Http/Bounded.antt =====
-- The limits of `HttpSessions` (crates/analyzer/src/http_sessions.rs), through its steps.
pub mod Calls
use newhatch.Common.{
  ℕ, zero, suc, ◌+◌, ◌-◌, ◌^◌, ◌≤◌, ◌<◌, ◌≡◌, refl, ap, arith, ltb, leb, ◌==◌, if◌then◌else◌, Bool,
  true, false, not, ◌&&◌, ◌||◌, Option, none, some, List, [], ◌∷◌, ◌++◌, length, drop, is_empty,
  Result, ok, err, length-append, Bool-cases, Option-cases, inl, inr,
}
use newhatch.Domain.{web_socket}
use newhatch.Common.Int.{ℤ}
use newhatch.Wire.Messages.{Direction, c2s, s2c}
use newhatch.Flow.Stream.{append_bounded}
use newhatch.Flow.Stream.Bounds.{length-append_bounded}
use newhatch.Http.Chunk.{Malformed}
use newhatch.Http.Framing.{Httparse, Head, request_head, response_head, is_some}
use newhatch.Http.Decoder.{Message, Decoder, saturating_add, feed, finish_message}
use newhatch.Http.Sessions.{
  BufferedChunk, HttpSessions, fail_sessions, failed_call, Exchange, Outcome, upgrade, pair_final,
  pair_status, pair_head, pair, buffer_response, after_response, respond, response_round,
  process_rounds, process_response, flush_rounds, finish_response, flush_closed, flush_responses,
  exchange_of, closed_cleanly,
}
use newhatch.Http.Feed.{
  queue_request, after_request, hold_upgrade, request_round, request_rounds, feed_direction,
  feed_unless_upgraded, feed_sessions, close_response,
}

abbrev pub buffered : List BufferedChunk → ℕ
buffered [] = 0
buffered (chunk ∷ chunks) = length chunk.bytes + buffered chunks

buffered-append : (xs ys : List BufferedChunk) → buffered (xs ++ ys) ≡ buffered xs + buffered ys
buffered-append [] ys = omega arith
buffered-append (x ∷ xs) ys = omega (arith, buffered-append xs ys)

pub record IsBounded (h : HttpSessions) : Type 0 where
  pub small : h.limit < 2 ^ 64 - 1
  pub requests_few : length h.requests ≤ 256
  pub responses_few : length h.responses ≤ 256
  pub counted : h.response_bytes ≡ buffered h.responses
  pub room : h.response_bytes ≤ h.limit
  pub upgrade_room : length h.upgrade_client ≤ h.limit

fail_sessions-IsBounded : (h : HttpSessions) → IsBounded h → IsBounded (fail_sessions h)
unfolding fail_sessions
fail_sessions-IsBounded h b = record {
  small = b.small;
  requests_few = omega arith;
  responses_few = omega arith;
  counted = refl;
  room = omega arith;
  upgrade_room = omega arith;
}

upgrade-IsBounded : (h : HttpSessions) (x : Exchange) → IsBounded h → IsBounded (upgrade h x)
unfolding upgrade
upgrade-IsBounded h x b = record {
  small = b.small;
  requests_few = b.requests_few;
  responses_few = b.responses_few;
  counted = b.counted;
  room = b.room;
  upgrade_room = omega arith;
}

pair_final-IsBounded :
    (h : HttpSessions) (request response : Message) (status : ℕ) (incomplete : Bool)
    → IsBounded h
    → IsBounded (pair_final h request response status incomplete).0
unfolding pair_final
pair_final-IsBounded h request response status incomplete b =
    let x : Exchange = exchange_of request response incomplete web_socket in
    ground (
      arith,
      b,
      fail_sessions-IsBounded h b,
      upgrade-IsBounded h x b,
      fail_sessions-IsBounded (upgrade h x) (upgrade-IsBounded h x b),
    )

pair_status-IsBounded :
    (h : HttpSessions) (requests : List Message) (response : Message) (status : ℕ)
    (incomplete : Bool)
    → h.requests ≡ requests
    → IsBounded h
    → IsBounded (pair_status h requests response status incomplete).0
unfolding pair_status failed_call
pair_status-IsBounded h [] response status incomplete e b =
    ground (arith, b, fail_sessions-IsBounded h b)
pair_status-IsBounded h (request ∷ requests) response status incomplete e b =
    let popped : HttpSessions = record h {
      requests = requests;
      request_bytes = h.request_bytes - length request.bytes;
    } in
    let shorter : length h.requests ≡ length (request ∷ requests) = ap length e in
    let fewer : length requests ≤ 256 = omega (arith, b.requests_few, shorter) in
    let b' : IsBounded popped = record {
      small = b.small;
      requests_few = fewer;
      responses_few = b.responses_few;
      counted = b.counted;
      room = b.room;
      upgrade_room = b.upgrade_room;
    } in
    ground (arith, b, pair_final-IsBounded popped request response status incomplete b')

pair_head-IsBounded :
    (h : HttpSessions) (head : Option Head) (response : Message) (incomplete : Bool)
    → IsBounded h
    → IsBounded (pair_head h head response incomplete).0
unfolding pair_head failed_call
pair_head-IsBounded h none response incomplete b = fail_sessions-IsBounded h b
pair_head-IsBounded h (some (request_head method websocket)) response incomplete b =
    fail_sessions-IsBounded h b
pair_head-IsBounded h (some (response_head status)) response incomplete b =
    pair_status-IsBounded h h.requests response status incomplete refl b

buffer_response-IsBounded :
    (h : HttpSessions) (rest : List ℕ) (timestamp : ℤ) (prepend : Bool)
    → IsBounded h
    → IsBounded (buffer_response h rest timestamp prepend)
unfolding buffer_response saturating_add
buffer_response-IsBounded h rest timestamp prepend b =
    let chunk : BufferedChunk = record { bytes = rest; timestamp = timestamp } in
    ground (
      arith,
      b.small,
      b.requests_few,
      b.responses_few,
      b.counted,
      b.room,
      b.upgrade_room,
      fail_sessions-IsBounded h b,
      buffered-append h.responses (chunk ∷ []),
      length-append h.responses (chunk ∷ []),
    )

-- Fields that no bound reads may change.
same-IsBounded :
    (h h' : HttpSessions)
    → h'.limit ≡ h.limit
    → h'.requests ≡ h.requests
    → h'.responses ≡ h.responses
    → h'.response_bytes ≡ h.response_bytes
    → h'.upgrade_client ≡ h.upgrade_client
    → IsBounded h
    → IsBounded h'
same-IsBounded h h' l q r n u b = record {
  small = rw l b.small;
  requests_few = rw q b.requests_few;
  responses_few = rw r b.responses_few;
  counted = rw (n, r) b.counted;
  room = rw (n, l) b.room;
  upgrade_room = rw (u, l) b.upgrade_room;
}

module _ (parser : Httparse) where
  after_response-IsBounded :
      (h : HttpSessions) (rest : List ℕ) (r : Result Malformed (Decoder × ℕ × Option Message))
      → IsBounded h
      → IsBounded (after_response h rest r).0.0
  unfolding after_response failed_call pair
  after_response-IsBounded h rest (err e) b = fail_sessions-IsBounded h b
  after_response-IsBounded h rest (ok (d, used, none)) b =
      same-IsBounded h (record h { response = d }) refl refl refl refl refl b
  after_response-IsBounded h rest (ok (d, used, some message)) b =
      let h' : HttpSessions = record h { response = d } in
      pair_head-IsBounded h' message.head message false
        (same-IsBounded h h' refl refl refl refl refl b)

  respond-IsBounded :
      (h : HttpSessions) (rest : List ℕ) (timestamp : ℤ) (head : Option Head)
      → IsBounded h
      → IsBounded (respond parser h rest timestamp head).0.0
  unfolding respond failed_call
  respond-IsBounded h rest timestamp none b = fail_sessions-IsBounded h b
  respond-IsBounded h rest timestamp (some (response_head status)) b = fail_sessions-IsBounded h b
  respond-IsBounded h rest timestamp (some (request_head method websocket)) b =
      after_response-IsBounded h rest (feed parser h.response rest timestamp (some method) h.limit)
        b

  response_round-IsBounded :
      (h : HttpSessions) (rest : List ℕ) (timestamp : ℤ) (prepend : Bool) (x : Option Exchange)
      (requests : List Message)
      → IsBounded h
      → IsBounded (response_round parser h rest timestamp prepend x requests).0.0
  unfolding response_round failed_call
  response_round-IsBounded h rest timestamp prepend (some x) requests b =
      same-IsBounded h _ refl refl refl refl refl b
  response_round-IsBounded h rest timestamp prepend none [] b =
      buffer_response-IsBounded h rest timestamp prepend b
  response_round-IsBounded h rest timestamp prepend none (request ∷ requests) b =
      respond-IsBounded h rest timestamp request.head b

  -- The results of two steps after each other.
  process_rounds-IsBounded :
      (rounds : ℕ) (h : HttpSessions) (rest : List ℕ) (timestamp : ℤ) (prepend : Bool)
      → IsBounded h
      → IsBounded (process_rounds parser rounds h rest timestamp prepend).0
  unfolding process_rounds
  process_rounds-IsBounded zero h rest timestamp prepend b = b
  process_rounds-IsBounded (suc rounds) h rest timestamp prepend b =
      elim (Bool-cases (is_empty rest || h.failed)) [
        | inl e ↦ rw (e, process_rounds) b
        | inr e ↦
            rw (e, process_rounds)
              (process_rounds-IsBounded rounds _ _ timestamp prepend
                (response_round-IsBounded h rest timestamp prepend h.upgraded h.requests b))
      ]

  flush_rounds-IsBounded :
      (rounds : ℕ) (h : HttpSessions) (responses : List BufferedChunk)
      → h.responses ≡ responses
      → IsBounded h
      → IsBounded (flush_rounds parser rounds h responses).0
  unfolding flush_rounds process_response
  flush_rounds-IsBounded rounds h [] q b = b
  flush_rounds-IsBounded zero h (chunk ∷ responses) q b = b
  flush_rounds-IsBounded (suc rounds) h (chunk ∷ responses) q b =
      let taken : HttpSessions = record h {
        responses = responses;
        response_bytes = h.response_bytes - length chunk.bytes;
      } in
      let shorter : length h.responses ≡ length (chunk ∷ responses) = ap length q in
      let less : buffered h.responses ≡ buffered (chunk ∷ responses) = ap buffered q in
      let b' : IsBounded taken = record {
        small = b.small;
        requests_few = b.requests_few;
        responses_few = omega (arith, b.responses_few, shorter);
        counted = omega (arith, b.counted, less);
        room = omega (arith, b.room);
        upgrade_room = b.upgrade_room;
      } in
      elim (Bool-cases (h.failed || is_empty h.requests && not (is_some h.upgraded))) [
        | inl e ↦ rw (e, flush_rounds) b
        | inr e ↦
            rw (e, flush_rounds)
              (flush_rounds-IsBounded rounds _ _ refl (
                process_rounds-IsBounded (length chunk.bytes) taken chunk.bytes chunk.timestamp true
                  b'))
      ]

  finish_response-IsBounded :
      (h : HttpSessions) → IsBounded h → IsBounded (finish_response parser h).0
  unfolding finish_response pair
  finish_response-IsBounded h b =
      elim (Option-cases (finish_message h.response (closed_cleanly parser h.response_closed))) [
        | inl e ↦ rw (e, finish_response) b
        | inr ((d, message, incomplete), e) ↦
            rw (e, finish_response)
              (pair_head-IsBounded (record h { response = d }) message.head message incomplete
                (same-IsBounded h (record h { response = d }) refl refl refl refl refl b))
      ]
