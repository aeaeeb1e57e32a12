-- ===== src/Http/Pairing.antt =====
-- The exchanges of `HttpSessions` (crates/analyzer/src/http_sessions.rs), through its steps: their
-- protocol.
use newhatch.Common.{
  ℕ, zero, suc, ◌-◌, ◌≡◌, refl, arith, Bool, true, false, not, ◌&&◌, ◌||◌, Option, none, some, List,
  [], ◌∷◌, ◌++◌, length, is_empty, All, Result, ok, err, Bool-cases, Option-cases, inl, inr,
}
use newhatch.Common.Int.{ℤ}
use newhatch.Domain.{SessionProtocol, raw_tcp, http, web_socket}
use newhatch.Http.Chunk.{Malformed}
use newhatch.Http.Framing.{Httparse, Head, request_head, response_head, is_some}
use newhatch.Http.Decoder.{Message, Decoder, feed, finish_message}
use newhatch.Http.Sessions.{
  Exchange, BufferedChunk, HttpSessions, fail_sessions, failed_call, Outcome, upgrade, pair_final,
  pair_status, pair_head, pair, buffer_response, after_response, respond, response_round,
  process_rounds, process_response, flush_rounds, finish_response, flush_closed, flush_responses,
  exchange_of, closed_cleanly, extend_upgraded,
}
use newhatch.Http.Feed.{queue_request, after_request}

abbrev pub is_raw_tcp : SessionProtocol → Bool
is_raw_tcp raw_tcp = true
is_raw_tcp http = false
is_raw_tcp web_socket = false

abbrev pub IsHttp : Exchange → Type 0
IsHttp x = is_raw_tcp x.protocol ≡ false

abbrev pub IsHttpIfSome : Option Exchange → Type 0
IsHttpIfSome none = Unit {0}
IsHttpIfSome (some x) = IsHttp x

-- What a call leaves and what it makes ready.
abbrev pub AreHttp : Outcome → Type 0
AreHttp o = IsHttpIfSome o.0.upgraded × All IsHttp o.1

pub All-append :
    {A : Type 0} (P : A → Type 0) (xs ys : List A) → All P xs → All P ys → All P (xs ++ ys)
All-append P [] ys h k = k
All-append P (x ∷ xs) ys (p, h) k = (p, All-append P xs ys h k)

-- Two calls after each other.
pub after-AreHttp :
    (ready : List Exchange) (o : Outcome)
    → All IsHttp ready
    → AreHttp o
    → AreHttp (o.0, ready ++ o.1)
after-AreHttp ready o a (u, b) = (u, All-append IsHttp ready o.1 a b)

pair_final-AreHttp :
    (h : HttpSessions) (request response : Message) (status : ℕ) (incomplete : Bool)
    → IsHttpIfSome h.upgraded
    → AreHttp (pair_final h request response status incomplete)
unfolding pair_final upgrade fail_sessions exchange_of
pair_final-AreHttp h request response status incomplete u = ground (arith, u)

pair_status-AreHttp :
    (h : HttpSessions) (requests : List Message) (response : Message) (status : ℕ)
    (incomplete : Bool)
    → IsHttpIfSome h.upgraded
    → AreHttp (pair_status h requests response status incomplete)
unfolding pair_status failed_call fail_sessions
pair_status-AreHttp h [] response status incomplete u = ground (arith, u)
pair_status-AreHttp h (request ∷ requests) response status incomplete u =
    let popped : HttpSessions = record h {
      requests = requests;
      request_bytes = h.request_bytes - length request.bytes;
    } in
    ground (arith, u, pair_final-AreHttp popped request response status incomplete u)

pair_head-AreHttp :
    (h : HttpSessions) (head : Option Head) (response : Message) (incomplete : Bool)
    → IsHttpIfSome h.upgraded
    → AreHttp (pair_head h head response incomplete)
unfolding pair_head failed_call fail_sessions
pair_head-AreHttp h none response incomplete u = (u, tt)
pair_head-AreHttp h (some (request_head method websocket)) response incomplete u = (u, tt)
pair_head-AreHttp h (some (response_head status)) response incomplete u =
    pair_status-AreHttp h h.requests response status incomplete u

buffer_response-upgraded :
    (h : HttpSessions) (rest : List ℕ) (timestamp : ℤ) (prepend : Bool)
    → (buffer_response h rest timestamp prepend).upgraded ≡ h.upgraded
unfolding buffer_response fail_sessions
buffer_response-upgraded h rest timestamp prepend = ground arith

pub same-IsHttpIfSome : (x y : Option Exchange) → x ≡ y → IsHttpIfSome y → IsHttpIfSome x
same-IsHttpIfSome x y e u = rw e u

queue_request-upgraded :
    (h : HttpSessions) (message : Message) → (queue_request h message).upgraded ≡ h.upgraded
unfolding queue_request fail_sessions
queue_request-upgraded h message = ground arith

pub after_request-upgraded :
    (h : HttpSessions) (rest : List ℕ) (r : Result Malformed (Decoder × ℕ × Option Message))
    → (after_request h rest r).0.upgraded ≡ h.upgraded
unfolding after_request fail_sessions
after_request-upgraded h rest (err e) = refl
after_request-upgraded h rest (ok (d, used, none)) = refl
after_request-upgraded h rest (ok (d, used, some message)) =
    queue_request-upgraded (record h { request = d }) message

-- The exchange that became a websocket comes last.
pub with_upgraded :
    (ready : List Exchange) (upgraded : Option Exchange) (incomplete : Bool)
    → All IsHttp ready
    → IsHttpIfSome upgraded
    → All IsHttp (elim upgraded [
      | none ↦ ready
      | some x ↦ ready ++ (record x { incomplete = x.incomplete || incomplete } ∷ [])
    ])
with_upgraded ready none incomplete a u = a
with_upgraded ready (some x) incomplete a u = All-append IsHttp ready _ a (u, tt)

module _ (parser : Httparse) where
  after_response-AreHttp :
      (h : HttpSessions) (rest : List ℕ) (r : Result Malformed (Decoder × ℕ × Option Message))
      → IsHttpIfSome h.upgraded
      → AreHttp (after_response h rest r).0
  unfolding after_response failed_call pair fail_sessions
  after_response-AreHttp h rest (err e) u = (u, tt)
  after_response-AreHttp h rest (ok (d, used, none)) u = (u, tt)
  after_response-AreHttp h rest (ok (d, used, some message)) u =
      pair_head-AreHttp (record h { response = d }) message.head message false u

  respond-AreHttp :
      (h : HttpSessions) (rest : List ℕ) (timestamp : ℤ) (head : Option Head)
      → IsHttpIfSome h.upgraded
      → AreHttp (respond parser h rest timestamp head).0
  unfolding respond failed_call fail_sessions
  respond-AreHttp h rest timestamp none u = (u, tt)
  respond-AreHttp h rest timestamp (some (response_head status)) u = (u, tt)
  respond-AreHttp h rest timestamp (some (request_head method websocket)) u =
      after_response-AreHttp h rest (feed parser h.response rest timestamp (some method) h.limit) u

  response_round-AreHttp :
      (h : HttpSessions) (rest : List ℕ) (timestamp : ℤ) (prepend : Bool) (x : Option Exchange)
      (requests : List Message)
      → h.upgraded ≡ x
      → IsHttpIfSome x
      → AreHttp (response_round parser h rest timestamp prepend x requests).0
  unfolding response_round extend_upgraded
  response_round-AreHttp h rest timestamp prepend (some x) requests e u = (u, tt)
  response_round-AreHttp h rest timestamp prepend none [] e u =
      (same-IsHttpIfSome _ _ (buffer_response-upgraded h rest timestamp prepend) (rw e u), tt)
  response_round-AreHttp h rest timestamp prepend none (request ∷ requests) e u =
      respond-AreHttp h rest timestamp request.head (rw e u)

  pub process_rounds-AreHttp :
      (rounds : ℕ) (h : HttpSessions) (rest : List ℕ) (timestamp : ℤ) (prepend : Bool)
      → IsHttpIfSome h.upgraded
      → AreHttp (process_rounds parser rounds h rest timestamp prepend)
  unfolding process_rounds
  process_rounds-AreHttp zero h rest timestamp prepend u = (u, tt)
  process_rounds-AreHttp (suc rounds) h rest timestamp prepend u =
      elim (Bool-cases (is_empty rest || h.failed)) [
        | inl e ↦ rw (e, process_rounds) (u, tt)
        | inr e ↦
            rw (e, process_rounds)
              (let ((h', ready), rest') =
                  response_round parser h rest timestamp prepend h.upgraded h.requests in
                let (u', a) =
                  response_round-AreHttp h rest timestamp prepend h.upgraded h.requests refl u in
                after-AreHttp ready (process_rounds parser rounds h' rest' timestamp prepend) a
                  (process_rounds-AreHttp rounds h' rest' timestamp prepend u'))
      ]

  flush_rounds-AreHttp :
      (rounds : ℕ) (h : HttpSessions) (responses : List BufferedChunk)
      → IsHttpIfSome h.upgraded
      → AreHttp (flush_rounds parser rounds h responses)
  unfolding flush_rounds process_response
  flush_rounds-AreHttp rounds h [] u = (u, tt)
  flush_rounds-AreHttp zero h (chunk ∷ responses) u = (u, tt)
  flush_rounds-AreHttp (suc rounds) h (chunk ∷ responses) u =
      let taken : HttpSessions = record h {
        responses = responses;
        response_bytes = h.response_bytes - length chunk.bytes;
      } in
      elim (Bool-cases (h.failed || is_empty h.requests && not (is_some h.upgraded))) [
        | inl e ↦ rw (e, flush_rounds) (u, tt)
        | inr e ↦
            rw (e, flush_rounds)
              (let (h', ready) = process_response parser taken chunk.bytes chunk.timestamp true in
                let (u', a) =
                  process_rounds-AreHttp (length chunk.bytes) taken chunk.bytes chunk.timestamp true
                    u in
                after-AreHttp ready (flush_rounds parser rounds h' h'.responses) a
                  (flush_rounds-AreHttp rounds h' h'.responses u'))
      ]

  finish_response-AreHttp :
      (h : HttpSessions) → IsHttpIfSome h.upgraded → AreHttp (finish_response parser h)
  unfolding finish_response pair
  finish_response-AreHttp h u =
      elim (Option-cases (finish_message h.response (closed_cleanly parser h.response_closed))) [
        | inl e ↦ rw (e, finish_response) (u, tt)
        | inr ((d, message, incomplete), e) ↦
            rw (e, finish_response)
              (pair_head-AreHttp (record h { response = d }) message.head message incomplete u)
      ]

  flush_closed-AreHttp :
      (h : HttpSessions) → IsHttpIfSome h.upgraded → AreHttp (flush_closed parser h)
  unfolding flush_closed
  flush_closed-AreHttp h u = ground (arith, u, finish_response-AreHttp h u)

  pub flush_responses-AreHttp :
      (h : HttpSessions) → IsHttpIfSome h.upgraded → AreHttp (flush_responses parser h)
  unfolding flush_responses
  flush_responses-AreHttp h u =
      let (h', ready) = flush_rounds parser (length h.responses) h h.responses in
      let (u', a) = flush_rounds-AreHttp (length h.responses) h h.responses u in
      after-AreHttp ready (flush_closed parser h') a (flush_closed-AreHttp h' u')
