-- ===== src/Flow/Hidden.antt =====
-- What `FlowState` (crates/analyzer/src/flow.rs) makes of connections that show HTTP.
use newhatch.Common.{
  ℕ, ◌≡◌, refl, arith, Bool, true, false, Option, none, some, [], All, Bool-cases, inl, inr,
}
use newhatch.Wire.Messages.{ClassifiedPacket}
use newhatch.Payload.Json.{JsonLibrary}
use newhatch.Protocol.{classify_session}
use newhatch.Http.Framing.{Httparse}
use newhatch.Http.Sessions.{HttpSessions}
use newhatch.Http.Feed.{close_response}
use newhatch.Http.Pairing.{All-append}
use newhatch.Http.Paired.{close_response-AreHttp, finish_sessions-IsHttp}
use newhatch.Flow.Assembler.{push}
use newhatch.Flow.State.{at, FlowState, Regex}
use newhatch.Flow.Ingest.{
  see_packet, see_syn, push_payload, payload_sequence, start_anchored, close_http, see_response_end,
  ingest, finish_http, whole_session, finish_raw, finish_by, finish, shows_http,
}
use newhatch.Flow.Consumed.{
  IsShown, IsHttpFlow, AreShown, see_syn-http, shown_alone, make_sessions-IsShown, consume-AreShown,
  consume_all-AreShown,
}

module _ (parser : Httparse) (json : JsonLibrary) (regex : Regex) where
  close_http-AreShown :
      (f : FlowState) (o : Option HttpSessions)
      → f.http ≡ o
      → IsHttpFlow o
      → AreShown (close_http parser json regex f o)
  unfolding close_http
  close_http-AreShown f none e u = (rw e tt, tt)
  close_http-AreShown f (some h) e u =
      let (h', ready) = close_response parser h true in
      let (u', a) = close_response-AreHttp parser h true u in
      (u', make_sessions-IsShown parser json regex (record f { http = some h' }) ready a)

  see_response_end-AreShown :
      (f : FlowState) → IsHttpFlow f.http → AreShown (see_response_end parser json regex f)
  unfolding see_response_end
  see_response_end-AreShown f u =
      ground (arith, u, close_http-AreShown (record f { response_eof = true }) f.http refl u)

  start_anchored-AreShown :
      (f : FlowState) (classified : ClassifiedPacket)
      → IsHttpFlow f.http
      → AreShown (start_anchored parser json regex f classified)
  unfolding start_anchored
  start_anchored-AreShown f classified u = ground (
    arith,
    u,
    consume-AreShown parser json regex f classified.direction (payload_sequence classified.packet)
        [] classified.packet.timestamp_micros u,
  )

  push_payload-AreShown :
      (f : FlowState) (classified : ClassifiedPacket) (now : ℕ)
      → IsHttpFlow f.http
      → AreShown (push_payload parser json regex f classified now)
  unfolding push_payload
  push_payload-AreShown f classified now u =
      let packet = classified.packet in
      let direction = classified.direction in
      consume_all-AreShown parser json regex f direction
        (push (at f.ordered direction) (payload_sequence packet) packet.payload
          packet.timestamp_micros).2
        u

  pub ingest-AreShown :
      (f : FlowState) (classified : ClassifiedPacket) (now : ℕ)
      → IsHttpFlow f.http
      → AreShown (ingest parser json regex f classified now)
  unfolding ingest
  ingest-AreShown f classified now u =
      let begun = see_syn (see_packet f classified now) classified in
      let (f1, ready1) = push_payload parser json regex begun classified now in
      let (u1, a1) =
        push_payload-AreShown begun classified now (rw (see_syn-http f classified now) u) in
      let (f2, ready2) = start_anchored parser json regex f1 classified in
      let (u2, a2) = start_anchored-AreShown f1 classified u1 in
      let (f3, ready3) = see_response_end parser json regex f2 in
      let (u3, a3) = see_response_end-AreShown f2 u2 in
      (u3, All-append IsShown ready1 _ a1 (All-append IsShown ready2 ready3 a2 a3))

  whole_session-IsShown :
      (f : FlowState) (timed_out : Bool)
      → shows_http (classify_session parser f.streams.client.bytes f.streams.server.bytes).0 f
        ≡ false
      → IsShown (whole_session parser json regex f timed_out)
  unfolding whole_session shows_http
  whole_session-IsShown f timed_out e =
      shown_alone (classify_session parser f.streams.client.bytes f.streams.server.bytes).0 f e

  finish_by-IsShown :
      (f : FlowState) (o : Option HttpSessions) (timed_out : Bool)
      → IsHttpFlow o
      → All IsShown (finish_by parser json regex f o timed_out)
  unfolding finish_by finish_raw finish_http
  finish_by-IsShown f none timed_out u =
      let protocol = (classify_session parser f.streams.client.bytes f.streams.server.bytes).0 in
      elim (Bool-cases (shows_http protocol f)) [
        | inl e ↦ rw e tt
        | inr e ↦ rw e (whole_session-IsShown f timed_out e, tt)
      ]
  finish_by-IsShown f (some h) timed_out u =
      make_sessions-IsShown parser json regex f _ (finish_sessions-IsHttp parser h _ _ u)

  pub finish-IsShown :
      (f : FlowState) (timed_out : Bool)
      → IsHttpFlow f.http
      → All IsShown (finish parser json regex f timed_out)
  unfolding finish
  finish-IsShown f timed_out u = ground (arith, u, finish_by-IsShown f f.http timed_out u)
