-- ===== src/Flow/Consumed.antt =====
-- What `FlowState::consume` (crates/analyzer/src/flow.rs) makes of connections that show HTTP.
use newhatch.Common.{
  ℕ, ◌-◌, ◌≡◌, refl, arith, ltb, if◌then◌else◌, Bool, true, false, ◌&&◌, ◌||◌, Option, none, some,
  List, [], ◌∷◌, ◌++◌, length, drop, take, All, Bool-cases, inl, inr,
}
use newhatch.Common.Int.{ℤ}
use newhatch.Common.Text.{starts_with}
use newhatch.Domain.{SessionProtocol, raw_tcp, http, web_socket, CompletedSession}
use newhatch.Wire.Messages.{Direction, c2s, s2c, ClassifiedPacket}
use newhatch.Payload.Json.{JsonLibrary}
use newhatch.Http.Framing.{Httparse}
use newhatch.Http.Sessions.{Exchange, HttpSessions, new_sessions}
use newhatch.Http.Feed.{feed_sessions, observe_probe_time}
use newhatch.Http.Pairing.{is_raw_tcp, IsHttp, IsHttpIfSome, AreHttp, All-append, after-AreHttp}
use newhatch.Http.Paired.{feed_sessions-AreHttp}
use newhatch.Flow.Assembler.{Slice}
use newhatch.Flow.State.{at, Span, FlowState, Regex, http_request_line, http_mark}
use newhatch.Flow.Consume.{
  note_appended, append_bytes, decide_raw, suppress, inspect_direction, make_session, make_sessions,
  feed_spans, feed_kept, start_http, recognize, decide, consume_unknown, consume_http, consume_by,
  consume, consume_all,
}
use newhatch.Flow.Ingest.{see_packet, see_syn, shows_http}

-- A session of raw TCP whose bytes show HTTP.
abbrev pub is_hidden_http : CompletedSession → Bool
is_hidden_http session =
    is_raw_tcp session.protocol
    && (http_request_line session.to_server || starts_with http_mark session.to_client)

abbrev pub IsShown : CompletedSession → Type 0
IsShown session = is_hidden_http session ≡ false

abbrev pub IsHttpFlow : Option HttpSessions → Type 0
IsHttpFlow none = Unit {0}
IsHttpFlow (some h) = IsHttpIfSome h.upgraded

-- What a call leaves of a connection and the sessions that it makes ready.
abbrev pub AreShown : FlowState × List CompletedSession → Type 0
AreShown (f, ready) = IsHttpFlow f.http × All IsShown ready

pub AreShown-if :
    (b : Bool) (x y : FlowState × List CompletedSession)
    → AreShown x
    → AreShown y
    → AreShown (if b then x else y)
AreShown-if true x y h k = h
AreShown-if false x y h k = k

observe_probe_time-upgraded :
    (h : HttpSessions) (direction : Direction) (time : ℤ)
    → (observe_probe_time h direction time).upgraded ≡ h.upgraded
unfolding observe_probe_time
observe_probe_time-upgraded h c2s time = refl
observe_probe_time-upgraded h s2c time = refl

pub see_syn-http :
    (f : FlowState) (classified : ClassifiedPacket) (now : ℕ)
    → (see_syn (see_packet f classified now) classified).http ≡ f.http
unfolding see_syn see_packet
see_syn-http f classified now = ground arith

-- A connection that does not show HTTP is no hidden session.
pub shown_alone :
    (protocol : SessionProtocol) (f : FlowState)
    → shows_http protocol f ≡ false
    → (is_raw_tcp protocol
        && (http_request_line f.streams.client.bytes
            || starts_with http_mark f.streams.server.bytes))
      ≡ false
unfolding shows_http
shown_alone raw_tcp f e = ground (arith, e)
shown_alone http f e = refl
shown_alone web_socket f e = refl

append_bytes-http :
    (regex : Regex) (f : FlowState) (direction : Direction) (sequence : ℕ) (bytes : List ℕ)
    (timestamp : ℤ)
    → (append_bytes regex f direction sequence bytes timestamp).http ≡ f.http
unfolding append_bytes note_appended
append_bytes-http regex f direction sequence bytes timestamp = ground arith

module _ (parser : Httparse) (json : JsonLibrary) (regex : Regex) where
  pub make_sessions-IsShown :
      (f : FlowState) (exchanges : List Exchange)
      → All IsHttp exchanges
      → All IsShown (make_sessions parser json regex f exchanges)
  unfolding make_sessions make_session
  make_sessions-IsShown f [] a = tt
  make_sessions-IsShown f (x ∷ exchanges) (h, a) = (rw h refl, make_sessions-IsShown f exchanges a)

  feed_spans-AreHttp :
      (h : HttpSessions) (direction : Direction) (bytes : List ℕ) (start : ℕ) (spans : List Span)
      → IsHttpIfSome h.upgraded
      → AreHttp (feed_spans parser json regex h direction bytes start spans)
  unfolding feed_spans
  feed_spans-AreHttp h direction bytes start [] u = (u, tt)
  feed_spans-AreHttp h direction bytes start (span ∷ spans) u =
      let part = drop start (take span.stop bytes) in
      let (h', ready) = feed_sessions parser h direction part span.timestamp in
      let (u', a) = feed_sessions-AreHttp parser h direction part span.timestamp u in
      let next = observe_probe_time h' direction span.last_timestamp in
      after-AreHttp ready (feed_spans parser json regex next direction bytes span.stop spans) a (
        feed_spans-AreHttp next direction bytes span.stop spans
          (rw (observe_probe_time-upgraded h' direction span.last_timestamp) u'))

  feed_kept-AreHttp :
      (f : FlowState) (direction : Direction) (bytes : List ℕ) (timestamp : ℤ) (retained_input : ℕ)
      → AreHttp (feed_kept parser json regex f direction bytes timestamp retained_input)
  unfolding feed_kept new_sessions
  feed_kept-AreHttp f direction bytes timestamp retained_input =
      let fresh = new_sessions f.max_stream_bytes in
      let c2s_bytes = f.streams.client.bytes in
      let s2c_bytes = f.streams.server.bytes in
      let (h, ready) = feed_spans parser json regex fresh c2s c2s_bytes 0 f.spans.client in
      let (u, a) = feed_spans-AreHttp fresh c2s c2s_bytes 0 f.spans.client tt in
      let two = feed_spans parser json regex h s2c s2c_bytes 0 f.spans.server in
      let (u', a') = feed_spans-AreHttp h s2c s2c_bytes 0 f.spans.server u in
      let three = feed_sessions parser two.0 direction (drop retained_input bytes) timestamp in
      let s =
        feed_sessions-AreHttp parser two.0 direction (drop retained_input bytes) timestamp u' in
      elim (Bool-cases (ltb retained_input (length bytes))) [
        | inl e ↦
            rw e
              (after-AreHttp ready (three.0, two.1 ++ three.1) a (after-AreHttp two.1 three a' s))
        | inr e ↦ rw e (after-AreHttp ready two a (u', a'))
      ]

  start_http-AreShown :
      (f : FlowState) (direction : Direction) (bytes : List ℕ) (timestamp : ℤ) (retained_input : ℕ)
      → AreShown (start_http parser json regex f direction bytes timestamp retained_input)
  unfolding start_http
  start_http-AreShown f direction bytes timestamp retained_input =
      let (h, ready) = feed_kept parser json regex f direction bytes timestamp retained_input in
      let (u, a) = feed_kept-AreHttp f direction bytes timestamp retained_input in
      (u, make_sessions-IsShown f ready a)

  recognize-AreShown :
      (f : FlowState) (direction : Direction) (bytes : List ℕ) (timestamp : ℤ) (retained_input : ℕ)
      → IsHttpFlow f.http
      → AreShown (recognize parser json regex f direction bytes timestamp retained_input)
  unfolding recognize decide_raw suppress
  recognize-AreShown f direction bytes timestamp retained_input u =
      ground (arith, u, start_http-AreShown f direction bytes timestamp retained_input)

  decide-AreShown :
      (f : FlowState) (direction : Direction) (bytes : List ℕ) (timestamp : ℤ) (retained_input : ℕ)
      → IsHttpFlow f.http
      → AreShown (decide parser json regex f direction bytes timestamp retained_input)
  unfolding decide decide_raw
  decide-AreShown f direction bytes timestamp retained_input u =
      ground (arith, u, recognize-AreShown f direction bytes timestamp retained_input u)

  consume_unknown-AreShown :
      (f : FlowState) (direction : Direction) (sequence : ℕ) (bytes : List ℕ) (timestamp : ℤ)
      → IsHttpFlow f.http
      → AreShown (consume_unknown parser json regex f direction sequence bytes timestamp)
  unfolding consume_unknown inspect_direction
  consume_unknown-AreShown f direction sequence bytes timestamp u =
      let f' = append_bytes regex f direction sequence bytes timestamp in
      let u' : IsHttpFlow f'.http =
        rw (append_bytes-http regex f direction sequence bytes timestamp) u in
      let kept = length (at f'.streams direction).bytes - length (at f.streams direction).bytes in
      AreShown-if f.raw_decided (f', []) _ (u', tt)
        (decide-AreShown (inspect_direction f' direction) direction bytes timestamp kept u')

  consume_by-AreShown :
      (f : FlowState) (o : Option HttpSessions) (direction : Direction) (sequence : ℕ)
      (bytes : List ℕ) (timestamp : ℤ)
      → f.http ≡ o
      → IsHttpFlow o
      → AreShown (consume_by parser json regex f o direction sequence bytes timestamp)
  unfolding consume_by consume_http
  consume_by-AreShown f none direction sequence bytes timestamp e u =
      consume_unknown-AreShown f direction sequence bytes timestamp (rw e u)
  consume_by-AreShown f (some h) direction sequence bytes timestamp e u =
      let (h', ready) = feed_sessions parser h direction bytes timestamp in
      let (u', a) = feed_sessions-AreHttp parser h direction bytes timestamp u in
      (u', make_sessions-IsShown (record f { http = some h' }) ready a)

  pub consume-AreShown :
      (f : FlowState) (direction : Direction) (sequence : ℕ) (bytes : List ℕ) (timestamp : ℤ)
      → IsHttpFlow f.http
      → AreShown (consume parser json regex f direction sequence bytes timestamp)
  unfolding consume
  consume-AreShown f direction sequence bytes timestamp u =
      ground (arith, u, consume_by-AreShown f f.http direction sequence bytes timestamp refl u)

  pub consume_all-AreShown :
      (f : FlowState) (direction : Direction) (slices : List Slice)
      → IsHttpFlow f.http
      → AreShown (consume_all parser json regex f direction slices)
  unfolding consume_all
  consume_all-AreShown f direction [] u = (u, tt)
  consume_all-AreShown f direction (slice ∷ slices) u =
      let (f', ready) =
        consume parser json regex f direction slice.sequence slice.bytes slice.timestamp in
      let (u', a) = consume-AreShown f direction slice.sequence slice.bytes slice.timestamp u in
      let (u'', b) = consume_all-AreShown f' direction slices u' in
      (u'', All-append IsShown ready (consume_all parser json regex f' direction slices).1 a b)
