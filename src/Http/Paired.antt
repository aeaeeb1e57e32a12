-- ===== src/Http/Paired.antt =====
-- The exchanges of `HttpSessions` (crates/analyzer/src/http_sessions.rs), through its calls: their
-- protocol.
use newhatch.Common.{
  ℕ, zero, suc, ◌-◌, ◌≡◌, refl, arith, Bool, false, Option, none, some, List, length, All,
}
use newhatch.Common.Int.{ℤ}
use newhatch.Wire.Messages.{Direction, c2s, s2c}
use newhatch.Http.Framing.{Httparse}
use newhatch.Http.Decoder.{feed}
use newhatch.Http.Sessions.{
  Exchange, HttpSessions, process_response, flush_responses, extend_upgraded,
}
use newhatch.Http.Feed.{
  hold_upgrade, request_round, request_rounds, feed_direction, feed_unless_upgraded, feed_sessions,
  close_response, finish_sessions,
}
use newhatch.Http.Pairing.{
  IsHttp, IsHttpIfSome, AreHttp, after-AreHttp, same-IsHttpIfSome, after_request-upgraded,
  with_upgraded, process_rounds-AreHttp, flush_responses-AreHttp,
}

module _ (parser : Httparse) where
  request_round-upgraded :
      (h : HttpSessions) (rest : List ℕ) (timestamp : ℤ)
      → (request_round parser h rest timestamp).0.upgraded ≡ h.upgraded
  unfolding request_round hold_upgrade
  request_round-upgraded h rest timestamp = ground (
    arith,
    after_request-upgraded h rest
        (feed parser h.request rest timestamp none (h.limit - h.request_bytes)),
  )

  request_rounds-upgraded :
      (rounds : ℕ) (h : HttpSessions) (rest : List ℕ) (timestamp : ℤ)
      → (request_rounds parser rounds h rest timestamp).upgraded ≡ h.upgraded
  unfolding request_rounds
  request_rounds-upgraded zero h rest timestamp = refl
  request_rounds-upgraded (suc rounds) h rest timestamp =
      let (h', rest') = request_round parser h rest timestamp in
      ground (
        arith,
        request_rounds-upgraded rounds h' rest' timestamp,
        request_round-upgraded h rest timestamp,
      )

  feed_direction-AreHttp :
      (h : HttpSessions) (direction : Direction) (bytes : List ℕ) (timestamp : ℤ)
      → IsHttpIfSome h.upgraded
      → AreHttp (feed_direction parser h direction bytes timestamp)
  unfolding feed_direction process_response
  feed_direction-AreHttp h c2s bytes timestamp u =
      (same-IsHttpIfSome _ _ (request_rounds-upgraded (length bytes) h bytes timestamp) u, tt)
  feed_direction-AreHttp h s2c bytes timestamp u =
      process_rounds-AreHttp parser (length bytes) h bytes timestamp false u

  feed_unless_upgraded-AreHttp :
      (h : HttpSessions) (direction : Direction) (bytes : List ℕ) (timestamp : ℤ)
      (x : Option Exchange)
      → h.upgraded ≡ x
      → IsHttpIfSome x
      → AreHttp (feed_unless_upgraded parser h direction bytes timestamp x)
  unfolding feed_unless_upgraded extend_upgraded
  feed_unless_upgraded-AreHttp h c2s bytes timestamp (some x) e u = (u, tt)
  feed_unless_upgraded-AreHttp h s2c bytes timestamp (some x) e u = (u, tt)
  feed_unless_upgraded-AreHttp h direction bytes timestamp none e u =
      let (u', a) = feed_direction-AreHttp h direction bytes timestamp (rw e u) in
      let (h', ready) = feed_direction parser h direction bytes timestamp in
      after-AreHttp ready (flush_responses parser h') a (flush_responses-AreHttp parser h' u')

  pub feed_sessions-AreHttp :
      (h : HttpSessions) (direction : Direction) (bytes : List ℕ) (timestamp : ℤ)
      → IsHttpIfSome h.upgraded
      → AreHttp (feed_sessions parser h direction bytes timestamp)
  unfolding feed_sessions
  feed_sessions-AreHttp h direction bytes timestamp u =
      ground (arith, u, feed_unless_upgraded-AreHttp h direction bytes timestamp h.upgraded refl u)

  pub close_response-AreHttp :
      (h : HttpSessions) (clean_close : Bool)
      → IsHttpIfSome h.upgraded
      → AreHttp (close_response parser h clean_close)
  unfolding close_response
  close_response-AreHttp h clean_close u =
      flush_responses-AreHttp parser (record h { response_closed = some clean_close }) u

  pub finish_sessions-IsHttp :
      (h : HttpSessions) (clean_close incomplete_connection : Bool)
      → IsHttpIfSome h.upgraded
      → All IsHttp (finish_sessions parser h clean_close incomplete_connection)
  unfolding finish_sessions
  finish_sessions-IsHttp h clean_close incomplete_connection u =
      let (h', ready) = close_response parser h clean_close in
      let (u', a) = close_response-AreHttp h clean_close u in
      with_upgraded ready h'.upgraded incomplete_connection a u'
