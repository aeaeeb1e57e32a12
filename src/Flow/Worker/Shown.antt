-- ===== src/Flow/Worker/Shown.antt =====
-- What `FlowWorker` (crates/analyzer/src/flow.rs) hands to the storage.
use newhatch.Common.{
  ℕ, ◌-◌, ◌≡◌, leb, ◌==◌, if◌then◌else◌, Bool, true, false, ◌||◌, Option, none, some, List, [], ◌∷◌,
  length, All, Bool-cases, inl, inr,
}
use newhatch.Domain.{CompletedSession}
use newhatch.Wire.Messages.{ClassifiedPacket}
use newhatch.Payload.Json.{JsonLibrary}
use newhatch.Http.Framing.{Httparse}
use newhatch.Http.Decoder.{saturating_add}
use newhatch.Flow.State.{FlowState, Regex, new_flow, is_closed, is_new_connection, discarded_http}
use newhatch.Flow.Ingest.{ingest, finish}
use newhatch.Flow.Consumed.{IsShown, IsHttpFlow}
use newhatch.Flow.Hidden.{ingest-AreShown, finish-IsShown}
use newhatch.Flow.Worker.{
  CollectorFlowKey, IngressPacket, Flows, same_key, lookup_flow, remove_flow, put_flow, flow_or_new,
  key_of, FlowWorker, should_persist, should_expire, expired_keys, Event, received, tick, try_store,
  store_one, store_all, finish_flow, replace_connection, admit, handle_packet, finish_flows,
  expire_idle, store_each, handle, run,
}

abbrev AreHttpFlows : Flows → Type 0
AreHttpFlows flows = All (λ (entry : CollectorFlowKey × FlowState). IsHttpFlow entry.1.http) flows

abbrev IsFoundHttp : Option FlowState → Type 0
IsFoundHttp none = Unit {0}
IsFoundHttp (some f) = IsHttpFlow f.http

IsFoundHttp-if :
    (b : Bool) (f : FlowState) (o : Option FlowState)
    → IsHttpFlow f.http
    → IsFoundHttp o
    → IsFoundHttp (if b then some f else o)
IsFoundHttp-if true f o h k = h
IsFoundHttp-if false f o h k = k

lookup_flow-IsFoundHttp :
    (key : CollectorFlowKey) (flows : Flows)
    → AreHttpFlows flows
    → IsFoundHttp (lookup_flow key flows)
unfolding lookup_flow
lookup_flow-IsFoundHttp key [] a = tt
lookup_flow-IsFoundHttp key ((other, f) ∷ flows) (h, a) =
    IsFoundHttp-if (same_key key other) f (lookup_flow key flows) h
      (lookup_flow-IsFoundHttp key flows a)

AreHttpFlows-if :
    (b : Bool) (x y : Flows) → AreHttpFlows x → AreHttpFlows y → AreHttpFlows (if b then x else y)
AreHttpFlows-if true x y h k = h
AreHttpFlows-if false x y h k = k

remove_flow-AreHttpFlows :
    (key : CollectorFlowKey) (flows : Flows)
    → AreHttpFlows flows
    → AreHttpFlows (remove_flow key flows)
unfolding remove_flow
remove_flow-AreHttpFlows key [] a = tt
remove_flow-AreHttpFlows key ((other, f) ∷ flows) (h, a) =
    let rest = remove_flow-AreHttpFlows key flows a in
    AreHttpFlows-if (same_key key other) (remove_flow key flows)
      ((other, f) ∷ remove_flow key flows) rest (h, rest)

put_flow-AreHttpFlows :
    (key : CollectorFlowKey) (value : FlowState) (flows : Flows)
    → IsHttpFlow value.http
    → AreHttpFlows flows
    → AreHttpFlows (put_flow key value flows)
unfolding put_flow
put_flow-AreHttpFlows key value [] v a = (v, tt)
put_flow-AreHttpFlows key value ((other, f) ∷ flows) v (h, a) =
    AreHttpFlows-if (same_key key other) ((other, value) ∷ flows)
      ((other, f) ∷ put_flow key value flows) (v, a) (h, put_flow-AreHttpFlows key value flows v a)

flow_or_new-IsHttpFlow :
    (o : Option FlowState) (fresh : FlowState)
    → IsFoundHttp o
    → IsHttpFlow fresh.http
    → IsHttpFlow (flow_or_new o fresh).http
unfolding flow_or_new
flow_or_new-IsHttpFlow none fresh h k = k
flow_or_new-IsHttpFlow (some f) fresh h k = h

-- A property of the channel that sending keeps, for sessions that are worth storing and shown.
module _ (parser : Httparse) (json : JsonLibrary) (regex : Regex) {Q : Type 0}
    (try_send : CompletedSession → Q → Q × Bool) (I : Q → Type 0)
    (sends : (session : CompletedSession) (storage : Q)
      → should_persist session ≡ true
      → IsShown session
      → I storage
      → I (try_send session storage).0) where
  abbrev Holds : FlowWorker Q → Type 0
  Holds w = I w.storage × AreHttpFlows w.flows

  Holds-if : (b : Bool) (x y : FlowWorker Q) → Holds x → Holds y → Holds (if b then x else y)
  Holds-if true x y h k = h
  Holds-if false x y h k = k

  store_one-Holds :
      (w : FlowWorker Q) (session : CompletedSession)
      → IsShown session
      → Holds w
      → Holds (store_one parser json regex try_send w session)
  unfolding store_one try_store
  store_one-Holds w session s (i, a) = elim (Bool-cases (should_persist session)) [
    | inl e ↦ rw (e, store_one, try_store) (sends session w.storage e s i, a)
    | inr e ↦ rw (e, store_one, try_store) (i, a)
  ]

  store_all-Holds :
      (w : FlowWorker Q) (sessions : List CompletedSession)
      → All IsShown sessions
      → Holds w
      → Holds (store_all parser json regex try_send w sessions)
  unfolding store_all
  store_all-Holds w [] s h = h
  store_all-Holds w (session ∷ sessions) (s, ss) h =
      store_all-Holds (store_one parser json regex try_send w session) sessions ss
        (store_one-Holds w session s h)

  finish_found :
      (w : FlowWorker Q) (key : CollectorFlowKey) (timed_out : Bool) (o : Option FlowState)
      → IsFoundHttp o
      → Holds w
      → Holds (elim o [
        | none ↦ w
        | some f ↦
            store_all parser json regex try_send
              (record w { flows = remove_flow key w.flows })
              (finish parser json regex f timed_out)
      ])
  finish_found w key timed_out none f h = h
  finish_found w key timed_out (some f) k (i, a) =
      store_all-Holds (record w { flows = remove_flow key w.flows }) _
        (finish-IsShown parser json regex f timed_out k) (i, remove_flow-AreHttpFlows key w.flows a)

  finish_flow-Holds :
      (w : FlowWorker Q) (key : CollectorFlowKey) (timed_out : Bool)
      → Holds w
      → Holds (finish_flow parser json regex try_send w key timed_out)
  unfolding finish_flow
  finish_flow-Holds w key timed_out h =
      finish_found w key timed_out (lookup_flow key w.flows)
        (lookup_flow-IsFoundHttp key w.flows h.1) h

  replaced :
      (w : FlowWorker Q) (key : CollectorFlowKey) (classified : ClassifiedPacket)
      (o : Option FlowState)
      → Holds w
      → Holds (elim o [
        | none ↦ w
        | some f ↦
            if is_new_connection f classified
            then finish_flow parser json regex try_send w key true
            else w
      ])
  replaced w key classified none h = h
  replaced w key classified (some f) h =
      Holds-if (is_new_connection f classified) _ w (finish_flow-Holds w key true h) h

  replace_connection-Holds :
      (w : FlowWorker Q) (key : CollectorFlowKey) (classified : ClassifiedPacket)
      → Holds w
      → Holds (replace_connection parser json regex try_send w key classified)
  unfolding replace_connection
  replace_connection-Holds w key classified h =
      replaced w key classified (lookup_flow key w.flows) h

  admit-Holds :
      (w : FlowWorker Q) (key : CollectorFlowKey) (classified : ClassifiedPacket) (now : ℕ)
      → Holds w
      → Holds (admit parser json regex try_send w key classified now)
  unfolding admit new_flow
  admit-Holds w key classified now (i, a) =
      let fresh =
        new_flow now key.collector_id classified.source_id key.flow_key
          classified.packet.timestamp_micros w.max_stream_bytes in
      let f = flow_or_new (lookup_flow key w.flows) fresh in
      let found =
        flow_or_new-IsHttpFlow (lookup_flow key w.flows) fresh
          (lookup_flow-IsFoundHttp key w.flows a) tt in
      let (f', ready) = ingest parser json regex f classified now in
      let (u, s) = ingest-AreShown parser json regex f classified now found in
      let discarded = discarded_http f' - discarded_http f in
      let w' : FlowWorker Q = record w {
        flows = put_flow key f' w.flows;
        discarded_http =
            if discarded == 0 then w.discarded_http else saturating_add w.discarded_http discarded;
      } in
      let h = store_all-Holds w' ready s (i, put_flow-AreHttpFlows key f' w.flows u a) in
      Holds-if (classified.packet.rst || is_closed f') _ _
        (finish_flow-Holds (store_all parser json regex try_send w' ready) key false h) h

  handle_packet-Holds :
      (w : FlowWorker Q) (ingress : IngressPacket) (now : ℕ)
      → Holds w
      → Holds (handle_packet parser json regex try_send w ingress now)
  unfolding handle_packet
  handle_packet-Holds w ingress now h =
      let key = key_of ingress in
      let w' = replace_connection parser json regex try_send w key ingress.packet in
      let h' = replace_connection-Holds w key ingress.packet h in
      Holds-if _ _ _ h' (admit-Holds w' key ingress.packet now h')

  finish_flows-Holds :
      (w : FlowWorker Q) (keys : List CollectorFlowKey)
      → Holds w
      → Holds (finish_flows parser json regex try_send w keys)
  unfolding finish_flows
  finish_flows-Holds w [] h = h
  finish_flows-Holds w (key ∷ keys) h =
      finish_flows-Holds (finish_flow parser json regex try_send w key true) keys
        (finish_flow-Holds w key true h)

  handle-Holds :
      (w : FlowWorker Q) (event : Event) (now : ℕ)
      → Holds w
      → Holds (handle parser json regex try_send w event now)
  unfolding handle expire_idle
  handle-Holds w (received ingress) now h = handle_packet-Holds w ingress now h
  handle-Holds w tick now h =
      finish_flows-Holds w
        (expired_keys (should_expire (leb w.max_active_flows (length w.flows)) w.idle_timeout now)
          w.flows)
        h

  store_each-Holds :
      (w : FlowWorker Q) (flows : Flows)
      → AreHttpFlows flows
      → Holds w
      → Holds (store_each parser json regex try_send w flows)
  unfolding store_each
  store_each-Holds w [] a h = h
  store_each-Holds w ((key, f) ∷ flows) (k, a) h =
      store_each-Holds (store_all parser json regex try_send w (finish parser json regex f true))
        flows a (store_all-Holds w _ (finish-IsShown parser json regex f true k) h)

  run-Holds :
      (w : FlowWorker Q) (events : List (Event × ℕ))
      → Holds w
      → Holds (run parser json regex try_send w events)
  unfolding run
  run-Holds w [] (i, a) = store_each-Holds (record w { flows = [] }) w.flows a (i, tt)
  run-Holds w ((event, now) ∷ events) h =
      run-Holds (handle parser json regex try_send w event now) events (handle-Holds w event now h)

  -- Whatever packets and ticks a new worker handles until its channel is closed, all that it sends to
  -- the storage is worth storing, and no session of raw TCP among it shows HTTP: what sending keeps
  -- for all other sessions holds at the end.
  pub run_shown :
      (w : FlowWorker Q) (events : List (Event × ℕ))
      → w.flows ≡ []
      → I w.storage
      → I (run parser json regex try_send w events).storage
  run_shown w events e i = (run-Holds w events (i, rw e tt)).0
