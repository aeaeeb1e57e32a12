-- ===== src/Flow/Worker.antt =====
-- `FlowWorker` of crates/analyzer/src/flow.rs with `StorageHandle::try_store` of
-- crates/analyzer/src/storage/mod.rs. The hash map of connections is a list of keys and values, in
-- whose order those that expire are finished; the channel to the writer is a parameter: a state, and
-- what sending does with it. `now` is the instant of a call; the log is left out.
pub mod Shown
pub mod Room
use newhatch.Common.{
  ℕ, zero, suc, ◌+◌, ◌-◌, ltb, leb, ◌==◌, bytes_eq, if◌then◌else◌, Bool, true, false, not, ◌&&◌,
  ◌||◌, Option, none, some, List, [], ◌∷◌, ◌++◌, length, is_empty,
}
use newhatch.Wire.Messages.{IpAddr, v4, v6, Endpoint, FlowKey, ClassifiedPacket}
use newhatch.Domain.{SessionProtocol, raw_tcp, http, web_socket, CompletedSession}
use newhatch.Payload.Json.{JsonLibrary}
use newhatch.Http.Framing.{Httparse}
use newhatch.Http.Decoder.{saturating_add}
use newhatch.Flow.Assembler.{is_some}
use newhatch.Flow.State.{
  FlowState, Regex, new_flow, is_new_connection, is_closed, discarded_http, expired,
  idle_http_context,
}
use newhatch.Flow.Ingest.{ingest, finish}

pub record CollectorFlowKey : Type 0 where
  pub collector_id : List ℕ
  pub flow_key : FlowKey

-- IngressPacket
pub record IngressPacket : Type 0 where
  pub collector_id : List ℕ
  pub packet : ClassifiedPacket

unfoldable pub same_ip : IpAddr → IpAddr → Bool
same_ip (v4 a) (v4 b) = bytes_eq a b
same_ip (v6 a) (v6 b) = bytes_eq a b
same_ip (v4 a) (v6 b) = false
same_ip (v6 a) (v4 b) = false

unfoldable pub same_endpoint : Endpoint → Endpoint → Bool
same_endpoint a b = same_ip a.ip b.ip && a.port == b.port

-- The derived equality of keys.
unfoldable pub same_key : CollectorFlowKey → CollectorFlowKey → Bool
same_key a b =
    bytes_eq a.collector_id b.collector_id
    && same_endpoint a.flow_key.client b.flow_key.client
    && same_endpoint a.flow_key.server b.flow_key.server

abbrev pub Flows : Type 0
Flows = List (CollectorFlowKey × FlowState)

unfoldable pub lookup_flow : CollectorFlowKey → Flows → Option FlowState
lookup_flow key [] = none
lookup_flow key ((other, f) ∷ flows) =
    let rest = lookup_flow key flows in if same_key key other then some f else rest

unfoldable pub remove_flow : CollectorFlowKey → Flows → Flows
remove_flow key [] = []
remove_flow key ((other, f) ∷ flows) =
    let rest = remove_flow key flows in if same_key key other then rest else (other, f) ∷ rest

-- A new value under a key that is there, or a new entry.
unfoldable pub put_flow : CollectorFlowKey → FlowState → Flows → Flows
put_flow key value [] = (key, value) ∷ []
put_flow key value ((other, f) ∷ flows) =
    let rest = put_flow key value flows in
    if same_key key other then (other, value) ∷ flows else (other, f) ∷ rest

pub record FlowWorker (Q : Type 0) : Type 0 where
  pub flows : Flows
  pub storage : Q
  pub idle_timeout : ℕ
  pub max_active_flows : ℕ
  pub max_stream_bytes : ℕ
  pub dropped_flows : ℕ
  pub dropped_sessions : ℕ
  pub discarded_http : ℕ

-- should_persist
unfoldable pub should_persist : CompletedSession → Bool
should_persist session = elim session.protocol [
  | raw_tcp ↦ not (is_empty session.to_server) || not (is_empty session.to_client)
  | http ↦ true
  | web_socket ↦ true
]

unfoldable pub flow_or_new : Option FlowState → FlowState → FlowState
flow_or_new none fresh = fresh
flow_or_new (some f) fresh = f

unfoldable pub key_of : IngressPacket → CollectorFlowKey
key_of ingress = record { collector_id = ingress.collector_id; flow_key = ingress.packet.flow_key }

-- The connections that `expire_idle` ends.
unfoldable pub should_expire : Bool → ℕ → ℕ → FlowState → Bool
should_expire admission_pressure timeout now f =
    expired f now timeout
    || admission_pressure && idle_http_context f && leb timeout (now - f.last_payload)

unfoldable pub expired_keys : (FlowState → Bool) → Flows → List CollectorFlowKey
expired_keys test [] = []
expired_keys test ((key, f) ∷ flows) =
    let rest = expired_keys test flows in if test f then key ∷ rest else rest

-- What the loop of `run` waits for: a packet, or a tick of the clock.
pub data Event : Type 0 where
  received : IngressPacket → Event
  tick : Event

module _ (parser : Httparse) (json : JsonLibrary) (regex : Regex) {Q : Type 0}
    (try_send : CompletedSession → Q → Q × Bool) where
  -- StorageHandle::try_store
  unfoldable pub try_store : CompletedSession → Q → Q × Bool
  try_store session storage =
      if should_persist session then try_send session storage else (storage, true)

  unfoldable pub store_one : FlowWorker Q → CompletedSession → FlowWorker Q
  store_one w session =
      let (storage, stored) = try_store session w.storage in
      record w {
        storage = storage;
        dropped_sessions =
            if stored then w.dropped_sessions else saturating_add w.dropped_sessions 1;
      }

  -- FlowWorker::store_all
  unfoldable pub store_all : FlowWorker Q → List CompletedSession → FlowWorker Q
  store_all w [] = w
  store_all w (session ∷ sessions) = store_all (store_one w session) sessions

  -- `remove(&key)`, and the sessions of what was removed.
  unfoldable pub finish_flow : FlowWorker Q → CollectorFlowKey → Bool → FlowWorker Q
  finish_flow w key timed_out = elim (lookup_flow key w.flows) [
    | none ↦ w
    | some f ↦
        store_all (record w { flows = remove_flow key w.flows })
          (finish parser json regex f timed_out)
  ]

  -- A packet of a new connection with the same endpoints ends the old one.
  unfoldable pub replace_connection :
      FlowWorker Q → CollectorFlowKey → ClassifiedPacket → FlowWorker Q
  replace_connection w key classified = elim (lookup_flow key w.flows) [
    | none ↦ w
    | some f ↦ if is_new_connection f classified then finish_flow w key true else w
  ]

  -- `handle_packet` for a connection that is there or for which there is room.
  unfoldable pub admit : FlowWorker Q → CollectorFlowKey → ClassifiedPacket → ℕ → FlowWorker Q
  admit w key classified now =
      let fresh =
        new_flow now key.collector_id classified.source_id key.flow_key
          classified.packet.timestamp_micros w.max_stream_bytes in
      let f = flow_or_new (lookup_flow key w.flows) fresh in
      let (f', ready) = ingest parser json regex f classified now in
      let discarded = discarded_http f' - discarded_http f in
      let w' =
        store_all
          (record w {
            flows = put_flow key f' w.flows;
            discarded_http =
                if discarded == 0
                then w.discarded_http
                else saturating_add w.discarded_http discarded;
          })
          ready in
      if classified.packet.rst || is_closed f' then finish_flow w' key false else w'

  -- FlowWorker::handle_packet
  unfoldable pub handle_packet : FlowWorker Q → IngressPacket → ℕ → FlowWorker Q
  handle_packet w ingress now =
      let key = key_of ingress in
      let w' = replace_connection w key ingress.packet in
      if not (is_some (lookup_flow key w'.flows)) && leb w'.max_active_flows (length w'.flows)
      then record w' { dropped_flows = saturating_add w'.dropped_flows 1 }
      else admit w' key ingress.packet now

  unfoldable pub finish_flows : FlowWorker Q → List CollectorFlowKey → FlowWorker Q
  finish_flows w [] = w
  finish_flows w (key ∷ keys) = finish_flows (finish_flow w key true) keys

  -- FlowWorker::expire_idle
  unfoldable pub expire_idle : FlowWorker Q → ℕ → FlowWorker Q
  expire_idle w now =
      let admission_pressure = leb w.max_active_flows (length w.flows) in
      finish_flows w (expired_keys (should_expire admission_pressure w.idle_timeout now) w.flows)

  unfoldable pub store_each : FlowWorker Q → Flows → FlowWorker Q
  store_each w [] = w
  store_each w ((key, f) ∷ flows) = store_each (store_all w (finish parser json regex f true)) flows

  unfoldable pub handle : FlowWorker Q → Event → ℕ → FlowWorker Q
  handle w (received ingress) now = handle_packet w ingress now
  handle w tick now = expire_idle w now

  -- FlowWorker::run: the events with their instants, until the channel is closed.
  unfoldable pub run : FlowWorker Q → List (Event × ℕ) → FlowWorker Q
  run w [] = store_each (record w { flows = [] }) w.flows
  run w ((event, now) ∷ events) = run (handle w event now) events
