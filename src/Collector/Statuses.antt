-- ===== src/Collector/Statuses.antt =====
-- What a collector's connection (crates/analyzer/src/collector.rs) does to the registry.
use newhatch.Common.{
  ℕ, ◌≡◌, inl, inr, refl, ◌∙◌, bytes_eq, if◌then◌else◌, Bool, true, false, ◌&&◌, Option, none, some,
  List, [], ◌∷◌, Bool-cases, Result, ok, err,
}
use newhatch.Common.Int.{ℤ}
use newhatch.Wire.Messages.{
  Source, ClassifiedPacket, Body, collector_hello, hello_ack, packet, set_sources, stats, heartbeat,
  error_status, ProtocolError,
}
use newhatch.Wire.Convert.{packet_of_wire}
use newhatch.Flow.Shard.{worker_index}
use newhatch.Flow.Worker.{IngressPacket}
use newhatch.Collector.{
  ConnectionError, CollectorStatus, Registry, status_of, put_status, register, update_stats,
  activity, receiver_drop, disconnected, write_failed,
}
use newhatch.Collector.Connection.{
  Connection, Event, message, changed, send_sources, contains_id, forward, handle_packet_message,
  handle_body, change_sources, handle_event, after_event, handle_events, serve,
}
use newhatch.Collector.Kept.{
  SameOthers, change_status-SameOthers, put_status-SameOthers, status_of-put_status,
  status_of-change_status, IsKept, change_status-IsKept, IsKept-refl, IsKept-trans, IsKept-if,
}

module _ {Q : Type 0} (id : List ℕ) (count : ℕ) (try_send : ℕ → IngressPacket → Q → Q × Bool) where
  abbrev KeepsIfOk : Connection Q → Result ConnectionError (Connection Q) → Type 0
  KeepsIfOk c (err e) = Unit {0}
  KeepsIfOk c (ok c') = IsKept id c.registry c'.registry

  KeepsIfOk-if :
      (c : Connection Q) (b : Bool) (r : Result ConnectionError (Connection Q))
      (e : ConnectionError)
      → KeepsIfOk c r
      → KeepsIfOk c (if b then r else err e)
  KeepsIfOk-if c true r e k = k
  KeepsIfOk-if c false r e k = tt

  forward-IsKept :
      (c : Connection Q) (now : ℤ) (classified : ClassifiedPacket)
      → IsKept id c.registry (forward id count try_send c now classified).registry
  unfolding forward activity receiver_drop
  forward-IsKept c now classified =
      let (workers, sent) =
        try_send (worker_index id classified.flow_key count)
          (record { collector_id = id; packet = classified }) c.workers in
      let active = activity now id c.registry in
      let k =
        change_status-IsKept (λ status. record status { last_activity = now }) id c.registry in
      IsKept-if id c.registry sent active (receiver_drop id active) k (
        IsKept-trans id c.registry active (receiver_drop id active) k
          (change_status-IsKept _ id active))

  handle_packet_message-KeepsIfOk :
      (c : Connection Q) (now : ℤ) (r : Result ProtocolError ClassifiedPacket)
      → KeepsIfOk c (handle_packet_message id count try_send c now r)
  unfolding handle_packet_message
  handle_packet_message-KeepsIfOk c now (err e) = tt
  handle_packet_message-KeepsIfOk c now (ok classified) =
      elim (Bool-cases (contains_id c.active_source_ids classified.source_id)) [
        | inl e ↦ rw e (forward-IsKept c now classified)
        | inr e ↦ rw e (IsKept-refl id c.registry)
      ]

  handle_body-KeepsIfOk :
      (c : Connection Q) (now : ℤ) (body : Option Body)
      → KeepsIfOk c (handle_body id count try_send c now body)
  unfolding handle_body update_stats activity
  handle_body-KeepsIfOk c now none = tt
  handle_body-KeepsIfOk c now (some (packet p)) =
      handle_packet_message-KeepsIfOk c now (packet_of_wire p)
  handle_body-KeepsIfOk c now (some (stats s)) = change_status-IsKept _ id c.registry
  handle_body-KeepsIfOk c now (some (heartbeat m)) = change_status-IsKept _ id c.registry
  handle_body-KeepsIfOk c now (some (error_status m)) = IsKept-refl id c.registry
  handle_body-KeepsIfOk c now (some (collector_hello m)) = tt
  handle_body-KeepsIfOk c now (some (hello_ack m)) = tt
  handle_body-KeepsIfOk c now (some (set_sources m)) = tt

  -- Of a connection that has the status of its collector: it keeps the others, and where it has ended
  -- the collector is disconnected.
  abbrev EndsWell : Registry → Connection Q × Bool → Type 0
  EndsWell registry (c, ended) =
      SameOthers id registry c.registry
      × (status : CollectorStatus) × (status_of id c.registry ≡ some status)
      × (ended && status.connected ≡ false)

  change_sources-KeepsIfOk :
      (c : Connection Q) (r : Result ConnectionError (List ℤ))
      → KeepsIfOk c (change_sources id count try_send c r)
  unfolding change_sources
  change_sources-KeepsIfOk c (err e) = tt
  change_sources-KeepsIfOk c (ok ids) = IsKept-refl id c.registry

  handle_event-KeepsIfOk :
      (c : Connection Q) (now : ℤ) (event : Event)
      → KeepsIfOk c (handle_event id count try_send c now event)
  unfolding handle_event
  handle_event-KeepsIfOk c now (message (err e)) = tt
  handle_event-KeepsIfOk c now (message (ok envelope)) = handle_body-KeepsIfOk c now envelope.body
  handle_event-KeepsIfOk c now (changed true sources written) =
      change_sources-KeepsIfOk c (send_sources sources written)
  handle_event-KeepsIfOk c now (changed false sources written) = tt

  after_event-EndsWell :
      (registry : Registry) (c : Connection Q) (now : ℤ) (r : Result ConnectionError (Connection Q))
      (status : CollectorStatus)
      → SameOthers id registry c.registry
      → status_of id c.registry ≡ some status
      → KeepsIfOk c r
      → EndsWell registry (after_event id count try_send c now r)
  unfolding after_event disconnected
  after_event-EndsWell registry c now (err e) status o p k =
      let change = λ (s : CollectorStatus). (record s {
        connected = false;
        last_activity = now;
        last_error = some e;
      }) in
      (
        λ other d. change_status-SameOthers change id c.registry other d ∙ o other d,
        change status,
        status_of-change_status change id c.registry status p,
        refl,
      )
  after_event-EndsWell registry c now (ok c') status o p k =
      let (status', p') = k.there status p in
      (λ other d. k.others other d ∙ o other d, status', p', refl)

  EndsWell-if :
      (registry : Registry) (b : Bool) (c : Connection Q) (rest : Connection Q × Bool)
      → EndsWell registry (c, b)
      → EndsWell registry rest
      → EndsWell registry (if b then (c, true) else rest)
  EndsWell-if registry true c rest w v = w
  EndsWell-if registry false c rest w v = v

  rest-EndsWell :
      (registry : Registry) (c : Connection Q) (now : ℤ) (r : Result ConnectionError (Connection Q))
      (status : CollectorStatus) (events : List (Event × ℤ))
      → SameOthers id registry c.registry
      → status_of id c.registry ≡ some status
      → KeepsIfOk c r
      → ((c' : Connection Q) (status' : CollectorStatus)
          → SameOthers id registry c'.registry
          → status_of id c'.registry ≡ some status'
          → EndsWell registry (handle_events id count try_send c' events))
      → let (c', ended) = after_event id count try_send c now r in
        EndsWell registry (if ended then (c', true) else handle_events id count try_send c' events)
  rest-EndsWell registry c now r status events o p k continues =
      let (c', ended) = after_event id count try_send c now r in
      let (o', status', p', off) = after_event-EndsWell registry c now r status o p k in
      EndsWell-if registry ended c' (handle_events id count try_send c' events)
        (o', status', p', off) (continues c' status' o' p')

  handle_events-EndsWell :
      (registry : Registry) (c : Connection Q) (status : CollectorStatus)
      (events : List (Event × ℤ))
      → SameOthers id registry c.registry
      → status_of id c.registry ≡ some status
      → EndsWell registry (handle_events id count try_send c events)
  unfolding handle_events
  handle_events-EndsWell registry c status [] o p = (o, status, p, refl)
  handle_events-EndsWell registry c status ((event, now) ∷ events) o p =
      rest-EndsWell registry c now (handle_event id count try_send c now event) status events o p
        (handle_event-KeepsIfOk c now event)
        (λ c' status' o' p'. handle_events-EndsWell registry c' status' events o' p')

  -- However far a collector's connection comes, it leaves the statuses of the other collectors as they
  -- are; its own status is there, and is not marked as connected once the connection has ended.
  pub serve_statuses :
      (now : ℤ) (peer : List ℕ) (registry : Registry) (workers : Q) (answered : Bool)
      (sources : Option (List Source)) (written : Bool) (events : List (Event × ℤ))
      → let (c, ended) =
          serve id count try_send now peer registry workers answered sources written events in
        ((other : List ℕ)
          → bytes_eq other id ≡ false
          → status_of other c.registry ≡ status_of other registry)
        × (status : CollectorStatus) × (status_of id c.registry ≡ some status)
        × (ended && status.connected ≡ false)
  unfolding serve register
  serve_statuses now peer registry workers answered sources written events =
      let fresh : CollectorStatus = record {
        collector_id = id;
        connected = true;
        peer = peer;
        connected_at = now;
        last_activity = now;
        captured_packets = 0;
        sent_packets = 0;
        dropped_packets = 0;
        queue_depth = 0;
        reconnect_count = 0;
        receiver_dropped_packets = 0;
        last_error = none;
      } in
      let c : Connection Q = record {
        registry = put_status id fresh registry;
        workers = workers;
        active_source_ids = [];
      } in
      let told = change_sources id count try_send c (send_sources sources written) in
      rest-EndsWell registry c now (if answered then told else err write_failed) fresh events
        (put_status-SameOthers id fresh registry) (status_of-put_status id fresh registry)
        (KeepsIfOk-if c answered told write_failed
          (change_sources-KeepsIfOk c (send_sources sources written)))
        (λ c' status' o' p'. handle_events-EndsWell registry c' status' events o' p')
