-- ===== src/Collector/Forwarded.antt =====
-- Which packets a collector's connection (crates/analyzer/src/collector.rs) hands to the workers.
use newhatch.Common.{
  ℕ, ◌≡◌, inl, inr, if◌then◌else◌, Bool, true, false, Option, none, some, List, [], ◌∷◌, All,
  Bool-cases, Result, ok, err,
}
use newhatch.Common.Int.{ℤ, eq_ℤ, eq_ℤ_iff}
use newhatch.Wire.Messages.{
  Source, ClassifiedPacket, Body, collector_hello, hello_ack, packet, set_sources, stats, heartbeat,
  error_status, ProtocolError,
}
use newhatch.Wire.Convert.{packet_of_wire}
use newhatch.Flow.Shard.{worker_index}
use newhatch.Flow.Worker.{IngressPacket}
use newhatch.Collector.{
  ConnectionError, Registry, register, write_failed, revisions_closed, protocol_failed,
}
use newhatch.Collector.Connection.{
  Connection, Event, message, changed, source_ids, contains_id, send_sources, forward,
  handle_packet_message, handle_body, change_sources, handle_event, after_event, handle_events,
  serve,
}

-- The sources that an event tells are among those that are allowed.
abbrev pub IsAllowed : (ℤ → Type 0) → Option (List Source) → Type 0
IsAllowed Allowed none = Unit {0}
IsAllowed Allowed (some sources) = All Allowed (source_ids sources)

abbrev pub AreAllowed : (ℤ → Type 0) → List (Event × ℤ) → Type 0
AreAllowed Allowed [] = Unit {0}
AreAllowed Allowed ((message r, now) ∷ events) = AreAllowed Allowed events
AreAllowed Allowed ((changed told sources written, now) ∷ events) =
    IsAllowed Allowed sources × AreAllowed Allowed events

contained :
    (Allowed : ℤ → Type 0) (ids : List ℤ) (id : ℤ)
    → All Allowed ids
    → contains_id ids id ≡ true
    → Allowed id
unfolding contains_id
contained Allowed [] id a c = absurd (cc)
contained Allowed (other ∷ ids) id (h, a) c = elim (Bool-cases (eq_ℤ id other)) [
  | inl e ↦ let same : id ≡ other = (eq_ℤ_iff id other).0 e in rw same h
  | inr e ↦ contained Allowed ids id a (rw (e, contains_id) at c)
]

-- A property of the channels that sending keeps, for packets of allowed sources.
module _ {Q : Type 0} (id : List ℕ) (count : ℕ) (try_send : ℕ → IngressPacket → Q → Q × Bool)
    (Allowed : ℤ → Type 0) (I : Q → Type 0)
    (sends : (classified : ClassifiedPacket) (workers : Q)
      → Allowed classified.source_id
      → I workers
      → I
          (try_send
            (worker_index id classified.flow_key count)
            (record { collector_id = id; packet = classified })
            workers).0) where
  abbrev Holds : Connection Q → Type 0
  Holds c = I c.workers × All Allowed c.active_source_ids

  abbrev HoldsIfOk : Result ConnectionError (Connection Q) → Type 0
  HoldsIfOk (err e) = Unit {0}
  HoldsIfOk (ok c) = Holds c

  handle_packet_message-HoldsIfOk :
      (c : Connection Q) (now : ℤ) (r : Result ProtocolError ClassifiedPacket)
      → Holds c
      → HoldsIfOk (handle_packet_message id count try_send c now r)
  unfolding handle_packet_message forward
  handle_packet_message-HoldsIfOk c now (err e) h = tt
  handle_packet_message-HoldsIfOk c now (ok classified) (i, a) =
      elim (Bool-cases (contains_id c.active_source_ids classified.source_id)) [
        | inl e ↦ rw e (
          sends classified c.workers
              (contained Allowed c.active_source_ids classified.source_id a e) i,
          a,
        )
        | inr e ↦ rw e (i, a)
      ]

  handle_body-HoldsIfOk :
      (c : Connection Q) (now : ℤ) (body : Option Body)
      → Holds c
      → HoldsIfOk (handle_body id count try_send c now body)
  unfolding handle_body
  handle_body-HoldsIfOk c now none h = tt
  handle_body-HoldsIfOk c now (some (packet p)) h =
      handle_packet_message-HoldsIfOk c now (packet_of_wire p) h
  handle_body-HoldsIfOk c now (some (stats s)) h = h
  handle_body-HoldsIfOk c now (some (heartbeat m)) h = h
  handle_body-HoldsIfOk c now (some (error_status m)) h = h
  handle_body-HoldsIfOk c now (some (collector_hello m)) h = tt
  handle_body-HoldsIfOk c now (some (hello_ack m)) h = tt
  handle_body-HoldsIfOk c now (some (set_sources m)) h = tt

  change_sources-HoldsIfOk :
      (c : Connection Q) (sources : Option (List Source)) (written : Bool)
      → IsAllowed Allowed sources
      → Holds c
      → HoldsIfOk (change_sources id count try_send c (send_sources sources written))
  unfolding change_sources send_sources
  change_sources-HoldsIfOk c none written a h = tt
  change_sources-HoldsIfOk c (some sources) true a (i, b) = (i, a)
  change_sources-HoldsIfOk c (some sources) false a h = tt

  after_event-Holds :
      (c : Connection Q) (now : ℤ) (r : Result ConnectionError (Connection Q))
      → Holds c
      → HoldsIfOk r
      → Holds (after_event id count try_send c now r).0
  unfolding after_event
  after_event-Holds c now (err e) h k = h
  after_event-Holds c now (ok c') h k = k

  Holds-if :
      (b : Bool) (x y : Connection Q × Bool) → Holds x.0 → Holds y.0 → Holds (if b then x else y).0
  Holds-if true x y h k = h
  Holds-if false x y h k = k

  HoldsIfOk-if :
      (b : Bool) (r : Result ConnectionError (Connection Q)) (e : ConnectionError)
      → HoldsIfOk r
      → HoldsIfOk (if b then r else err e)
  HoldsIfOk-if true r e k = k
  HoldsIfOk-if false r e k = tt

  -- What follows an event whose result is `r`.
  rest-Holds :
      (c : Connection Q) (now : ℤ) (r : Result ConnectionError (Connection Q))
      (events : List (Event × ℤ))
      → Holds c
      → HoldsIfOk r
      → ((c' : Connection Q) → Holds c' → Holds (handle_events id count try_send c' events).0)
      → let (c', ended) = after_event id count try_send c now r in
        Holds (if ended then (c', true) else handle_events id count try_send c' events).0
  rest-Holds c now r events h k continues =
      let (c', ended) = after_event id count try_send c now r in
      let h' = after_event-Holds c now r h k in
      Holds-if ended (c', true) (handle_events id count try_send c' events) h' (continues c' h')

  handle_events-Holds :
      (c : Connection Q) (events : List (Event × ℤ))
      → AreAllowed Allowed events
      → Holds c
      → Holds (handle_events id count try_send c events).0
  unfolding handle_events handle_event
  handle_events-Holds c [] a h = h
  handle_events-Holds c ((message (err e), now) ∷ events) a h =
      rest-Holds c now (err (protocol_failed e)) events h tt
        (λ c' h'. handle_events-Holds c' events a h')
  handle_events-Holds c ((message (ok envelope), now) ∷ events) a h =
      rest-Holds c now (handle_body id count try_send c now envelope.body) events h
        (handle_body-HoldsIfOk c now envelope.body h) (λ c' h'. handle_events-Holds c' events a h')
  handle_events-Holds c ((changed told sources written, now) ∷ events) (s, a) h =
      rest-Holds c now
        (if told
          then change_sources id count try_send c (send_sources sources written)
          else err revisions_closed)
        events h
        (HoldsIfOk-if told _ revisions_closed (change_sources-HoldsIfOk c sources written s h))
        (λ c' h'. handle_events-Holds c' events a h')

  -- A connection hands the workers only packets of sources that the collector was told, with the
  -- collector's id, and each to the worker that its id and flow key give: what sending such packets
  -- keeps holds however far the connection comes.
  pub serve_forwards :
      (now : ℤ) (peer : List ℕ) (registry : Registry) (workers : Q) (answered : Bool)
      (sources : Option (List Source)) (written : Bool) (events : List (Event × ℤ))
      → IsAllowed Allowed sources
      → AreAllowed Allowed events
      → I workers
      → I
          (serve id count try_send now peer registry workers answered sources written
            events).0.workers
  unfolding serve
  serve_forwards now peer registry workers answered sources written events s a i =
      let c : Connection Q = record {
        registry = register now peer id registry;
        workers = workers;
        active_source_ids = [];
      } in
      let begun =
        if answered
        then change_sources id count try_send c (send_sources sources written)
        else err write_failed in
      (rest-Holds c now begun events (i, tt)
        (HoldsIfOk-if answered _ write_failed
          (change_sources-HoldsIfOk c sources written s (i, tt)))
        (λ c' h'. handle_events-Holds c' events a h')).0
