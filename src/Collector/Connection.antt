-- ===== src/Collector/Connection.antt =====
-- `handle_connection` of crates/analyzer/src/collector.rs: the handshake and the loop over messages
-- and changes of the sources.
use newhatch.Common.{
  ℕ, leb, if◌then◌else◌, Bool, true, false, not, ◌&&◌, ◌||◌, Option, none, some, List, [], ◌∷◌,
  length, is_empty, String, Result, ok, err,
}
use newhatch.Common.Int.{ℤ, eq_ℤ}
use newhatch.Common.Text.{trim_str}
use newhatch.Wire.Messages.{
  Source, ClassifiedPacket, Envelope, Body, collector_hello, hello_ack, packet, set_sources, stats,
  heartbeat, error_status, ProtocolError,
}
use newhatch.Wire.Convert.{packet_of_wire}
use newhatch.Flow.Shard.{worker_index}
use newhatch.Flow.Worker.{IngressPacket}
use newhatch.Collector.{
  ConnectionError, Registry, register, update_stats, activity, receiver_drop, disconnected,
  hello_timeout, invalid_hello, write_failed, sources_failed, revisions_closed, unexpected_message,
  protocol_failed,
}

-- The registry and the channels, and the ids of the sources that were sent to the collector.
pub record Connection (Q : Type 0) : Type 0 where
  pub registry : Registry
  pub workers : Q
  pub active_source_ids : List ℤ

-- What the loop waits for: what `read_frame` returns, or a change of the sources, with whether the
-- channel still tells one, what `list_sources` returns, and whether they are written.
pub data Event : Type 0 where
  message : Result ProtocolError Envelope → Event
  changed : Bool → Option (List Source) → Bool → Event

unfoldable pub source_ids : List Source → List ℤ
source_ids [] = []
source_ids (source ∷ sources) = source.id ∷ source_ids sources

unfoldable pub contains_id : List ℤ → ℤ → Bool
contains_id [] id = false
contains_id (other ∷ ids) id = eq_ℤ id other || contains_id ids id

-- send_sources
unfoldable pub send_sources : Option (List Source) → Bool → Result ConnectionError (List ℤ)
send_sources none written = err sources_failed
send_sources (some sources) written = if written then ok (source_ids sources) else err write_failed

-- The id of a valid hello; `none` stands for the timeout.
unfoldable pub hello_body : (String → List ℕ) → Option Body → Result ConnectionError (List ℕ)
hello_body utf8 none = err invalid_hello
hello_body utf8 (some (collector_hello hello)) =
    let id = utf8 hello.collector_id in
    if not (is_empty (trim_str id)) && leb (length id) 128 then ok id else err invalid_hello
hello_body utf8 (some (hello_ack m)) = err invalid_hello
hello_body utf8 (some (packet m)) = err invalid_hello
hello_body utf8 (some (set_sources m)) = err invalid_hello
hello_body utf8 (some (stats m)) = err invalid_hello
hello_body utf8 (some (heartbeat m)) = err invalid_hello
hello_body utf8 (some (error_status m)) = err invalid_hello

unfoldable pub check_hello :
    (String → List ℕ) → Option (Result ProtocolError Envelope) → Result ConnectionError (List ℕ)
check_hello utf8 none = err hello_timeout
check_hello utf8 (some (err e)) = err (protocol_failed e)
check_hello utf8 (some (ok envelope)) = hello_body utf8 envelope.body

-- Of a collector with the id, to workers of this number; `try_send` is the channel's, of a worker.
module _ {Q : Type 0} (id : List ℕ) (count : ℕ) (try_send : ℕ → IngressPacket → Q → Q × Bool) where
  unfoldable pub forward : Connection Q → ℤ → ClassifiedPacket → Connection Q
  forward c now classified =
      let (workers, sent) =
        try_send (worker_index id classified.flow_key count)
          (record { collector_id = id; packet = classified }) c.workers in
      let registry = activity now id c.registry in
      record c {
        workers = workers;
        registry = if sent then registry else receiver_drop id registry;
      }

  unfoldable pub handle_packet_message :
      Connection Q
      → ℤ
      → Result ProtocolError ClassifiedPacket
      → Result ConnectionError (Connection Q)
  handle_packet_message c now (err e) = err (protocol_failed e)
  handle_packet_message c now (ok classified) =
      if contains_id c.active_source_ids classified.source_id
      then ok (forward c now classified)
      else ok c

  unfoldable pub handle_body :
      Connection Q → ℤ → Option Body → Result ConnectionError (Connection Q)
  handle_body c now none = err unexpected_message
  handle_body c now (some (packet p)) = handle_packet_message c now (packet_of_wire p)
  handle_body c now (some (stats s)) = ok (record c { registry = update_stats now s id c.registry })
  handle_body c now (some (heartbeat m)) = ok (record c { registry = activity now id c.registry })
  handle_body c now (some (error_status m)) = ok c
  handle_body c now (some (collector_hello m)) = err unexpected_message
  handle_body c now (some (hello_ack m)) = err unexpected_message
  handle_body c now (some (set_sources m)) = err unexpected_message

  unfoldable pub change_sources :
      Connection Q → Result ConnectionError (List ℤ) → Result ConnectionError (Connection Q)
  change_sources c (err e) = err e
  change_sources c (ok ids) = ok (record c { active_source_ids = ids })

  unfoldable pub handle_event : Connection Q → ℤ → Event → Result ConnectionError (Connection Q)
  handle_event c now (message (err e)) = err (protocol_failed e)
  handle_event c now (message (ok envelope)) = handle_body c now envelope.body
  handle_event c now (changed told sources written) =
      if told then change_sources c (send_sources sources written) else err revisions_closed

  -- The loop, until an error ends it: then the collector is disconnected.
  unfoldable pub after_event :
      Connection Q → ℤ → Result ConnectionError (Connection Q) → Connection Q × Bool
  after_event c now (err e) =
      (record c { registry = disconnected now (some e) id c.registry }, true)
  after_event c now (ok c') = (c', false)

  unfoldable pub handle_events : Connection Q → List (Event × ℤ) → Connection Q × Bool
  handle_events c [] = (c, false)
  handle_events c ((event, now) ∷ events) =
      let (c', ended) = after_event c now (handle_event c now event) in
      let rest = handle_events c' events in if ended then (c', true) else rest

  -- What follows a valid hello, at the time `now`: whether the answer and the sources are written.
  unfoldable pub serve :
      ℤ
      → List ℕ
      → Registry
      → Q
      → Bool
      → Option (List Source)
      → Bool
      → List (Event × ℤ)
      → Connection Q × Bool
  serve now peer registry workers answered sources written events =
      let c : Connection Q = record {
        registry = register now peer id registry;
        workers = workers;
        active_source_ids = [];
      } in
      let begun =
        if answered then change_sources c (send_sources sources written) else err write_failed in
      let (c', ended) = after_event c now begun in
      let rest = handle_events c' events in if ended then (c', true) else rest

-- handle_connection: the registry, the channels, and whether the connection has ended.
unfoldable pub handle_connection :
    {Q : Type 0}
    → (String → List ℕ)
    → ℕ
    → (ℕ → IngressPacket → Q → Q × Bool)
    → ℤ
    → List ℕ
    → Option (Result ProtocolError Envelope)
    → Registry
    → Q
    → Bool
    → Option (List Source)
    → Bool
    → List (Event × ℤ)
    → Registry × Q × Bool
handle_connection utf8 count try_send now peer hello registry workers answered sources written
      events =
    elim (check_hello utf8 hello) [
      | err e ↦ (registry, workers, true)
      | ok id ↦
          let (c, ended) =
            serve id count try_send now peer registry workers answered sources written events in
          (c.registry, c.workers, ended)
    ]
