-- ===== src/Collector.antt =====
-- crates/analyzer/src/collector.rs: the registry of collectors, and a connection's messages. The hash
-- map is a list; a text is its bytes, which `utf8` gives; the catalog, the socket and the channels to
-- the workers are parameters, and so is the time of each event. The log is left out.
pub mod Connection
pub mod Forwarded
pub mod Kept
pub mod Statuses
use newhatch.Common.{
  ℕ, zero, suc, ◌+◌, ltb, leb, ◌==◌, bytes_eq, if◌then◌else◌, Bool, true, false, not, ◌&&◌, ◌||◌,
  Option, none, some, List, [], ◌∷◌, length, is_empty,
}
use newhatch.Common.Int.{ℤ}
use newhatch.Wire.Messages.{IpAddr, Stats, ProtocolError}
use newhatch.Http.Decoder.{saturating_add}
use newhatch.Flow.Worker.{same_ip}

pub data ConnectionError : Type 0 where
  hello_timeout invalid_hello write_failed sources_failed revisions_closed unexpected_message :
      ConnectionError
  protocol_failed : ProtocolError → ConnectionError

pub record CollectorStatus : Type 0 where
  pub collector_id : List ℕ
  pub connected : Bool
  pub peer : List ℕ
  pub connected_at : ℤ
  pub last_activity : ℤ
  pub captured_packets : ℕ
  pub sent_packets : ℕ
  pub dropped_packets : ℕ
  pub queue_depth : ℕ
  pub reconnect_count : ℕ
  pub receiver_dropped_packets : ℕ
  pub last_error : Option ConnectionError

abbrev pub Registry : Type 0
Registry = List (List ℕ × CollectorStatus)

unfoldable pub status_of : List ℕ → Registry → Option CollectorStatus
status_of id [] = none
status_of id ((other, status) ∷ registry) =
    let rest = status_of id registry in if bytes_eq id other then some status else rest

unfoldable pub put_status : List ℕ → CollectorStatus → Registry → Registry
put_status id status [] = (id, status) ∷ []
put_status id status ((other, old) ∷ registry) =
    let rest = put_status id status registry in
    if bytes_eq id other then (other, status) ∷ registry else (other, old) ∷ rest

-- `if let Some(status) = get_mut(id)`
unfoldable pub change_status : (CollectorStatus → CollectorStatus) → List ℕ → Registry → Registry
change_status change id [] = []
change_status change id ((other, status) ∷ registry) =
    let rest = change_status change id registry in
    if bytes_eq id other then (other, change status) ∷ registry else (other, status) ∷ rest

-- CollectorRegistry::connected
unfoldable pub register : ℤ → List ℕ → List ℕ → Registry → Registry
register now peer id registry =
    put_status id
      (record {
        collector_id = id;
        connected = true;
        peer = peer;
        connected_at = now;
        last_activity = now;
        captured_packets = 0;
        sent_packets = 0;
        dropped_packets = 0;
        queue_depth = 0;
        reconnect_count = 0;
        receiver_dropped_packets = 0;
        last_error = none;
      })
      registry

-- CollectorRegistry::update_stats
unfoldable pub update_stats : ℤ → Stats → List ℕ → Registry → Registry
update_stats now stats id registry =
    change_status
      (λ status. record status {
        last_activity = now;
        captured_packets = stats.captured_packets;
        sent_packets = stats.sent_packets;
        dropped_packets = stats.dropped_packets;
        queue_depth = stats.queue_depth;
        reconnect_count = stats.reconnect_count;
      })
      id registry

-- CollectorRegistry::activity
unfoldable pub activity : ℤ → List ℕ → Registry → Registry
activity now id registry =
    change_status (λ status. record status { last_activity = now }) id registry

-- CollectorRegistry::receiver_drop
unfoldable pub receiver_drop : List ℕ → Registry → Registry
receiver_drop id registry =
    change_status
      (λ status. record status {
        receiver_dropped_packets = saturating_add status.receiver_dropped_packets 1;
      })
      id registry

-- CollectorRegistry::disconnected
unfoldable pub disconnected : ℤ → Option ConnectionError → List ℕ → Registry → Registry
disconnected now error id registry =
    change_status
      (λ status. record status { connected = false; last_activity = now; last_error = error }) id
      registry

unfoldable pub contains_ip : IpAddr → List IpAddr → Bool
contains_ip peer [] = false
contains_ip peer (ip ∷ allowed) = same_ip peer ip || contains_ip peer allowed

unfoldable pub peer_is_allowed : List IpAddr → IpAddr → Bool
peer_is_allowed allowed peer = is_empty allowed || contains_ip peer allowed
