-- ===== src/Tests/Collector.antt =====
-- Connections of collectors (crates/analyzer/src/collector.rs): the theorems at concrete inputs.
use newhatch.Common.{ℕ, ◌≡◌, refl, bytes_eq, ◌&&◌, Bool, true, false, some, List, [], ◌∷◌, All, ok}
use newhatch.Common.Int.{ℤ, pos}
use newhatch.Wire.Messages.{Source, new_envelope, heartbeat, packet}
use newhatch.Wire.Convert.{packet_to_wire}
use newhatch.Flow.Worker.{IngressPacket}
use newhatch.Collector.{CollectorStatus, status_of}
use newhatch.Collector.Connection.{Event, message, serve, source_ids}
use newhatch.Collector.Forwarded.{serve_forwards}
use newhatch.Collector.Statuses.{serve_statuses}
use newhatch.Tests.Worker.{client_syn}

abbrev Log : Type 0
Log = List IngressPacket

-- Channels that take all, in one list.
abbrev keep : ℕ → IngressPacket → Log → Log × Bool
keep worker ingress packets = (ingress ∷ packets, true)

abbrev web : Source
web = record { id = pos 1; name = "web"; port = 80; enabled = true }

abbrev arrivals : List (Event × ℤ)
arrivals =
    (message (ok (new_envelope (packet (packet_to_wire client_syn)))), pos 3)
    ∷ (message (ok (new_envelope (heartbeat (record { timestamp_micros = pos 4 })))), pos 4)
    ∷ []

abbrev IsFirst : ℤ → Type 0
IsFirst id = id ≡ pos 1

first_only : All IsFirst (source_ids (web ∷ []))
unfolding source_ids
first_only = (refl, tt)

serve_forwards_example :
    All
      (λ (ingress : IngressPacket). IsFirst ingress.packet.source_id)
      (serve (b'a' ∷ []) 2 keep (pos 2) [] [] [] true (some (web ∷ [])) true arrivals).0.workers
serve_forwards_example =
    serve_forwards (b'a' ∷ []) 2 keep IsFirst
      (λ (packets : Log).
        All (λ (ingress : IngressPacket). IsFirst ingress.packet.source_id) packets)
      (λ classified packets allowed all. (allowed, all)) (pos 2) [] [] [] true (some (web ∷ []))
      true arrivals first_only tt tt

serve_statuses_example :
    let (c, ended) =
      serve (b'a' ∷ []) 2 keep (pos 2) [] [] [] true (some (web ∷ [])) true arrivals in
    ((other : List ℕ)
      → bytes_eq other (b'a' ∷ []) ≡ false
      → status_of other c.registry ≡ status_of other [])
    × (status : CollectorStatus) × (status_of (b'a' ∷ []) c.registry ≡ some status)
    × (ended && status.connected ≡ false)
serve_statuses_example =
    serve_statuses (b'a' ∷ []) 2 keep (pos 2) [] [] [] true (some (web ∷ [])) true arrivals
