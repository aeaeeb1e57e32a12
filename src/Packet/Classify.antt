-- ===== src/Packet/Classify.antt =====
-- `classify` of crates/collector/src/packet.rs: the direction of a packet and the key of its flow,
-- by the monitored port that it comes from or goes to.
use newhatch.Common.{ℕ, ◌≡◌, refl, ◌==◌, if◌then◌else◌, arith, Bool-cases, inl, inr, ◌⊎◌}
use newhatch.Common.{
  ◌↔◌, All, Option-cases, Bool, true, false, ◌&&◌, Option, none, some, List, [], ◌∷◌,
}
use mathlib.Core.Path.{subst}
use newhatch.Wire.Messages.{Source, c2s, s2c, TcpPacket, ClassifiedPacket}

-- The closures of the two calls of `Iterator::find`.
abbrev pub monitors : ℕ → Source → Bool
monitors port source = source.enabled && source.port == port

unfoldable pub find_source : ℕ → List Source → Option Source
find_source port [] = none
find_source port (source ∷ sources) =
    if monitors port source then some source else find_source port sources

unfoldable pub classify : TcpPacket → List Source → Option ClassifiedPacket
classify packet sources = elim (find_source packet.dst.port sources) [
  | some source ↦ some (record {
    source_id = source.id;
    direction = c2s;
    flow_key = record { client = packet.src; server = packet.dst };
    packet = packet;
  })
  | none ↦ elim (find_source packet.src.port sources) [
    | some source ↦ some (record {
      source_id = source.id;
      direction = s2c;
      flow_key = record { client = packet.dst; server = packet.src };
      packet = packet;
    })
    | none ↦ none
  ]
]

-- `source` is the first of the sources that are enabled and have the port.
pub data IsFirst (port : ℕ) (source : Source) : List Source → Type 0 where
  found :
      {other : Source} {sources : List Source}
      → other ≡ source
      → monitors port other ≡ true
      → IsFirst port source (other ∷ sources)
  later :
      {other : Source} {sources : List Source}
      → monitors port other ≡ false
      → IsFirst port source sources
      → IsFirst port source (other ∷ sources)

find_source-IsFirst :
    (port : ℕ) (sources : List Source) (source : Source)
    → find_source port sources ≡ some source
    → IsFirst port source sources
unfolding find_source
find_source-IsFirst port [] source h = cc
find_source-IsFirst port (x ∷ xs) source h = elim (Bool-cases (monitors port x)) [
  | inl e ↦ found (ground arith) e
  | inr e ↦ later e (find_source-IsFirst port xs source (ground arith))
]

find_source-none_iff :
    (port : ℕ) (sources : List Source)
    → (find_source port sources ≡ none) ↔ All (λ s. monitors port s ≡ false) sources
unfolding find_source
find_source-none_iff port [] = (λ _. tt, λ _. refl)
find_source-none_iff port (x ∷ xs) = elim (Bool-cases (monitors port x)) [
  | inl e ↦ (λ h. ground arith, λ h. ground arith)
  | inr e ↦ (
    λ h. (e, (find_source-none_iff port xs).0 (ground arith)),
    λ h. ground (arith, (find_source-none_iff port xs).1 h.1),
  )
]

-- A packet is classified by the first enabled source of its destination's port, as going to the
-- server, or, where no enabled source has that port, by the first of its origin's, as coming from
-- the server; the server's end of the flow key has that source's port, and the packet is kept.
abbrev pub IsClass : TcpPacket → List Source → ClassifiedPacket → Type 0
IsClass p sources c =
    (c.packet ≡ p)
    × ((source : Source) × (source.id ≡ c.source_id)
        × IsFirst c.flow_key.server.port source sources)
    × (((c.direction ≡ c2s) × (c.flow_key ≡ record { client = p.src; server = p.dst }))
        ⊎ ((c.direction ≡ s2c)
            × (c.flow_key ≡ record { client = p.dst; server = p.src })
            × All (λ s. monitors p.dst.port s ≡ false) sources))

pub classify-IsClass :
    (p : TcpPacket) (sources : List Source) (c : ClassifiedPacket)
    → classify p sources ≡ some c
    → IsClass p sources c
unfolding classify
classify-IsClass p sources c h = elim (Option-cases (find_source p.dst.port sources)) [
  | inr (s, e) ↦
      let port : p.dst.port ≡ c.flow_key.server.port = ground arith in
      (
        ground arith,
        (
          s,
          ground arith,
          subst (λ (k : ℕ). IsFirst k s sources) port (find_source-IsFirst _ sources s e),
        ),
        inl (ground arith, ground arith),
      )
  | inl e ↦ elim (Option-cases (find_source p.src.port sources)) [
    | inr (s, e') ↦
        let port : p.src.port ≡ c.flow_key.server.port = ground arith in
        (
          ground arith,
          (
            s,
            ground arith,
            subst (λ (k : ℕ). IsFirst k s sources) port (find_source-IsFirst _ sources s e'),
          ),
          inr (ground arith, ground arith, (find_source-none_iff p.dst.port sources).0 e),
        )
    | inl e' ↦ absurd (ground arith)
  ]
]

-- A packet is dropped exactly when no enabled source has the port of either of its ends.
pub classify-none_iff :
    (p : TcpPacket) (sources : List Source)
    → (classify p sources ≡ none) ↔ (
        All (λ s. monitors p.dst.port s ≡ false) sources
        × All (λ s. monitors p.src.port s ≡ false) sources)
unfolding classify
classify-none_iff p sources = (
  λ h. (
    (find_source-none_iff p.dst.port sources).0 (ground arith),
    (find_source-none_iff p.src.port sources).0 (ground arith),
  ),
  λ h. ground (
    arith,
    (find_source-none_iff p.dst.port sources).1 h.0,
    (find_source-none_iff p.src.port sources).1 h.1,
  ),
)

-- A reply: the packet with its two ends exchanged.
abbrev pub IsReply : TcpPacket → TcpPacket → Type 0
IsReply p q = (q.src ≡ p.dst) × (q.dst ≡ p.src)

-- The two directions of a connection between a monitored and an unmonitored port have one flow key
-- and one source, with the monitored end as the server, and opposite directions.
pub classify_reply :
    (p q : TcpPacket) (sources : List Source) (c : ClassifiedPacket)
    → IsReply p q
    → find_source p.src.port sources ≡ none
    → classify p sources ≡ some c
    → (c.direction ≡ c2s)
      × (c.flow_key ≡ record { client = p.src; server = p.dst })
      × (classify q sources ≡ some (record c { direction = s2c; packet = q }))
unfolding classify
classify_reply p q sources c r u h = ground arith
