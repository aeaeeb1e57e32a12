-- ===== src/Flow/Assembler/Prefix.antt =====
-- Segments that arrive one after the other: what `TcpAssembler` delivers of them is a prefix of the
-- stream.
use newhatch.Common.{
  ℕ, ◌^◌, ◌≤◌, ◌<◌, ◌≡◌, refl, ap, ◌∙◌, arith, some, List, [], ◌∷◌, ◌++◌, length, take, All,
}
use newhatch.Common.Int.{ℤ}
use newhatch.Flow.Sequence.{seq}
use newhatch.Flow.Assembler.{TcpAssembler, Slice, new, seed, push}
use newhatch.Flow.Assembler.Stream.{
  IsPiece, Tracks, Delivers, Delivers-append, delivered, delivered-part, push-Tracked, new-Tracks,
}

-- A segment: its offset in the stream, its bytes and its time.
pub record Arrival : Type 0 where
  pub offset : ℕ
  pub bytes : List ℕ
  pub timestamp : ℤ

-- The calls of `push` for the segments in the order in which they arrive.
unfoldable pub arrive : ℕ → TcpAssembler → List Arrival → TcpAssembler × List Slice
arrive origin a [] = (a, [])
arrive origin a (x ∷ xs) =
    let (a', accepted, out) = push a (seq origin x.offset) x.bytes x.timestamp in
    let (a'', more) = arrive origin a' xs in (a'', out ++ more)

module _ (stream : List ℕ) (origin : ℕ) (small : length stream < 2 ^ 31) where
  abbrev pub ArePieces : List Arrival → Type 0
  ArePieces xs = All (λ x. IsPiece stream origin small x.offset x.bytes) xs

  pub arrive-Tracked :
      (a : TcpAssembler) (d : ℕ) (xs : List Arrival)
      → Tracks stream origin small d a
      → ArePieces xs
      → (d' : ℕ) × Tracks stream origin small d' (arrive origin a xs).0
        × Delivers stream origin small d (arrive origin a xs).1 d'
  unfolding arrive
  arrive-Tracked a d [] t h = (d, t, refl)
  arrive-Tracked a d (x ∷ xs) t h =
      let (e, t', out) = push-Tracked stream origin small a d x.offset x.bytes x.timestamp t h.0 in
      let (f, t'', more) =
        arrive-Tracked (push a (seq origin x.offset) x.bytes x.timestamp).0 e xs t' h.1 in
      (f, t'', Delivers-append stream origin small d e f _ _ out more)

  -- Whatever parts of the stream arrive, in whatever order, overlapping or repeated, what the
  -- assembler delivers from its seed on is a prefix of the stream, and its next byte is the one
  -- behind that prefix. The stream is shorter than 2 GiB; its sequence numbers may wrap around.
  pub arrive-prefix :
      (limit : ℕ) (xs : List Arrival)
      → ArePieces xs
      → (d : ℕ) × (d ≤ length stream)
        × (delivered (arrive origin (seed (new limit) (seq origin 0)) xs).1 ≡ take d stream)
        × ((arrive origin (seed (new limit) (seq origin 0)) xs).0.next ≡ some (seq origin d))
  arrive-prefix limit xs h =
      let start = new-Tracks stream origin small limit in
      let (d, t, out) = arrive-Tracked (seed (new limit) (seq origin 0)) 0 xs start h in
      (
        d,
        t.within,
        (delivered-part stream origin small 0 d _ out).1
            ∙ ap (λ (n : ℕ). take n stream) (omega arith),
        t.at,
      )
