-- ===== src/Flow/Assembler/Stream.antt =====
-- Segments that are parts of one stream are delivered as that stream, in order and without a gap,
-- in whatever order, with whatever overlap and however often they arrive, also where the sequence
-- numbers wrap around.
use newhatch.Common.{
  ℕ, ◌+◌, ◌-◌, ◌^◌, ◌≤◌, ◌<◌, ◌≡◌, refl, sym, ap, ◌∙◌, arith, ltb, leb, ◌==◌, bytes_eq, min,
  if◌then◌else◌,
}
use newhatch.Common.{
  Bool, false, not, ◌||◌, none, some, List, [], ◌∷◌, ◌++◌, length, take, drop, is_empty, All,
  Option-cases, Bool-cases, inl, inr, length-drop, take-take, drop-take, drop-drop,
  take-append-drop, take_split,
}
use mathlib.Core.Path.{◌≡⟨◌⟩◌, ◌∎, subst}
use newhatch.Common.Int.{ℤ}
use newhatch.Common.SortedMap.{lookup, All-insert, All-remove, All-lookup}
use newhatch.Flow.Sequence.{
  seq, sequence_before, wrapping_sub, wrapping_add, wrapping_add-seq, wrapping_sub-seq,
  sequence_before-seq,
}
use newhatch.Flow.Assembler.{
  TcpChunk, TcpAssembler, Slice, Progress, new, seed, push, push_at, place, hold, advance,
  extend_chunk, fail, trim, get_or_insert, candidate, deliver, drain, is_past, any_disagrees,
}
use newhatch.Flow.Assembler.Drain.{candidate-before, drain_rule}

-- The bytes that a list of slices carries.
abbrev pub delivered : List Slice → List ℕ
delivered [] = []
delivered (s ∷ out) = s.bytes ++ delivered out

-- A stream shorter than 2 GiB, and the sequence number of its first byte.
module _ (stream : List ℕ) (origin : ℕ) (small : length stream < 2 ^ 31) where
  -- The bytes stand in the stream at the offset.
  abbrev pub IsPiece : ℕ → List ℕ → Type 0
  IsPiece offset bytes =
      (offset + length bytes ≤ length stream) × (bytes ≡ take (length bytes) (drop offset stream))

  abbrev pub TracksEntry : ℕ × TcpChunk → Type 0
  TracksEntry (k, chunk) = (offset : ℕ) × (k ≡ seq origin offset) × IsPiece offset chunk.bytes

  -- The slices carry the stream from one offset to another.
  abbrev pub Delivers : ℕ → List Slice → ℕ → Type 0
  Delivers d [] d' = d ≡ d'
  Delivers d (s ∷ out) d' =
      (s.sequence ≡ seq origin d) × IsPiece d s.bytes × Delivers (d + length s.bytes) out d'

  -- The assembler has delivered the stream up to an offset, and holds parts of it.
  pub record Tracks (d : ℕ) (a : TcpAssembler) : Type 0 where
    pub at : a.next ≡ some (seq origin d)
    pub within : d ≤ length stream
    pub held : All TracksEntry a.pending

  abbrev pub TracksLoop : ℕ → Progress → Type 0
  TracksLoop d p = (p.next ≡ seq origin d) × (d ≤ length stream) × All TracksEntry p.pending

  pub Delivers-append :
      (d e f : ℕ) (xs ys : List Slice) → Delivers d xs e → Delivers e ys f → Delivers d (xs ++ ys) f
  Delivers-append d e f [] ys h k = rw h k
  Delivers-append d e f (s ∷ xs) ys (h0, h1, h2) k =
      (h0, h1, Delivers-append (d + length s.bytes) e f xs ys h2 k)

  -- What lies behind the first bytes of a piece is a piece.
  pub IsPiece-drop :
      (offset i : ℕ) (bytes : List ℕ)
      → i ≤ length bytes
      → IsPiece offset bytes
      → IsPiece (offset + i) (drop i bytes)
  IsPiece-drop offset i bytes h (fits, e) = (
    omega (arith, length-drop i bytes),
    rw (length-drop i bytes) (
        drop i bytes
        ≡⟨ ap (drop i) e ⟩ drop i (take (length bytes) (drop offset stream))
        ≡⟨ drop-take i (length bytes) (drop offset stream) ⟩
          take (length bytes - i) (drop i (drop offset stream))
        ≡⟨ ap (take (length bytes - i)) (drop-drop i offset (offset + i) stream refl) ⟩
          take (length bytes - i) (drop (offset + i) stream) ∎),
  )

  -- A candidate begins at or before the next byte.
  candidate_offset :
      (p : Progress) (k d o : ℕ)
      → candidate p.next p.pending ≡ some k
      → p.next ≡ seq origin d
      → k ≡ seq origin o
      → d ≤ length stream
      → o ≤ length stream
      → (o ≤ d) × (wrapping_sub p.next k ≡ d - o)
  candidate_offset p k d o e n ko hd ho =
      let before : sequence_before (seq origin d) (seq origin o) ≡ false =
        rw (← n, ← ko) (candidate-before p.next k p.pending e) in
      let le : o ≤ d = ground (arith, sequence_before-seq origin d o (omega arith) (omega arith)) in
      (le, rw (n, ko) (wrapping_sub-seq origin d o le (omega arith)))

  deliver_tracks :
      (p : Progress) (k : ℕ) (chunk : TcpChunk) (d : ℕ)
      → candidate p.next p.pending ≡ some k
      → lookup k p.pending ≡ some chunk
      → TracksLoop d p
      → (d' : ℕ) × TracksLoop d' (deliver p k chunk).0 × Delivers d (deliver p k chunk).1 d'
  unfolding deliver
  deliver_tracks p k chunk d e f (n, w, h) =
      let (o, ko, piece) = All-lookup TracksEntry k chunk p.pending h f in
      let size : ℕ = length chunk.bytes in
      let (le, gap) = candidate_offset p k d o e n ko w (omega arith) in
      let rest = All-remove TracksEntry k p.pending h in
      elim (Bool-cases (ltb (wrapping_sub p.next k) size)) [
        | inl t ↦
            let inside : d - o < size = ground arith in
            let tail = IsPiece-drop o (d - o) chunk.bytes (omega arith) piece in
            rw t (
              d + (size - (d - o)),
              (
                rw (gap, n) (wrapping_add-seq origin d (size - (d - o))),
                omega (arith, piece.0),
                rest,
              ),
              (
                n,
                rw gap (subst (λ (i : ℕ). IsPiece i (drop (d - o) chunk.bytes)) (omega arith) tail),
                rw gap (omega (arith, length-drop (d - o) chunk.bytes)),
              ),
            )
        | inr t ↦ rw t (d, (n, w, rest), refl)
      ]

  abbrev Carries : Progress → List Slice → Progress → Type 0
  Carries p out p' = (d : ℕ) → TracksLoop d p → (d' : ℕ) × TracksLoop d' p' × Delivers d out d'

  drain-Carries : (rounds : ℕ) (p : Progress) → Carries p (drain rounds p).1 (drain rounds p).0
  drain-Carries =
      drain_rule Carries (λ p d h. (d, h, refl))
        (λ p k chunk more p' e f ih d h.
          let (d', h', out) = deliver_tracks p k chunk d e f h in
          let (d'', h'', out') = ih d' h' in
          (d'', h'', Delivers-append d d' d'' (deliver p k chunk).1 more out out'))

  seq_injective :
      (i j : ℕ) → i ≤ length stream → j ≤ length stream → seq origin i ≡ seq origin j → i ≡ j
  unfolding seq
  seq_injective i j h k e = omega arith

  -- Two pieces at one offset: the longer one is the shorter with its own tail.
  IsPiece-extend :
      (o : ℕ) (old bytes : List ℕ)
      → IsPiece o old
      → IsPiece o bytes
      → length old ≤ length bytes
      → old ++ drop (min (length old) (length bytes)) bytes ≡ bytes
  IsPiece-extend o old bytes (_, e) (_, f) h =
      let shorter : min (length old) (length bytes) ≡ length old = omega arith in
      let same : old ≡ take (length old) bytes =
        e
        ∙ sym (take-take (length old) (length bytes) (drop o stream) h)
        ∙ ap (take (length old)) (sym f) in
      rw shorter (
        ap (λ (t : List ℕ). t ++ drop (length old) bytes) same
        ∙ take-append-drop (length old) bytes)

  abbrev pub Tracked : ℕ → TcpAssembler × Bool × List Slice → Type 0
  Tracked d r = (d' : ℕ) × Tracks d' r.0 × Delivers d r.2 d'

  module _ (a : TcpAssembler) (d o : ℕ) (bytes : List ℕ) (timestamp : ℤ) (t : Tracks d a)
      (piece : IsPiece o bytes) where
    fail-Tracked : Tracked d (fail a)
    unfolding fail
    fail-Tracked = (d, record { at = t.at; within = t.within; held = t.held }, refl)

    extend_chunk-Tracked :
        (old : TcpChunk)
        → lookup (seq origin o) a.pending ≡ some old
        → Tracked d (extend_chunk a (seq origin o) bytes timestamp old)
    unfolding extend_chunk
    extend_chunk-Tracked old e =
        let overlap : ℕ = min (length old.bytes) (length bytes) in
        let extra : ℕ = length bytes - length old.bytes in
        elim (Bool-cases (not (bytes_eq (take overlap old.bytes) (take overlap bytes)))) [
          | inl f ↦ rw (f, extend_chunk) fail-Tracked
          | inr f ↦ elim (Bool-cases (leb (length bytes) (length old.bytes))) [
            | inl g ↦ rw (f, g, extend_chunk) (d, t, refl)
            | inr g ↦ elim (Bool-cases (ltb a.limit (a.pending_bytes + extra))) [
              | inl h ↦ rw (f, g, h, extend_chunk) fail-Tracked
              | inr h ↦
                  let (o', same, old_piece) =
                    All-lookup TracksEntry (seq origin o) old a.pending t.held e in
                  let eq : o ≡ o' =
                    seq_injective o o' (omega arith) (omega (arith, old_piece.0)) same in
                  let old_here : IsPiece o old.bytes =
                    subst (λ (i : ℕ). IsPiece i old.bytes) (sym eq) old_piece in
                  let whole = IsPiece-extend o old.bytes bytes old_here piece (ground arith) in
                  rw (f, g, h, extend_chunk)
                    (
                      d,
                      record {
                        at = t.at;
                        within = t.within;
                        held =
                            All-insert TracksEntry (seq origin o) _ a.pending
                              (o, refl, rw whole piece) t.held;
                      },
                      refl,
                    )
            ]
          ]
        ]

    hold-Tracked : Tracked d (hold a (seq origin o) bytes timestamp)
    unfolding hold
    hold-Tracked = elim (Option-cases (lookup (seq origin o) a.pending)) [
      | inr (old, e) ↦ rw (e, hold) (extend_chunk-Tracked old e)
      | inl e ↦
          elim (Bool-cases
            (leb 256 (length a.pending) || ltb a.limit (a.pending_bytes + length bytes))) [
              | inl f ↦ rw (e, hold, f) fail-Tracked
              | inr f ↦
                  rw (e, hold, f)
                    (
                      d,
                      record {
                        at = t.at;
                        within = t.within;
                        held =
                            All-insert TracksEntry (seq origin o) _ a.pending (o, refl, piece)
                              t.held;
                      },
                      refl,
                    )
            ]
    ]

    advance-Tracked : o ≡ d → Tracked d (advance a (seq origin d) bytes timestamp)
    unfolding advance
    advance-Tracked e =
        let p : Progress = record {
          next = wrapping_add (seq origin d) (length bytes);
          pending = a.pending;
          pending_bytes = a.pending_bytes;
        } in
        let here : IsPiece d bytes = subst (λ (i : ℕ). IsPiece i bytes) e piece in
        let (d', (n, w, h), out) =
          drain-Carries (length a.pending) p (d + length bytes)
            (wrapping_add-seq origin d (length bytes), here.0, t.held) in
        (d', record { at = ap some n; within = w; held = h }, (refl, here, out))

    place-Tracked : Tracked d (place a (seq origin d) (seq origin o) bytes timestamp)
    unfolding place
    place-Tracked =
        elim (Bool-cases (is_past a.fin_at (wrapping_add (seq origin o) (length bytes)))) [
          | inl e ↦ rw (e, place) fail-Tracked
          | inr e ↦
              elim (Bool-cases (
                any_disagrees (seq origin d) (wrapping_sub (seq origin o) (seq origin d)) bytes
                  a.pending)) [
                    | inl f ↦ rw (e, f, place) fail-Tracked
                    | inr f ↦ elim (Bool-cases (seq origin o == seq origin d)) [
                      | inl g ↦
                          rw (e, f, g, place)
                            (advance-Tracked
                              (seq_injective o d (omega arith) t.within (ground arith)))
                      | inr g ↦ rw (e, f, g, place) hold-Tracked
                    ]
                  ]
        ]

  -- Trimming by sequence numbers is trimming by offsets.
  pub trim-seq :
      (d o : ℕ) (bytes : List ℕ)
      → d ≤ length stream
      → o ≤ length stream
      → trim (seq origin d) (seq origin o) bytes ≡ (
          if ltb o d
          then (if leb (length bytes) (d - o)
              then none
              else some (seq origin d, drop (d - o) bytes))
          else some (seq origin o, bytes))
  unfolding trim
  trim-seq d o bytes h k = ground (
    arith,
    sequence_before-seq origin o d (omega arith) (omega arith),
    wrapping_sub-seq origin d o,
  )

  push_at-Tracked :
      (a : TcpAssembler) (d o : ℕ) (bytes : List ℕ) (timestamp : ℤ)
      → Tracks d a
      → IsPiece o bytes
      → Tracked d (push_at a (seq origin d) (seq origin o) bytes timestamp)
  unfolding push_at
  push_at-Tracked a d o bytes timestamp t piece =
      let b : TcpAssembler = record a { next = some (seq origin d) } in
      let tb : Tracks d b = record { at = refl; within = t.within; held = t.held } in
      elim (Bool-cases (ltb o d)) [
        | inr f ↦
            rw (trim-seq d o bytes t.within (omega (arith, piece.0)), f)
              (place-Tracked b d o bytes timestamp tb piece)
        | inl f ↦ elim (Bool-cases (leb (length bytes) (d - o))) [
          | inl g ↦ rw (trim-seq d o bytes t.within (omega (arith, piece.0)), f, g) (d, tb, refl)
          | inr g ↦
              let some_left : d - o < length bytes = ground arith in
              let tail : IsPiece d (drop (d - o) bytes) =
                subst (λ (i : ℕ). IsPiece i (drop (d - o) bytes)) (ground arith)
                  (IsPiece-drop o (d - o) bytes (omega arith) piece) in
              rw (trim-seq d o bytes t.within (omega (arith, piece.0)), f, g)
                (place-Tracked b d d (drop (d - o) bytes) timestamp tb tail)
        ]
      ]

  -- One `push` of a piece of the stream.
  pub push-Tracked :
      (a : TcpAssembler) (d o : ℕ) (bytes : List ℕ) (timestamp : ℤ)
      → Tracks d a
      → IsPiece o bytes
      → Tracked d (push a (seq origin o) bytes timestamp)
  unfolding push get_or_insert
  push-Tracked a d o bytes timestamp t piece = elim (Bool-cases (a.failed || is_empty bytes)) [
    | inl e ↦ rw (e, push) (d, t, refl)
    | inr e ↦
        let n : get_or_insert a.next (seq origin o) ≡ seq origin d = rw t.at refl in
        rw (e, push, n) (push_at-Tracked a d o bytes timestamp t piece)
  ]

  -- Delivered slices carry exactly the part of the stream between the two offsets.
  pub delivered-part :
      (d d' : ℕ) (out : List Slice)
      → Delivers d out d'
      → (d ≤ d') × (delivered out ≡ take (d' - d) (drop d stream))
  delivered-part d d' [] h = let none_left : d' - d ≡ 0 = omega arith in (omega arith, rw none_left)
  delivered-part d d' (s ∷ out) (q, piece, h) =
      let size : ℕ = length s.bytes in
      let (le, rest) = delivered-part (d + size) d' out h in
      let split = take_split size (d' - (d + size)) (d' - d) (drop d stream) (omega arith) in
      (
        omega arith,
        ap (λ (t : List ℕ). t ++ delivered out) piece.1
            ∙ ap (λ (t : List ℕ). take size (drop d stream) ++ t)
                (rest ∙ ap (take (d' - (d + size))) (sym (drop-drop size d (d + size) stream refl)))
            ∙ sym split,
      )

  pub new-Tracks : (limit : ℕ) → Tracks 0 (seed (new limit) (seq origin 0))
  unfolding seed new
  new-Tracks limit = record { at = refl; within = omega arith; held = tt }
