-- ===== src/Flow/Assembler/Accept.antt =====
-- A segment that continues the stream is accepted and delivered: parts of one stream never look like
-- a conflict.
use newhatch.Common.{
  ℕ, ◌+◌, ◌-◌, ◌^◌, ◌≤◌, ◌<◌, ◌≡◌, refl, sym, ap, ◌∙◌, arith, ltb, leb, ==_refl, bytes_eq_iff, min,
  max, ◌⊎◌, inl, inr,
}
use newhatch.Common.{
  Bool, true, false, ◌||◌, Option, none, some, List, [], ◌∷◌, length, take, drop, is_empty, All,
  Bool-cases, length-drop, take-take, drop-take, drop-drop,
}
use mathlib.Core.Path.{subst}
use newhatch.Common.Int.{ℤ}
use newhatch.Flow.Sequence.{
  seq, sequence_before, wrapping_sub, wrapping_add-seq, wrapping_sub-seq, sequence_before-seq,
}
use newhatch.Flow.Assembler.{
  TcpChunk, TcpAssembler, Slice, push, push_at, place, place_rest, advance, trim, get_or_insert,
  is_past, disagrees, any_disagrees,
}
use newhatch.Flow.Assembler.Valid.{IsAfter, IsSettled, IsValid}
use newhatch.Flow.Assembler.Stream.{
  IsPiece, TracksEntry, Tracks, Delivers, push-Tracked, IsPiece-drop, delivered-part, trim-seq,
}

module _ (stream : List ℕ) (origin : ℕ) (small : length stream < 2 ^ 31) where
  piece_window :
      (o i m : ℕ) (bytes : List ℕ)
      → IsPiece stream origin small o bytes
      → i + m ≤ length bytes
      → take m (drop i bytes) ≡ take m (drop (o + i) stream)
  piece_window o i m bytes (_, e) h =
      ap (λ (t : List ℕ). take m (drop i t)) e
      ∙ ap (take m) (drop-take i (length bytes) (drop o stream))
      ∙ take-take m (length bytes - i) (drop i (drop o stream)) (omega arith)
      ∙ ap (take m) (drop-drop i o (o + i) stream refl)

  -- Two pieces agree where they overlap.
  pieces_agree :
      (d o o' from to : ℕ) (bytes other : List ℕ)
      → IsPiece stream origin small o bytes
      → IsPiece stream origin small o' other
      → d ≤ o
      → d ≤ o'
      → o - d ≤ from
      → o' - d ≤ from
      → from ≤ to
      → to ≤ o - d + length bytes
      → to ≤ o' - d + length other
      → take (to - from) (drop (from - (o - d)) bytes)
        ≡ take (to - from) (drop (from - (o' - d)) other)
  pieces_agree d o o' from to bytes other p q h h' f f' t t1 t2 =
      let here : o + (from - (o - d)) ≡ o' + (from - (o' - d)) = omega arith in
      piece_window o (from - (o - d)) (to - from) bytes p (omega arith)
      ∙ ap (λ (i : ℕ). take (to - from) (drop i stream)) here
      ∙ sym (piece_window o' (from - (o' - d)) (to - from) other q (omega arith))

  agrees_entry :
      (d o : ℕ) (bytes : List ℕ) (e : ℕ × TcpChunk)
      → d ≤ o
      → IsPiece stream origin small o bytes
      → TracksEntry stream origin small e
      → IsAfter (seq origin d) e
      → disagrees (seq origin d) (o - d) bytes e ≡ false
  unfolding disagrees
  agrees_entry d o bytes (k, chunk) h piece (o', ko, other) (w, after) =
      let before : sequence_before (seq origin d) (seq origin o') ≡ true = rw ko at after in
      let bound : o' ≤ length stream = omega (arith, other.0) in
      let room : o + length bytes ≤ length stream = piece.0 in
      let lt : d < o' =
        ground (arith, sequence_before-seq origin d o' (omega arith) (omega arith)) in
      let gap : wrapping_sub k (seq origin d) ≡ o' - d =
        rw ko (wrapping_sub-seq origin o' d (omega arith) (omega arith)) in
      let from : ℕ = max (o - d) (o' - d) in
      let to : ℕ = min (o - d + length bytes) (o' - d + length chunk.bytes) in
      rw gap (elim (Bool-cases (ltb from to)) [
        | inr e ↦ rw e
        | inl e ↦
            let some_overlap : from < to = ground arith in
            let same =
              pieces_agree d o o' from to bytes chunk.bytes piece other (omega arith) (omega arith)
                (omega arith) (omega arith) (omega arith) (omega arith) (omega arith) in
            rw (e, (bytes_eq_iff _ _).1 same)
      ])

  agrees_pending :
      (d o : ℕ) (bytes : List ℕ) (pending : List (ℕ × TcpChunk))
      → d ≤ o
      → IsPiece stream origin small o bytes
      → All (TracksEntry stream origin small) pending
      → All (IsAfter (seq origin d)) pending
      → any_disagrees (seq origin d) (o - d) bytes pending ≡ false
  unfolding any_disagrees
  agrees_pending d o bytes [] h piece t v = refl
  agrees_pending d o bytes (e ∷ pending) h piece t v =
      rw (agrees_entry d o bytes e h piece t.0 v.0)
        (agrees_pending d o bytes pending h piece t.1 v.1)

  -- The end of the stream is unknown, or where it is.
  abbrev pub EndsRight : Option ℕ → Type 0
  EndsRight fin_at = (fin_at ≡ none) ⊎ (fin_at ≡ some (seq origin (length stream)))

  not_past :
      (fin_at : Option ℕ) (e : ℕ)
      → EndsRight fin_at
      → e ≤ length stream
      → is_past fin_at (seq origin e) ≡ false
  unfolding is_past
  not_past fin_at e (inl f) h = rw f
  not_past fin_at e (inr f) h =
      rw (f, is_past, sequence_before-seq origin (length stream) e small (omega arith))
        (ground arith)

  -- `place` of a piece at the next byte advances.
  place_next :
      (a : TcpAssembler) (d : ℕ) (bytes : List ℕ) (timestamp : ℤ)
      → IsPiece stream origin small d bytes
      → All (TracksEntry stream origin small) a.pending
      → All (IsAfter (seq origin d)) a.pending
      → EndsRight a.fin_at
      → place a (seq origin d) (seq origin d) bytes timestamp
        ≡ advance a (seq origin d) bytes timestamp
  unfolding place
  place_next a d bytes timestamp piece t v ends =
      let zero_gap : d - d ≡ 0 = omega arith in
      let start : wrapping_sub (seq origin d) (seq origin d) ≡ d - d =
        wrapping_sub-seq origin d d (omega arith) (omega arith) in
      rw (
        wrapping_add-seq origin d (length bytes),
        not_past a.fin_at (d + length bytes) ends piece.0,
        start,
        agrees_pending d d bytes a.pending (omega arith) piece t v,
        ==_refl (seq origin d),
      )

  settled_at :
      (o : Option ℕ) (n : ℕ) (pending : List (ℕ × TcpChunk))
      → o ≡ some n
      → IsSettled o pending
      → All (IsAfter n) pending
  settled_at none n pending e h = cc
  settled_at (some k) n pending e h =
      let same : k ≡ n = cc in subst (λ (i : ℕ). All (IsAfter i) pending) same h.1

  IsPiece-tail :
      (d o : ℕ) (bytes : List ℕ)
      → o ≤ d
      → d ≤ o + length bytes
      → IsPiece stream origin small o bytes
      → IsPiece stream origin small d (drop (d - o) bytes)
  IsPiece-tail d o bytes h k piece =
      subst (λ (i : ℕ). IsPiece stream origin small i (drop (d - o) bytes)) (omega arith)
        (IsPiece-drop stream origin small o (d - o) bytes (omega arith) piece)

  trim_new :
      (d o : ℕ) (bytes : List ℕ)
      → o ≤ d
      → d < o + length bytes
      → d ≤ length stream
      → trim (seq origin d) (seq origin o) bytes ≡ some (seq origin d, drop (d - o) bytes)
  trim_new d o bytes h k w = elim (Bool-cases (ltb o d)) [
    | inl e ↦
        let more : leb (length bytes) (d - o) ≡ false = ground arith in
        rw (trim-seq stream origin small d o bytes w (omega arith), e, more)
    | inr e ↦
        let same : o ≡ d = ground arith in
        let none_old : d - d ≡ 0 = omega arith in
        rw (trim-seq stream origin small d o bytes w (omega arith), e, same, none_old)
  ]

  module _ (a : TcpAssembler) (d o : ℕ) (bytes : List ℕ) (timestamp : ℤ)
      (t : Tracks stream origin small d a) (v : IsValid a)
      (piece : IsPiece stream origin small o bytes) (ends : EndsRight a.fin_at)
      (fine : a.failed ≡ false) (le : o ≤ d) (lt : d < o + length bytes) where
    continues : TcpAssembler × Bool × List Slice
    continues =
        advance (record a { next = some (seq origin d) }) (seq origin d) (drop (d - o) bytes)
          timestamp

    push-push_at :
        push a (seq origin o) bytes timestamp
        ≡ push_at a (seq origin d) (seq origin o) bytes timestamp
    unfolding push get_or_insert
    push-push_at =
        let test : (a.failed || is_empty bytes) ≡ false = ground arith in
        let at_next : get_or_insert a.next (seq origin o) ≡ seq origin d = rw t.at refl in
        rw (test, push, at_next)

    push-advance : push a (seq origin o) bytes timestamp ≡ continues
    unfolding push_at continues
    push-advance =
        push-push_at
        ∙ ap (place_rest (record a { next = some (seq origin d) }) (seq origin d) timestamp)
            (trim_new d o bytes le lt t.within)
        ∙ place_next (record a { next = some (seq origin d) }) d (drop (d - o) bytes) timestamp
            (IsPiece-tail d o bytes le (omega arith) piece) t.held
            (settled_at a.next (seq origin d) a.pending t.at v.settled) ends

    -- In a valid, unfailed assembler that tracks a stream of fewer than 2^31 bytes, and whose FIN is
    -- either not known yet or exactly at the end of that stream, a part of the stream that begins at
    -- or before the next byte and ends behind it is accepted, the assembler does not fail, and at
    -- least the bytes up to the end of that part are delivered.
    pub push_continues :
        (d' : ℕ) × Tracks stream origin small d' (push a (seq origin o) bytes timestamp).0
        × Delivers stream origin small d (push a (seq origin o) bytes timestamp).2 d'
        × (o + length bytes ≤ d')
        × ((push a (seq origin o) bytes timestamp).0.failed ≡ false)
        × ((push a (seq origin o) bytes timestamp).1 ≡ true)
    unfolding continues advance
    push_continues =
        let (d', t', out) = push-Tracked stream origin small a d o bytes timestamp t piece in
        let whole =
          subst (λ (r : TcpAssembler × Bool × List Slice). Delivers stream origin small d r.2 d')
            push-advance out in
        let (le', _) =
          delivered-part stream origin small (d + length (drop (d - o) bytes)) d' _ whole.2 in
        (
          d',
          t',
          out,
          omega (arith, length-drop (d - o) bytes),
          rw push-advance fine,
          rw push-advance refl,
        )
