-- ===== src/Flow/Stream/Bounds.antt =====
-- The bounds of the StreamAssembler (crates/analyzer/src/flow.rs).
use newhatch.Common.{
  ℕ, zero, suc, ◌+◌, ◌-◌, ◌≤◌, ◌≡◌, arith, min, Bool, some, Option-cases, inl, inr, List, length,
  take, drop, length-append, length-take,
}
use newhatch.Common.SortedMap.{lookup, remove, length-insert_new, length-remove}
use newhatch.Flow.Sequence.{wrapping_sub}
use newhatch.Flow.Assembler.{get_or_insert}
use newhatch.Flow.Stream.{
  StreamAssembler, append_bounded, append_contiguous, last_at_most, drain_chunk, drain_stream,
  hold_segment, place_segment, push_segment,
}

pub record IsBounded (s : StreamAssembler) : Type 0 where
  pub room : length s.bytes ≤ s.max_bytes
  pub few : length s.pending ≤ 256

pub length-append_bounded :
    (target bytes : List ℕ) (limit : ℕ)
    → length (append_bounded target bytes limit)
      ≡ length target + min (length bytes) (limit - length target)
unfolding append_bounded
length-append_bounded target bytes limit = omega (
  arith,
  length-append target (take (min (length bytes) (limit - length target)) bytes),
  length-take (min (length bytes) (limit - length target)) bytes,
)

append_contiguous-IsBounded :
    (s : StreamAssembler) (payload : List ℕ)
    → IsBounded s
    → IsBounded (append_contiguous s payload).0
unfolding append_contiguous
append_contiguous-IsBounded s payload h = ground (
  arith,
  length-append_bounded s.bytes (take (min (length payload) (s.max_bytes - length s.bytes)) payload)
      s.max_bytes,
)

drain_chunk-IsBounded :
    (s : StreamAssembler) (next candidate : ℕ) (queued : List ℕ)
    → lookup candidate s.pending ≡ some queued
    → IsBounded s
    → IsBounded (drain_chunk s next candidate queued).0
unfolding drain_chunk
drain_chunk-IsBounded s next candidate queued e h =
    let rest : StreamAssembler = record s { pending = remove candidate s.pending } in
    ground (
      arith,
      length-remove candidate queued s.pending,
      append_contiguous-IsBounded rest (drop (wrapping_sub next candidate) queued),
    )

drain_stream-IsBounded :
    (rounds : ℕ) (s : StreamAssembler) (changed : Bool)
    → IsBounded s
    → IsBounded (drain_stream rounds s changed).0
unfolding drain_stream
drain_stream-IsBounded zero s changed h = h
drain_stream-IsBounded (suc rounds) s changed h =
    let next : ℕ = get_or_insert s.next_sequence 0 in
    elim (Option-cases (last_at_most next s.pending)) [
      | inl e ↦ rw (e, drain_stream) h
      | inr (candidate, e) ↦ elim (Option-cases (lookup candidate s.pending)) [
        | inl f ↦ rw (e, f, drain_stream) h
        | inr (queued, f) ↦
            rw (e, f, drain_stream)
              (drain_stream-IsBounded rounds _ _
                (drain_chunk-IsBounded s next candidate queued f h))
      ]
    ]

hold_segment-IsBounded :
    (s : StreamAssembler) (sequence : ℕ) (payload : List ℕ)
    → IsBounded s
    → IsBounded (hold_segment s sequence payload).0
unfolding hold_segment
hold_segment-IsBounded s sequence payload h =
    ground (arith, length-insert_new sequence payload s.pending)

place_segment-IsBounded :
    (s : StreamAssembler) (next sequence : ℕ) (payload : List ℕ)
    → IsBounded s
    → IsBounded (place_segment s next sequence payload).0
unfolding place_segment
place_segment-IsBounded s next sequence payload h = ground (
  arith,
  append_contiguous-IsBounded s payload h,
  drain_stream-IsBounded (length (append_contiguous s payload).0.pending)
      (append_contiguous s payload).0 (append_contiguous s payload).1,
  hold_segment-IsBounded s sequence payload h,
)

-- Whatever is pushed, the bytes kept stay within the limit and at most 256 chunks wait.
pub push_segment-IsBounded :
    (s : StreamAssembler) (sequence : ℕ) (payload : List ℕ)
    → IsBounded s
    → IsBounded (push_segment s sequence payload).0
unfolding push_segment
push_segment-IsBounded s sequence payload h =
    let next : ℕ = get_or_insert s.next_sequence sequence in
    let seeded : StreamAssembler = record s { next_sequence = some next } in
    let start : IsBounded seeded = record { room = h.room; few = h.few } in
    ground (
      arith,
      start,
      place_segment-IsBounded seeded next next (drop (wrapping_sub next sequence) payload) start,
      place_segment-IsBounded seeded next sequence payload start,
    )
