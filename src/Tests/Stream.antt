-- ===== src/Tests/Stream.antt =====
-- `StreamAssembler` (crates/analyzer/src/flow.rs): a run, and the theorem at a concrete input.
use newhatch.Common.{◌≡◌, refl, arith, some, [], ◌∷◌}
use newhatch.Common.SortedMap.{lookup, insert, remove}
use newhatch.Flow.Sequence.{sequence_before, wrapping_add, wrapping_sub}
use newhatch.Flow.Assembler.{get_or_insert}
use newhatch.Flow.Stream.{
  StreamAssembler, new_stream, push_segment, place_segment, append_contiguous, append_bounded,
  drain_stream, drain_chunk, last_at_most,
}
use newhatch.Flow.Stream.Bounds.{IsBounded, push_segment-IsBounded}

abbrev held : StreamAssembler
unfolding new_stream
held = record (new_stream 10) { next_sequence = some 0xffff_fffe; pending = (1, b'd' ∷ []) ∷ [] }

-- A chunk whose number lies behind the wrap-around is taken out too early, and is lost: the bytes
-- before it arrive one by one.
held_chunk_lost : (push_segment held 0xffff_fffe (b'a' ∷ [])).0.pending ≡ []
unfolding held push_segment place_segment append_contiguous append_bounded drain_stream drain_chunk
    last_at_most get_or_insert sequence_before wrapping_add wrapping_sub lookup insert remove
held_chunk_lost = refl

empty-IsBounded : IsBounded (new_stream 3)
unfolding new_stream
empty-IsBounded = record { room = omega arith; few = omega arith }

push_segment-IsBounded_example :
    IsBounded (push_segment (new_stream 3) 7 (b'a' ∷ b'b' ∷ b'c' ∷ b'd' ∷ [])).0
push_segment-IsBounded_example =
    push_segment-IsBounded (new_stream 3) 7 (b'a' ∷ b'b' ∷ b'c' ∷ b'd' ∷ []) empty-IsBounded
