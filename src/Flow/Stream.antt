-- ===== src/Flow/Stream.antt =====
-- `StreamAssembler` of crates/analyzer/src/flow.rs, the bounded copy of one direction's bytes, with
-- `append_bounded` of crates/analyzer/src/http_sessions.rs.
pub mod Bounds
use newhatch.Common.{
  ℕ, zero, suc, ◌+◌, ◌-◌, min, ltb, leb, ◌==◌, if◌then◌else◌, Bool, true, false, ◌||◌, Option, none,
  some, List, [], ◌∷◌, ◌++◌, length, take, drop, is_empty,
}
use newhatch.Common.SortedMap.{lookup, insert, remove}
use newhatch.Flow.Sequence.{wrapping_add, wrapping_sub, sequence_before}
use newhatch.Flow.Assembler.{get_or_insert}

-- `append_bounded`: the vector's capacity is not modelled.
unfoldable pub append_bounded : List ℕ → List ℕ → ℕ → List ℕ
append_bounded target bytes limit =
    target ++ take (min (length bytes) (limit - length target)) bytes

pub record StreamAssembler : Type 0 where
  pub next_sequence : Option ℕ
  pub pending : List (ℕ × List ℕ)
  pub bytes : List ℕ
  pub max_bytes : ℕ
  pub truncated : Bool

unfoldable pub new_stream : ℕ → StreamAssembler
new_stream max_bytes = record {
  next_sequence = none;
  pending = [];
  bytes = [];
  max_bytes = max_bytes;
  truncated = false;
}

-- The new state, and whether bytes were appended. `unwrap_or_default` gives 0.
unfoldable pub append_contiguous : StreamAssembler → List ℕ → StreamAssembler × Bool
append_contiguous s payload =
    let accepted = min (length payload) (s.max_bytes - length s.bytes) in
    if accepted == 0 then (record s { truncated = true }, false) else (
      record s {
        bytes = append_bounded s.bytes (take accepted payload) s.max_bytes;
        next_sequence = some (wrapping_add (get_or_insert s.next_sequence 0) (length payload));
        truncated = if ltb accepted (length payload) then true else s.truncated;
      },
      true,
    )

-- `pending.range(..=next).next_back()`: the greatest key that is at most `next` as a number. Where
-- there is none, `next` itself is no key either, so that the `or_else` adds nothing.
unfoldable pub last_at_most {ℓ} : {V : Type ℓ} → ℕ → List (ℕ × V) → Option ℕ
last_at_most next [] = none
last_at_most next ((key, chunk) ∷ pending) =
    let rest = last_at_most next pending in
    if leb key next then (elim rest [ none ↦ some key | some other ↦ some other ]) else none

-- One round of the loop at the end of `push` for a candidate and its chunk.
unfoldable pub drain_chunk : StreamAssembler → ℕ → ℕ → List ℕ → StreamAssembler × Bool
drain_chunk s next candidate queued =
    let s' = record s { pending = remove candidate s.pending } in
    let overlap = wrapping_sub next candidate in
    if leb (length queued) overlap then (s', false) else append_contiguous s' (drop overlap queued)

-- The loop. Each round removes a chunk, so that as many rounds as chunks are enough; a candidate is
-- a key, and `next_sequence` is set, so that neither `expect` of the source fails.
unfoldable pub drain_stream : ℕ → StreamAssembler → Bool → StreamAssembler × Bool
drain_stream zero s changed = (s, changed)
drain_stream (suc rounds) s changed =
    let next = get_or_insert s.next_sequence 0 in
    elim (last_at_most next s.pending) [
      | none ↦ (s, changed)
      | some candidate ↦ elim (lookup candidate s.pending) [
        | none ↦ (s, changed)
        | some queued ↦
            let (s', more) = drain_chunk s next candidate queued in
            drain_stream rounds s' (changed || more)
      ]
    ]

-- A segment behind a gap: kept if there is room for its key and the key is new.
unfoldable pub hold_segment : StreamAssembler → ℕ → List ℕ → StreamAssembler × Bool
hold_segment s sequence payload =
    if ltb (length s.pending) 256
    then (elim (lookup sequence s.pending) [
      | some old ↦ (s, false)
      | none ↦ (record s { pending = insert sequence payload s.pending }, false)
    ])
    else (record s { truncated = true }, false)

unfoldable pub place_segment : StreamAssembler → ℕ → ℕ → List ℕ → StreamAssembler × Bool
place_segment s next sequence payload =
    if sequence == next
    then (let (s', changed) = append_contiguous s payload in
        drain_stream (length s'.pending) s' changed)
    else hold_segment s sequence payload

-- The new state, and whether the stream has grown.
unfoldable pub push_segment : StreamAssembler → ℕ → List ℕ → StreamAssembler × Bool
push_segment s sequence payload =
    let next = get_or_insert s.next_sequence sequence in
    let seeded = record s { next_sequence = some next } in
    if is_empty payload || s.truncated
    then (seeded, false)
    else if sequence_before sequence next
    then (let overlap = wrapping_sub next sequence in
        if leb (length payload) overlap
        then (seeded, false)
        else place_segment seeded next next (drop overlap payload))
    else place_segment seeded next sequence payload
