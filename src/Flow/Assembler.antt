-- ===== src/Flow/Assembler.antt =====
-- `TcpAssembler` of crates/analyzer/src/flow.rs: it puts the segments of one direction in order.
-- What `push` hands to its callback is returned as a list of slices, in the order of the calls. A
-- vector is shorter than 2 ^ 32 bytes, so that `len() as u32` keeps its length.
pub mod Drain
pub mod Valid
pub mod Stream
pub mod Prefix
pub mod Accept
use newhatch.Common.{
  ℕ, zero, suc, ◌+◌, ◌-◌, ◌<◌, ◌^◌, min, max, ltb, leb, ◌==◌, bytes_eq, if◌then◌else◌,
}
use newhatch.Common.{
  Bool, true, false, not, ◌&&◌, ◌||◌, Option, none, some, List, [], ◌∷◌, ◌++◌, length, take, drop,
  is_empty,
}
use newhatch.Common.Int.{ℤ, min_ℤ}
use newhatch.Common.SortedMap.{lookup, insert, remove}
use newhatch.Flow.Sequence.{wrapping_add, wrapping_sub, sequence_before}

pub record TcpChunk : Type 0 where
  pub bytes : List ℕ
  pub timestamp : ℤ

pub record TcpAssembler : Type 0 where
  pub next : Option ℕ
  pub pending : List (ℕ × TcpChunk)
  pub pending_bytes : ℕ
  pub limit : ℕ
  pub fin_at : Option ℕ
  pub failed : Bool

-- One call of the callback `consume`.
pub record Slice : Type 0 where
  pub sequence : ℕ
  pub bytes : List ℕ
  pub timestamp : ℤ

-- TcpAssembler::new
unfoldable pub new : ℕ → TcpAssembler
new limit = record {
  next = none;
  pending = [];
  pending_bytes = 0;
  limit = limit;
  fin_at = none;
  failed = false;
}

-- `next.get_or_insert(sequence)`: the value.
unfoldable pub get_or_insert : Option ℕ → ℕ → ℕ
get_or_insert none sequence = sequence
get_or_insert (some next) sequence = next

unfoldable pub seed : TcpAssembler → ℕ → TcpAssembler
unfolding get_or_insert
seed a sequence = record a { next = some (get_or_insert a.next sequence) }

-- The loop over `pending`: whether a chunk disagrees with the new bytes where the two overlap.
unfoldable pub disagrees : ℕ → ℕ → List ℕ → ℕ × TcpChunk → Bool
disagrees next start bytes (other_sequence, chunk) =
    let other_start = wrapping_sub other_sequence next in
    let from = max start other_start in
    let to = min (start + length bytes) (other_start + length chunk.bytes) in
    ltb from to
    && not (
        bytes_eq (take (to - from) (drop (from - start) bytes))
          (take (to - from) (drop (from - other_start) chunk.bytes)))

unfoldable pub any_disagrees : ℕ → ℕ → List ℕ → List (ℕ × TcpChunk) → Bool
unfolding disagrees
any_disagrees next start bytes [] = false
any_disagrees next start bytes (entry ∷ pending) =
    disagrees next start bytes entry || any_disagrees next start bytes pending

-- `fin_at.is_some_and(|fin| sequence_before(fin, end))`
unfoldable pub is_past : Option ℕ → ℕ → Bool
is_past none end = false
is_past (some fin) end = sequence_before fin end

-- The pending key that the next round delivers: of those that are not after `next`, the one with
-- the least distance to it, the first of two.
unfoldable pub nearer : ℕ → ℕ → Option ℕ → Option ℕ
nearer next key none = some key
nearer next key (some other) =
    if leb (wrapping_sub next key) (wrapping_sub next other) then some key else some other

unfoldable pub candidate : ℕ → List (ℕ × TcpChunk) → Option ℕ
unfolding nearer
candidate next [] = none
candidate next ((key, chunk) ∷ pending) =
    let rest = candidate next pending in
    if sequence_before next key then rest else nearer next key rest

-- The loop at the end of `push`, over the fields that it changes.
pub record Progress : Type 0 where
  pub next : ℕ
  pub pending : List (ℕ × TcpChunk)
  pub pending_bytes : ℕ

-- One round: the chunk is removed, and what it has beyond `next` is delivered.
unfoldable pub deliver : Progress → ℕ → TcpChunk → Progress × List Slice
deliver p sequence chunk =
    let overlap = wrapping_sub p.next sequence in
    let pending = remove sequence p.pending in
    let pending_bytes = p.pending_bytes - length chunk.bytes in
    if ltb overlap (length chunk.bytes)
    then (
      record {
        next = wrapping_add p.next (length chunk.bytes - overlap);
        pending = pending;
        pending_bytes = pending_bytes;
      },
      record { sequence = p.next; bytes = drop overlap chunk.bytes; timestamp = chunk.timestamp }
          ∷ [],
    )
    else (record { next = p.next; pending = pending; pending_bytes = pending_bytes }, [])

-- The rounds until there is no candidate. A round removes a chunk, so that as many rounds as there
-- are chunks are enough. A candidate is always in `pending`, so that the source's `expect` holds.
unfoldable pub drain : ℕ → Progress → Progress × List Slice
drain zero p = (p, [])
drain (suc rounds) p = elim (candidate p.next p.pending) [
  | none ↦ (p, [])
  | some sequence ↦ elim (lookup sequence p.pending) [
    | none ↦ (p, [])
    | some chunk ↦
        let (p', out) = deliver p sequence chunk in
        let (p'', more) = drain rounds p' in (p'', out ++ more)
  ]
]

-- What is left of a segment without the bytes before `next`: `none` if nothing is.
unfoldable pub trim : ℕ → ℕ → List ℕ → Option (ℕ × List ℕ)
trim next sequence bytes =
    if sequence_before sequence next
    then (let overlap = wrapping_sub next sequence in
        if leb (length bytes) overlap then none else some (next, drop overlap bytes))
    else some (sequence, bytes)

unfoldable pub fail : TcpAssembler → TcpAssembler × Bool × List Slice
fail a = (record a { failed = true }, false, [])

-- A segment that begins where a pending chunk does.
unfoldable pub extend_chunk :
    TcpAssembler → ℕ → List ℕ → ℤ → TcpChunk → TcpAssembler × Bool × List Slice
unfolding fail
extend_chunk a sequence bytes timestamp old =
    let overlap = min (length old.bytes) (length bytes) in
    let extra = length bytes - length old.bytes in
    if not (bytes_eq (take overlap old.bytes) (take overlap bytes))
    then fail a
    else if leb (length bytes) (length old.bytes)
    then (a, false, [])
    else if ltb a.limit (a.pending_bytes + extra)
    then fail a
    else (
      record a {
        pending =
            insert sequence
              (record {
                bytes = old.bytes ++ drop overlap bytes;
                timestamp = min_ℤ old.timestamp timestamp;
              })
              a.pending;
        pending_bytes = a.pending_bytes + extra;
      },
      true,
      [],
    )

-- A segment that begins behind a gap.
unfoldable pub hold : TcpAssembler → ℕ → List ℕ → ℤ → TcpAssembler × Bool × List Slice
unfolding fail extend_chunk
hold a sequence bytes timestamp = elim (lookup sequence a.pending) [
  | some old ↦ extend_chunk a sequence bytes timestamp old
  | none ↦
      if leb 256 (length a.pending) || ltb a.limit (a.pending_bytes + length bytes)
      then fail a
      else (
        record a {
          pending = insert sequence (record { bytes = bytes; timestamp = timestamp }) a.pending;
          pending_bytes = a.pending_bytes + length bytes;
        },
        true,
        [],
      )
]

-- A segment that begins at `next`.
unfoldable pub advance : TcpAssembler → ℕ → List ℕ → ℤ → TcpAssembler × Bool × List Slice
advance a next bytes timestamp =
    let p : Progress = record {
      next = wrapping_add next (length bytes);
      pending = a.pending;
      pending_bytes = a.pending_bytes;
    } in
    let (p', more) = drain (length a.pending) p in
    (
      record a { next = some p'.next; pending = p'.pending; pending_bytes = p'.pending_bytes },
      true,
      record { sequence = next; bytes = bytes; timestamp = timestamp } ∷ more,
    )

-- `push` behind the trimming of old bytes.
unfoldable pub place : TcpAssembler → ℕ → ℕ → List ℕ → ℤ → TcpAssembler × Bool × List Slice
unfolding fail
place a next sequence bytes timestamp =
    if is_past a.fin_at (wrapping_add sequence (length bytes))
    then fail a
    else if any_disagrees next (wrapping_sub sequence next) bytes a.pending
    then fail a
    else if sequence == next
    then advance a next bytes timestamp
    else hold a sequence bytes timestamp

-- What `push` does with the rest that `trim` leaves.
unfoldable pub place_rest :
    TcpAssembler → ℕ → ℤ → Option (ℕ × List ℕ) → TcpAssembler × Bool × List Slice
place_rest a next timestamp none = (a, false, [])
place_rest a next timestamp (some (sequence, bytes)) = place a next sequence bytes timestamp

-- `push` on a stream whose next byte is known.
unfoldable pub push_at : TcpAssembler → ℕ → ℕ → List ℕ → ℤ → TcpAssembler × Bool × List Slice
unfolding place_rest
push_at a next sequence bytes timestamp =
    place_rest (record a { next = some next }) next timestamp (trim next sequence bytes)

-- The new state, whether something was accepted, and the slices delivered.
unfoldable pub push : TcpAssembler → ℕ → List ℕ → ℤ → TcpAssembler × Bool × List Slice
push a sequence bytes timestamp =
    if a.failed || is_empty bytes
    then (a, false, [])
    else push_at a (get_or_insert a.next sequence) sequence bytes timestamp

-- Whether a pending chunk ends after `sequence`.
unfoldable pub any_past : ℕ → List (ℕ × TcpChunk) → Bool
any_past sequence [] = false
any_past sequence ((start, chunk) ∷ pending) =
    sequence_before sequence (wrapping_add start (length chunk.bytes)) || any_past sequence pending

-- `next.is_some_and(|next| sequence_before(sequence, next))`
unfoldable pub is_behind : ℕ → Option ℕ → Bool
is_behind sequence none = false
is_behind sequence (some next) = sequence_before sequence next

-- `fin_at.is_some_and(|old| old != sequence)`
unfoldable pub moves_fin : Option ℕ → ℕ → Bool
moves_fin none sequence = false
moves_fin (some old) sequence = not (old == sequence)

unfoldable pub fin : TcpAssembler → ℕ → TcpAssembler
unfolding any_past is_behind moves_fin
fin a sequence = record a {
  fin_at = some sequence;
  failed =
      a.failed
      || moves_fin a.fin_at sequence
      || is_behind sequence a.next
      || any_past sequence a.pending;
}

-- `fin_at.is_some() && fin_at == next`
unfoldable pub at_fin : Option ℕ → Option ℕ → Bool
at_fin none next = false
at_fin (some fin) none = false
at_fin (some fin) (some next) = fin == next

unfoldable pub closed : TcpAssembler → Bool
unfolding at_fin
closed a = not a.failed && at_fin a.fin_at a.next

unfoldable pub is_some {ℓ} : {A : Type ℓ} → Option A → Bool
is_some none = false
is_some (some a) = true

unfoldable pub has_gap : TcpAssembler → Bool
unfolding closed is_some
has_gap a = a.failed || not (is_empty a.pending) || (is_some a.fin_at && not (closed a))
