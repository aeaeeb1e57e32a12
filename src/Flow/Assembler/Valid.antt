-- ===== src/Flow/Assembler/Valid.antt =====
-- The invariant of `TcpAssembler`, kept by every operation.
use newhatch.Common.{ℕ, ◌+◌, ◌%◌, ◌^◌, ◌≤◌, ◌<◌, ◌≡◌, refl, arith, ◌==◌, min}
use newhatch.Common.{
  true, false, ◌||◌, Option, none, some, List, [], ◌∷◌, ◌++◌, length, drop, is_empty, All,
  Option-cases, Bool-cases, inl, inr, length-append, length-drop,
}
use newhatch.Common.Int.{ℤ, min_ℤ}
use newhatch.Common.SortedMap.{
  lookup, insert, IsAscending, total, IsAscending-insert, All-insert, All-remove, total-insert_new,
  total-insert_old, length-insert_new, length-insert_old,
}
use newhatch.Flow.Sequence.{sequence_before, wrapping_add}
use newhatch.Flow.Assembler.{
  TcpChunk, TcpAssembler, Progress, new, seed, fin, push, push_at, place, hold, advance,
  extend_chunk, fail, trim, get_or_insert, drain, deliver,
}
use newhatch.Flow.Assembler.Drain.{
  chunk_size, IsCounted, candidate-none, drain-IsCounted, drain_done, drain_rule,
}

-- A chunk that waits for the bytes before it.
abbrev pub IsAfter : ℕ → ℕ × TcpChunk → Type 0
IsAfter next e = (e.0 < 2 ^ 32) × (sequence_before next e.0 ≡ true)

abbrev pub IsSettled : Option ℕ → List (ℕ × TcpChunk) → Type 0
IsSettled none pending = pending ≡ []
IsSettled (some next) pending = (next < 2 ^ 32) × All (IsAfter next) pending

-- The keys ascend, the bytes are counted and within the limit, there are at most 256 chunks, and
-- each of them is strictly after the next byte; nothing waits before the stream has a first byte.
pub record IsValid (a : TcpAssembler) : Type 0 where
  pub ascending : IsAscending a.pending
  pub counted : a.pending_bytes ≡ total chunk_size a.pending
  pub few : length a.pending ≤ 256
  pub bounded : a.pending_bytes ≤ a.limit
  pub settled : IsSettled a.next a.pending

pub new-IsValid : (limit : ℕ) → IsValid (new limit)
unfolding new
new-IsValid limit = record {
  ascending = tt;
  counted = refl;
  few = omega arith;
  bounded = omega arith;
  settled = refl;
}

-- A segment behind the next byte is strictly after it.
after_next :
    (next sequence : ℕ)
    → next < 2 ^ 32
    → sequence < 2 ^ 32
    → (sequence == next) ≡ false
    → sequence_before sequence next ≡ false
    → sequence_before next sequence ≡ true
unfolding sequence_before
after_next next sequence h k e b = ground arith

IsSettled-insert :
    (o : Option ℕ) (next k : ℕ) (chunk : TcpChunk) (pending : List (ℕ × TcpChunk))
    → o ≡ some next
    → k < 2 ^ 32
    → sequence_before next k ≡ true
    → IsSettled o pending
    → IsSettled o (insert k chunk pending)
IsSettled-insert none next k chunk pending e lt b h = cc
IsSettled-insert (some n) next k chunk pending e lt b (m, h) =
    (m, All-insert (IsAfter n) k chunk pending (lt, ground arith) h)

sequence_before_irrefl : (n : ℕ) → n < 2 ^ 32 → sequence_before n n ≡ false
unfolding sequence_before
sequence_before_irrefl n h = ground arith

seeded-IsSettled :
    (o : Option ℕ) (pending : List (ℕ × TcpChunk)) (sequence : ℕ)
    → sequence < 2 ^ 32
    → IsSettled o pending
    → (get_or_insert o sequence < 2 ^ 32) × All (IsAfter (get_or_insert o sequence)) pending
unfolding get_or_insert
seeded-IsSettled none pending sequence s h = rw h (s, tt)
seeded-IsSettled (some next) pending sequence s h = h

module _ (a : TcpAssembler) (v : IsValid a) where
  fail-IsValid : IsValid (fail a).0
  unfolding fail
  fail-IsValid = record {
    ascending = v.ascending;
    counted = v.counted;
    few = v.few;
    bounded = v.bounded;
    settled = v.settled;
  }

  module _ (next sequence : ℕ) (seeded : a.next ≡ some next) (word : sequence < 2 ^ 32)
      (after : sequence_before next sequence ≡ true) where
    extended : List ℕ → ℤ → TcpChunk → TcpChunk
    extended bytes timestamp old = record {
      bytes = old.bytes ++ drop (min (length old.bytes) (length bytes)) bytes;
      timestamp = min_ℤ old.timestamp timestamp;
    }

    extend_chunk-IsValid :
        (bytes : List ℕ) (timestamp : ℤ) (old : TcpChunk)
        → lookup sequence a.pending ≡ some old
        → IsValid (extend_chunk a sequence bytes timestamp old).0
    unfolding extend_chunk extended
    extend_chunk-IsValid bytes timestamp old e =
        let chunk : TcpChunk = extended bytes timestamp old in
        ground (
          arith,
          fail-IsValid,
          IsAscending-insert sequence chunk a.pending,
          total-insert_old chunk_size sequence chunk old a.pending,
          length-insert_old sequence chunk old a.pending,
          IsSettled-insert a.next next sequence chunk a.pending,
          length-append old.bytes (drop (min (length old.bytes) (length bytes)) bytes),
          length-drop (min (length old.bytes) (length bytes)) bytes,
        )

    hold-IsValid : (bytes : List ℕ) (timestamp : ℤ) → IsValid (hold a sequence bytes timestamp).0
    unfolding hold
    hold-IsValid bytes timestamp = elim (Option-cases (lookup sequence a.pending)) [
      | inr (old, e) ↦ rw (e, hold) (extend_chunk-IsValid bytes timestamp old e)
      | inl e ↦
          let chunk : TcpChunk = record { bytes = bytes; timestamp = timestamp } in
          ground (
            arith,
            fail-IsValid,
            IsAscending-insert sequence chunk a.pending,
            total-insert_new chunk_size sequence chunk a.pending,
            length-insert_new sequence chunk a.pending,
            IsSettled-insert a.next next sequence chunk a.pending,
          )
    ]

  abbrev AreWords : Progress → Type 0
  AreWords p = (p.next < 2 ^ 32) × All (λ e. e.0 < 2 ^ 32) p.pending

  drain-AreWords : (rounds : ℕ) (p : Progress) → AreWords p → AreWords (drain rounds p).0
  unfolding deliver wrapping_add
  drain-AreWords =
      drain_rule (λ p out p'. AreWords p → AreWords p') (λ p h. h)
        (λ p k chunk more p' e f ih h.
          ih (ground (arith, All-remove (λ e. e.0 < 2 ^ 32) k p.pending)))

  IsAfter-All :
      (next : ℕ) (pending : List (ℕ × TcpChunk))
      → All (λ e. e.0 < 2 ^ 32) pending
      → All (λ e. sequence_before next e.0 ≡ true) pending
      → All (IsAfter next) pending
  IsAfter-All next [] h k = tt
  IsAfter-All next (e ∷ pending) h k = ((h.0, k.0), IsAfter-All next pending h.1 k.1)

  words :
      (o : Option ℕ) (pending : List (ℕ × TcpChunk))
      → IsSettled o pending
      → All (λ e. e.0 < 2 ^ 32) pending
  words none pending h = rw h tt
  words (some n) [] h = tt
  words (some n) (e ∷ pending) h = (h.1.0.0, words (some n) pending (h.0, h.1.1))

  advance-IsValid :
      (next : ℕ) (bytes : List ℕ) (timestamp : ℤ) → IsValid (advance a next bytes timestamp).0
  unfolding advance wrapping_add
  advance-IsValid next bytes timestamp =
      let p : Progress = record {
        next = (next + length bytes) % 2 ^ 32;
        pending = a.pending;
        pending_bytes = a.pending_bytes;
      } in
      let start : IsCounted p = record { ascending = v.ascending; counted = v.counted } in
      let (c, l, b) = drain-IsCounted (length a.pending) p start in
      let (n, ws) =
        drain-AreWords (length a.pending) p (omega arith, words a.next a.pending v.settled) in
      let ended = drain_done (length a.pending) p start (omega arith) in
      record {
        ascending = c.ascending;
        counted = c.counted;
        few = omega (arith, v.few);
        bounded = omega (arith, v.bounded);
        settled = (n, IsAfter-All _ _ ws (candidate-none _ _ ended));
      }

  place-IsValid :
      (next sequence : ℕ) (bytes : List ℕ) (timestamp : ℤ)
      → a.next ≡ some next
      → next < 2 ^ 32
      → sequence < 2 ^ 32
      → sequence_before sequence next ≡ false
      → IsValid (place a next sequence bytes timestamp).0
  unfolding place
  place-IsValid next sequence bytes timestamp e n s b = ground (
    arith,
    fail-IsValid,
    advance-IsValid next bytes timestamp,
    after_next next sequence n s,
    λ (h : sequence_before next sequence ≡ true). hold-IsValid next sequence e s h bytes timestamp,
  )

-- What `trim` leaves begins at `next` or after it.
trim_after :
    (next sequence : ℕ) (bytes : List ℕ) (sequence' : ℕ) (bytes' : List ℕ)
    → next < 2 ^ 32
    → sequence < 2 ^ 32
    → trim next sequence bytes ≡ some (sequence', bytes')
    → (sequence' < 2 ^ 32) × (sequence_before sequence' next ≡ false)
unfolding trim
trim_after next sequence bytes sequence' bytes' n s h =
    ground (arith, sequence_before_irrefl next n)

-- Seeding a stream with its first sequence number, or keeping the number it has.
seeded-IsValid :
    (a : TcpAssembler) (sequence : ℕ)
    → sequence < 2 ^ 32
    → IsValid a
    → (get_or_insert a.next sequence < 2 ^ 32)
      × IsValid (record a { next = some (get_or_insert a.next sequence) })
seeded-IsValid a sequence s v =
    let (n, settled) = seeded-IsSettled a.next a.pending sequence s v.settled in
    (
      n,
      record {
        ascending = v.ascending;
        counted = v.counted;
        few = v.few;
        bounded = v.bounded;
        settled = (n, settled);
      },
    )

pub push-IsValid :
    (a : TcpAssembler) (sequence : ℕ) (bytes : List ℕ) (timestamp : ℤ)
    → sequence < 2 ^ 32
    → IsValid a
    → IsValid (push a sequence bytes timestamp).0
unfolding push push_at
push-IsValid a sequence bytes timestamp s v = elim (Bool-cases (a.failed || is_empty bytes)) [
  | inl e ↦ rw (e, push) v
  | inr e ↦
      let next = get_or_insert a.next sequence in
      let (n, w) = seeded-IsValid a sequence s v in
      elim (Option-cases (trim next sequence bytes)) [
        | inl f ↦ rw (e, push, push_at, f) w
        | inr ((sequence', bytes'), f) ↦
            let (s', b) = trim_after next sequence bytes sequence' bytes' n s f in
            rw (e, push, push_at, f)
              (place-IsValid (record a { next = some next }) w next sequence' bytes' timestamp refl
                n s' b)
      ]
]

-- The calls that `FlowState` makes of an assembler.
pub data Call : Type 0 where
  seed_call : ℕ → Call
  push_call : ℕ → List ℕ → ℤ → Call
  fin_call : ℕ → Call

pub call : TcpAssembler → Call → TcpAssembler
call a (seed_call sequence) = seed a sequence
call a (push_call sequence bytes timestamp) = (push a sequence bytes timestamp).0
call a (fin_call sequence) = fin a sequence

pub calls : TcpAssembler → List Call → TcpAssembler
calls a [] = a
calls a (c ∷ cs) = calls (call a c) cs

-- The sequence number of a call is a u32.
abbrev pub IsWordCall : Call → Type 0
IsWordCall (seed_call sequence) = sequence < 2 ^ 32
IsWordCall (push_call sequence bytes timestamp) = sequence < 2 ^ 32
IsWordCall (fin_call sequence) = sequence < 2 ^ 32

call-IsValid : (a : TcpAssembler) (c : Call) → IsWordCall c → IsValid a → IsValid (call a c)
unfolding call seed fin
call-IsValid a (seed_call sequence) s v = (seeded-IsValid a sequence s v).1
call-IsValid a (push_call sequence bytes timestamp) s v =
    push-IsValid a sequence bytes timestamp s v
call-IsValid a (fin_call sequence) s v = record {
  ascending = v.ascending;
  counted = v.counted;
  few = v.few;
  bounded = v.bounded;
  settled = v.settled;
}

calls-IsValid :
    (a : TcpAssembler) (cs : List Call) → All IsWordCall cs → IsValid a → IsValid (calls a cs)
unfolding calls
calls-IsValid a [] w v = v
calls-IsValid a (c ∷ cs) w v = calls-IsValid (call a c) cs w.1 (call-IsValid a c w.0 v)

-- After any calls with any segments the assembler holds at most 256 chunks and at most `limit`
-- pending bytes, which it has counted exactly, and whatever still waits is after the next byte.
pub calls-new-IsValid :
    (limit : ℕ) (cs : List Call) → All IsWordCall cs → IsValid (calls (new limit) cs)
calls-new-IsValid limit cs w = calls-IsValid (new limit) cs w (new-IsValid limit)
