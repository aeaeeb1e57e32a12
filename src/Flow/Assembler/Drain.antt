-- ===== src/Flow/Assembler/Drain.antt =====
-- The loop at the end of `TcpAssembler::push`: its candidates, its end, and what it keeps.
use newhatch.Common.{ℕ, zero, suc, ◌≤◌, ◌≡◌, refl, arith, ◌==◌}
use newhatch.Common.{
  true, false, none, some, List, [], ◌∷◌, ◌++◌, length, All, Option-cases, Bool-cases, inl, inr,
}
use newhatch.Common.SortedMap.{
  lookup, IsAscending, total, IsAscending-remove, total-remove, length-remove,
}
use newhatch.Flow.Sequence.{sequence_before}
use newhatch.Flow.Assembler.{TcpChunk, Slice, Progress, candidate, deliver, drain}

abbrev pub chunk_size : TcpChunk → ℕ
chunk_size chunk = length chunk.bytes

-- A candidate is not after `next`.
pub candidate-before :
    (next k : ℕ) (pending : List (ℕ × TcpChunk))
    → candidate next pending ≡ some k
    → sequence_before next k ≡ false
unfolding candidate
candidate-before next k [] h = cc
candidate-before next k ((j, chunk) ∷ pending) h = ground (arith, candidate-before next k pending)

-- A candidate is pending.
pub candidate-lookup :
    (next k : ℕ) (pending : List (ℕ × TcpChunk))
    → candidate next pending ≡ some k
    → (chunk : TcpChunk) × (lookup k pending ≡ some chunk)
unfolding candidate lookup
candidate-lookup next k [] h = absurd (ground arith)
candidate-lookup next k ((j, chunk) ∷ pending) h = elim (Bool-cases (j == k)) [
  | inl e ↦ (chunk, rw e)
  | inr e ↦ let (found, at) = candidate-lookup next k pending (ground arith) in (found, rw e at)
]

-- There is no candidate only if every pending key is after `next`.
pub candidate-none :
    (next : ℕ) (pending : List (ℕ × TcpChunk))
    → candidate next pending ≡ none
    → All (λ e. sequence_before next e.0 ≡ true) pending
unfolding candidate
candidate-none next [] h = tt
candidate-none next ((j, chunk) ∷ pending) h =
    (ground arith, candidate-none next pending (ground arith))

-- What the loop keeps.
pub record IsCounted (p : Progress) : Type 0 where
  pub ascending : IsAscending p.pending
  pub counted : p.pending_bytes ≡ total chunk_size p.pending

deliver-IsCounted :
    (p : Progress) (k : ℕ) (chunk : TcpChunk)
    → lookup k p.pending ≡ some chunk
    → IsCounted p
    → IsCounted (deliver p k chunk).0
      × (length p.pending ≡ suc (length (deliver p k chunk).0.pending))
      × ((deliver p k chunk).0.pending_bytes ≤ p.pending_bytes)
unfolding deliver
deliver-IsCounted p k chunk e h = ground (
  arith,
  IsAscending-remove k p.pending,
  total-remove chunk_size k chunk p.pending,
  length-remove k chunk p.pending,
)

-- One round of the loop, where there is a candidate, and its end, where there is none.
pub drain_round :
    (p : Progress) (rounds k : ℕ) (chunk : TcpChunk)
    → candidate p.next p.pending ≡ some k
    → lookup k p.pending ≡ some chunk
    → drain (suc rounds) p ≡ (
      (drain rounds (deliver p k chunk).0).0,
      (deliver p k chunk).1 ++ (drain rounds (deliver p k chunk).0).1,
    )
unfolding drain
drain_round p rounds k chunk e f = rw (e, f, drain)

pub drain_end :
    (p : Progress) (rounds : ℕ) → candidate p.next p.pending ≡ none → drain rounds p ≡ (p, [])
unfolding drain
drain_end p zero e = refl
drain_end p (suc rounds) e = rw (e, drain)

-- A relation between the start of the loop, what it delivers and its end holds if it holds where
-- nothing is done and is kept by one more round at the front.
module _ {ℓ} (R : Progress → List Slice → Progress → Type ℓ) (stop : (p : Progress) → R p [] p)
    (step : (p : Progress) (k : ℕ) (chunk : TcpChunk) (more : List Slice) (p' : Progress)
      → candidate p.next p.pending ≡ some k
      → lookup k p.pending ≡ some chunk
      → R (deliver p k chunk).0 more p'
      → R p ((deliver p k chunk).1 ++ more) p') where
  pub drain_rule : (rounds : ℕ) (p : Progress) → R p (drain rounds p).1 (drain rounds p).0
  drain_rule zero p = unfold drain in stop p
  drain_rule (suc rounds) p = elim (Option-cases (candidate p.next p.pending)) [
    | inl e ↦ rw (drain_end p (suc rounds) e) (stop p)
    | inr (k, e) ↦
        let (chunk, f) = candidate-lookup p.next k p.pending e in
        rw (drain_round p rounds k chunk e f)
          (step p k chunk _ _ e f (drain_rule rounds (deliver p k chunk).0))
  ]

abbrev Shrinks : Progress → List Slice → Progress → Type 0
Shrinks p out p' =
    IsCounted p
    → IsCounted p' × (length p'.pending ≤ length p.pending) × (p'.pending_bytes ≤ p.pending_bytes)

pub drain-IsCounted : (rounds : ℕ) (p : Progress) → Shrinks p (drain rounds p).1 (drain rounds p).0
drain-IsCounted =
    drain_rule Shrinks (λ p h. (h, omega arith, omega arith))
      (λ p k chunk more p' e f ih h.
        let (c, l, b) = deliver-IsCounted p k chunk f h in
        let (c', l', b') = ih c in (c', omega arith, omega arith))

-- With as many rounds as there are chunks the loop ends because no candidate is left.
pub drain_done :
    (rounds : ℕ) (p : Progress)
    → IsCounted p
    → length p.pending ≤ rounds
    → candidate (drain rounds p).0.next (drain rounds p).0.pending ≡ none
drain_done zero p h enough = elim (Option-cases (candidate p.next p.pending)) [
  | inl e ↦ rw (drain_end p zero e) e
  | inr (k, e) ↦
      let (chunk, f) = candidate-lookup p.next k p.pending e in
      absurd (omega (arith, length-remove k chunk p.pending f))
]
drain_done (suc rounds) p h enough = elim (Option-cases (candidate p.next p.pending)) [
  | inl e ↦ rw (drain_end p (suc rounds) e) e
  | inr (k, e) ↦
      let (chunk, f) = candidate-lookup p.next k p.pending e in
      let (c, l, b) = deliver-IsCounted p k chunk f h in
      rw (drain_round p rounds k chunk e f)
        (drain_done rounds (deliver p k chunk).0 c (omega arith))
]
