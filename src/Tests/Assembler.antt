-- ===== src/Tests/Assembler.antt =====
-- `TcpAssembler` (crates/analyzer/src/flow.rs): runs, and the theorems at concrete inputs.
use newhatch.Common.{ℕ, ◌≤◌, ◌≡◌, refl, arith, inl, true, false, none, some, List, [], ◌∷◌, take}
use newhatch.Common.Int.{pos}
use newhatch.Common.SortedMap.{lookup, insert, remove}
use newhatch.Flow.Sequence.{seq, sequence_before, wrapping_add}
use newhatch.Flow.Assembler.{
  TcpAssembler, new, seed, push, push_at, place, place_rest, hold, advance, drain, deliver,
  candidate, any_disagrees, is_past, trim, get_or_insert,
}
use newhatch.Flow.Assembler.Valid.{
  IsValid, seed_call, push_call, fin_call, calls, calls-new-IsValid,
}
use newhatch.Flow.Assembler.Stream.{Tracks, Delivers, delivered, new-Tracks}
use newhatch.Flow.Assembler.Prefix.{Arrival, arrive, arrive-prefix}
use newhatch.Flow.Assembler.Accept.{push_continues}

abbrev stream : List ℕ
stream = b'H' ∷ b'e' ∷ b'l' ∷ b'l' ∷ b'o' ∷ []

-- The sequence numbers wrap around behind the second byte.
abbrev origin : ℕ
origin = 0xffff_fffe

-- "lo" before "Hell", which overlaps it, and "e" once more.
abbrev arrivals : List Arrival
arrivals =
    record { offset = 3; bytes = b'l' ∷ b'o' ∷ []; timestamp = pos 2 }
    ∷ record { offset = 0; bytes = b'H' ∷ b'e' ∷ b'l' ∷ b'l' ∷ []; timestamp = pos 1 }
    ∷ record { offset = 1; bytes = b'e' ∷ []; timestamp = pos 3 }
    ∷ []

-- The early segment waits, and the three overlapping ones make up the stream.
stream_assembled : delivered (arrive origin (seed (new 100) (seq origin 0)) arrivals).1 ≡ stream
unfolding arrive seed new seq sequence_before wrapping_add push push_at place place_rest hold
    advance drain deliver candidate any_disagrees is_past trim get_or_insert lookup insert remove
stream_assembled = refl

arrive-prefix_example :
    (d : ℕ) × (d ≤ 5)
    × (delivered (arrive origin (seed (new 100) (seq origin 0)) arrivals).1 ≡ take d stream)
    × ((arrive origin (seed (new 100) (seq origin 0)) arrivals).0.next ≡ some (seq origin d))
arrive-prefix_example =
    arrive-prefix stream origin (omega arith) 100 arrivals
      ((omega arith, refl), ((omega arith, refl), ((omega arith, refl), tt)))

calls-new-IsValid_example :
    IsValid (calls (new 2) (seed_call 5 ∷ push_call 7 stream (pos 1) ∷ fin_call 9 ∷ []))
calls-new-IsValid_example =
    calls-new-IsValid 2 (seed_call 5 ∷ push_call 7 stream (pos 1) ∷ fin_call 9 ∷ []) (omega arith)

started : TcpAssembler
started = seed (new 100) (seq origin 0)

started-IsValid : IsValid started
unfolding started seed new seq
started-IsValid = record {
  ascending = tt;
  counted = refl;
  few = omega arith;
  bounded = omega arith;
  settled = (omega arith, tt);
}

started_fine : (started.fin_at ≡ none) × (started.failed ≡ false)
unfolding started seed new
started_fine = (refl, refl)

started-Tracks : Tracks stream origin (omega arith) 0 started
unfolding started
started-Tracks = new-Tracks stream origin (omega arith) 100

abbrev hell : List ℕ
hell = b'H' ∷ b'e' ∷ b'l' ∷ b'l' ∷ []

push_continues_example :
    (d' : ℕ) × Tracks stream origin (omega arith) d' (push started (seq origin 0) hell (pos 1)).0
    × Delivers stream origin (omega arith) 0 (push started (seq origin 0) hell (pos 1)).2 d'
    × (4 ≤ d')
    × ((push started (seq origin 0) hell (pos 1)).0.failed ≡ false)
    × ((push started (seq origin 0) hell (pos 1)).1 ≡ true)
push_continues_example =
    push_continues stream origin (omega arith) started 0 0 hell (pos 1) started-Tracks
      started-IsValid (omega arith, refl) (inl started_fine.0) started_fine.1 (omega arith)
      (omega arith)
