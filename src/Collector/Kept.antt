-- ===== src/Collector/Kept.antt =====
-- What the updates of a collector's status (crates/analyzer/src/collector.rs) keep of the registry.
use newhatch.Common.{
  ℕ, ◌≡◌, inl, inr, refl, ap, ◌∙◌, arith, bytes_eq, bytes_eq_iff, if◌then◌else◌, Bool, true, false,
  Option, some, List, [], ◌∷◌, Bool-cases,
}
use newhatch.Collector.{CollectorStatus, Registry, status_of, put_status, change_status}

-- The statuses of the other collectors are the same.
abbrev pub SameOthers : List ℕ → Registry → Registry → Type 0
SameOthers id registry registry' =
    (other : List ℕ)
    → bytes_eq other id ≡ false
    → status_of other registry' ≡ status_of other registry

bytes_eq_apart :
    (other id key : List ℕ)
    → bytes_eq other id ≡ false
    → bytes_eq id key ≡ true
    → bytes_eq other key ≡ false
bytes_eq_apart other id key d e = let same : id ≡ key = (bytes_eq_iff id key).0 e in rw (← same) d

pub change_status-SameOthers :
    (change : CollectorStatus → CollectorStatus) (id : List ℕ) (registry : Registry)
    → SameOthers id registry (change_status change id registry)
unfolding change_status status_of
change_status-SameOthers change id [] other d = refl
change_status-SameOthers change id ((key, status) ∷ registry) other d =
    elim (Bool-cases (bytes_eq id key)) [
      | inl e ↦ rw (e, bytes_eq_apart other id key d e) refl
      | inr e ↦ rw e (ground (arith, change_status-SameOthers change id registry other d))
    ]

pub put_status-SameOthers :
    (id : List ℕ) (status : CollectorStatus) (registry : Registry)
    → SameOthers id registry (put_status id status registry)
unfolding put_status status_of
put_status-SameOthers id status [] other d = rw d refl
put_status-SameOthers id status ((key, old) ∷ registry) other d =
    elim (Bool-cases (bytes_eq id key)) [
      | inl e ↦ rw (e, bytes_eq_apart other id key d e) refl
      | inr e ↦ rw e (ground (arith, put_status-SameOthers id status registry other d))
    ]

bytes_eq_same : (id : List ℕ) → bytes_eq id id ≡ true
bytes_eq_same id = (bytes_eq_iff id id).1 refl

pub status_of-put_status :
    (id : List ℕ) (status : CollectorStatus) (registry : Registry)
    → status_of id (put_status id status registry) ≡ some status
unfolding put_status status_of
status_of-put_status id status [] = rw (bytes_eq_same id) refl
status_of-put_status id status ((key, old) ∷ registry) = elim (Bool-cases (bytes_eq id key)) [
  | inl e ↦ rw (e, e) refl
  | inr e ↦ rw (e, e) (status_of-put_status id status registry)
]

pub status_of-change_status :
    (change : CollectorStatus → CollectorStatus) (id : List ℕ) (registry : Registry)
    (status : CollectorStatus)
    → status_of id registry ≡ some status
    → status_of id (change_status change id registry) ≡ some (change status)
unfolding change_status status_of
status_of-change_status change id [] status e = absurd (cc)
status_of-change_status change id ((key, old) ∷ registry) status e =
    elim (Bool-cases (bytes_eq id key)) [
      | inl k ↦
          let same : ◌≡◌ {A = Option CollectorStatus} (some old) (some status) = rw k at e in
          let found : old ≡ status = cc in
          rw (k, k) (ap (λ (x : CollectorStatus). some (change x)) found)
      | inr k ↦ rw (k, k) (status_of-change_status change id registry status (rw k at e))
    ]

-- From one registry to another in a connection with the id: the other collectors' statuses are the
-- same, and a status of the id is not lost.
pub record IsKept (id : List ℕ) (registry registry' : Registry) : Type 0 where
  pub others : SameOthers id registry registry'
  pub there :
      (status : CollectorStatus)
      → status_of id registry ≡ some status
      → (status' : CollectorStatus) × (status_of id registry' ≡ some status')

pub change_status-IsKept :
    (change : CollectorStatus → CollectorStatus) (id : List ℕ) (registry : Registry)
    → IsKept id registry (change_status change id registry)
change_status-IsKept change id registry = record {
  others = change_status-SameOthers change id registry;
  there = λ status e. (change status, status_of-change_status change id registry status e);
}

pub IsKept-refl : (id : List ℕ) (registry : Registry) → IsKept id registry registry
IsKept-refl id registry = record { others = λ other d. refl; there = λ status e. (status, e) }

pub IsKept-trans : (id : List ℕ) (a b c : Registry) → IsKept id a b → IsKept id b c → IsKept id a c
IsKept-trans id a b c k k' = record {
  others = λ other d. k'.others other d ∙ k.others other d;
  there = λ status e. let (status', e') = k.there status e in k'.there status' e';
}

pub IsKept-if :
    (id : List ℕ) (registry : Registry) (b : Bool) (x y : Registry)
    → IsKept id registry x
    → IsKept id registry y
    → IsKept id registry (if b then x else y)
IsKept-if id registry true x y k k' = k
IsKept-if id registry false x y k k' = k'
