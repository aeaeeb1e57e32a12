-- ===== src/Auth/Store/Creation.antt =====
-- `BoundedStore::create` (crates/analyzer/src/auth.rs): room, fresh ids, and that it comes to an end.
use newhatch.Common.{
  ℕ, ◌≤◌, ◌≡◌, refl, ◌∙◌, arith, leb, ◌==◌, false, none, some, List, [], ◌∷◌, length, All, Result,
  ok, err, Bool-cases, Option-cases, inl, inr, ◌⊎◌,
}
use newhatch.Common.Int.{ℤ}
use newhatch.Common.SortedMap.{lookup, insert, remove, length-remove}
use newhatch.Common.SortedMap.Lookup.{lookup-remove_other}
use newhatch.Auth.Store.{
  Record, StoreError, Store, retain_live, free_id, create_under, create, capacity_reached,
}

-- No two of the ids are the same.
abbrev pub AreDistinct : List ℕ → Type 0
AreDistinct [] = Unit {0}
AreDistinct (id ∷ ids) = All (λ other. (id == other) ≡ false) ids × AreDistinct ids

abbrev AreTaken : Store → List ℕ → Type 0
AreTaken records ids = All (λ id. (r : Record) × (lookup id records ≡ some r)) ids

taken_others :
    (records : Store) (id : ℕ) (ids : List ℕ)
    → All (λ other. (id == other) ≡ false) ids
    → AreTaken records ids
    → AreTaken (remove id records) ids
taken_others records id [] d t = tt
taken_others records id (other ∷ ids) (d, ds) ((r, e), ts) =
    ((r, lookup-remove_other other id records d ∙ e), taken_others records id ids ds ts)

-- Distinct ids that are taken are no more than there are records.
taken_few :
    (records : Store) (ids : List ℕ)
    → AreDistinct ids
    → AreTaken records ids
    → length ids ≤ length records
taken_few records [] d t = omega arith
taken_few records (id ∷ ids) (d, ds) ((r, e), ts) =
    let fewer = taken_few (remove id records) ids ds (taken_others records id ids d ts) in
    omega (arith, fewer, length-remove id r records e)

-- The loop finds an id, or all ids are taken.
free_id-cases :
    (records : Store) (id : ℕ) (draws : List ℕ)
    → ((new_id : ℕ) × (free_id records id draws ≡ some new_id)) ⊎ AreTaken records (id ∷ draws)
unfolding free_id
free_id-cases records id [] = elim (Option-cases (lookup id records)) [
  | inl e ↦ inl (id, rw (e, free_id) refl)
  | inr (r, e) ↦ inr ((r, e), tt)
]
free_id-cases records id (draw ∷ draws) = elim (Option-cases (lookup id records)) [
  | inl e ↦ inl (id, rw (e, free_id) refl)
  | inr (r, e) ↦ elim (free_id-cases records draw draws) [
    | inl (new_id, f) ↦ inl (new_id, rw (e, free_id) f)
    | inr t ↦ inr ((r, e), t)
  ]
]

found_free :
    (records : Store) (id : ℕ) (draws : List ℕ)
    → AreDistinct (id ∷ draws)
    → length records ≤ length draws
    → (new_id : ℕ) × (free_id records id draws ≡ some new_id)
found_free records id draws d l = elim (free_id-cases records id draws) [
  | inl found ↦ found
  | inr t ↦ absurd (omega (arith, taken_few records (id ∷ draws) d t))
]

-- With 1023 draws that are distinct and are not the record's own id, creating a session ends: it
-- fails or gives the record an id.
pub create-total :
    (now : ℤ) (draws : List ℕ) (records : Store) (r : Record)
    → AreDistinct (r.id ∷ draws)
    → 1023 ≤ length draws
    → (result : Store × Result StoreError Record) × (create now draws records r ≡ some result)
unfolding create create_under
create-total now draws records r d l =
    let live = retain_live now records in
    elim (Bool-cases (leb 1024 (length live))) [
      | inl full ↦ ((live, err capacity_reached), rw full refl)
      | inr room ↦
          let (id, e) = found_free live r.id draws d (ground (arith, l, room)) in
          (
            (insert id (record r { id = id }) live, ok (record r { id = id })),
            rw (room, e, create_under) refl,
          )
    ]

-- What creating a session did: its id was free, and it is stored under it beside the others.
abbrev IsCreated : Store → Store → Record → Record → Type 0
IsCreated live records r r' =
    (lookup r'.id live ≡ none) × (records ≡ insert r'.id r' live) × (r' ≡ record r { id = r'.id })
