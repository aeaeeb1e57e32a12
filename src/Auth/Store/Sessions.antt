-- ===== src/Auth/Store/Sessions.antt =====
-- What `BoundedStore` (crates/analyzer/src/auth.rs) keeps of sessions through its calls.
use newhatch.Common.{
  ℕ, ◌≡◌, ◌↔◌, refl, arith, if◌then◌else◌, true, Option, none, some, List, [], ◌∷◌, Bool-cases, inl,
  inr,
}
use newhatch.Common.Int.{ℤ}
use newhatch.Common.SortedMap.{lookup, remove, IsAscending}
use newhatch.Common.SortedMap.Lookup.{lookup-insert, lookup-remove}
use newhatch.Auth.Store.{Record, Store, is_live, is_stale, save, load, delete}

-- One of the calls that do not create a session, with its instant.
pub data Call : Type 0 where
  saved : Record → ℤ → Call
  loaded : ℕ → ℤ → Call
  deleted : ℕ → Call

unfoldable pub apply_call : Store → Call → Store
apply_call records (saved r now) = (save now records r).0
apply_call records (loaded id now) = (load now records id).0
apply_call records (deleted id) = delete records id

unfoldable pub apply_calls : Store → List Call → Store
apply_calls records [] = records
apply_calls records (call ∷ calls) = apply_calls (apply_call records call) calls

remove-lookup-none :
    (j k : ℕ) (records : Store) → lookup j records ≡ none → lookup j (remove k records) ≡ none
unfolding lookup remove
remove-lookup-none j k [] h = refl
remove-lookup-none j k ((i, r) ∷ records) h = ground (arith, remove-lookup-none j k records)

save_found :
    (id : ℕ) (r : Record) (now : ℤ) (records : Store) (o : Option Record)
    → lookup r.id records ≡ o
    → lookup id records ≡ none
    → lookup id (save now records r).0 ≡ none
unfolding save
save_found id r now records none e h = rw (e, save) h
save_found id r now records (some existing) e h =
    rw (e, save) (ground (arith, e, h, lookup-insert id r.id r records))

apply_call-lookup-none :
    (id : ℕ) (records : Store) (call : Call)
    → lookup id records ≡ none
    → lookup id (apply_call records call) ≡ none
unfolding apply_call load delete
apply_call-lookup-none id records (saved r now) h = save_found id r now records _ refl h
apply_call-lookup-none id records (loaded k now) h =
    ground (arith, h, remove-lookup-none id k records h)
apply_call-lookup-none id records (deleted k) h = remove-lookup-none id k records h

apply_calls-lookup-none :
    (id : ℕ) (records : Store) (calls : List Call)
    → lookup id records ≡ none
    → lookup id (apply_calls records calls) ≡ none
unfolding apply_calls
apply_calls-lookup-none id records [] h = h
apply_calls-lookup-none id records (call ∷ calls) h =
    apply_calls-lookup-none id (apply_call records call) calls
      (apply_call-lookup-none id records call h)

load-none :
    (now : ℤ) (id : ℕ) (records : Store) → lookup id records ≡ none → (load now records id).1 ≡ none
unfolding load
load-none now id records h = ground (arith, h, remove-lookup-none id id records h)

lookup-remove_same :
    (id : ℕ) (records : Store) → IsAscending records → lookup id (remove id records) ≡ none
lookup-remove_same id records a = ground (arith, lookup-remove id id records a)

-- A session that was deleted is not loaded again, whatever is saved, loaded and deleted behind that:
-- saving does not revive it.
pub load-delete :
    (records : Store) (id : ℕ) (calls : List Call) (now : ℤ)
    → IsAscending records
    → (load now (apply_calls (delete records id) calls) id).1 ≡ none
unfolding delete
load-delete records id calls now a =
    load-none now id (apply_calls (remove id records) calls)
      (apply_calls-lookup-none id (remove id records) calls (lookup-remove_same id records a))

abbrev live_only : ℤ → Option Record → Option Record
live_only now none = none
live_only now (some r) = if is_live now r then some r else none

load-live_only :
    (now : ℤ) (id : ℕ) (records : Store) (o : Option Record)
    → lookup id records ≡ o
    → IsAscending records
    → (load now records id).1 ≡ live_only now o
unfolding load is_stale
load-live_only now id records none e a = rw (e, is_stale) e
load-live_only now id records (some found) e a = elim (Bool-cases (is_live now found)) [
  | inl live ↦ rw (e, is_stale, live) e
  | inr gone ↦ rw (e, is_stale, gone) (lookup-remove_same id records a)
]

live_only_iff :
    (now : ℤ) (o : Option Record) (r : Record)
    → (live_only now o ≡ some r) ↔ ((o ≡ some r) × (is_live now r ≡ true))
live_only_iff now none r = (λ e. absurd (cc), λ (e, l). absurd (cc))
live_only_iff now (some found) r = elim (Bool-cases (is_live now found)) [
  | inl live ↦ rw live (λ e. (e, (cc)), λ (e, l). e)
  | inr gone ↦ rw gone (λ e. absurd (cc), λ (e, l). absurd (cc))
]

-- Loading returns a record exactly when it is stored under the id and has not expired.
pub load_iff :
    (now : ℤ) (id : ℕ) (r : Record) (records : Store)
    → IsAscending records
    → ((load now records id).1 ≡ some r) ↔ ((lookup id records ≡ some r) × (is_live now r ≡ true))
load_iff now id r records a =
    rw (load-live_only now id records (lookup id records) refl a)
      (live_only_iff now (lookup id records) r)
