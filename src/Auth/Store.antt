-- ===== src/Auth/Store.antt =====
-- `BoundedStore` of crates/analyzer/src/auth.rs. The hash map is kept in the order of its keys; an id
-- is a number, and a record's contents are bytes. The clock is read once in a call: `now`. The new
-- ids that `Id::default()` draws are a list.
pub mod Sessions
pub mod Creation
use newhatch.Common.{
  ℕ, zero, suc, ◌+◌, ◌≤◌, ◌≡◌, refl, sym, ap, ◌∙◌, arith, ltb, leb, ◌==◌, if◌then◌else◌, Bool, true,
  false, not, ◌&&◌, ◌||◌, Option, none, some, List, [], ◌∷◌, length, All, Result, ok, err,
  Bool-cases, Option-cases, inl, inr,
}
use newhatch.Common.Int.{ℤ, leb_ℤ}
use newhatch.Common.SortedMap.{lookup, insert, remove}

-- `tower_sessions::session::Record`
pub record Record : Type 0 where
  pub id : ℕ
  pub expiry_date : ℤ
  pub contents : List ℕ

pub data StoreError : Type 0 where
  capacity_reached no_longer_exists : StoreError

abbrev pub Store : Type 0
Store = List (ℕ × Record)

-- `expiry_date > now`
unfoldable pub is_live : ℤ → Record → Bool
is_live now r = not (leb_ℤ r.expiry_date now)

unfoldable pub retain_live : ℤ → Store → Store
retain_live now [] = []
retain_live now ((id, r) ∷ records) =
    let rest = retain_live now records in if is_live now r then (id, r) ∷ rest else rest

-- The loop that draws ids until one is free: `none` if the list of draws ends before.
unfoldable pub free_id : Store → ℕ → List ℕ → Option ℕ
free_id records id [] = elim (lookup id records) [ none ↦ some id | some taken ↦ none ]
free_id records id (draw ∷ draws) =
    let rest = free_id records draw draws in
    elim (lookup id records) [ none ↦ some id | some taken ↦ rest ]

unfoldable pub create_under : Store → Record → Option ℕ → Option (Store × Result StoreError Record)
create_under records r none = none
create_under records r (some id) =
    let r' = record r { id = id } in some (insert id r' records, ok r')

-- BoundedStore::create: the store, and the record with its id.
unfoldable pub create : ℤ → List ℕ → Store → Record → Option (Store × Result StoreError Record)
create now draws records r =
    let live = retain_live now records in
    if leb 1024 (length live)
    then some (live, err capacity_reached)
    else create_under live r (free_id live r.id draws)

-- BoundedStore::save
unfoldable pub save : ℤ → Store → Record → Store × Result StoreError (Unit {0})
save now records r = elim (lookup r.id records) [
  | none ↦ (records, err no_longer_exists)
  | some existing ↦
      if is_live now existing
      then (insert r.id r records, ok tt)
      else (records, err no_longer_exists)
]

unfoldable pub is_stale : ℤ → Option Record → Bool
is_stale now none = false
is_stale now (some r) = not (is_live now r)

-- BoundedStore::load
unfoldable pub load : ℤ → Store → ℕ → Store × Option Record
load now records id =
    let records' = if is_stale now (lookup id records) then remove id records else records in
    (records', lookup id records')

-- BoundedStore::delete
unfoldable pub delete : Store → ℕ → Store
delete records id = remove id records
