-- ===== src/Common/SortedMap.antt =====
-- `BTreeMap<u32, V>`: an association list in ascending order of its keys.
pub mod Lookup
use newhatch.Common.Tests.{ltb, ◌==◌, if◌then◌else◌, Bool-cases}
use newhatch.Common.Lists.{length, All}
use Prim.Native.Nat.{ℕ, suc, ◌+◌, ◌≤◌, ◌<◌}
use mathlib.Core.Path.{◌≡◌, refl, subst}
use mathlib.Core.Logic.{inl, inr}
use mathlib.Core.Option.{Option, none, some}
use mathlib.Core.List.{List, [], ◌∷◌}
use native.Mathlib.Omega.{arith}

module _ {ℓ} {V : Type ℓ} where
  unfoldable pub lookup : ℕ → List (ℕ × V) → Option V
  lookup k [] = none
  lookup k ((j, v) ∷ m) = if j == k then some v else lookup k m

  unfoldable pub insert : ℕ → V → List (ℕ × V) → List (ℕ × V)
  insert k v [] = (k, v) ∷ []
  insert k v ((j, w) ∷ m) =
      if j == k then (k, v) ∷ m else if ltb k j then (k, v) ∷ (j, w) ∷ m else (j, w) ∷ insert k v m

  unfoldable pub remove : ℕ → List (ℕ × V) → List (ℕ × V)
  remove k [] = []
  remove k ((j, w) ∷ m) = if j == k then m else (j, w) ∷ remove k m

  abbrev pub IsAscending : List (ℕ × V) → Type 0
  IsAscending [] = Unit
  IsAscending ((k, v) ∷ m) = All (λ e. k < e.0) m × IsAscending m

  -- The sum of a measure over the values.
  abbrev pub total : (V → ℕ) → List (ℕ × V) → ℕ
  total size [] = 0
  total size ((k, v) ∷ m) = size v + total size m

module _ {ℓ} {V : Type ℓ} where
  pub All-insert {κ} :
      (P : ℕ × V → Type κ) (k : ℕ) (v : V) (m : List (ℕ × V))
      → P (k, v)
      → All P m
      → All P (insert k v m)
  unfolding insert
  All-insert P k v [] p h = (p, h)
  All-insert P k v ((j, w) ∷ m) p (q, h) = elim (Bool-cases (j == k)) [
    | inl e ↦ rw e (p, h)
    | inr e ↦ rw e (elim (Bool-cases (ltb k j)) [
      | inl f ↦ rw f (p, (q, h))
      | inr f ↦ rw f (q, All-insert P k v m p h)
    ])
  ]

  pub All-remove {κ} :
      (P : ℕ × V → Type κ) (k : ℕ) (m : List (ℕ × V)) → All P m → All P (remove k m)
  unfolding remove
  All-remove P k [] h = h
  All-remove P k ((j, w) ∷ m) (q, h) = elim (Bool-cases (j == k)) [
    | inl e ↦ rw e h
    | inr e ↦ rw e (q, All-remove P k m h)
  ]

  pub All-lookup {κ} :
      (P : ℕ × V → Type κ) (k : ℕ) (v : V) (m : List (ℕ × V))
      → All P m
      → lookup k m ≡ some v
      → P (k, v)
  unfolding lookup
  All-lookup P k v [] h e = absurd (ground arith)
  All-lookup P k v ((j, w) ∷ m) (q, h) e = elim (Bool-cases (j == k)) [
    | inl f ↦ let pair : ◌≡◌ {A = ℕ × V} (j, w) (k, v) = ground arith in subst P pair q
    | inr f ↦ All-lookup P k v m h (ground arith)
  ]

  pub total-insert_new :
      (size : V → ℕ) (k : ℕ) (v : V) (m : List (ℕ × V))
      → lookup k m ≡ none
      → total size (insert k v m) ≡ total size m + size v
  unfolding insert lookup
  total-insert_new size k v [] h = omega arith
  total-insert_new size k v ((j, w) ∷ m) h = ground (arith, total-insert_new size k v m)

  -- A key at or below a bound under all keys is not there.
  lookup-below : (j k : ℕ) (m : List (ℕ × V)) → All (λ e. j < e.0) m → k ≤ j → lookup k m ≡ none
  unfolding lookup
  lookup-below j k [] h le = refl
  lookup-below j k ((i, w) ∷ m) h le = ground (arith, lookup-below j k m)

  pub total-insert_old :
      (size : V → ℕ) (k : ℕ) (v w : V) (m : List (ℕ × V))
      → IsAscending m
      → lookup k m ≡ some w
      → total size (insert k v m) + size w ≡ total size m + size v
  unfolding insert lookup
  total-insert_old size k v w [] s h = cc
  total-insert_old size k v w ((j, u) ∷ m) s h =
      ground (arith, total-insert_old size k v w m, lookup-below j k m)

  pub length-insert_old :
      (k : ℕ) (v w : V) (m : List (ℕ × V))
      → IsAscending m
      → lookup k m ≡ some w
      → length (insert k v m) ≡ length m
  unfolding insert lookup
  length-insert_old k v w [] s h = cc
  length-insert_old k v w ((j, u) ∷ m) s h =
      ground (arith, length-insert_old k v w m, lookup-below j k m)

  pub length-insert_new :
      (k : ℕ) (v : V) (m : List (ℕ × V))
      → lookup k m ≡ none
      → length (insert k v m) ≡ suc (length m)
  unfolding insert lookup
  length-insert_new k v [] h = refl
  length-insert_new k v ((j, u) ∷ m) h = ground (arith, length-insert_new k v m)

  below_weaken : (i j : ℕ) (m : List (ℕ × V)) → i < j → All (λ e. j < e.0) m → All (λ e. i < e.0) m
  below_weaken i j [] lt h = tt
  below_weaken i j ((k, v) ∷ m) lt (q, h) = (omega arith, below_weaken i j m lt h)

  pub IsAscending-insert :
      (k : ℕ) (v : V) (m : List (ℕ × V)) → IsAscending m → IsAscending (insert k v m)
  unfolding insert
  IsAscending-insert k v [] h = (tt, tt)
  IsAscending-insert k v ((j, w) ∷ m) (q, h) = elim (Bool-cases (j == k)) [
    | inl e ↦ rw e (subst (λ (i : ℕ). All (λ p. i < p.0) m) (ground arith) q, h)
    | inr e ↦ rw e (elim (Bool-cases (ltb k j)) [
      | inl f ↦ let lt : k < j = ground arith in rw f ((lt, below_weaken k j m lt q), (q, h))
      | inr f ↦
          let lt : j < k = ground arith in
          rw f (All-insert (λ p. j < p.0) k v m lt q, IsAscending-insert k v m h)
    ])
  ]

  pub IsAscending-remove : (k : ℕ) (m : List (ℕ × V)) → IsAscending m → IsAscending (remove k m)
  unfolding remove
  IsAscending-remove k [] h = h
  IsAscending-remove k ((j, w) ∷ m) (q, h) = elim (Bool-cases (j == k)) [
    | inl e ↦ rw e h
    | inr e ↦ rw e (All-remove (λ p. j < p.0) k m q, IsAscending-remove k m h)
  ]

  pub total-remove :
      (size : V → ℕ) (k : ℕ) (v : V) (m : List (ℕ × V))
      → lookup k m ≡ some v
      → total size m ≡ total size (remove k m) + size v
  unfolding remove lookup
  total-remove size k v [] h = cc
  total-remove size k v ((j, w) ∷ m) h = ground (arith, total-remove size k v m)

  pub length-remove :
      (k : ℕ) (v : V) (m : List (ℕ × V))
      → lookup k m ≡ some v
      → length m ≡ suc (length (remove k m))
  unfolding remove lookup
  length-remove k v [] h = cc
  length-remove k v ((j, w) ∷ m) h = ground (arith, length-remove k v m)
