-- ===== src/Common/SortedMap/Lookup.antt =====
-- Looking up in a map (Rust's BTreeMap, or a HashMap kept in the order of its keys) that was changed.
use newhatch.Common.Tests.{◌==◌, if◌then◌else◌}
use newhatch.Common.Lists.{All}
use Prim.Native.Nat.{ℕ, ◌≤◌, ◌<◌}
use mathlib.Core.Path.{◌≡◌, refl}
use mathlib.Core.Bool.{false}
use mathlib.Core.Option.{none, some}
use mathlib.Core.List.{List, [], ◌∷◌}
use native.Mathlib.Omega.{arith}
use newhatch.Common.SortedMap.{lookup, insert, remove, IsAscending}

module _ {ℓ} {V : Type ℓ} where
  pub lookup-insert :
      (j k : ℕ) (v : V) (m : List (ℕ × V))
      → lookup j (insert k v m) ≡ (if k == j then some v else lookup j m)
  unfolding lookup insert
  lookup-insert j k v [] = refl
  lookup-insert j k v ((i, w) ∷ m) = ground (arith, lookup-insert j k v m)

  lookup-least : (j k : ℕ) (m : List (ℕ × V)) → All (λ e. j < e.0) m → k ≤ j → lookup k m ≡ none
  unfolding lookup
  lookup-least j k [] h le = refl
  lookup-least j k ((i, w) ∷ m) h le = ground (arith, lookup-least j k m)

  pub lookup-remove_other :
      (j k : ℕ) (m : List (ℕ × V)) → (k == j) ≡ false → lookup j (remove k m) ≡ lookup j m
  unfolding lookup remove
  lookup-remove_other j k [] h = refl
  lookup-remove_other j k ((i, w) ∷ m) h = ground (arith, lookup-remove_other j k m)

  pub lookup-remove :
      (j k : ℕ) (m : List (ℕ × V))
      → IsAscending m
      → lookup j (remove k m) ≡ (if k == j then none else lookup j m)
  unfolding lookup remove
  lookup-remove j k [] h = ground arith
  lookup-remove j k ((i, w) ∷ m) (l, h) =
      ground (arith, l, lookup-remove j k m h, lookup-least i j m l)
