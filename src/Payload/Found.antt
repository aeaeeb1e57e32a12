-- ===== src/Payload/Found.antt =====
-- `PayloadSearch` (crates/analyzer/src/payload_search.rs): which payloads match, and which terms are
-- accepted.
use newhatch.Common.{
  ℕ, ◌≡◌, ◌↔◌, ◌⊎◌, inl, inr, refl, ap, arith, Bool, true, false, ◌&&◌, ◌||◌, List, [], ◌∷◌, ◌++◌,
  is_empty, All, Bool-cases,
}
use newhatch.Common.Text.{contains, starts_with}
use newhatch.Payload.Json.{JsonLibrary}
use newhatch.Payload.Display.{display}
use newhatch.Payload.Search.{PayloadSearch, matches_all, search_matches}

-- The pattern stands somewhere in the text.
abbrev pub Occurs : List ℕ → List ℕ → Type 0
Occurs pattern text = (before : List ℕ) × (behind : List ℕ) × (text ≡ before ++ (pattern ++ behind))

starts_with_both :
    (x y : ℕ) (pattern text : List ℕ)
    → starts_with (x ∷ pattern) (y ∷ text) ≡ true
    → (y ≡ x) × (starts_with pattern text ≡ true)
unfolding starts_with
starts_with_both x y pattern text h = ground (arith, h)

contains_both :
    (y : ℕ) (pattern text : List ℕ)
    → contains pattern (y ∷ text) ≡ true
    → (starts_with pattern (y ∷ text) ≡ true) ⊎ (contains pattern text ≡ true)
unfolding contains
contains_both y pattern text h = elim (Bool-cases (starts_with pattern (y ∷ text))) [
  | inl e ↦ inl e
  | inr e ↦ inr (rw (e, contains) at h)
]

contains_start :
    (pattern text : List ℕ) → starts_with pattern text ≡ true → contains pattern text ≡ true
unfolding contains
contains_start pattern [] h = h
contains_start pattern (y ∷ text) h = rw h

starts_with_some :
    (pattern text : List ℕ)
    → starts_with pattern text ≡ true
    → (behind : List ℕ) × (text ≡ pattern ++ behind)
unfolding starts_with
starts_with_some [] text h = (text, refl)
starts_with_some (x ∷ pattern) [] h = absurd cc
starts_with_some (x ∷ pattern) (y ∷ text) h =
    let (same, rest) = starts_with_both x y pattern text h in
    let (behind, e) = starts_with_some pattern text rest in (behind, rw (same, e))

starts_with-append : (pattern behind : List ℕ) → starts_with pattern (pattern ++ behind) ≡ true
unfolding starts_with
starts_with-append [] behind = refl
starts_with-append (x ∷ pattern) behind = ground (arith, starts_with-append pattern behind)

contains_some : (pattern text : List ℕ) → contains pattern text ≡ true → Occurs pattern text
unfolding contains
contains_some pattern [] h = let (behind, e) = starts_with_some pattern [] h in ([], behind, e)
contains_some pattern (y ∷ text) h = elim (contains_both y pattern text h) [
  | inl here ↦ let (behind, e) = starts_with_some pattern (y ∷ text) here in ([], behind, e)
  | inr later ↦
      let (before, behind, e) = contains_some pattern text later in
      (y ∷ before, behind, ap (λ t. y ∷ t) e)
]

contains-append :
    (before pattern behind : List ℕ) → contains pattern (before ++ (pattern ++ behind)) ≡ true
unfolding contains
contains-append [] pattern behind =
    contains_start pattern (pattern ++ behind) (starts_with-append pattern behind)
contains-append (y ∷ before) pattern behind = ground (arith, contains-append before pattern behind)

contains_iff : (pattern text : List ℕ) → (contains pattern text ≡ true) ↔ Occurs pattern text
contains_iff pattern text = (
  contains_some pattern text,
  λ (before, behind, e). rw e (contains-append before pattern behind),
)

contains_either :
    (term c2s s2c : List ℕ)
    → contains term c2s || contains term s2c ≡ true
    → Occurs term c2s ⊎ Occurs term s2c
contains_either term c2s s2c h = elim (Bool-cases (contains term c2s)) [
  | inl e ↦ inl (contains_some term c2s e)
  | inr e ↦ inr (contains_some term s2c (rw e at h))
]

either_contains :
    (term c2s s2c : List ℕ)
    → Occurs term c2s ⊎ Occurs term s2c
    → (contains term c2s || contains term s2c) ≡ true
either_contains term c2s s2c (inl o) = rw ((contains_iff term c2s).1 o) refl
either_contains term c2s s2c (inr o) = ground (arith, (contains_iff term s2c).1 o)

both_true : (a b : Bool) → a && b ≡ true → (a ≡ true) × (b ≡ true)
both_true a b h = ground (arith, h)

matches_all_iff :
    (terms : List (List ℕ)) (c2s s2c : List ℕ)
    → (matches_all terms c2s s2c ≡ true) ↔ All (λ term. Occurs term c2s ⊎ Occurs term s2c) terms
unfolding matches_all
matches_all_iff [] c2s s2c = (λ _. tt, λ _. refl)
matches_all_iff (term ∷ terms) c2s s2c = (
  λ h.
      let (here, rest) = both_true _ _ h in
      (contains_either term c2s s2c here, (matches_all_iff terms c2s s2c).0 rest),
  λ (here, rest). rw (either_contains term c2s s2c here) ((matches_all_iff terms c2s s2c).1 rest),
)

matches_or_none :
    (terms : List (List ℕ)) (c2s s2c : List ℕ)
    → (is_empty terms || matches_all terms c2s s2c ≡ true)
      ↔ All (λ term. Occurs term c2s ⊎ Occurs term s2c) terms
matches_or_none [] c2s s2c = (λ _. tt, λ _. refl)
matches_or_none (term ∷ terms) c2s s2c = matches_all_iff (term ∷ terms) c2s s2c

-- A payload matches exactly when each term stands in what is shown of one of its directions.
pub search_matches_iff :
    (json : JsonLibrary) (search : PayloadSearch) (c2s s2c : List ℕ)
    → (search_matches json search c2s s2c ≡ true)
      ↔ All
          (λ term. Occurs term (display json c2s false) ⊎ Occurs term (display json s2c false))
          search.terms
unfolding search_matches
search_matches_iff json search c2s s2c =
    matches_or_none search.terms (display json c2s false) (display json s2c false)
