-- ===== src/Rules/Matching/Steps.antt =====
-- The loop of `MatchState::feed` over the steps (crates/analyzer/src/attack_rules.rs).
use newhatch.Common.{
  ℕ, zero, suc, ◌+◌, ◌≤◌, ◌<◌, ◌≡◌, refl, sym, ◌∙◌, arith, ltb, ◌==◌, Bool, true, false, Option,
  none, some, List, [], ◌∷◌, ◌++◌, length, Bool-cases, Option-cases, inl, inr, ◌⊎◌,
}
use newhatch.Rules.{CompiledRule, RuleLibrary, EventRef, HttpEvent, step_matches}
use newhatch.Rules.Matching.{
  Candidate, nones, expire_one, expire, active_at, set_active, path_before, feed_steps,
}

pub length-nones : (n : ℕ) → length (nones n) ≡ n
unfolding nones
length-nones zero = refl
length-nones (suc n) = omega (arith, length-nones n)

pub active_at-nones : (n s : ℕ) → active_at (nones n) s ≡ none
unfolding nones active_at
active_at-nones zero s = refl
active_at-nones (suc n) zero = refl
active_at-nones (suc n) (suc s) = active_at-nones n s

pub length-expire :
    (gap index : ℕ) (a : List (Option Candidate)) → length (expire gap index a) ≡ length a
unfolding expire
length-expire gap index [] = refl
length-expire gap index (c ∷ a) = omega (arith, length-expire gap index a)

pub active_at-expire :
    (gap index : ℕ) (a : List (Option Candidate)) (s : ℕ)
    → active_at (expire gap index a) s ≡ expire_one gap index (active_at a s)
unfolding expire active_at expire_one
active_at-expire gap index [] s = refl
active_at-expire gap index (c ∷ a) zero = refl
active_at-expire gap index (c ∷ a) (suc s) = active_at-expire gap index a s

length-set_active :
    (a : List (Option Candidate)) (k : ℕ) (v : Option Candidate)
    → length (set_active a k v) ≡ length a
unfolding set_active
length-set_active [] k v = refl
length-set_active (c ∷ a) zero v = refl
length-set_active (c ∷ a) (suc k) v = omega (arith, length-set_active a k v)

active_at-set_self :
    (a : List (Option Candidate)) (k : ℕ) (v : Option Candidate)
    → k < length a
    → active_at (set_active a k v) k ≡ v
unfolding set_active active_at
active_at-set_self [] k v h = absurd (omega arith)
active_at-set_self (c ∷ a) zero v h = refl
active_at-set_self (c ∷ a) (suc k) v h = active_at-set_self a k v (omega arith)

active_at-set_other :
    (a : List (Option Candidate)) (k s : ℕ) (v : Option Candidate)
    → (k < s) ⊎ (s < k)
    → active_at (set_active a k v) s ≡ active_at a s
unfolding set_active active_at
active_at-set_other [] k s v h = refl
active_at-set_other (c ∷ a) zero zero v h = absurd (omega arith)
active_at-set_other (c ∷ a) zero (suc s) v h = refl
active_at-set_other (c ∷ a) (suc k) zero v h = refl
active_at-set_other (c ∷ a) (suc k) (suc s) v h =
    active_at-set_other a k s v (elim h [ inl x ↦ inl (omega arith) | inr x ↦ inr (omega arith) ])

path_before-set :
    (a : List (Option Candidate)) (k s : ℕ) (v : Option Candidate)
    → s < suc k
    → path_before (set_active a k v) s ≡ path_before a s
unfolding path_before
path_before-set a k zero v h = refl
path_before-set a k (suc s) v h = rw (active_at-set_other a k s v (inr (omega arith)))

module _ (library : RuleLibrary) (rule : CompiledRule) (index : ℕ) (event : HttpEvent) where
  -- The candidate of one step behind the event, from the one before it and that of the last step.
  abbrev pub extended : Option (List EventRef) → Option Candidate → Option Candidate
  extended none old = old
  extended (some path) old = some (index, path ++ (event.reference ∷ []))

  abbrev pub renewed : Bool → Option (List EventRef) → Option Candidate → Option Candidate
  renewed true before old = extended before old
  renewed false before old = old

  abbrev renewed_at : ℕ → List (Option Candidate) → Option Candidate
  renewed_at s a = renewed (step_matches library rule s event) (path_before a s) (active_at a s)

  -- What the loop over the first `m` steps makes of the candidates.
  abbrev pub Renews :
      ℕ → List (Option Candidate) → List (Option Candidate) × Option (List EventRef) → Type 0
  Renews m a (a', path) =
      (path ≡ none)
      × (length a' ≡ length a)
      × ((s : ℕ) → s < m → active_at a' s ≡ renewed_at s a)
      × ((s : ℕ) → m ≤ s → active_at a' s ≡ active_at a s)

  le_cases : (s m : ℕ) → s < suc m → (s < m) ⊎ (s ≡ m)
  le_cases s m h = elim (Bool-cases (ltb s m)) [
    | inl e ↦ inl (ground arith)
    | inr e ↦ inr (ground arith)
  ]

  Renews-skip :
      (m : ℕ) (a : List (Option Candidate)) (r : List (Option Candidate) × Option (List EventRef))
      → renewed_at m a ≡ active_at a m
      → Renews m a r
      → Renews (suc m) a r
  Renews-skip m a (a', path) e (none_yet, long, below, above) = (
    none_yet,
    long,
    λ s h. elim (le_cases s m h) [
      | inl l ↦ below s l
      | inr l ↦ rw l (above m (omega arith) ∙ sym e)
    ],
    λ s h. above s (omega arith),
  )

  renewed_at-set :
      (m s : ℕ) (a : List (Option Candidate)) (v : Option Candidate)
      → s < m
      → renewed_at s (set_active a m v) ≡ renewed_at s a
  renewed_at-set m s a v h =
      rw (path_before-set a m s v (omega arith), active_at-set_other a m s v (inr h))

  Renews-set :
      (m : ℕ) (a : List (Option Candidate)) (r : List (Option Candidate) × Option (List EventRef))
      → m < length a
      → Renews m (set_active a m (renewed_at m a)) r
      → Renews (suc m) a r
  Renews-set m a (a', path) k (none_yet, long, below, above) = (
    none_yet,
    long ∙ length-set_active a m (renewed_at m a),
    λ s h. elim (le_cases s m h) [
      | inl l ↦ below s l ∙ renewed_at-set m s a (renewed_at m a) l
      | inr l ↦ rw l (above m (omega arith) ∙ active_at-set_self a m (renewed_at m a) k)
    ],
    λ s h. above s (omega arith) ∙ active_at-set_other a m s (renewed_at m a) (inl (omega arith)),
  )

  -- Below the last step the loop sets each step's candidate from what the steps had before.
  pub feed_steps-Renews :
      (m : ℕ) (a : List (Option Candidate))
      → m ≤ length a
      → m < length rule.steps
      → Renews m a (feed_steps library rule m a index event)
  unfolding feed_steps
  feed_steps-Renews zero a h k = (refl, refl, λ s l. absurd (omega arith), λ s l. refl)
  feed_steps-Renews (suc m) a h k =
      let ih : Renews m a (feed_steps library rule m a index event) =
        feed_steps-Renews m a (omega arith) (omega arith) in
      elim (Bool-cases (step_matches library rule m event)) [
        | inr e ↦ rw (e, feed_steps) (Renews-skip m a _ (rw e) ih)
        | inl e ↦ elim (Option-cases (path_before a m)) [
          | inl f ↦ rw (e, f, feed_steps) (Renews-skip m a _ (rw (e, f)) ih)
          | inr (path, f) ↦
              let v : Option Candidate = some (index, path ++ (event.reference ∷ [])) in
              let is_v : renewed_at m a ≡ v = rw (e, f) in
              let more : (m + 1 == length rule.steps) ≡ false = ground arith in
              let then_set : Renews m (set_active a m (renewed_at m a))
                  (feed_steps library rule m (set_active a m v) index event) =
                rw is_v (
                  feed_steps-Renews m (set_active a m v) (omega (arith, length-set_active a m v))
                    (omega arith)) in
              rw (e, f, more, feed_steps) (Renews-set m a _ (omega arith) then_set)
        ]
      ]

  -- At the last step a path that is there makes a match; without one, or where the step's tests
  -- fail, the others are renewed.
  pub feed_steps_last :
      (last : ℕ) (a : List (Option Candidate))
      → length rule.steps ≡ suc last
      → length a ≡ suc last
      → ((path : List EventRef) × (step_matches library rule last event ≡ true)
          × (path_before a last ≡ some path)
          × ((feed_steps library rule (suc last) a index event).1
              ≡ some (path ++ (event.reference ∷ []))))
        ⊎ (((step_matches library rule last event ≡ false) ⊎ (path_before a last ≡ none))
            × Renews last a (feed_steps library rule (suc last) a index event))
  unfolding feed_steps
  feed_steps_last last a n l =
      let below : Renews last a (feed_steps library rule last a index event) =
        feed_steps-Renews last a (omega arith) (omega arith) in
      elim (Bool-cases (step_matches library rule last event)) [
        | inr e ↦ inr (rw (e, feed_steps) (inl refl, below))
        | inl e ↦ elim (Option-cases (path_before a last)) [
          | inl f ↦ inr (rw (e, f, feed_steps) (inr refl, below))
          | inr (path, f) ↦
              let done : (last + 1 == length rule.steps) ≡ true = ground arith in
              inl (path, e, f, rw (e, f, done, feed_steps) refl)
        ]
      ]
