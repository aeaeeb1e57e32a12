-- ===== src/Rules/Matching/Find.antt =====
-- `CompiledRule::find` (crates/analyzer/src/attack_rules.rs): what it finds, and when it finds none.
use newhatch.Common.{
  ℕ, zero, suc, ◌+◌, ◌-◌, ◌≤◌, ◌<◌, ◌≡◌, refl, ◌∙◌, arith, ltb, false, Option, none, some, List, [],
  ◌∷◌, length, Bool-cases, inl, inr, ◌⊎◌, ok,
}
use mathlib.Core.Path.{subst}
use newhatch.Rules.{
  AttackRule, CompiledRule, RuleLibrary, RuleMatch, EventRef, HttpEvent, step_matches, new_rule,
}
use newhatch.Rules.Matching.{
  Candidate, MatchState, new_state, expire, path_before, feed_event, to_match, matched_rule,
  feed_unmatched, feed_match, feed_all, find, gap_of,
}
use newhatch.Rules.Matching.Steps.{length-nones, active_at-nones, feed_steps_last}
use newhatch.Rules.Compiled.{new_rule-steps}
use newhatch.Rules.Matching.Exact.{
  event_at, Reaches, Tracks, IsFresh, expire-IsFresh, before-Reaches, Reaches-before,
  renewed-Tracks, idle-Tracks, not-Reaches,
}

module _ (library : RuleLibrary) (rule : CompiledRule) (event : ℕ → Option HttpEvent)
    (last : ℕ) where
  -- No selection of events for all steps ends before the position.
  abbrev pub NoneBefore : ℕ → Type 0
  NoneBefore k = (j : ℕ) (path : List EventRef) → j < k → ¬ (Reaches library rule event last j path)

  -- A match has the rule's id, label and version, with events that meet all steps, and none ends
  -- earlier.
  abbrev pub IsFirst : RuleMatch → Type 0
  IsFirst m =
      (i : ℕ) × Reaches library rule event last i m.events
      × NoneBefore i
      × (m.rule_id ≡ rule.rule.id)
      × (m.label ≡ rule.rule.input.label)
      × (m.version ≡ rule.version)

  -- What a state says before the event at `k`.
  abbrev pub Follows : ℕ → List (Option Candidate) → ℕ → Option RuleMatch → Type 0
  Follows k a index none = (index ≡ k) × Tracks library rule event last k a × NoneBefore k
  Follows k a index (some m) = IsFirst m

  one_more :
      (k : ℕ)
      → NoneBefore k
      → ((path : List EventRef) → ¬ (Reaches library rule event last k path))
      → NoneBefore (suc k)
  one_more k before here j path h r = elim (Bool-cases (ltb j k)) [
    | inl b ↦ before j path (ground arith) r
    | inr b ↦
        let now : j ≡ k = ground arith in
        here path (subst (λ n. Reaches library rule event last n path) now r)
  ]

  module _ (steps : length rule.steps ≡ suc last) where
    last_stops :
        (k : ℕ) (a : List (Option Candidate)) (e : HttpEvent) (path : List EventRef)
        → IsFresh library rule event last k a
        → event k ≡ some e
        → (step_matches library rule last e ≡ false) ⊎ (path_before a last ≡ none)
        → ¬ (Reaches library rule event last k path)
    last_stops k a e path f at stop r =
        let (m, q, b) =
          Reaches-before library rule event last k last a e path f (omega arith) at r in
        elim stop [ inl x ↦ cc | inr x ↦ cc ]

    event-Follows :
        (k : ℕ) (a : List (Option Candidate)) (e : Option HttpEvent)
        → IsFresh library rule event last k a
        → NoneBefore k
        → event k ≡ e
        → Follows
            (suc k)
            (feed_event library rule a k e).0
            (k + 1)
            (to_match library rule (feed_event library rule a k e).1)
    unfolding feed_event to_match matched_rule
    event-Follows k a none f before at = (
      omega arith,
      idle-Tracks library rule event last k a f at,
      one_more k before (λ path. not-Reaches library rule event last k path at),
    )
    event-Follows k a (some e) f before at =
        elim (feed_steps_last library rule k e last a steps f.tracks.long) [
          | inl (path, m, b, r) ↦
              rw (steps, r)
                ((
                  k,
                  before-Reaches library rule event last k last a e path f at m b,
                  before,
                  refl,
                  refl,
                  refl,
                ))
          | inr (stop, (none_yet, long, below, above)) ↦
              rw (steps, none_yet)
                (
                  omega arith,
                  renewed-Tracks library rule event last k a _ e f at long below above,
                  one_more k before (λ path r. last_stops k a e path f at stop r),
                )
        ]

    feed_match-Follows :
        (k : ℕ) (a : List (Option Candidate)) (index : ℕ) (m : Option RuleMatch)
        (e : Option HttpEvent)
        → event k ≡ e
        → Follows k a index m
        → let s' = feed_match library rule (record { active = a; index = index; matched = m }) e in
          Follows (suc k) s'.active s'.index s'.matched
    unfolding feed_match feed_unmatched
    feed_match-Follows k a index (some m) e at h = h
    feed_match-Follows k a index none e at (n, tracks, before) = rw n (
        event-Follows k (expire (gap_of rule) k a) e
          (expire-IsFresh library rule event last k a tracks) before at)

    pub feed_all-Follows :
        (k : ℕ) (s : MatchState) (events : List (Option HttpEvent))
        → ((i : ℕ) → event (i + k) ≡ event_at events i)
        → Follows k s.active s.index s.matched
        → let s' = feed_all library rule s events in
          (n : ℕ) × (n ≡ length events + k) × Follows n s'.active s'.index s'.matched
    unfolding feed_all
    feed_all-Follows k s [] at h = (k, omega arith, h)
    feed_all-Follows k s (e ∷ events) at h =
        let (n, long, h') =
          feed_all-Follows (suc k) (feed_match library rule s e) events
            (λ i.
              let next : suc i + k ≡ i + suc k = omega arith in
              subst (λ x. event x ≡ event_at events i) next (at (suc i)))
            (feed_match-Follows k s.active s.index s.matched e
              (let first : zero + k ≡ k = omega arith in subst (λ x. event x ≡ e) first (at zero))
              h) in
        (n, omega arith, h')

    pub new_state-Follows : let s = new_state rule in Follows 0 s.active s.index s.matched
    unfolding new_state
    new_state-Follows = (
      refl,
      record {
        long = length-nones (length rule.steps) ∙ steps;
        sound = λ s i path c. absurd (cc (active_at-nones (length rule.steps) s));
        latest = λ s j path hs hj near r. absurd (omega arith);
      },
      λ j path h r. omega arith,
    )

-- Behind the last event there is none.
event_at-none :
    (events : List (Option HttpEvent)) (i : ℕ) → length events ≤ i → event_at events i ≡ none
event_at-none [] i h = refl
event_at-none (e ∷ events) zero h = absurd (omega arith)
event_at-none (e ∷ events) (suc i) h = event_at-none events i (omega arith)

-- What `find` returns is right: a match of the rule that ends first, or none where no selection of
-- events meets the rule.
abbrev pub Finds :
    RuleLibrary → CompiledRule → List (Option HttpEvent) → ℕ → Option RuleMatch → Type 0
Finds library rule events last none =
    (i : ℕ) (path : List EventRef) → ¬ (Reaches library rule (event_at events) last i path)
Finds library rule events last (some m) = IsFirst library rule (event_at events) last m

Finds-of :
    (library : RuleLibrary) (rule : CompiledRule) (events : List (Option HttpEvent)) (last n : ℕ)
    (a : List (Option Candidate)) (index : ℕ) (m : Option RuleMatch)
    → length events ≤ n
    → Follows library rule (event_at events) last n a index m
    → Finds library rule events last m
Finds-of library rule events last n a index (some m) long h = h
Finds-of library rule events last n a index none long (i, tracks, before) = λ j path r.
    elim (Bool-cases (ltb j n)) [
      | inl b ↦ before j path (ground arith) r
      | inr b ↦
          not-Reaches library rule (event_at events) last j path
            (event_at-none events j (ground arith)) r
    ]

find_compiled :
    (library : RuleLibrary) (rule : CompiledRule) (events : List (Option HttpEvent)) (last : ℕ)
    → length rule.steps ≡ suc last
    → Finds library rule events last (find library rule events)
unfolding find
find_compiled library rule events last steps =
    let at = λ (i : ℕ).
      (let e : i ≡ i + 0 = omega arith in
        subst (λ x. event_at events x ≡ event_at events i) e refl) in
    let (n, long, h) =
      feed_all-Follows library rule (event_at events) last steps 0 (new_state rule) events at
        (new_state-Follows library rule (event_at events) last steps) in
    Finds-of library rule events last n (feed_all library rule (new_state rule) events).active _ _
      (omega arith) h

-- For a rule that compiles, `find` returns a match with the rule's id and label and the version of its
-- input, whose events meet all of its steps in order, each with at most the rule's gap behind the
-- one before it, and no selection of events that meets the rule ends earlier; it returns none only
-- where no selection of events meets the rule.
pub find-Finds :
    (library : RuleLibrary) (r : AttackRule) (rule : CompiledRule)
    (events : List (Option HttpEvent))
    → new_rule library r ≡ ok rule
    → (last : ℕ) × (length rule.steps ≡ suc last)
      × (rule.rule ≡ r)
      × (rule.version ≡ library.version r.input)
      × Finds library rule events last (find library rule events)
find-Finds library r rule events h =
    let (some_steps, few, same, versioned) = new_rule-steps library r rule h in
    let last : ℕ = length rule.steps - 1 in
    let steps : length rule.steps ≡ suc last = omega arith in
    (last, steps, same, versioned, find_compiled library rule events last steps)
