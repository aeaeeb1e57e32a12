-- ===== src/Rules/Matching.antt =====
-- `MatchState` and `CompiledRule::find` of crates/analyzer/src/attack_rules.rs.
pub mod Steps
pub mod Exact
pub mod Find
use newhatch.Common.{
  ℕ, zero, suc, ◌+◌, ◌-◌, ltb, ◌==◌, if◌then◌else◌, Bool, true, false, Option, none, some, List, [],
  ◌∷◌, ◌++◌, length, get_elem?,
}
use newhatch.Rules.{CompiledRule, RuleLibrary, RuleMatch, EventRef, HttpEvent, step_matches}

-- The last position at which a prefix of the steps is found, and the events of that prefix.
abbrev pub Candidate : Type 0
Candidate = ℕ × List EventRef

pub record MatchState : Type 0 where
  pub active : List (Option Candidate)
  pub index : ℕ
  pub matched : Option RuleMatch

-- `vec![None; n]`
unfoldable pub nones : ℕ → List (Option Candidate)
nones zero = []
nones (suc n) = none ∷ nones n

-- MatchState::new
unfoldable pub new_state : CompiledRule → MatchState
new_state rule = record { active = nones (length rule.steps); index = 0; matched = none }

-- A candidate that is too far back for the event at `index` is dropped.
unfoldable pub expire_one : ℕ → ℕ → Option Candidate → Option Candidate
expire_one gap index none = none
expire_one gap index (some (previous, path)) =
    if ltb (gap + 1) (index - previous) then none else some (previous, path)

unfoldable pub expire : ℕ → ℕ → List (Option Candidate) → List (Option Candidate)
expire gap index [] = []
expire gap index (candidate ∷ active) = expire_one gap index candidate ∷ expire gap index active

-- `self.active[step]`, a step that exists.
unfoldable pub active_at : List (Option Candidate) → ℕ → Option Candidate
active_at [] step = none
active_at (candidate ∷ active) zero = candidate
active_at (candidate ∷ active) (suc step) = active_at active step

unfoldable pub set_active : List (Option Candidate) → ℕ → Option Candidate → List (Option Candidate)
set_active [] step value = []
set_active (candidate ∷ active) zero value = value ∷ active
set_active (candidate ∷ active) (suc step) value = candidate ∷ set_active active step value

unfoldable pub path_of : Option Candidate → Option (List EventRef)
path_of none = none
path_of (some (previous, path)) = some path

-- The events of the steps before this one.
unfoldable pub path_before : List (Option Candidate) → ℕ → Option (List EventRef)
path_before active zero = some []
path_before active (suc step) = path_of (active_at active step)

unfoldable pub gap_of : CompiledRule → ℕ
gap_of rule = if rule.rule.input.adjacent then 0 else rule.rule.input.max_gap

unfoldable pub matched_rule : CompiledRule → List EventRef → RuleMatch
matched_rule rule path = record {
  version = rule.version;
  rule_id = rule.rule.id;
  label = rule.rule.input.label;
  events = path;
}

module _ (library : RuleLibrary) (rule : CompiledRule) where
  -- The loop over the steps, the last one first: the candidates, and the events of a match. With a
  -- match the source returns at once.
  unfoldable pub feed_steps :
      ℕ → List (Option Candidate) → ℕ → HttpEvent → List (Option Candidate) × Option (List EventRef)
  feed_steps zero active index event = (active, none)
  feed_steps (suc step) active index event =
      if step_matches library rule step event
      then (elim (path_before active step) [
        | none ↦ feed_steps step active index event
        | some path ↦
            let path' = path ++ (event.reference ∷ []) in
            let rest = feed_steps step (set_active active step (some (index, path'))) index event in
            if step + 1 == length rule.steps then (active, some path') else rest
      ])
      else feed_steps step active index event

  unfoldable pub feed_event :
      List (Option Candidate)
      → ℕ
      → Option HttpEvent
      → List (Option Candidate) × Option (List EventRef)
  feed_event active index none = (active, none)
  feed_event active index (some event) = feed_steps (length rule.steps) active index event

  unfoldable pub to_match : Option (List EventRef) → Option RuleMatch
  to_match none = none
  to_match (some path) = some (matched_rule rule path)

  unfoldable pub feed_unmatched : MatchState → Option HttpEvent → MatchState
  feed_unmatched s event =
      let (active, path) = feed_event (expire (gap_of rule) s.index s.active) s.index event in
      record { active = active; index = s.index + 1; matched = to_match path }

  -- MatchState::feed
  unfoldable pub feed_match : MatchState → Option HttpEvent → MatchState
  feed_match s event = elim s.matched [ some m ↦ s | none ↦ feed_unmatched s event ]

  unfoldable pub feed_all : MatchState → List (Option HttpEvent) → MatchState
  feed_all s [] = s
  feed_all s (event ∷ events) = feed_all (feed_match s event) events

  -- CompiledRule::find
  unfoldable pub find : List (Option HttpEvent) → Option RuleMatch
  find events = (feed_all (new_state rule) events).matched
