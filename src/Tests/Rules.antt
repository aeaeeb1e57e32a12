-- ===== src/Tests/Rules.antt =====
-- Attack rules (crates/analyzer/src/attack_rules.rs): runs, and the theorem at a concrete input.
use newhatch.Common.{ℕ, suc, ◌≡◌, refl, true, false, Option, none, some, List, [], ◌∷◌, length, ok}
use newhatch.Common.Int.{pos}
use newhatch.Common.Text.{
  trim_str, strip, reverse, space_at_start, space_at_end, is_space, in_range,
}
use newhatch.Rules.{
  Condition, path, equals, AttackRule, CompiledRule, RuleLibrary, HttpEvent, new_rule, each_result,
  compile_step, compile_condition, compile_regex, is_positive, is_within, is_equals, is_name_fine,
  step_matches, step_at, tests_hold, test_field, test_text,
}
use newhatch.Rules.Matching.{
  find, feed_all, feed_match, feed_unmatched, feed_event, feed_steps, new_state, nones, expire,
  expire_one, active_at, set_active, path_of, path_before, matched_rule, to_match, gap_of,
}
use newhatch.Rules.Matching.Find.{Finds, find-Finds}

-- A library whose expressions match nothing.
abbrev library : RuleLibrary
library = record { builds = λ t. true; is_match = λ e t. false; version = λ i. [] }

abbrev is_path : ℕ → Condition
is_path letter = record { field = path; op = equals; value = letter ∷ []; name = none }

-- The paths "a", "b" and "c", with one event in between at most.
abbrev three_steps : AttackRule
three_steps = record {
  id = pos 7;
  owner = [];
  input = record {
    source_id = pos 1;
    label = b'x' ∷ [];
    enabled = true;
    adjacent = false;
    max_gap = 1;
    steps = (is_path b'a' ∷ []) ∷ (is_path b'b' ∷ []) ∷ (is_path b'c' ∷ []) ∷ [];
  };
}

abbrev compiled : CompiledRule
compiled = record {
  rule = three_steps;
  steps =
      ((is_path b'a', none) ∷ []) ∷ ((is_path b'b', none) ∷ []) ∷ ((is_path b'c', none) ∷ []) ∷ [];
  version = [];
}

rule_compiled : new_rule library three_steps ≡ ok compiled
unfolding new_rule each_result compile_step compile_condition compile_regex is_positive is_within
    is_equals is_name_fine trim_str strip reverse space_at_start space_at_end is_space in_range
rule_compiled = refl

abbrev event : ℕ → ℕ → Option HttpEvent
event letter n = some (record {
  reference = record { session_id = pos n; transaction = 0 };
  method = [];
  path = letter ∷ [];
  target = [];
  query = [];
  query_params = [];
  request_body = none;
  status = [];
  response_body = none;
})

-- The first "b" is too far from "c": the second one serves.
abbrev session : List (Option HttpEvent)
session = event b'a' 0 ∷ event b'b' 1 ∷ event b'b' 2 ∷ none ∷ event b'c' 4 ∷ []

match_found :
    find library compiled session
    ≡ some (record {
      version = [];
      rule_id = pos 7;
      label = b'x' ∷ [];
      events =
          record { session_id = pos 0; transaction = 0 }
          ∷ record { session_id = pos 2; transaction = 0 }
          ∷ record { session_id = pos 4; transaction = 0 }
          ∷ [];
    })
unfolding find feed_all feed_match feed_unmatched feed_event feed_steps new_state nones expire
    expire_one active_at set_active path_of path_before matched_rule to_match gap_of step_matches
    step_at tests_hold test_field test_text
match_found = refl

find-Finds_example :
    (last : ℕ) × (length compiled.steps ≡ suc last)
    × (compiled.rule ≡ three_steps)
    × (compiled.version ≡ [])
    × Finds library compiled session last (find library compiled session)
find-Finds_example = find-Finds library three_steps compiled session rule_compiled
