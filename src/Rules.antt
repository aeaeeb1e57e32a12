-- ===== src/Rules.antt =====
-- Attack rules: crates/analyzer/src/attack_rules.rs. Text is its UTF-8 bytes. The library regex and
-- the hash of a rule's version are parameters: a compiled expression is given by its text.
pub mod Compiled
pub mod Matching
use newhatch.Common.{
  ℕ, zero, suc, ◌+◌, ltb, leb, bytes_eq, if◌then◌else◌, Bool, true, false, not, ◌&&◌, ◌||◌, Option,
  none, some, List, [], ◌∷◌, length, is_empty, Result, ok, err, ensure, ◌>>=◌, ◌>>◌,
}
use newhatch.Common.Int.{ℤ, pos, negsuc}
use newhatch.Common.Text.{trim_str, contains}

pub data Field : Type 0 where
  method path target query request_body status response_body : Field

pub data Operator : Type 0 where
  equals contains_text regex : Operator

pub record Condition : Type 0 where
  pub field : Field
  pub op : Operator
  pub value : List ℕ
  pub name : Option (List ℕ)

pub record RuleInput : Type 0 where
  pub source_id : ℤ
  pub label : List ℕ
  pub enabled : Bool
  pub adjacent : Bool
  pub max_gap : ℕ
  pub steps : List (List Condition)

pub record AttackRule : Type 0 where
  pub id : ℤ
  pub owner : List ℕ
  pub input : RuleInput

-- A condition with its compiled expression, where it has one.
abbrev pub Test : Type 0
Test = Condition × Option (List ℕ)

pub record CompiledRule : Type 0 where
  pub rule : AttackRule
  pub steps : List (List Test)
  pub version : List ℕ

pub record EventRef : Type 0 where
  pub session_id : ℤ
  pub transaction : ℕ

pub record HttpEvent : Type 0 where
  pub reference : EventRef
  pub method : List ℕ
  pub path : List ℕ
  pub target : List ℕ
  pub query : List ℕ
  pub query_params : List (List ℕ × List ℕ)
  pub request_body : Option (List ℕ)
  pub status : List ℕ
  pub response_body : Option (List ℕ)

pub record RuleMatch : Type 0 where
  pub version : List ℕ
  pub rule_id : ℤ
  pub label : List ℕ
  pub events : List EventRef

-- The library regex with its limits, and `AttackRule::version`.
pub record RuleLibrary : Type 0 where
  pub builds : List ℕ → Bool
  pub is_match : List ℕ → List ℕ → Bool
  pub version : RuleInput → List ℕ

pub data RuleError : Type 0 where
  source_not_positive label_length step_count gap_too_large adjacent_gap condition_count : RuleError
  value_length name_misplaced invalid_regex : RuleError

unfoldable pub is_positive : ℤ → Bool
is_positive (pos zero) = false
is_positive (pos (suc n)) = true
is_positive (negsuc n) = false

-- `(low..=high).contains(&n)`
unfoldable pub is_within : ℕ → ℕ → ℕ → Bool
is_within low high n = leb low n && leb n high

unfoldable pub is_equals : Operator → Bool
is_equals equals = true
is_equals contains_text = false
is_equals regex = false

unfoldable pub is_query : Field → Bool
is_query query = true
is_query method = false
is_query path = false
is_query target = false
is_query request_body = false
is_query status = false
is_query response_body = false

unfoldable pub is_name_fine : Field → Option (List ℕ) → Bool
is_name_fine field none = true
is_name_fine field (some name) = is_query field && not (is_empty name) && leb (length name) 128

-- All tests of a step, in order, up to the first error.
unfoldable pub each_result {ℓ κ} :
    {A : Type ℓ} {B : Type κ} → (A → Result RuleError B) → List A → Result RuleError (List B)
each_result f [] = ok []
each_result f (x ∷ xs) = let rest = each_result f xs in f x >>= λ y. rest >>= λ ys. ok (y ∷ ys)

module _ (library : RuleLibrary) where
  unfoldable pub compile_regex : Operator → List ℕ → Result RuleError (Option (List ℕ))
  compile_regex regex value = if library.builds value then ok (some value) else err invalid_regex
  compile_regex equals value = ok none
  compile_regex contains_text value = ok none

  unfoldable pub compile_condition : Condition → Result RuleError Test
  compile_condition condition = do
    let value = condition.value
    ensure (leb (length value) 2048 && (not (is_empty value) || is_equals condition.op))
        value_length
    ensure (is_name_fine condition.field condition.name) name_misplaced
    compiled ← compile_regex condition.op value
    ok (condition, compiled)

  unfoldable pub compile_step : List Condition → Result RuleError (List Test)
  compile_step step = do
    ensure (is_within 1 12 (length step)) condition_count
    each_result compile_condition step

  -- CompiledRule::new
  unfoldable pub new_rule : AttackRule → Result RuleError CompiledRule
  new_rule rule = do
    let input = rule.input
    ensure (is_positive input.source_id) source_not_positive
    ensure (not (is_empty (trim_str input.label)) && leb (length input.label) 160) label_length
    ensure (is_within 1 8 (length input.steps)) step_count
    ensure (leb input.max_gap 100) gap_too_large
    ensure (not input.adjacent || leb input.max_gap 0) adjacent_gap
    steps ← each_result compile_step input.steps
    ok (record { rule = rule; steps = steps; version = library.version input })

  -- A test on one text. `new` compiles an expression for each `Operator::Regex`.
  unfoldable pub test_text : Operator → List ℕ → Option (List ℕ) → List ℕ → Bool
  test_text equals value compiled text = bytes_eq text value
  test_text contains_text value compiled text = contains value text
  test_text regex value none text = false
  test_text regex value (some expression) text = library.is_match expression text

  unfoldable pub test_optional : Operator → List ℕ → Option (List ℕ) → Option (List ℕ) → Bool
  test_optional op value compiled none = false
  test_optional op value compiled (some text) = test_text op value compiled text

  unfoldable pub test_params :
      Operator → List ℕ → Option (List ℕ) → List ℕ → List (List ℕ × List ℕ) → Bool
  test_params op value compiled name [] = false
  test_params op value compiled name ((key, text) ∷ params) =
      bytes_eq key name && test_text op value compiled text
      || test_params op value compiled name params

  unfoldable pub test_query :
      Operator → List ℕ → Option (List ℕ) → Option (List ℕ) → HttpEvent → Bool
  test_query op value compiled none event = test_text op value compiled event.query
  test_query op value compiled (some name) event =
      test_params op value compiled name event.query_params

  unfoldable pub test_field : Field → Condition → Option (List ℕ) → HttpEvent → Bool
  test_field method c compiled event = test_text c.op c.value compiled event.method
  test_field path c compiled event = test_text c.op c.value compiled event.path
  test_field target c compiled event = test_text c.op c.value compiled event.target
  test_field status c compiled event = test_text c.op c.value compiled event.status
  test_field request_body c compiled event = test_optional c.op c.value compiled event.request_body
  test_field response_body c compiled event =
      test_optional c.op c.value compiled event.response_body
  test_field query c compiled event = test_query c.op c.value compiled c.name event

  unfoldable pub tests_hold : List Test → HttpEvent → Bool
  tests_hold [] event = true
  tests_hold ((condition, compiled) ∷ tests) event =
      test_field condition.field condition compiled event && tests_hold tests event

  -- `self.steps[step]`; the steps that `step_matches` is asked for exist.
  unfoldable pub step_at : List (List Test) → ℕ → HttpEvent → Bool
  step_at [] step event = false
  step_at (tests ∷ steps) zero event = tests_hold tests event
  step_at (tests ∷ steps) (suc step) event = step_at steps step event

  -- CompiledRule::step_matches
  unfoldable pub step_matches : CompiledRule → ℕ → HttpEvent → Bool
  step_matches rule step event = step_at rule.steps step event
