-- ===== src/Rules/Compiled.antt =====
-- `CompiledRule::new` (crates/analyzer/src/attack_rules.rs): what is known of a rule that compiles.
use newhatch.Common.{
  suc, ◌≤◌, ◌≡◌, refl, sym, ap, ◌∙◌, arith, leb, not, ◌&&◌, ◌||◌, List, [], ◌∷◌, length, is_empty,
  Result, ok, err, ensure, ◌>>=◌, ◌>>◌,
}
use newhatch.Common.Text.{trim_str}
use newhatch.Rules.{
  AttackRule, RuleInput, CompiledRule, RuleLibrary, RuleError, Test, new_rule, each_result,
  compile_step, is_within, is_positive, source_not_positive, label_length, step_count,
  gap_too_large, adjacent_gap,
}

length-nil {κ} :
    {B : Type κ} (ys : List B) → ◌≡◌ {A = Result RuleError (List B)} (ok []) (ok ys) → length ys ≡ 0
length-nil [] h = refl
length-nil (y ∷ ys) h = absurd cc

each_result_cons {κ} :
    {B : Type κ} (r : Result RuleError B) (rest : Result RuleError (List B)) (ys : List B)
    → (r >>= λ y. rest >>= λ zs. ok (y ∷ zs)) ≡ ok ys
    → (zs : List B) × (rest ≡ ok zs) × (length ys ≡ suc (length zs))
each_result_cons (err e) rest ys h = absurd cc
each_result_cons (ok y) (err e) ys h = absurd cc
each_result_cons (ok y) (ok zs) [] h = absurd cc
each_result_cons (ok y) (ok zs) (x ∷ ys) h =
    let same : zs ≡ ys = cc in (zs, refl, ap (λ t. suc (length t)) (sym same))

each_result-length {ℓ κ} :
    {A : Type ℓ} {B : Type κ} (f : A → Result RuleError B) (xs : List A) (ys : List B)
    → each_result f xs ≡ ok ys
    → length ys ≡ length xs
unfolding each_result
each_result-length f [] ys h = length-nil ys h
each_result-length f (x ∷ xs) ys h =
    let (zs, e, long) = each_result_cons (f x) (each_result f xs) ys h in
    long ∙ ap suc (each_result-length f xs zs e)

-- What is known of the checks of `new` where it succeeds.
checked :
    (a b c d e : Result RuleError (Unit {0})) (s : Result RuleError (List (List Test)))
    (f : List (List Test) → CompiledRule) (rule : CompiledRule)
    → (a >> (b >> (c >> (d >> (e >> (s >>= λ steps. ok (f steps))))))) ≡ ok rule
    → (c ≡ ok tt) × (steps : List (List Test)) × (s ≡ ok steps) × (f steps ≡ rule)
checked (err x) b c d e s f rule h = absurd cc
checked (ok u) (err x) c d e s f rule h = absurd cc
checked (ok u) (ok v) (err x) d e s f rule h = absurd cc
checked (ok u) (ok v) (ok w) (err x) e s f rule h = absurd cc
checked (ok u) (ok v) (ok w) (ok y) (err x) s f rule h = absurd cc
checked (ok u) (ok v) (ok w) (ok y) (ok z) (err x) f rule h = absurd cc
checked (ok u) (ok v) (ok tt) (ok y) (ok z) (ok steps) f rule h = (refl, steps, refl, cc)

-- A rule that compiles has from one to eight steps and the version of its input.
pub new_rule-steps :
    (library : RuleLibrary) (r : AttackRule) (rule : CompiledRule)
    → new_rule library r ≡ ok rule
    → (1 ≤ length rule.steps)
      × (length rule.steps ≤ 8)
      × (rule.rule ≡ r)
      × (rule.version ≡ library.version r.input)
unfolding new_rule is_within
new_rule-steps library r rule h =
    let input : RuleInput = r.input in
    let (within, steps, e, same) =
      checked (ensure (is_positive input.source_id) source_not_positive)
        (ensure (not (is_empty (trim_str input.label)) && leb (length input.label) 160)
          label_length)
        (ensure (is_within 1 8 (length input.steps)) step_count)
        (ensure (leb input.max_gap 100) gap_too_large)
        (ensure (not input.adjacent || leb input.max_gap 0) adjacent_gap)
        (each_result (compile_step library) input.steps)
        (λ steps. record { rule = r; steps = steps; version = library.version r.input }) rule h in
    let long : length steps ≡ length r.input.steps =
      each_result-length (compile_step library) r.input.steps steps e in
    let bounds : (1 ≤ length r.input.steps) × (length r.input.steps ≤ 8) = ground (arith, within) in
    (
      rw (← same) (omega (arith, long, bounds)),
      rw (← same) (omega (arith, long, bounds)),
      ap (λ (c : CompiledRule). c.rule) (sym same),
      ap (λ (c : CompiledRule). c.version) (sym same),
    )
