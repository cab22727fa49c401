-- ===== src/Policy/Safety.antt =====
-- What a plan that `PolicyCompiler.compile` of backend/app/policy.py accepts satisfies as a whole.
use shou_ba_shou_jiaoxue_ai.Prelude.{
  ◌≤◌, String, ◌≡◌, refl, sym, ap, ◌∙◌, subst, true, false, ◌||◌, Option, none, some, List, [], ◌∷◌,
  ◌++◌, map, arith, ltb, length, contains,
}
use shou_ba_shou_jiaoxue_ai.Schemas.{RiskLevel, risk_weight, PlanStep, PolicyIssue, PolicyDecision}
use shou_ba_shou_jiaoxue_ai.Value.{Fields}
use shou_ba_shou_jiaoxue_ai.Schemas.{cyclic_plan}
use shou_ba_shou_jiaoxue_ai.Policy.Tools.{ToolSpec, spec_of}
use shou_ba_shou_jiaoxue_ai.Texts.{sorted, contains-sorted}
use shou_ba_shou_jiaoxue_ai.Policy.Cycle.{has_cycle, dependencies, has_key}
use shou_ba_shou_jiaoxue_ai.Policy.Acyclic.{Grounded}
use shou_ba_shou_jiaoxue_ai.Policy.Exact.{has_cycle_iff}
use shou_ba_shou_jiaoxue_ai.Policy.Steps.{
  Context, Outcome, flag, is_blank, check_step, accepted_step,
}
use shou_ba_shou_jiaoxue_ai.Policy.Compiler.{
  has_blocking, join, check_steps, compile, plan_issues, has_duplicate, step_id, decision,
}
use shou_ba_shou_jiaoxue_ai.Policy.Legal.{has_blocking-append, has_blocking-flag, contains-add_all}
use shou_ba_shou_jiaoxue_ai.Policy.Accepted.{IsCompiled, accepted_step-IsCompiled}

module _ (model_validate : String → Fields → Option Fields) (c : Context) (ids roles : List String)
    (risk : RiskLevel) where
  -- Step by step, in order.
  abbrev pub AllCompiled : List PlanStep → List PlanStep → Type 0
  AllCompiled [] [] = Unit
  AllCompiled (s ∷ plan) (s' ∷ steps) =
      IsCompiled model_validate c ids roles risk s s' × AllCompiled plan steps
  AllCompiled _ _ = ⊥

  -- A pass that found nothing blocking has compiled its step.
  check_step-IsCompiled :
      (step : PlanStep)
      → has_blocking (check_step model_validate c ids step).issues ≡ false
      → ((r : String)
          → contains (check_step model_validate c ids step).roles r ≡ true
          → contains roles r ≡ true)
      → risk_weight (check_step model_validate c ids step).risk ≤ risk_weight risk
      → (s' : PlanStep) × ((check_step model_validate c ids step).steps ≡ s' ∷ [])
        × IsCompiled model_validate c ids roles risk step s'
  unfolding check_step has_blocking
  check_step-IsCompiled step h held strong =
      go (spec_of step.tool_name) refl (model_validate step.tool_name step.tool_input) refl
    where
      Goal : Type 0
      Goal =
          (s' : PlanStep) × ((check_step model_validate c ids step).steps ≡ s' ∷ [])
          × IsCompiled model_validate c ids roles risk step s'

      go :
          (o : Option ToolSpec)
          → spec_of step.tool_name ≡ o
          → (v : Option Fields) → model_validate step.tool_name step.tool_input ≡ v
          → Goal
      go none s v e = absurd (ground (arith, s, h))
      go (some spec) s none e = absurd (ground (arith, s, e, h))
      go (some spec) s (some input) e =
          let same : check_step model_validate c ids step
              ≡ accepted_step model_validate c ids step spec input =
            rw (s, e, check_step) in
          (
            _,
            ap (λ (o : Outcome). o.steps) same,
            accepted_step-IsCompiled model_validate c ids roles risk step spec input s e
                (ap (λ (o : Outcome). has_blocking o.issues) (sym same) ∙ h)
                (λ r t. held r (ap (λ (o : Outcome). contains o.roles r) same ∙ t))
                (subst (λ (o : Outcome). risk_weight o.risk ≤ risk_weight risk) same strong),
          )

  check_steps-AllCompiled :
      (plan : List PlanStep) (digest : List PlanStep → String)
      → has_blocking (check_steps model_validate digest c ids plan).issues ≡ false
      → ((r : String)
          → contains (check_steps model_validate digest c ids plan).roles r ≡ true
          → contains roles r ≡ true)
      → risk_weight (check_steps model_validate digest c ids plan).risk ≤ risk_weight risk
      → AllCompiled plan (check_steps model_validate digest c ids plan).steps
  unfolding check_steps join
  check_steps-AllCompiled [] digest h held strong = tt
  check_steps-AllCompiled (s ∷ plan) digest h held strong =
      let first = check_step model_validate c ids s in
      let rest = check_steps model_validate digest c ids plan in
      let split = has_blocking-append first.issues rest.issues in
      let (s', e, here) =
        check_step-IsCompiled s (ground (arith, h, split))
          (λ r t. held r (ground (arith, contains-add_all r first.roles rest.roles, t)))
          (ground (arith, strong)) in
      subst (λ xs. AllCompiled (s ∷ plan) (xs ++ rest.steps)) (sym e)
        (
          here,
          check_steps-AllCompiled plan digest (ground (arith, h, split))
              (λ r t. held r (ground (arith, contains-add_all r first.roles rest.roles, t)))
              (ground (arith, strong)),
        )

-- A plan with its compiled form and the decision on it.
pub record IsAccepted (model_validate : String → Fields → Option Fields)
    (plan_digest : List PlanStep → String) (c : Context) (plan compiled : List PlanStep)
    (d : PolicyDecision) : Type 0 where
  pub nonempty : is_blank plan ≡ false
  pub short : length plan ≤ c.max_steps
  pub distinct : has_duplicate plan ≡ false
  pub steps :
      AllCompiled model_validate c
        (map step_id plan)
        d.required_roles
        d.effective_risk
        plan
        compiled
  pub ends :
      (k : String) → has_key (dependencies compiled) k ≡ true → Grounded (dependencies compiled) k
  pub hashed : d.plan_hash ≡ some (plan_digest compiled)

has_blocking-plan_issues :
    (c : Context) (plan : List PlanStep)
    → has_blocking (plan_issues c plan)
      ≡ is_blank plan || (ltb c.max_steps (length plan) || has_duplicate plan)
unfolding plan_issues
has_blocking-plan_issues c plan = simp (has_blocking-append, has_blocking-flag)

decision-accepts :
    (model_validate : String → Fields → Option Fields) (plan_digest : List PlanStep → String)
    (issues : List PolicyIssue) (out : Outcome)
    → has_blocking issues ≡ false
    → decision model_validate plan_digest issues out ≡ record {
      accepted = true;
      plan_hash = some (plan_digest out.steps);
      effective_risk = out.risk;
      required_roles = sorted out.roles;
      issues = issues;
    }
unfolding decision
decision-accepts model_validate plan_digest issues out h = rw (h, decision)

-- When the compiler accepts a plan, the plan is not empty nor too long, its ids are distinct, every
-- chain of dependencies among its compiled steps ends, and the hash is the digest of just those steps.
-- Each step is compiled in place to one with the validated input and the stronger of the two risks:
-- its tool is registered, its input valid and bound to the incident's experiment, its evidence known;
-- it writes only outside an investigation and only on an observation; its dependencies are in the
-- plan; a rollback by tool is its own tool, allowed, valid and bound. The roles that the decision
-- requires include each tool's, and its risk is at least each step's and each tool's.
pub compile-IsAccepted :
    (model_validate : String → Fields → Option Fields) (plan_digest : List PlanStep → String)
    (c : Context) (plan : List PlanStep)
    → (compile model_validate plan_digest c plan).1.accepted ≡ true
    → IsAccepted model_validate plan_digest c plan
        (compile model_validate plan_digest c plan).0
        (compile model_validate plan_digest c plan).1
unfolding compile decision plan_issues
compile-IsAccepted model_validate plan_digest c plan h =
    let out = check_steps model_validate plan_digest c (map step_id plan) plan in
    let whole = plan_issues c plan in
    let issues = whole ++ (out.issues ++ flag (has_cycle out.steps) cyclic_plan none) in
    let clean : has_blocking issues ≡ false = ground (arith, h) in
    let split =
      has_blocking-append whole (out.issues ++ flag (has_cycle out.steps) cyclic_plan none) in
    let split' = has_blocking-append out.issues (flag (has_cycle out.steps) cyclic_plan none) in
    let loop = has_blocking-flag (has_cycle out.steps) cyclic_plan none in
    let whole_lem = has_blocking-plan_issues c plan in
    let parts : (has_blocking whole ≡ false)
        × (has_blocking out.issues ≡ false)
        × (has_cycle out.steps ≡ false) =
      (
        ground (arith, clean, split),
        ground (arith, clean, split, split'),
        ground (arith, clean, split, split', loop),
      ) in
    subst (IsAccepted model_validate plan_digest c plan out.steps)
      (sym (decision-accepts model_validate plan_digest issues out clean))
      (record {
        nonempty = ground (arith, parts.0, whole_lem);
        short = ground (arith, parts.0, whole_lem);
        distinct = ground (arith, parts.0, whole_lem);
        steps =
            check_steps-AllCompiled model_validate c (map step_id plan) (sorted out.roles) out.risk
              plan plan_digest parts.1 (λ r t. contains-sorted r out.roles ∙ t) (omega arith);
        ends = (has_cycle_iff out.steps).1 parts.2;
        hashed = refl;
      })
