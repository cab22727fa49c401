-- ===== src/Workflow/Executable.antt =====
-- From the plan compiler of backend/app/policy.py to the order of execution in backend/app/agent.py.
use shou_ba_shou_jiaoxue_ai.Prelude.{
  String, ◌≡◌, refl, ap, ◌∙◌, subst, inl, inr, true, ◌||◌, Option, List, [], ◌∷◌, map, arith, ◌==◌,
  eq_of_==, Bool-cases, contains,
}
use shou_ba_shou_jiaoxue_ai.Schemas.{RiskLevel, PlanStep}
use shou_ba_shou_jiaoxue_ai.Value.{Fields}
use shou_ba_shou_jiaoxue_ai.Result.{ok}
use shou_ba_shou_jiaoxue_ai.Security.Roles.{includes}
use shou_ba_shou_jiaoxue_ai.Policy.Cycle.{
  Entry, dependencies, enter, set_entry, has_key, needs_of, has_cycle,
}
use shou_ba_shou_jiaoxue_ai.Policy.Steps.{Context}
use shou_ba_shou_jiaoxue_ai.Policy.Compiler.{compile, step_id}
use shou_ba_shou_jiaoxue_ai.Policy.Safety.{AllCompiled, compile-IsAccepted}
use shou_ba_shou_jiaoxue_ai.Policy.Exact.{has_cycle_iff}
use shou_ba_shou_jiaoxue_ai.Policy.Acyclic.{Grounded-irrefl, Reaches-key}
use shou_ba_shou_jiaoxue_ai.Workflow.Topological.{topological}
use shou_ba_shou_jiaoxue_ai.Workflow.Complete.{has_key-set_entry}
use shou_ba_shou_jiaoxue_ai.Workflow.Total.{topological-total}

includes-contains :
    (xs ys : List String) (y : String)
    → includes xs ys ≡ true
    → contains xs y ≡ true
    → contains ys y ≡ true
unfolding includes contains
includes-contains [] ys y h c = ground arith
includes-contains (x ∷ xs) ys y h c = elim (Bool-cases (x == y)) [
  | inl same ↦ subst (λ z. contains ys z ≡ true) (eq_of_== x y same) (ground arith)
  | inr other ↦ includes-contains xs ys y (ground arith) (ground (arith, other))
]

has_key-enter :
    (d : List Entry) (plan : List PlanStep) (y : String)
    → has_key (enter d plan) y ≡ has_key d y || contains (map step_id plan) y
unfolding enter contains
has_key-enter d [] y = ground arith
has_key-enter d (s ∷ plan) y =
    has_key-enter (set_entry (record { id = s.id; needs = s.depends_on }) d) plan y
    ∙ ground (arith, has_key-set_entry (record { id = s.id; needs = s.depends_on }) d y)

module _ (ids : List String) where
  abbrev Within : List String → Type 0
  Within needs = (y : String) → contains needs y ≡ true → contains ids y ≡ true

  abbrev AllWithin : List Entry → Type 0
  AllWithin [] = Unit
  AllWithin (e ∷ d) = Within e.needs × AllWithin d

  abbrev StepsWithin : List PlanStep → Type 0
  StepsWithin [] = Unit
  StepsWithin (s ∷ plan) = Within s.depends_on × StepsWithin plan

  set_entry-AllWithin :
      (e : Entry) (d : List Entry) → Within e.needs → AllWithin d → AllWithin (set_entry e d)
  unfolding set_entry
  set_entry-AllWithin e [] w a = (w, tt)
  set_entry-AllWithin e (f ∷ d) w a = elim (Bool-cases (f.id == e.id)) [
    | inl s ↦ rw (s, set_entry) (w, a.1)
    | inr s ↦ rw (s, set_entry) (a.0, set_entry-AllWithin e d w a.1)
  ]

  enter-AllWithin :
      (d : List Entry) (plan : List PlanStep)
      → AllWithin d
      → StepsWithin plan
      → AllWithin (enter d plan)
  unfolding enter
  enter-AllWithin d [] a s = a
  enter-AllWithin d (p ∷ plan) a s =
      enter-AllWithin (set_entry (record { id = p.id; needs = p.depends_on }) d) plan
        (set_entry-AllWithin (record { id = p.id; needs = p.depends_on }) d s.0 a) s.1

  needs_of-AllWithin : (d : List Entry) (k : String) → AllWithin d → Within (needs_of d k)
  unfolding needs_of contains
  needs_of-AllWithin [] k a y c = ground arith
  needs_of-AllWithin (e ∷ d) k a y c = elim (Bool-cases (e.id == k)) [
    | inl s ↦ a.0 y (ground (arith, s))
    | inr s ↦ needs_of-AllWithin d k a.1 y (ground (arith, s))
  ]

module _ (model_validate : String → Fields → Option Fields) (c : Context) (ids roles : List String)
    (risk : RiskLevel) where
  compiled_ids :
      (plan steps : List PlanStep)
      → AllCompiled model_validate c ids roles risk plan steps
      → map step_id steps ≡ map step_id plan
  compiled_ids [] [] a = refl
  compiled_ids [] (s ∷ steps) a = absurd a
  compiled_ids (s ∷ plan) [] a = absurd a
  compiled_ids (s ∷ plan) (t ∷ steps) a = ground (arith, a.0.compiled, compiled_ids plan steps a.1)

  compiled-StepsWithin :
      (plan steps : List PlanStep)
      → AllCompiled model_validate c ids roles risk plan steps
      → StepsWithin ids steps
  compiled-StepsWithin [] [] a = tt
  compiled-StepsWithin [] (s ∷ steps) a = absurd a
  compiled-StepsWithin (s ∷ plan) [] a = absurd a
  compiled-StepsWithin (s ∷ plan) (t ∷ steps) a = (
    λ y h.
        includes-contains s.depends_on ids y a.0.legal.depends
          (ground (arith, ap (λ (p : PlanStep). contains p.depends_on y) a.0.compiled, h)),
    compiled-StepsWithin plan steps a.1,
  )

-- A plan that the compiler accepts can be put in order: its compiled steps hold no cycle, and every
-- dependency is one of them, so that the executor's ordering of them returns.
pub accepted_plan_orders :
    (model_validate : String → Fields → Option Fields) (plan_digest : List PlanStep → String)
    (c : Context) (plan : List PlanStep)
    → (compile model_validate plan_digest c plan).1.accepted ≡ true
    → (steps : List PlanStep) × (topological (compile model_validate plan_digest c plan).0
        ≡ ok steps)
unfolding dependencies
accepted_plan_orders model_validate plan_digest c plan h =
    let a = compile-IsAccepted model_validate plan_digest c plan h in
    let out = (compile model_validate plan_digest c plan).0 in
    let d = (compile model_validate plan_digest c plan).1 in
    let ids = map step_id plan in
    let within =
      compiled-StepsWithin model_validate c ids d.required_roles d.effective_risk plan out
        a.steps in
    topological-total out
      (elim (Bool-cases (has_cycle out)) [
        | inr n ↦ n
        | inl y ↦
            let loop = (has_cycle_iff out).0.0 y in
            absurd (Grounded-irrefl (a.ends loop.0 (Reaches-key loop.1)) loop.1)
      ])
      (λ k y t. ground (
        arith,
        has_key-enter [] out y,
        ap (λ xs. contains xs y)
            (compiled_ids model_validate c ids d.required_roles d.effective_risk plan out a.steps),
        needs_of-AllWithin ids (enter [] out) k (enter-AllWithin ids [] out tt within) y t,
      ))
