-- ===== src/Workflow/Topological.antt =====
-- `AgentEngine._topological` of backend/app/agent.py: the order in which a plan is executed.
use shou_ba_shou_jiaoxue_ai.Prelude.{
  ℕ, zero, suc, String, Option, none, some, List, [], ◌∷◌, ◌++◌, ◌==◌, if◌then◌else◌, length,
}
use shou_ba_shou_jiaoxue_ai.Schemas.{PlanStep}
use shou_ba_shou_jiaoxue_ai.Result.{Result, ok, err, ◌>>=◌, value_error}
use shou_ba_shou_jiaoxue_ai.Texts.{sorted}
use shou_ba_shou_jiaoxue_ai.Policy.Cycle.{Entry, dependencies}

-- dependencies.discard(step_id)
unfoldable pub discard : String → List String → List String
discard x [] = []
discard x (y ∷ ys) = let rest = discard x ys in if y == x then rest else y ∷ rest

-- pending.pop(step_id), then the loop that discards it everywhere
unfoldable pub release : String → List Entry → List Entry
release x [] = []
release x (e ∷ pending) =
    let rest = release x pending in
    if e.id == x then rest else record e { needs = discard x e.needs } ∷ rest

unfoldable pub release_all : List String → List Entry → List Entry
release_all [] pending = pending
release_all (x ∷ xs) pending = release_all xs (release x pending)

unfoldable pub free : List Entry → List String
free [] = []
free (e ∷ pending) = let rest = free pending in elim e.needs [ [] ↦ e.id ∷ rest | y ∷ ys ↦ rest ]

-- sorted(step_id for step_id, dependencies in pending.items() if not dependencies)
unfoldable pub ready : List Entry → List String
ready pending = sorted (free pending)

-- The ids in the order of their rounds. Each round takes a step at least, so the number of steps
-- is enough fuel; running out of it would be the model's own error.
unfoldable pub rounds : ℕ → List Entry → Result (List String)
rounds n [] = ok []
rounds zero (e ∷ pending) = err (value_error "out of fuel")
rounds (suc n) (e ∷ pending) = elim (ready (e ∷ pending)) [
  | [] ↦ err (value_error "plan contains a dependency cycle")
  | x ∷ xs ↦ rounds n (release_all (x ∷ xs) (e ∷ pending)) >>= (λ rest. ok ((x ∷ xs) ++ rest))
]

-- by_id[step_id]: the last step with the id
unfoldable pub step_of : List PlanStep → String → Option PlanStep
step_of [] k = none
step_of (s ∷ plan) k = elim (step_of plan k) [
  | some later ↦ some later
  | none ↦ if s.id == k then some s else none
]

unfoldable pub steps_of : List PlanStep → List String → List PlanStep
steps_of plan [] = []
steps_of plan (k ∷ ks) = elim (step_of plan k) [
  | none ↦ steps_of plan ks
  | some s ↦ s ∷ steps_of plan ks
]

unfoldable pub topological : List PlanStep → Result (List PlanStep)
unfolding steps_of step_of
topological plan =
    rounds (length (dependencies plan)) (dependencies plan) >>= (λ ids. ok (steps_of plan ids))
