-- ===== src/Policy/Cycle.antt =====
-- `_has_cycle` of backend/app/policy.py: a depth-first search over the dependencies of a plan.
use shou_ba_shou_jiaoxue_ai.Prelude.{
  ℕ, zero, suc, String, Bool, true, false, ◌||◌, List, [], ◌∷◌, ◌==◌, if◌then◌else◌, length,
  contains,
}
use shou_ba_shou_jiaoxue_ai.Schemas.{PlanStep}

pub record Entry : Type 0 where
  pub id : String
  pub needs : List String

-- d[id] = needs
unfoldable pub set_entry : Entry → List Entry → List Entry
set_entry e [] = e ∷ []
set_entry e (f ∷ fs) = let rest = set_entry e fs in if f.id == e.id then e ∷ fs else f ∷ rest

unfoldable pub enter : List Entry → List PlanStep → List Entry
unfolding set_entry
enter d [] = d
enter d (s ∷ plan) = enter (set_entry (record { id = s.id; needs = s.depends_on }) d) plan

-- {step.id: set(step.depends_on) for step in plan}
unfoldable pub dependencies : List PlanStep → List Entry
unfolding enter
dependencies plan = enter [] plan

unfoldable pub has_key : List Entry → String → Bool
has_key [] k = false
has_key (e ∷ d) k = e.id == k || has_key d k

-- dependencies.get(step_id, set())
unfoldable pub needs_of : List Entry → String → List String
needs_of [] k = []
needs_of (e ∷ d) k = if e.id == k then e.needs else needs_of d k

-- What `visit` comes back with: True, or False with the set `visited`. True ends the whole search,
-- so that nothing reads the sets after it. `out_of_fuel` is the model's own.
pub data Visit : Type 0 where
  cycle : Visit
  done : List String → Visit
  out_of_fuel : Visit

-- The loop over the dependencies of one step, with `visit` for those that are steps themselves.
unfoldable pub visit_all :
    List Entry → (List String → String → Visit) → List String → List String → Visit
visit_all d visit visited [] = done visited
visit_all d visit visited (k ∷ ks) = elim (if has_key d k then visit visited k else done visited) [
  | cycle ↦ cycle
  | done visited' ↦ visit_all d visit visited' ks
  | out_of_fuel ↦ out_of_fuel
]

abbrev pub marked : String → Visit → Visit
marked x (done visited) = done (x ∷ visited)
marked x cycle = cycle
marked x out_of_fuel = out_of_fuel

-- `visiting` is the path from the root: a step is taken off it again when its loop has ended.
unfoldable pub visit : ℕ → List Entry → List String → List String → String → Visit
unfolding visit_all
visit zero d visiting visited x = out_of_fuel
visit (suc n) d visiting visited x =
    if contains visiting x
    then cycle
    else if contains visited x
    then done visited
    else marked x (visit_all d (visit n d (x ∷ visiting)) visited (needs_of d x))

abbrev pub keys : List Entry → List String
keys [] = []
keys (e ∷ d) = e.id ∷ keys d

-- any(visit(step_id) for step_id in dependencies); each step on a path has another key.
unfoldable pub search : List Entry → Visit
unfolding visit
search d = visit_all d (visit (suc (length d)) d []) [] (keys d)

unfoldable pub is_cycle : Visit → Bool
is_cycle cycle = true
is_cycle _ = false

unfoldable pub has_cycle : List PlanStep → Bool
unfolding search is_cycle dependencies
has_cycle plan = is_cycle (search (dependencies plan))
