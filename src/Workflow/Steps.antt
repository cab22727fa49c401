-- ===== src/Workflow/Steps.antt =====
-- What the engine of backend/app/agent.py does to the world outside the run: it changes the run in
-- memory, saves it, or calls a tool. `May` says at which state which tool call may be made, and `Keeps`
-- what a change in memory leaves as it was.
use shou_ba_shou_jiaoxue_ai.Prelude.{String, ◌≡◌, refl}
use shou_ba_shou_jiaoxue_ai.Schemas.{PlanStep, UserIdentity, RunRecord}
use shou_ba_shou_jiaoxue_ai.Result.{Result, ok, err}
use shou_ba_shou_jiaoxue_ai.Workflow.Engine.{
  Lease, Engine, State, Action, resume, checkpoint, use_tool,
}

pub record Rules (W : Type 0) : Type 1 where
  pub May : State W → PlanStep → String → UserIdentity → Type 0
  pub Keeps : RunRecord → RunRecord → Type 0

module _ {W : Type 0} (engine : Engine W) (lease : Lease) (rules : Rules W) where
  pub data Steps : State W → State W → Type 0 where
    done : {s : State W} → Steps s s
    edited :
        {s t u : State W}
        → t.db ≡ s.db
        → t.world ≡ s.world
        → rules.Keeps s.run t.run
        → Steps t u
        → Steps s u
    saved : {s u : State W} → Steps (checkpoint engine lease s).1 u → Steps s u
    called :
        {s u : State W} (step : PlanStep) (plan_hash : String) (actor : UserIdentity)
        → rules.May s step plan_hash actor
        → Steps (use_tool engine step plan_hash actor s).1 u
        → Steps s u

  pub Steps-trans : {s t u : State W} → Steps s t → Steps t u → Steps s u
  Steps-trans done q = q
  Steps-trans (edited d w k p) q = edited d w k (Steps-trans p q)
  Steps-trans (saved p) q = saved (Steps-trans p q)
  Steps-trans (called step plan_hash actor m p) q = called step plan_hash actor m (Steps-trans p q)

  -- What follows an action runs only when the action has returned.
  pub resume-Steps :
      {A B : Type 0} {s : State W} (o : Result A × State W) (next : A → Action W B)
      → Steps s o.1
      → ((a : A) (t : State W) → o ≡ (ok a, t) → Steps t (next a t).1)
      → Steps s (resume next o).1
  resume-Steps (err e, t) next p q = p
  resume-Steps (ok a, t) next p q = Steps-trans p (q a t refl)

  pub checkpoint-Steps : (s : State W) → Steps s (checkpoint engine lease s).1
  checkpoint-Steps s = saved done

  pub use_tool-Steps :
      (step : PlanStep) (plan_hash : String) (actor : UserIdentity) (s : State W)
      → rules.May s step plan_hash actor
      → Steps s (use_tool engine step plan_hash actor s).1
  use_tool-Steps step plan_hash actor s m = called step plan_hash actor m done
