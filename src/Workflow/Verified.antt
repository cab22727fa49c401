-- ===== src/Workflow/Verified.antt =====
-- What `_node_verify` of backend/app/agent.py has seen of a run that it lets go on.
use shou_ba_shou_jiaoxue_ai.Prelude.{
  String, ◌≡◌, refl, sym, subst, inl, inr, Bool, true, false, ◌&&◌, Option, none, some, List, [],
  ◌∷◌, ◌++◌, ◌∙◌, ap, leb, arith, ◌==◌, if◌then◌else◌, ==_iff, Bool-cases, Option-cases,
}
use shou_ba_shou_jiaoxue_ai.Schemas.{Node, is_success, PlanStep, ToolResult}
use Prim.Native.String.{count}
use mathlib.Core.List.Memᴰ.{Memᴰ as IsIn, head, tail, append_left, append_right}
use shou_ba_shou_jiaoxue_ai.Value.{update}
use shou_ba_shou_jiaoxue_ai.Result.{Result, ok, err}
use shou_ba_shou_jiaoxue_ai.Texts.{joined}
use shou_ba_shou_jiaoxue_ai.Approval.Gate.{truthy, text_of}
use shou_ba_shou_jiaoxue_ai.Approval.Actions.{system_agent}
use shou_ba_shou_jiaoxue_ai.Workflow.Checks.{remove_prefix}
use shou_ba_shou_jiaoxue_ai.Workflow.Engine.{
  Lease, Engine, State, resume, checkpoint, use_tool, ◌>>=◌, called_with, modify, moved_to,
}
use shou_ba_shou_jiaoxue_ai.Workflow.Verify.{
  action_result, checked_step, verify_step_of, step_passed, all_pass, status_text, verify_with,
  verify_step, verify_steps, node_verify, roll_back, judge_read,
}
use shou_ba_shou_jiaoxue_ai.Workflow.Process.{is_running}
use shou_ba_shou_jiaoxue_ai.Workflow.Rank.{Out, roll_back-Advances}
use shou_ba_shou_jiaoxue_ai.Workflow.Approved.{checkpoint-tool_results, execute-step_id}

-- The step's action has succeeded, and a read that bears the name of its verification has
-- succeeded too; every criterion of the step holds on what the two have put out, where the read's fields
-- replace the action's.
pub record IsVerified (step : PlanStep) (results : List ToolResult) : Type 0 where
  pub action : ToolResult
  pub acted : IsIn action results
  pub own : action.step_id ≡ step.id
  pub succeeded : is_success action.status ≡ true
  pub read : ToolResult
  pub was_read : IsIn read results
  pub named : read.step_id ≡ joined "step-verify-" (remove_prefix step.id "step-")
  pub read_well : is_success read.status ≡ true
  pub met :
      all_pass (update action.output read.output) (status_text read.status) step.success_criteria
      ≡ true

abbrev pub AllVerified : List PlanStep → List ToolResult → Type 0
AllVerified [] results = Unit
AllVerified (step ∷ steps) results = IsVerified step results × AllVerified steps results

abbrev Within : List ToolResult → List ToolResult → Type 0
Within xs ys = (r : ToolResult) → IsIn r xs → IsIn r ys

IsVerified-Within :
    (step : PlanStep) {xs ys : List ToolResult}
    → Within xs ys
    → IsVerified step xs
    → IsVerified step ys
IsVerified-Within step w v = record {
  action = v.action;
  acted = w v.action v.acted;
  own = v.own;
  succeeded = v.succeeded;
  read = v.read;
  was_read = w v.read v.was_read;
  named = v.named;
  read_well = v.read_well;
  met = v.met;
}

action_result-found :
    (id : String) (rs : List ToolResult) (a : ToolResult)
    → action_result id rs ≡ some a
    → IsIn a rs × (a.step_id ≡ id) × (is_success a.status ≡ true)
unfolding action_result
action_result-found id [] a h = ground (arith, h)
action_result-found id (r ∷ rs) a h = elim (Option-cases (action_result id rs)) [
  | inr (later, e) ↦
      let (i, o, s) = action_result-found id rs a (ground (arith, h, e)) in (tail i, o, s)
  | inl e ↦ elim (Bool-cases (r.step_id == id && is_success r.status)) [
    | inr n ↦ absurd (ground (arith, h, e, n))
    | inl y ↦
        let same : a ≡ r = ground (arith, h, e, y) in
        (head same, ground (arith, same, y, ==_iff r.step_id id), ground (arith, same, y))
  ]
]

checked_step-ok : (step r : PlanStep) → checked_step step ≡ ok r → r ≡ step
unfolding checked_step
checked_step-ok step r h = elim (Bool-cases (leb (count step.id) 85)) [
  | inl y ↦ ground (arith, h, y)
  | inr n ↦ absurd (ground (arith, h, n))
]

module _ {W : Type 0} (engine : Engine W) (lease : Lease) where
  -- What an action that judges has done: results are only added, and when it says that all passed,
  -- all are verified.
  abbrev Judged : State W → List PlanStep → Result Bool × State W → Type 0
  Judged s steps (err e, t) = Unit
  Judged s steps (ok b, t) =
      Within s.run.tool_results t.run.tool_results
      × (b ≡ true → AllVerified steps t.run.tool_results)

  verify_with-Judged :
      (plan_hash : String) (step : PlanStep) (s : State W) (o : Option ToolResult)
      → action_result step.id s.run.tool_results ≡ o
      → Judged s (step ∷ []) (verify_with engine lease plan_hash step s.run o s)
  unfolding verify_with judge_read use_tool verify_step_of step_passed
  verify_with-Judged plan_hash step s none e = (λ r i. i, λ b. ground (arith, b))
  verify_with-Judged plan_hash step s (some action) e =
      checked (checked_step (verify_step_of s.run step)) refl
    where
      go :
          (read : ToolResult)
          → read.step_id ≡ joined "step-verify-" (remove_prefix step.id "step-")
          → (o : Result (Unit {0}) × State W)
          → o.1.run.tool_results ≡ s.run.tool_results ++ read ∷ []
          → Judged s (step ∷ []) (resume (λ d t. (ok (step_passed step action read), t)) o)
      go read n (err x, t) h = tt
      go read n (ok d, t) h =
          let grows : Within s.run.tool_results t.run.tool_results =
            λ r i. subst (IsIn r) (sym h) (append_left (read ∷ []) i) in
          let (i, own, good) = action_result-found step.id s.run.tool_results action e in
          (
            grows,
            λ b. (
              record {
                action = action;
                acted = grows action i;
                own = own;
                succeeded = good;
                read = read;
                was_read = subst (IsIn read) (sym h) (append_right s.run.tool_results (head refl));
                named = n;
                read_well = ground (arith, b);
                met = ground (arith, b);
              },
              tt,
            ),
          )

      checked :
          (r : Result PlanStep)
          → checked_step (verify_step_of s.run step) ≡ r
          → Judged s (step ∷ []) (
              resume
                (λ reading.
                  use_tool engine reading plan_hash system_agent
                  >>= judge_read engine lease step action)
                (r, s))
      checked (err x) h = tt
      checked (ok reading) h =
          let named = checked_step-ok (verify_step_of s.run step) reading h in
          go (called_with engine reading plan_hash system_agent s).0
            (execute-step_id engine lease engine.tools reading _ s.run.tool_results s.world
              ∙ ap (λ (x : PlanStep). x.id) named)
            (checkpoint engine lease _) (checkpoint-tool_results engine lease _)

  verify_steps-Judged :
      (plan_hash : String) (steps : List PlanStep) (s : State W)
      → Judged s steps (verify_steps engine lease plan_hash steps s)
  unfolding verify_steps verify_step
  verify_steps-Judged plan_hash [] s = (λ r i. i, λ b. tt)
  verify_steps-Judged plan_hash (step ∷ steps) s =
      first
        (verify_with engine lease plan_hash step s.run (action_result step.id s.run.tool_results) s)
        (verify_with-Judged plan_hash step s (action_result step.id s.run.tool_results) refl)
        (verify_steps-Judged plan_hash steps)
    where
      second :
          (p : Bool) (t : State W)
          → Judged s (step ∷ []) (ok p, t)
          → (o : Result Bool × State W) → Judged t steps o
          → Judged s (step ∷ steps) (resume (λ rest u. (ok (p && rest), u)) o)
      second p t h (err e, u) g = tt
      second p t (w, v) (ok b, u) (w', v') = (
        (λ r i. w' r (w r i)),
        (λ both.
            (IsVerified-Within step w' (v (ground (arith, both))).0, v' (ground (arith, both)))),
      )

      first :
          (o : Result Bool × State W)
          → Judged s (step ∷ []) o
          → ((t : State W) → Judged t steps (verify_steps engine lease plan_hash steps t))
          → Judged s (step ∷ steps) (
              resume
                (λ p t.
                  resume
                    (λ rest u. (ok (p && rest), u))
                    (verify_steps engine lease plan_hash steps t))
                o)
      first (err e, t) h g = tt
      first (ok p, t) h g = second p t h (verify_steps engine lease plan_hash steps t) (g t)

  -- An action that leaves the run going has verified the plan.
  abbrev pub Lets : List PlanStep → Result (Unit {0}) × State W → Type 0
  Lets plan (err e, t) = Unit
  Lets plan (ok d, t) =
      is_running t.run.status ≡ true
      → (t.run.current_node ≡ Node.finalize) × AllVerified plan t.run.tool_results

  Out-Lets : (plan : List PlanStep) (o : Result (Unit {0}) × State W) → Out 0 o → Lets plan o
  Out-Lets plan (err e, t) h = tt
  Out-Lets plan (ok d, t) h = λ g. absurd (omega (arith, h g))

  -- When the verification leaves a run going, it goes on to the last node, and each step of the plan is
  -- verified: its action and a separate read have succeeded, and all its criteria hold on what the two
  -- have put out, where the read's fields replace the action's.
  pub node_verify-Lets : (s : State W) → Lets s.run.plan (node_verify engine lease s)
  unfolding node_verify
  node_verify-Lets s = elim (Bool-cases (truthy s.run.policy.plan_hash)) [
    | inr n ↦ rw (n, node_verify) tt
    | inl y ↦
        rw (y, node_verify)
          (go (verify_steps engine lease (text_of s.run.policy.plan_hash) s.run.plan s)
            (verify_steps-Judged (text_of s.run.policy.plan_hash) s.run.plan s))
  ]
    where
      go :
          (o : Result Bool × State W)
          → Judged s s.run.plan o
          → Lets s.run.plan (
              resume
                (λ passed.
                  if passed then modify (moved_to Node.finalize) else roll_back engine lease)
                o)
      go (err e, t) j = tt
      go (ok true, t) j = λ g. (refl, j.1 refl)
      go (ok false, t) j =
          Out-Lets s.run.plan (roll_back engine lease t) (roll_back-Advances engine lease 0 t)
