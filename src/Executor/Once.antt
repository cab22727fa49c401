-- ===== src/Executor/Once.antt =====
-- What a call of `ToolExecutor.execute` of backend/app/tools.py does to the world.
use shou_ba_shou_jiaoxue_ai.Prelude.{
  String, ◌≡◌, refl, ◌∙◌, ◌⊎◌, inl, inr, true, false, Option, none, some, List, [], ◌∷◌, ◌++◌,
  arith, ==_refl, Option-cases,
}
use shou_ba_shou_jiaoxue_ai.Schemas.{ToolStatus, is_success, PlanStep, ToolResult}
use shou_ba_shou_jiaoxue_ai.Value.{Fields}
use mathlib.Core.List.Memᴰ.{Memᴰ as IsIn, head, tail}
use shou_ba_shou_jiaoxue_ai.Result.{Result, ok, err}
use shou_ba_shou_jiaoxue_ai.Security.Roles.{has_any_role, require_any_role}
use shou_ba_shou_jiaoxue_ai.Security.Capability.{CapabilityGrant, issue}
use shou_ba_shou_jiaoxue_ai.Policy.Tools.{ToolSpec, spec_of}
use shou_ba_shou_jiaoxue_ai.Executor.Execute.{
  ToolCallResponse, Tools, Order, prior_success, grant_for, key_of, execute, execute_valid, call,
  answered,
}

module _ {W : Type 0} (tools : Tools W) where
  -- No result with the key has succeeded.
  abbrev pub IsNew : String → List ToolResult → Type 0
  IsNew key previous =
      (r : ToolResult) → IsIn r previous → r.idempotency_key ≡ key → is_success r.status ≡ false

  prior_success-IsNew :
      (key : String) (previous : List ToolResult)
      → prior_success key previous ≡ none
      → IsNew key previous
  unfolding prior_success
  prior_success-IsNew key [] h r i k = elim i [ ]
  prior_success-IsNew key (x ∷ xs) h r (head same) k = elim (Option-cases (prior_success key xs)) [
    | inl n ↦ ground (arith, h, n, same, k, ==_refl key)
    | inr (p, f) ↦ absurd (ground (arith, h, f))
  ]
  prior_success-IsNew key (x ∷ xs) h r (tail i) k = elim (Option-cases (prior_success key xs)) [
    | inl n ↦ prior_success-IsNew key xs n r i k
    | inr (p, f) ↦ absurd (ground (arith, h, f))
  ]

  -- The one call that `execute` may make: a registered tool, with the input as validated, the key
  -- of that run, plan, step and input, under which no result has succeeded, and a token that was issued
  -- to the actor for the tool's role.
  pub record IsCalled (step : PlanStep) (o : Order) (previous : List ToolResult) (w w' : W)
      : Type 0 where
    pub spec : ToolSpec
    pub input : Fields
    pub grant : CapabilityGrant
    pub registered : spec_of step.tool_name ≡ some spec
    pub valid : tools.model_validate step.tool_name step.tool_input ≡ some input
    pub granted : grant_for tools step o spec input ≡ ok grant
    pub entitled : has_any_role o.actor (spec.required_role ∷ []) ≡ true
    pub fresh : IsNew (key_of tools step o input) previous
    pub world :
        w'
        ≡ (tools.client step.tool_name input
            (key_of tools step o input)
            grant.token
            o.actor.tenant_id
            w).1

  entitled_of :
      (step : PlanStep) (o : Order) (spec : ToolSpec) (input : Fields) (g : CapabilityGrant)
      → grant_for tools step o spec input ≡ ok g
      → has_any_role o.actor (spec.required_role ∷ []) ≡ true
  unfolding grant_for issue require_any_role
  entitled_of step o spec input g h = ground arith

  -- The executor touches the world by that one call or not at all, and not at all when a result for
  -- the same run, plan, step and input has already succeeded.
  pub execute-IsCalled :
      (step : PlanStep) (o : Order) (previous : List ToolResult) (w : W)
      → ((execute tools step o previous w).1 ≡ w)
        ⊎ IsCalled step o previous w (execute tools step o previous w).1
  unfolding execute execute_valid call
  execute-IsCalled step o previous w =
      go (spec_of step.tool_name) refl (tools.model_validate step.tool_name step.tool_input) refl
    where
      Goal : Type 0
      Goal =
          ((execute tools step o previous w).1 ≡ w)
          ⊎ IsCalled step o previous w (execute tools step o previous w).1

      called :
          (spec : ToolSpec) (input : Fields)
          → spec_of step.tool_name ≡ some spec
          → tools.model_validate step.tool_name step.tool_input ≡ some input
          → prior_success (key_of tools step o input) previous ≡ none
          → (m : Result CapabilityGrant) → grant_for tools step o spec input ≡ m
          → Goal
      called spec input s e p (err x) g = inl (ground (arith, s, e, p, g))
      called spec input s e p (ok grant) g = inr (record {
        spec = spec;
        input = input;
        grant = grant;
        registered = s;
        valid = e;
        granted = g;
        entitled = entitled_of step o spec input grant g;
        fresh = prior_success-IsNew (key_of tools step o input) previous p;
        world = ground (arith, s, e, p, g);
      })

      go :
          (s : Option ToolSpec)
          → spec_of step.tool_name ≡ s
          → (v : Option Fields) → tools.model_validate step.tool_name step.tool_input ≡ v
          → Goal
      go none s v e = inl (ground (arith, s))
      go (some spec) s none e = inl (ground (arith, s, e))
      go (some spec) s (some input) e =
          elim (Option-cases (prior_success (key_of tools step o input) previous)) [
            | inr (prior, p) ↦ inl (ground (arith, s, e, p))
            | inl p ↦ called spec input s e p (grant_for tools step o spec input) refl
          ]

  prior_success-found :
      (key : String) (pre post : List ToolResult) (r : ToolResult)
      → r.idempotency_key ≡ key
      → is_success r.status ≡ true
      → (p : ToolResult) × (prior_success key (pre ++ r ∷ post) ≡ some p)
  unfolding prior_success
  prior_success-found key [] post r k s = elim (Option-cases (prior_success key post)) [
    | inl n ↦ (r, ground (arith, n, k, s, ==_refl key))
    | inr (p, f) ↦ (p, ground (arith, f))
  ]
  prior_success-found key (x ∷ pre) post r k s =
      let (p, f) = prior_success-found key pre post r k s in (p, ground (arith, f))

  answered-key :
      (step : PlanStep) (o : Order) (key jti : String) (response : Result ToolCallResponse)
      → (answered tools step o key jti response).idempotency_key ≡ key
  answered-key step o key jti (ok response) = refl
  answered-key step o key jti (err e) = refl

  -- A result that has succeeded names its input's key.
  success-key :
      (step : PlanStep) (o : Order) (previous : List ToolResult) (w : W)
      → is_success (execute tools step o previous w).0.status ≡ true
      → (spec : ToolSpec) × (input : Fields) × (spec_of step.tool_name ≡ some spec)
        × (tools.model_validate step.tool_name step.tool_input ≡ some input)
        × ((execute tools step o previous w).0.idempotency_key ≡ key_of tools step o input)
  unfolding execute execute_valid call
  success-key step o previous w h =
      go (spec_of step.tool_name) refl (tools.model_validate step.tool_name step.tool_input) refl
    where
      Goal : Type 0
      Goal =
          (spec : ToolSpec) × (input : Fields) × (spec_of step.tool_name ≡ some spec)
          × (tools.model_validate step.tool_name step.tool_input ≡ some input)
          × ((execute tools step o previous w).0.idempotency_key ≡ key_of tools step o input)

      called :
          (spec : ToolSpec) (input : Fields)
          → spec_of step.tool_name ≡ some spec
          → tools.model_validate step.tool_name step.tool_input ≡ some input
          → prior_success (key_of tools step o input) previous ≡ none
          → (m : Result CapabilityGrant) → grant_for tools step o spec input ≡ m
          → Goal
      called spec input s e p (err x) g = absurd (ground (arith, s, e, p, g, h))
      called spec input s e p (ok grant) g = (
        spec,
        input,
        s,
        e,
        ground (
          arith,
          s,
          e,
          p,
          g,
          answered-key step o (key_of tools step o input) grant.jti
              (tools.client step.tool_name input (key_of tools step o input) grant.token
                o.actor.tenant_id w).0,
        ),
      )

      go :
          (s : Option ToolSpec)
          → spec_of step.tool_name ≡ s
          → (v : Option Fields) → tools.model_validate step.tool_name step.tool_input ≡ v
          → Goal
      go none s v e = absurd (ground (arith, s, h))
      go (some spec) s none e = absurd (ground (arith, s, e, h))
      go (some spec) s (some input) e =
          elim (Option-cases (prior_success (key_of tools step o input) previous)) [
            | inr (prior, p) ↦ (spec, input, s, e, ground (arith, s, e, p))
            | inl p ↦ called spec input s e p (grant_for tools step o spec input) refl
          ]

  -- Once an execution has returned succeeded or skipped and its result is among the results of the
  -- run, executing that step of that plan again changes nothing of the world, whoever asks and
  -- whatever other results stand around it: it returns a result that is marked skipped.
  pub execute-once :
      (step : PlanStep) (o o' : Order) (previous pre post : List ToolResult) (w w' : W)
      → is_success (execute tools step o previous w).0.status ≡ true
      → o'.run_id ≡ o.run_id
      → o'.plan_hash ≡ o.plan_hash
      → ((execute tools step o' (pre ++ (execute tools step o previous w).0 ∷ post) w').1 ≡ w')
        × ((execute tools step o' (pre ++ (execute tools step o previous w).0 ∷ post) w').0.status
            ≡ ToolStatus.skipped)
  unfolding execute execute_valid key_of
  execute-once step o o' previous pre post w w' h run plan =
      let r : ToolResult = (execute tools step o previous w).0 in
      let (spec, input, s, e, k) = success-key step o previous w h in
      let same : r.idempotency_key ≡ key_of tools step o' input = k ∙ rw (run, plan, key_of) in
      let (p, f) = prior_success-found (key_of tools step o' input) pre post r same h in
      (ground (arith, s, e, f), ground (arith, s, e, f))
