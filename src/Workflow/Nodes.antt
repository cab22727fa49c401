-- ===== src/Workflow/Nodes.antt =====
-- The nodes of backend/app/agent.py that come before the risk gate.
use shou_ba_shou_jiaoxue_ai.Prelude.{
  ℕ, ◌+◌, String, Bool, true, false, ◌||◌, Option, none, some, List, [], ◌∷◌, ◌++◌, map, ◌==◌,
  if◌then◌else◌,
}
use shou_ba_shou_jiaoxue_ai.Schemas.{
  Node, is_success, Check, RollbackMode, RollbackPlan, PlanStep, PolicyDecision, ToolResult,
  Channel, SourceHit, Observation, RunRecord,
}
use shou_ba_shou_jiaoxue_ai.Value.{Value, Fields, null, bool, str, end, field, int}
use shou_ba_shou_jiaoxue_ai.Schemas.{low, eq}
use shou_ba_shou_jiaoxue_ai.Result.{Result, ok, err, value_error}
use shou_ba_shou_jiaoxue_ai.Texts.{joined, join_texts}
use shou_ba_shou_jiaoxue_ai.Approval.Gate.{truthy, text_of, audited, gate}
use shou_ba_shou_jiaoxue_ai.Approval.Actions.{system_agent}
use shou_ba_shou_jiaoxue_ai.Policy.Steps.{investigation, remediation, Context}
use shou_ba_shou_jiaoxue_ai.Policy.Compiler.{compile}
use shou_ba_shou_jiaoxue_ai.Workflow.Checks.{observation_context}
use shou_ba_shou_jiaoxue_ai.Workflow.Topological.{topological}
use shou_ba_shou_jiaoxue_ai.Workflow.Engine.{
  Lease, Proposal, Engine, Action, raise, lift, modify, with_run, ◌>>=◌, ◌>>◌, checkpoint, use_tool,
  or_text, handed_off, moved_to,
}

-- SERVICE_RUNBOOK_ROUTE.get(service, [])
unfoldable pub service_runbook_route : String → List String
service_runbook_route service =
    if service == "checkout-api"
    then "RB-101" ∷ []
    else if service == "invoice-worker"
    then "RB-104" ∷ []
    else if service == "partner-gateway"
    then "RB-203" ∷ []
    else if service == "catalog-api"
    then "RB-310" ∷ []
    else if service == "recommendation-api"
    then "RB-429" ∷ "OPS-12" ∷ []
    else []

abbrev pub chunk_id_of : SourceHit → String
chunk_id_of h = h.chunk_id

abbrev pub observation_id_of : Observation → String
observation_id_of o = o.id

abbrev pub optional : Option String → Value
optional none = null
optional (some s) = str s

abbrev pub first_two : List SourceHit → List SourceHit
first_two (a ∷ b ∷ hits) = a ∷ b ∷ []
first_two hits = hits

abbrev pub status_check : String → Check
status_check description = record {
  name = "__result_status__";
  operator = eq;
  value = str "succeeded";
  description = description;
}

abbrev pub manual_rollback : RollbackPlan
manual_rollback = record { mode = RollbackMode.manual; tool_name = none; tool_input = end }

abbrev pub baseline_step : List String → String → String → Fields → PlanStep
baseline_step evidence id tool_name tool_input = record {
  id = id;
  tool_name = tool_name;
  tool_input = tool_input;
  evidence_ids = evidence;
  depends_on = [];
  preconditions = [];
  success_criteria = status_check "基础观测通道必须返回明确成功状态" ∷ [];
  rollback = manual_rollback;
  risk = low;
}

-- {**target, key: value, …}
abbrev pub targeted : RunRecord → Fields → Fields
targeted run rest =
    field "experiment_id" (optional run.incident.experiment_id)
      (field "service" (str run.incident.service) rest)

-- `_baseline_investigation_plan`
unfoldable pub baseline_investigation_plan : RunRecord → List PlanStep
baseline_investigation_plan run =
    let evidence = "incident:input" ∷ map chunk_id_of (first_two run.sources) in
    baseline_step evidence "step-observe-metrics" "query_metrics"
      (targeted run (field "window_minutes" (int 15) end))
    ∷ baseline_step evidence "step-observe-logs" "inspect_logs" (
        targeted run (
          field "query" (str "error OR timeout OR unauthorized OR stale")
            (field "limit" (int 30) end)))
    ∷ baseline_step evidence "step-observe-status" "get_service_status"
        (targeted run (field "include_instances" (bool true) end))
    ∷ []

-- retrieval_channel in {"routed", "pinned"}
abbrev pub is_planning_channel : Channel → Bool
is_planning_channel Channel.ranked = false
is_planning_channel Channel.routed = true
is_planning_channel Channel.pinned = true

unfoldable pub planning_sources : List SourceHit → List SourceHit
planning_sources [] = []
planning_sources (h ∷ hits) =
    let rest = planning_sources hits in if is_planning_channel h.channel then h ∷ rest else rest

unfoldable pub observes_step : String → List Observation → Bool
observes_step id [] = false
observes_step id (o ∷ os) = o.step_id == id || observes_step id os

module _ {W : Type 0} (engine : Engine W) where
  -- `_node_intake`
  unfoldable pub node_intake : Action W (Unit {0})
  node_intake = modify (moved_to Node.retrieve)

  -- `_node_retrieve`
  unfoldable pub node_retrieve : Action W (Unit {0})
  node_retrieve = with_run (λ run. do
    hits ← lift (
        engine.search
          (join_texts " " (run.incident.service ∷ run.incident.title ∷ run.incident.symptoms)) 6
          (service_runbook_route run.incident.service))
    modify (λ r. record r { sources = hits; current_node = Node.investigate }))

  unfoldable pub investigation_context : RunRecord → Context
  investigation_context run = record {
    max_steps = engine.max_steps;
    phase = investigation;
    allowed_evidence_ids = map chunk_id_of run.sources ++ "incident:input" ∷ [];
    observation_ids = [];
    experiment_id = run.incident.experiment_id;
    observation_context = end;
  }

  unfoldable pub investigated : List PlanStep × PolicyDecision → RunRecord → RunRecord
  investigated (compiled, decision) run =
      let planned = record run { investigation_plan = compiled; investigation_policy = decision } in
      if decision.accepted
      then moved_to Node.observe planned
      else handed_off "调查计划未通过策略编译，已转人工。" planned

  -- `_node_investigate`
  unfoldable pub node_investigate : Action W (Unit {0})
  unfolding investigated
  node_investigate = modify (λ run.
      if truthy run.incident.experiment_id
      then investigated
          (compile engine.tools.model_validate engine.plan_digest (investigation_context run)
            (baseline_investigation_plan run))
          run
      else handed_off "事件没有绑定受控工具目标；当前交付不伪造生产连接，已转人工接入观测源。" run)

  module _ (lease : Lease) where
    abbrev observation_of : PlanStep → ToolResult → ℕ → Observation
    observation_of step result n = record {
      id = joined "OBS-" (engine.fresh_id n);
      step_id = step.id;
      tool_name = step.tool_name;
      summary = result.summary;
      facts = result.output;
    }

    unfoldable pub add_observation : PlanStep → ToolResult → Action W (Unit {0})
    add_observation step result s = (
      ok tt,
      record s {
        run = record s.run {
          observations = s.run.observations ++ observation_of step result s.ticks ∷ [];
        };
        ticks = s.ticks + 1;
      },
    )

    -- One turn of the loop of `_node_observe` after the call, and what follows it.
    unfoldable pub observed : PlanStep → Action W (Unit {0}) → ToolResult → Action W (Unit {0})
    unfolding add_observation
    observed step rest result =
        if is_success result.status
        then add_observation step result >> checkpoint engine lease >> rest
        else modify (handed_off (joined "只读观测失败或结果未知：" result.summary)) >> checkpoint engine lease

    unfoldable pub observe_steps : String → List PlanStep → Action W (Unit {0})
    observe_steps plan_hash [] = modify (moved_to Node.diagnose)
    observe_steps plan_hash (step ∷ steps) =
        let rest = observe_steps plan_hash steps in
        with_run (λ run.
          if observes_step step.id run.observations
          then rest
          else (use_tool engine step plan_hash system_agent >>= observed step rest))

    -- `_node_observe`
    unfoldable pub node_observe : Action W (Unit {0})
    node_observe = with_run (λ run.
        if truthy run.investigation_policy.plan_hash
        then (lift (topological run.investigation_plan)
            >>= observe_steps (text_of run.investigation_policy.plan_hash))
        else raise (value_error "investigation plan hash is missing"))

  unfoldable pub proposed : Proposal → RunRecord → RunRecord
  proposed p run =
      let planned = record run { diagnosis = p.diagnosis; plan = p.plan } in
      if p.needs_handoff
      then handed_off (joined "没有证据支持白名单内的安全修复：" (or_text p.handoff_reason p.diagnosis)) planned
      else moved_to Node.policy planned

  -- `_node_diagnose`
  unfoldable pub node_diagnose : Action W (Unit {0})
  unfolding proposed
  node_diagnose = with_run (λ run.
      lift (engine.propose run.incident (planning_sources run.sources) run.observations)
      >>= (λ p. modify (proposed p)))

  unfoldable pub remediation_context : RunRecord → Context
  remediation_context run = record {
    max_steps = engine.max_steps;
    phase = remediation;
    allowed_evidence_ids =
        map chunk_id_of run.sources
        ++ (map observation_id_of run.observations ++ "incident:input" ∷ []);
    observation_ids = map observation_id_of run.observations;
    experiment_id = run.incident.experiment_id;
    observation_context = observation_context run.observations end;
  }

  unfoldable pub judged : List PlanStep × PolicyDecision → RunRecord → RunRecord
  judged (compiled, decision) run =
      let planned = record run {
        plan = compiled;
        policy = decision;
        risk_level = decision.effective_risk;
      } in
      if decision.accepted
      then moved_to Node.gate (audited "policy-compiler" "plan.accepted" planned)
      else audited "policy-compiler" "plan.rejected" (handed_off "动态计划未通过策略编译，没有执行写动作。" planned)

  -- `_node_policy`
  unfoldable pub node_policy : Action W (Unit {0})
  unfolding judged
  node_policy = modify (λ run.
      judged
        (compile engine.tools.model_validate engine.plan_digest (remediation_context run) run.plan)
        run)

  abbrev pub gated : Result RunRecord → Action W (Unit {0})
  gated (err e) s = (err e, s)
  gated (ok run) s = (ok tt, record s { run = run })

  -- `_node_gate`
  unfoldable pub node_gate : Action W (Unit {0})
  node_gate = with_run (λ run. gated (gate engine.quorum run))
