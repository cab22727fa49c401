-- ===== src/Executor/Execute.antt =====
-- `ToolExecutor.execute` of backend/app/tools.py. The client is an argument: what it returns or
-- raises, and what the call leaves of the world that it acts on, is its own. The SHA-256 digests that
-- serve as keys are parameters, as are pydantic's validation and the signature of a capability.
use shou_ba_shou_jiaoxue_ai.Prelude.{
  ℕ, String, true, ◌&&◌, Option, none, some, List, [], ◌∷◌, ◌==◌, if◌then◌else◌,
}
use shou_ba_shou_jiaoxue_ai.Schemas.{ToolStatus, is_success, PlanStep, ToolResult, UserIdentity}
use shou_ba_shou_jiaoxue_ai.Value.{Fields, bool, str, end, field}
use shou_ba_shou_jiaoxue_ai.Result.{Error, Result, ok, err}
use shou_ba_shou_jiaoxue_ai.Security.Capability.{Signed, CapabilityGrant, Request, issue}
use shou_ba_shou_jiaoxue_ai.Policy.Tools.{ToolSpec, spec_of}

pub record ToolCallResponse : Type 0 where
  pub status : String
  pub summary : String
  pub output : Fields
  pub error : Option String

-- `invoke` of a tool client on a world `W`: the tool, its input, the idempotency key, the token and
-- the tenant.
abbrev pub Client : Type 0 → Type 0
Client W = String → Fields → String → String → String → W → Result ToolCallResponse × W

-- The settings of the executor and the functions that it calls.
pub record Tools (W : Type 0) : Type 0 where
  pub model_validate : String → Fields → Option Fields
  pub idempotency_key : String → String → String → Fields → String  -- run, plan hash, step, payload
  pub failure_key : String → String → Fields → String
  pub payload_hash : Fields → String
  pub sign : Signed → String
  pub ttl_seconds : ℕ
  pub client : Client W
  pub report : Error → String

-- The arguments of `execute` beside the step, and what the environment gives: the time and a fresh id.
pub record Order : Type 0 where
  pub run_id : String
  pub plan_hash : String
  pub actor : UserIdentity
  pub attempt : ℕ
  pub now : ℕ
  pub jti : String

-- status if status in {…} else "failed"
unfoldable pub known_status : String → ToolStatus
known_status s =
    if s == "succeeded"
    then ToolStatus.succeeded
    else if s == "skipped"
    then ToolStatus.skipped
    else if s == "unknown"
    then ToolStatus.unknown
    else ToolStatus.failed

-- next(result for result in reversed(previous_results) if … key … and status in {…})
unfoldable pub prior_success : String → List ToolResult → Option ToolResult
prior_success key [] = none
prior_success key (r ∷ rs) = elim (prior_success key rs) [
  | some later ↦ some later
  | none ↦ if r.idempotency_key == key && is_success r.status then some r else none
]

module _ {W : Type 0} (tools : Tools W) where
  -- `_failure`; the detail of an exception that two of its messages end with is left out.
  abbrev failure : PlanStep → Order → String → ToolResult
  failure step o message = record {
    step_id = step.id;
    tool_name = step.tool_name;
    status = ToolStatus.failed;
    summary = message;
    output = end;
    idempotency_key = tools.failure_key o.run_id step.id step.tool_input;
    error = some message;
    attempt = o.attempt;
    capability_jti = none;
  }

  abbrev skipped_as : PlanStep → Order → String → ToolResult → ToolResult
  skipped_as step o key prior = record {
    step_id = step.id;
    tool_name = step.tool_name;
    status = ToolStatus.skipped;
    summary = "运行记录幂等命中：该动作不重复执行。";
    output = prior.output;
    idempotency_key = key;
    error = none;
    attempt = o.attempt;
    capability_jti = prior.capability_jti;
  }

  abbrev unknown_output : Fields
  unknown_output =
      field "retryable_with_same_key" (bool true) (field "code" (str "tool_result_unknown") end)

  abbrev pub answered : PlanStep → Order → String → String → Result ToolCallResponse → ToolResult
  answered step o key jti (ok response) = record {
    step_id = step.id;
    tool_name = step.tool_name;
    status = known_status response.status;
    summary = response.summary;
    output = response.output;
    idempotency_key = key;
    error = response.error;
    attempt = o.attempt;
    capability_jti = some jti;
  }
  answered step o key jti (err e) = record {
    step_id = step.id;
    tool_name = step.tool_name;
    status = ToolStatus.unknown;
    summary = "工具调用响应未知；禁止使用新幂等键重试，已停止后续写操作。";
    output = unknown_output;
    idempotency_key = key;
    error = some (tools.report e);
    attempt = o.attempt;
    capability_jti = some jti;
  }

  abbrev request_of : PlanStep → Order → Fields → Request
  request_of step o input = record {
    run_id = o.run_id;
    plan_hash = o.plan_hash;
    step_id = step.id;
    tool_name = step.tool_name;
    payload = input;
  }

  -- The capability of the call, for one use.
  unfoldable pub grant_for : PlanStep → Order → ToolSpec → Fields → Result CapabilityGrant
  grant_for step o spec input =
      issue tools.payload_hash tools.sign o.now tools.ttl_seconds o.jti (request_of step o input)
        o.actor spec.required_role 1

  unfoldable pub key_of : PlanStep → Order → Fields → String
  key_of step o input = tools.idempotency_key o.run_id o.plan_hash step.id input

  unfoldable pub call : PlanStep → Order → ToolSpec → Fields → W → ToolResult × W
  call step o spec input w = elim (grant_for step o spec input) [
    | err e ↦ (failure step o "能力授权失败", w)
    | ok grant ↦
        let (response, w') =
          tools.client step.tool_name input (key_of step o input) grant.token o.actor.tenant_id w in
        (answered step o (key_of step o input) grant.jti response, w')
  ]

  unfoldable pub execute_valid :
      PlanStep → Order → List ToolResult → ToolSpec → Fields → W → ToolResult × W
  unfolding call
  execute_valid step o previous spec input w = elim (prior_success (key_of step o input) previous) [
    | some prior ↦ (skipped_as step o (key_of step o input) prior, w)
    | none ↦ call step o spec input w
  ]

  unfoldable pub execute : PlanStep → Order → List ToolResult → W → ToolResult × W
  execute step o previous w = elim (spec_of step.tool_name) [
    | none ↦ (failure step o "工具未注册，已拒绝执行", w)
    | some spec ↦ elim (tools.model_validate step.tool_name step.tool_input) [
      | none ↦ (failure step o "参数校验失败", w)
      | some input ↦ execute_valid step o previous spec input w
    ]
  ]
