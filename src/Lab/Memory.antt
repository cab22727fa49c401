-- ===== src/Lab/Memory.antt =====
-- `InMemoryFaultLabClient` of backend/app/tools.py: a tool client on experiments, with a table of the
-- responses by idempotency key. An experiment id is a text; any other value names no experiment.
use shou_ba_shou_jiaoxue_ai.Prelude.{
  ℕ, ◌+◌, String, Option, none, some, List, [], ◌∷◌, ◌==◌, if◌then◌else◌,
}
use shou_ba_shou_jiaoxue_ai.Value.{Value, Fields, str, end, field, get}
use shou_ba_shou_jiaoxue_ai.Value.{holds_text}
use shou_ba_shou_jiaoxue_ai.Result.{Result, ok, err}
use shou_ba_shou_jiaoxue_ai.Store.Table.{find, insert, update_where}
use shou_ba_shou_jiaoxue_ai.Executor.Execute.{ToolCallResponse, Client}
use shou_ba_shou_jiaoxue_ai.Lab.Faults.{FaultState, Written, logs_read, status_output, write_of}

-- Without the oracle, which `invoke` does not read.
pub record Experiment : Type 0 where
  pub id : String
  pub fault_kind : String
  pub service : String
  pub state : FaultState
  pub effects : ℕ

pub record Remembered : Type 0 where
  pub key : String
  pub response : ToolCallResponse

pub record Memory : Type 0 where
  pub experiments : List Experiment
  pub idempotency : List Remembered

abbrev pub experiment_key : Experiment → String
experiment_key e = e.id

abbrev pub remembered_key : Remembered → String
remembered_key r = r.key

abbrev pub succeeded_with : String → Fields → ToolCallResponse
succeeded_with summary output = record {
  status = "succeeded";
  summary = summary;
  output = output;
  error = none;
}

abbrev pub failed_with : String → String → ToolCallResponse
failed_with summary code = record {
  status = "failed";
  summary = summary;
  output = field "code" (str code) end;
  error = some code;
}

-- An effect is counted before the input is read.
written : Experiment → Result Written → Result ToolCallResponse × Experiment
written e (err x) = (err x, record e { effects = e.effects + 1 })
written e (ok w) =
    (ok (succeeded_with w.summary w.output), record e { effects = e.effects + 1; state = w.state })

logs_answer : Result Fields → Result ToolCallResponse
logs_answer (err x) = err x
logs_answer (ok output) = ok (succeeded_with "已读取并脱敏日志样本。" output)

-- The reads of `_apply`.
unfoldable pub read_tool : String → Fields → FaultState → Result ToolCallResponse
unfolding logs_answer
read_tool name payload s =
    if name == "query_metrics"
    then ok (succeeded_with "已读取当前实验指标。" s.metrics)
    else if name == "inspect_logs"
    then logs_answer (logs_read payload s)
    else if name == "get_service_status"
    then ok (succeeded_with "已读取服务实例状态。" (status_output s))
    else ok (failed_with "工具未实现。" "unsupported_tool")

-- `_apply`
unfoldable pub apply : String → Fields → Experiment → Result ToolCallResponse × Experiment
unfolding written
apply name payload e = elim (write_of name) [
  | none ↦ (read_tool name payload e.state, e)
  | some write ↦ written e (write e.fault_kind payload e.state)
]

abbrev named_experiment : Option Value → List Experiment → Option Experiment
named_experiment (some (str id)) es = find experiment_key id es
named_experiment _ es = none

unfoldable pub target_of : Fields → Memory → Option Experiment
target_of payload m = named_experiment (get payload "experiment_id") m.experiments

abbrev pub replaced : Experiment → List Experiment → List Experiment
replaced e es = update_where (λ x. x.id == e.id) (λ x. e) es

-- The answer is remembered, but not what was raised.
unfoldable pub remembered :
    String → Memory → Result ToolCallResponse × Experiment → Result ToolCallResponse × Memory
remembered key m (err x, e) = (err x, record m { experiments = replaced e m.experiments })
remembered key m (ok r, e) = (
  ok r,
  record m {
    experiments = replaced e m.experiments;
    idempotency = insert (record { key = key; response = r }) m.idempotency;
  },
)

unfoldable pub invoke_fresh :
    String → Fields → String → Memory → Option Experiment → Result ToolCallResponse × Memory
invoke_fresh name payload key m none = (ok (failed_with "实验不存在或已过期。" "experiment_not_found"), m)
invoke_fresh name payload key m (some e) =
    if holds_text (get payload "service") e.service
    then remembered key m (apply name payload e)
    else (ok (failed_with "目标服务与实验不匹配。" "target_mismatch"), m)

abbrev pub replayed : ToolCallResponse → ToolCallResponse
replayed r = record r { status = "skipped"; summary = "持久幂等命中：返回首次调用结果。" }

-- `invoke`
unfoldable pub invoke : Client Memory
unfolding invoke_fresh
invoke name payload key token tenant m = elim (find remembered_key key m.idempotency) [
  | some prior ↦ (ok (replayed prior.response), m)
  | none ↦ invoke_fresh name payload key m (target_of payload m)
]

-- A call of the client.
pub record Invocation : Type 0 where
  pub name : String
  pub payload : Fields
  pub key : String
  pub token : String
  pub tenant : String

unfoldable pub after_calls : Memory → List Invocation → Memory
after_calls m [] = m
after_calls m (c ∷ cs) = after_calls (invoke c.name c.payload c.key c.token c.tenant m).1 cs
