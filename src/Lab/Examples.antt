-- ===== src/Lab/Examples.antt =====
-- The queue backlog of backend/app/tools.py: its workers are scaled once, in both labs.
use shou_ba_shou_jiaoxue_ai.Prelude.{
  ℕ, ◌≤◌, String, ◌≡◌, refl, sym, ap, ◌∙◌, ◌⊎◌, true, none, some, [], ◌∷◌, arith, ◌==◌, contains,
}
use shou_ba_shou_jiaoxue_ai.Value.{Fields, str, end, field, int, get, put, update}
use shou_ba_shou_jiaoxue_ai.Result.{Result, ok, err}
use shou_ba_shou_jiaoxue_ai.Store.Table.{find}
use shou_ba_shou_jiaoxue_ai.Security.Capability.{Claims, verify, verify_signed_token}
use shou_ba_shou_jiaoxue_ai.Policy.Tools.{spec_of, tool_registry}
use shou_ba_shou_jiaoxue_ai.Executor.Execute.{ToolCallResponse}
use shou_ba_shou_jiaoxue_ai.Lab.Faults.{FaultState, number_at, scaled, write_of}
use shou_ba_shou_jiaoxue_ai.Lab.Memory.{
  Experiment, Memory, Invocation, apply, target_of, remembered, invoke, invoke_fresh, replayed,
  after_calls,
}
use shou_ba_shou_jiaoxue_ai.Lab.Replay.{invoke_once}
use shou_ba_shou_jiaoxue_ai.Lab.Service.{
  Tables, Settings, Admitted, Applied, admit, bearer, apply_tool, uses_of, commit, invoke_tool,
  skipped,
}
use shou_ba_shou_jiaoxue_ai.Lab.Service.{Call as Request}
use shou_ba_shou_jiaoxue_ai.Lab.Uses.{IsCharged, spent}
use shou_ba_shou_jiaoxue_ai.Lab.Charges.{
  IsCommitted, invoke_tool-IsCommitted, Allows, changes, after_calls-bound,
}
use shou_ba_shou_jiaoxue_ai.Lab.Uses.{after_calls as after_requests}
use shou_ba_shou_jiaoxue_ai.Lab.Faults.{text_at}
use shou_ba_shou_jiaoxue_ai.Prelude.{◌+◌}
use shou_ba_shou_jiaoxue_ai.Lab.Retry.{retry_once}

abbrev backlog : FaultState
backlog = record {
  metrics = field "queue_depth" (int 8420) (
      field "consume_per_min" (int 260)
        (field "produce_per_min" (int 510) (field "oldest_age_s" (int 910) end)));
  logs = "consumer heartbeat ok" ∷ "poll batch completed" ∷ "no poison message detected" ∷ [];
  instances =
      field "invoice-worker-1" (str "healthy") (field "invoice-worker-2" (str "healthy") end);
  replicas = some (int 2);
  credential_version = none;
  cache_version = none;
  db_version = none;
}

abbrev experiment : Experiment
experiment = record {
  id = "EXP-ABCDEFGH";
  fault_kind = "queue_backlog";
  service = "invoice-worker";
  state = backlog;
  effects = 0;
}

abbrev five_workers : Fields
five_workers =
    field "experiment_id" (str "EXP-ABCDEFGH")
      (field "service" (str "invoice-worker") (field "target_replicas" (int 5) end))

abbrev lab : Memory
lab = record { experiments = experiment ∷ []; idempotency = [] }

abbrev falling : Fields
falling = field "replicas" (int 5) (
    field "queue_depth" (int 3190) (
      field "consume_per_min" (int 690) (
        field "produce_per_min" (int 510)
          (field "oldest_age_s" (int 280) (field "trend" (str "falling") end)))))

abbrev grown : ToolCallResponse
grown = record {
  status = "succeeded";
  summary = "扩容完成，消费速率超过生产速率，积压开始下降。";
  output = falling;
  error = none;
}

abbrev scaled_lab : Memory
scaled_lab = (invoke "scale_workers" five_workers "k1" "" "" lab).1

scales : invoke "scale_workers" five_workers "k1" "" "" lab ≡ (ok grown, scaled_lab)
unfolding invoke invoke_fresh target_of remembered apply write_of scaled number_at get put update
    find ◌==◌
scales = refl

abbrev reads : Invocation
reads = record {
  name = "query_metrics";
  payload = five_workers;
  key = "k2";
  token = "";
  tenant = "";
}

abbrev retries : Invocation
retries = record reads { name = "scale_workers"; key = "k1" }

invoke_once_example :
    invoke "scale_workers" five_workers "k1" "" "" (after_calls scaled_lab (reads ∷ []))
    ≡ (ok (replayed grown), after_calls scaled_lab (reads ∷ []))
invoke_once_example =
    invoke_once "scale_workers" five_workers "k1" "" "" lab scaled_lab grown (reads ∷ []) retries
      scales refl refl

abbrev claims : Claims
claims = record {
  aud = "harbor-tool";
  sub = "lead@harbor.local";
  roles = "on-call-lead" ∷ [];
  tenant_id = "xm-ops";
  required_role = "on-call-lead";
  run_id = "run-1";
  plan_hash = "d2c7";
  step_id = "S1";
  tool = "scale_workers";
  payload_hash = "hash";
  nbf = 100;
  exp = 190;
  jti = "CAP-1";
  max_uses = 1;
}

abbrev settings : Settings
settings = record {
  model_validate = λ name input. some input;
  payload_hash = λ input. "hash";
  unsign = λ token. some (record { alg = "HS256"; claims = claims });
  strip = λ s. s;
  fault_injection_enabled = true;
}

abbrev long_key : String
long_key = "0123456789abcdef0123456789abcdef0123456789abcdef0123456789abcdef"

-- Its answer is lost after the commit.
abbrev request : Request
request = record {
  tool_name = "scale_workers";
  payload = five_workers;
  authorization = some "Bearer token";
  idempotency_key = some long_key;
  tenant = "xm-ops";
  drop_response = some "after-commit";
}

abbrev tables : Tables
tables = record { experiments = experiment ∷ []; idempotency = []; usage = [] }

abbrev admitted : Admitted
admitted = record { input = five_workers; claims = claims; key = long_key }

admits : admit settings 120 request ≡ ok admitted
unfolding admit spec_of tool_registry find bearer verify verify_signed_token contains ◌==◌
admits = refl

admits_again : admit settings 150 request ≡ ok admitted
unfolding admit spec_of tool_registry find bearer verify verify_signed_token contains ◌==◌
admits_again = refl

abbrev applied : Applied
applied = record {
  response = grown;
  state = record backlog {
    metrics = field "queue_depth" (int 3190) (
        field "consume_per_min" (int 690) (
          field "produce_per_min" (int 510)
            (field "oldest_age_s" (int 280) (field "trend" (str "falling") end))));
    replicas = some (int 5);
  };
  effect_delta = 1;
}

abbrev charged_tables : Tables
charged_tables = commit settings request admitted experiment applied tables

charged : IsCharged settings 120 request tables charged_tables
unfolding commit find uses_of apply_tool write_of scaled number_at text_at get put update ◌==◌
charged = record {
  admitted = admitted;
  verified = admits;
  fresh = refl;
  left = omega arith;
  experiment = experiment;
  id = "EXP-ABCDEFGH";
  identified = refl;
  there = refl;
  at_service = refl;
  applied = applied;
  by_tool = refl;
  tables = refl;
}

retry_once_example :
    invoke_tool settings 150 request (after_requests settings charged_tables [])
    ≡ (ok (skipped grown), after_requests settings charged_tables [])
unfolding ◌==◌ charged
retry_once_example =
    retry_once settings 120 150 request request tables charged_tables [] charged admitted
      admits_again refl

invoke_tool-IsCommitted_example :
    (((invoke_tool settings 120 request tables).1 ≡ tables)
      × (spent settings 120 request tables ≡ none))
    ⊎ ((m : IsCommitted settings 120 request tables (invoke_tool settings 120 request tables).1)
        × (spent settings 120 request tables ≡ some m.admitted.claims.jti))
invoke_tool-IsCommitted_example = invoke_tool-IsCommitted settings 120 request tables

abbrev uses_allowed : Result Admitted → ℕ
uses_allowed (ok x) = x.claims.max_uses
uses_allowed (err e) = 0

one_use : Allows settings "CAP-1" 1 ((120, request) ∷ [])
one_use = ((λ a h same. omega (arith, ap uses_allowed (sym h ∙ admits))), tt)

after_calls-bound_example :
    (0 + changes settings "CAP-1" tables ((120, request) ∷ []) ≤ 1)
    × (uses_of "CAP-1" (after_requests settings tables ((120, request) ∷ [])).usage
        ≡ 0 + changes settings "CAP-1" tables ((120, request) ∷ []))
unfolding uses_of
after_calls-bound_example =
    after_calls-bound settings tables "CAP-1" 1 ((120, request) ∷ []) one_use (omega arith)
