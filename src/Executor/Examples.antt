-- ===== src/Executor/Examples.antt =====
-- `ToolExecutor` of backend/app/tools.py against a client that counts its calls.
use shou_ba_shou_jiaoxue_ai.Prelude.{
  ℕ, suc, ◌≡◌, refl, ◌⊎◌, true, none, some, [], ◌∷◌, ◌++◌, ◌==◌, contains,
}
use shou_ba_shou_jiaoxue_ai.Schemas.{ToolStatus, is_success, RollbackMode, PlanStep}
use shou_ba_shou_jiaoxue_ai.Value.{end}
use shou_ba_shou_jiaoxue_ai.Schemas.{low}
use shou_ba_shou_jiaoxue_ai.Samples.{lead}
use shou_ba_shou_jiaoxue_ai.Result.{ok}
use shou_ba_shou_jiaoxue_ai.Store.Table.{find}
use shou_ba_shou_jiaoxue_ai.Security.Roles.{require_any_role, has_any_role, meets}
use shou_ba_shou_jiaoxue_ai.Security.Capability.{issue}
use shou_ba_shou_jiaoxue_ai.Policy.Tools.{spec_of, tool_registry}
use shou_ba_shou_jiaoxue_ai.Executor.Execute.{
  Client, Tools, Order, known_status, prior_success, grant_for, execute, execute_valid, call,
}
use shou_ba_shou_jiaoxue_ai.Executor.Once.{IsCalled, execute-IsCalled, execute-once}

-- The world counts the calls.
abbrev counting : Client ℕ
counting name input key token tenant n =
    (ok (record { status = "succeeded"; summary = "done"; output = end; error = none }), suc n)

abbrev tools : Tools ℕ
tools = record {
  model_validate = λ name input. some input;
  idempotency_key = λ run_id plan step_id input. step_id;
  failure_key = λ run_id step_id input. "refused";
  payload_hash = λ input. "hash";
  sign = λ s. "token";
  ttl_seconds = 90;
  client = counting;
  report = λ e. "error";
}

abbrev scale : PlanStep
scale = record {
  id = "S1";
  tool_name = "scale_workers";
  tool_input = end;
  evidence_ids = [];
  depends_on = [];
  preconditions = [];
  success_criteria = [];
  rollback = record { mode = RollbackMode.manual; tool_name = none; tool_input = end };
  risk = low;
}

abbrev order : Order
order = record {
  run_id = "run-1";
  plan_hash = "d2c7";
  actor = lead;
  attempt = 1;
  now = 100;
  jti = "CAP-1";
}

abbrev again : Order
again = record order { attempt = 2; now = 200; jti = "CAP-2" }

scale_succeeds : is_success (execute tools scale order [] 0).0.status ≡ true
unfolding execute execute_valid call prior_success grant_for issue require_any_role has_any_role
    meets contains spec_of tool_registry find known_status ◌==◌
scale_succeeds = refl

execute-once_example :
    ((execute tools scale again ([] ++ (execute tools scale order [] 0).0 ∷ []) 1).1 ≡ 1)
    × ((execute tools scale again ([] ++ (execute tools scale order [] 0).0 ∷ []) 1).0.status
        ≡ ToolStatus.skipped)
execute-once_example = execute-once tools scale order again [] [] [] 0 1 scale_succeeds refl refl

execute-IsCalled_example :
    ((execute tools scale order [] 0).1 ≡ 0)
    ⊎ IsCalled tools scale order [] 0 (execute tools scale order [] 0).1
execute-IsCalled_example = execute-IsCalled tools scale order [] 0
