-- ===== src/Lab/Service.antt =====
-- `invoke_tool` of ops_sandbox/app.py: the sealed lab behind a signed capability. Its transaction leaves
-- the tables as they were when it raises. The hash of a payload, the signature of a token,
-- `model_validate` and Python's `strip` are parameters; the request's key, token and fault injection come
-- in headers.
use shou_ba_shou_jiaoxue_ai.Prelude.{
  ℕ, ◌+◌, String, Bool, ◌&&◌, Option, none, some, List, [], ◌∷◌, ltb, ◌=ℕ◌, ◌==◌, if◌then◌else◌,
  is_text,
}
use shou_ba_shou_jiaoxue_ai.Value.{Value, Fields, str, end, field, put}
use Prim.Native.String.{count}
use shou_ba_shou_jiaoxue_ai.Result.{
  Result, ok, err, guard, ◌>>=◌, ◌>>◌, key_error, http_exception, authentication_error,
  authorization_error,
}
use shou_ba_shou_jiaoxue_ai.Store.Table.{find, insert}
use shou_ba_shou_jiaoxue_ai.Security.Capability.{Claims, Signed, verify}
use shou_ba_shou_jiaoxue_ai.Policy.Tools.{ToolSpec, spec_of}
use shou_ba_shou_jiaoxue_ai.Executor.Execute.{ToolCallResponse}
use shou_ba_shou_jiaoxue_ai.Workflow.Checks.{removed_prefix}
use shou_ba_shou_jiaoxue_ai.Lab.Faults.{
  FaultState, Written, logs_read, status_output, write_of, text_at,
}
use shou_ba_shou_jiaoxue_ai.Lab.Memory.{Experiment, experiment_key, replaced}

-- A row of `tool_idempotency`.
pub record Held : Type 0 where
  pub key : String
  pub payload_hash : String
  pub tool_name : String
  pub response : ToolCallResponse

-- A row of `capability_usage`.
pub record Usage : Type 0 where
  pub jti : String
  pub uses : ℕ
  pub max_uses : ℕ

pub record Tables : Type 0 where
  pub experiments : List Experiment
  pub idempotency : List Held
  pub usage : List Usage

pub record Settings : Type 0 where
  pub model_validate : String → Fields → Option Fields
  pub payload_hash : Fields → String
  pub unsign : String → Option Signed
  pub strip : String → String
  pub fault_injection_enabled : Bool

pub record Call : Type 0 where
  pub tool_name : String
  pub payload : Fields
  pub authorization : Option String
  pub idempotency_key : Option String
  pub tenant : String
  pub drop_response : Option String

-- What `_apply_tool` returns, and the state that it leaves.
pub record Applied : Type 0 where
  pub response : ToolCallResponse
  pub state : FaultState
  pub effect_delta : ℕ

abbrev pub answer : String → String → Fields → ToolCallResponse
answer status summary output = record {
  status = status;
  summary = summary;
  output = output;
  error = none;
}

abbrev unchanged : FaultState → ToolCallResponse → Applied
unchanged s r = record { response = r; state = s; effect_delta = 0 }

-- The extra fields of `query_metrics`.
abbrev with_credential : Option Value → Fields → Fields
with_credential none output = output
with_credential (some v) output = put output "credential_version" v

with_versions : Option Value → Option Value → Fields → Result Fields
with_versions none db output = ok output
with_versions (some c) none output = err (key_error "db_version")
with_versions (some c) (some d) output = ok (put (put output "cache_version" c) "db_version" d)

wrote : Written → Applied
wrote w = record {
  response = answer "succeeded" w.summary w.output;
  state = w.state;
  effect_delta = 1;
}

-- `_apply_tool`
unfoldable pub apply_tool : String → Fields → String → FaultState → Result Applied
unfolding with_versions wrote
apply_tool name payload fault_kind s = elim (write_of name) [
  | some write ↦ write fault_kind payload s >>= (λ w. ok (wrote w))
  | none ↦
      if name == "query_metrics"
      then (with_versions s.cache_version s.db_version
            (with_credential s.credential_version s.metrics)
          >>= (λ output. ok (unchanged s (answer "succeeded" "已读取当前实验指标。" output))))
      else if name == "inspect_logs"
      then (logs_read payload s
          >>= (λ output. ok (unchanged s (answer "succeeded" "已读取并脱敏日志样本。" output))))
      else if name == "get_service_status"
      then ok (unchanged s (answer "succeeded" "已读取服务实例状态。" (status_output s)))
      else ok (unchanged s (answer "failed" "工具未实现。" (field "code" (str "unsupported_tool") end)))
]

-- SELECT uses …, or 0
unfoldable pub uses_of : String → List Usage → ℕ
uses_of jti [] = 0
uses_of jti (u ∷ us) = if u.jti == jti then u.uses else uses_of jti us

-- INSERT … ON CONFLICT(jti) DO UPDATE SET uses=uses+1
unfoldable pub charge : String → ℕ → List Usage → List Usage
charge jti max_uses [] = record { jti = jti; uses = 1; max_uses = max_uses } ∷ []
charge jti max_uses (u ∷ us) =
    let rest = charge jti max_uses us in
    if u.jti == jti then record u { uses = u.uses + 1 } ∷ us else u ∷ rest

-- `_bearer`
unfoldable pub bearer : Settings → Option String → Result String
bearer c none = err (http_exception 401 "Bearer token required")
bearer c (some value) = elim (removed_prefix value "Bearer ") [
  | none ↦ err (http_exception 401 "Bearer token required")
  | some token ↦ ok (c.strip token)
]

-- `except AuthenticationError`, `except AuthorizationError`
abbrev denied : {A : Type 0} → Result A → Result A
denied (err (authentication_error m)) = err (http_exception 401 m)
denied (err (authorization_error m)) = err (http_exception 403 m)
denied r = r

-- The checks before the transaction: the validated input, the claims and the key.
pub record Admitted : Type 0 where
  pub input : Fields
  pub claims : Claims
  pub key : String

long_key : Option String → Result String
long_key none = err (http_exception 422 "a 64-character X-Idempotency-Key is required")
long_key (some k) =
    if count k =ℕ 64
    then ok k
    else err (http_exception 422 "a 64-character X-Idempotency-Key is required")

registered : Option ToolSpec → Result (Unit {0})
registered none = err (http_exception 404 "tool not found")
registered (some spec) = ok tt

validated : Option Fields → Result Fields
validated none = err (http_exception 422 "validation failed")
validated (some input) = ok input

unfoldable pub admit : Settings → ℕ → Call → Result Admitted
unfolding long_key registered validated
admit c now q = do
  registered (spec_of q.tool_name)
  key ← long_key q.idempotency_key
  input ← validated (c.model_validate q.tool_name q.payload)
  token ← bearer c q.authorization
  claims ←
      denied (verify c.payload_hash c.unsign now token q.tool_name input none none (some q.tenant))
  ok (record { input = input; claims = claims; key = key })

-- How the transaction ends when it does not raise.
pub data Outcome : Type 0 where
  replay : ToolCallResponse → Outcome
  committed : ToolCallResponse → Tables → Outcome

abbrev pub skipped : ToolCallResponse → ToolCallResponse
skipped r = record r { status = "skipped"; summary = "持久幂等命中：返回首次提交结果。" }

unfoldable pub replay_held : Settings → Call → Admitted → Held → Result Outcome
replay_held c q a h =
    guard (h.payload_hash == c.payload_hash a.input && h.tool_name == q.tool_name)
      (http_exception 409 "idempotency key was already used for different input")
    >> ok (replay (skipped h.response))

unfoldable pub found : Option Experiment → Result Experiment
found none = err (http_exception 404 "experiment not found")
found (some e) = ok e

unfoldable pub commit : Settings → Call → Admitted → Experiment → Applied → Tables → Tables
commit c q a e r t = record {
  experiments =
      replaced (record e { state = r.state; effects = e.effects + r.effect_delta }) t.experiments;
  idempotency =
      insert
        (record {
          key = a.key;
          payload_hash = c.payload_hash a.input;
          tool_name = q.tool_name;
          response = r.response;
        })
        t.idempotency;
  usage = charge a.claims.jti a.claims.max_uses t.usage;
}

unfoldable pub first_use : Settings → Call → Admitted → Tables → Result Outcome
unfolding found
first_use c q a t = do
  guard (ltb (uses_of a.claims.jti t.usage) a.claims.max_uses)
      (http_exception 403 "capability replay limit exceeded")
  id ← text_at a.input "experiment_id"
  e ← found (find experiment_key id t.experiments)
  service ← text_at a.input "service"
  guard (e.service == service) (http_exception 409 "service does not match experiment")
  r ← apply_tool q.tool_name a.input e.fault_kind e.state
  ok (committed r.response (commit c q a e r t))

abbrev pub held_key : Held → String
held_key h = h.key

unfoldable pub transact : Settings → Call → Admitted → Tables → Result Outcome
unfolding replay_held
transact c q a t = elim (find held_key a.key t.idempotency) [
  | some h ↦ replay_held c q a h
  | none ↦ first_use c q a t
]

abbrev pub answered : Settings → Call → Tables → Result Outcome → Result ToolCallResponse × Tables
answered c q t (err e) = (err e, t)
answered c q t (ok (replay r)) = (ok r, t)
answered c q t (ok (committed r t')) = (
  (if is_text q.drop_response "after-commit" && c.fault_injection_enabled
      then err (http_exception 503 "injected response loss after durable commit")
      else ok r),
  t',
)

-- `invoke_tool`
unfoldable pub invoke_tool : Settings → ℕ → Call → Tables → Result ToolCallResponse × Tables
invoke_tool c now q t = answered c q t (admit c now q >>= (λ a. transact c q a t))
