-- ===== src/Lab/Faults.antt =====
-- The faults of backend/app/tools.py and what a tool does to one; `_apply_tool` of ops_sandbox/app.py has
-- the same four writes. A tool's input has been validated: a field of another type is not told from
-- a missing one, which raises a KeyError.
use shou_ba_shou_jiaoxue_ai.Prelude.{
  ℕ, zero, suc, ◌/◌, String, ◌&&◌, ◌||◌, Option, none, some, List, [], ◌∷◌, map, leb, ◌==◌,
  if◌then◌else◌, length,
}
use shou_ba_shou_jiaoxue_ai.Value.{
  Value, Items, Fields, null, num, str, arr, obj, nil, cons, end, field, int, get, put, update,
}
use Prim.Native.String.{◌++◌ as append}
use shou_ba_shou_jiaoxue_ai.Result.{Result, ok, err, ◌>>=◌, key_error}
use shou_ba_shou_jiaoxue_ai.Workflow.Checks.{starts_with, size}

-- The mutable `state` of an experiment; a key that only some faults have is optional.
pub record FaultState : Type 0 where
  pub metrics : Fields
  pub logs : List String
  pub instances : Fields
  pub replicas : Option Value
  pub credential_version : Option Value
  pub cache_version : Option Value
  pub db_version : Option Value

-- What a write tells: the summary, the output and the state after it.
pub record Written : Type 0 where
  pub summary : String
  pub output : Fields
  pub state : FaultState

unfoldable pub text_at : Fields → String → Result String
text_at d k = elim (get d k) [
  | none ↦ err (key_error k)
  | some v ↦ elim v [ str s ↦ ok s | _ ↦ err (key_error k) ]
]

unfoldable pub number_at : Fields → String → Result ℕ
number_at d k = elim (get d k) [
  | none ↦ err (key_error k)
  | some v ↦ elim v [ num n ↦ ok n | _ ↦ err (key_error k) ]
]

-- d.get(k) in an output: None when it is missing
abbrev pub or_null : Option Value → Value
or_null none = null
or_null (some v) = v

-- line.replace("secret=actual", "secret=[REDACTED]"); `skip` characters of a match are still to go.
abbrev secret : String
secret = "secret=actual"

unfoldable pub redacted : ℕ → String → String
redacted skip String.[] = ""
redacted zero (String.◌∷◌ c s) =
    let kept = redacted 0 s in
    let rest = redacted 12 s in
    if starts_with (String.◌∷◌ c s) secret
    then append "secret=[REDACTED]" rest
    else String.◌∷◌ c kept
redacted (suc skip) (String.◌∷◌ c s) = redacted skip s

-- xs[:n]
unfoldable pub first : {A : Type 0} → ℕ → List A → List A
first zero xs = []
first (suc n) [] = []
first (suc n) (x ∷ xs) = x ∷ first n xs

abbrev texts : List String → Items
texts [] = nil
texts (s ∷ ss) = cons (str s) (texts ss)

unfoldable pub log_output : List String → Fields
log_output samples =
    field "matches" (int (length samples)) (field "samples" (arr (texts samples)) end)

unfoldable pub logs_read : Fields → FaultState → Result Fields
logs_read payload s =
    number_at payload "limit"
    >>= (λ n. ok (log_output (map (redacted 0) (first (n / 1000) s.logs))))

unfoldable pub status_output : FaultState → Fields
status_output s =
    field "instances" (obj s.instances)
      (field "replicas" (elim s.replicas [ none ↦ int (size s.instances) | some v ↦ v ]) end)

restart_metrics : Fields
restart_metrics =
    field "p95_ms" (int 540) (field "error_rate" (num 400) (field "pool_waiters" (int 1) end))

unfoldable pub restarted : String → Fields → FaultState → Result Written
unfolding restart_metrics
restarted fault_kind payload s = text_at payload "instance" >>= (λ instance.
    let healthy : FaultState = record s { instances = put s.instances instance (str "healthy") } in
    let cured =
      fault_kind == "connection_pool_exhaustion"
      && (instance == "checkout-api-1" || instance == "checkout-api-2") in
    let after : FaultState =
      if cured then record healthy { metrics = update s.metrics restart_metrics } else healthy in
    ok (record {
      summary = if cured then "实例已重启，连接池等待和错误率恢复。" else "重启动作完成，但触发故障的指标没有恢复。";
      output = update (field "instance" (str instance) end) after.metrics;
      state = after;
    }))

scale_metrics : Fields
scale_metrics = field "queue_depth" (int 3190) (
    field "consume_per_min" (int 690)
      (field "oldest_age_s" (int 280) (field "trend" (str "falling") end)))

unfoldable pub scaled : String → Fields → FaultState → Result Written
unfolding scale_metrics
scaled fault_kind payload s = number_at payload "target_replicas" >>= (λ n.
    let grown = fault_kind == "queue_backlog" && leb 5000 n in
    let after : FaultState = record s {
      replicas = some (num n);
      metrics =
          if grown then update s.metrics scale_metrics else put s.metrics "trend" (str "unchanged");
    } in
    ok (record {
      summary = if grown then "扩容完成，消费速率超过生产速率，积压开始下降。" else "扩容动作完成，但目标容量不足或故障并非容量问题。";
      output = update (field "replicas" (num n) end) after.metrics;
      state = after;
    }))

unfoldable pub rotated : String → Fields → FaultState → Result Written
rotated fault_kind payload s = text_at payload "target_version" >>= (λ version.
    let cured = fault_kind == "expired_credential" && version == "v18" in
    let after : FaultState = record s {
      credential_version = some (str version);
      metrics = if cured then put s.metrics "http_401_rate" (num 300) else s.metrics;
    } in
    ok (record {
      summary = if cured then "灰度凭据轮换完成，授权失败率恢复。" else "轮换动作完成，但授权失败率没有恢复。";
      output = update (field "credential_version" (str version) end) after.metrics;
      state = after;
    }))

cache_output : FaultState → Fields
cache_output s =
    update
      (field "cache_version" (or_null s.cache_version)
        (field "db_version" (or_null s.db_version) end))
      s.metrics

unfoldable pub aligned : FaultState → Option Value → Result Written
unfolding cache_output
aligned s none = err (key_error "db_version")
aligned s (some v) =
    let after : FaultState = record s {
      cache_version = some v;
      metrics = put s.metrics "stale_sample_rate" (num 0);
    } in
    ok (record { summary = "精确缓存刷新完成，样本版本已对齐。"; output = cache_output after; state = after })

-- The tenant is read for a stale cache only.
unfoldable pub refreshed : String → Fields → FaultState → Result Written
unfolding cache_output
refreshed fault_kind payload s =
    let missed : Written = record {
      summary = "缓存刷新完成，但目标租户或故障类型不匹配。";
      output = cache_output s;
      state = s;
    } in
    if fault_kind == "stale_cache"
    then text_at payload "tenant"
      >>= (λ tenant. if tenant == "xm-retail" then aligned s s.db_version else ok missed)
    else ok missed

-- The four writes by name.
unfoldable pub write_of : String → Option (String → Fields → FaultState → Result Written)
write_of name =
    if name == "restart_service"
    then some restarted
    else if name == "scale_workers"
    then some scaled
    else if name == "rotate_credential"
    then some rotated
    else if name == "refresh_cache"
    then some refreshed
    else none
