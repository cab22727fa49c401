-- ===== src/Policy/Tools.antt =====
-- TOOL_REGISTRY and `effective_risk` of backend/app/tools.py.
use shou_ba_shou_jiaoxue_ai.Prelude.{
  ◌≤◌, String, Bool, true, false, Option, none, some, List, [], ◌∷◌, arith, leb, if◌then◌else◌,
}
use shou_ba_shou_jiaoxue_ai.Schemas.{RiskLevel, risk_weight, PlanStep}
use shou_ba_shou_jiaoxue_ai.Schemas.{low, medium, high}
use shou_ba_shou_jiaoxue_ai.Store.Table.{find}

-- Without `description` and `applicability`, which are display texts; `input_model` goes by the name.
pub record ToolSpec : Type 0 where
  pub name : String
  pub risk : RiskLevel
  pub required_role : String
  pub read_only : Bool

abbrev tool : String → RiskLevel → String → Bool → ToolSpec
tool name risk required_role read_only = record {
  name = name;
  risk = risk;
  required_role = required_role;
  read_only = read_only;
}

unfoldable pub tool_registry : List ToolSpec
tool_registry =
    tool "query_metrics" low "observer" true
    ∷ tool "inspect_logs" low "observer" true
    ∷ tool "get_service_status" low "observer" true
    ∷ tool "restart_service" high "on-call-lead" false
    ∷ tool "scale_workers" medium "on-call-lead" false
    ∷ tool "rotate_credential" high "security-on-call" false
    ∷ tool "refresh_cache" low "operator" false
    ∷ []

abbrev pub spec_name : ToolSpec → String
spec_name s = s.name

-- TOOL_REGISTRY.get(name)
unfoldable pub spec_of : String → Option ToolSpec
spec_of name = find spec_name name tool_registry

unfoldable pub stronger : RiskLevel → RiskLevel → RiskLevel
stronger registered declared =
    if leb (risk_weight declared) (risk_weight registered) then registered else declared

unfoldable pub effective_risk : PlanStep → RiskLevel
unfolding spec_of stronger
effective_risk step = elim (spec_of step.tool_name) [
  | none ↦ high
  | some spec ↦ stronger spec.risk step.risk
]

pub stronger-ge :
    (a b : RiskLevel)
    → (risk_weight a ≤ risk_weight (stronger a b)) × (risk_weight b ≤ risk_weight (stronger a b))
unfolding stronger
stronger-ge a b = ground arith
