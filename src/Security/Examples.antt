-- ===== src/Security/Examples.antt =====
-- A capability of backend/app/security.py, signed by a scheme that can be read back.
use shou_ba_shou_jiaoxue_ai.Prelude.{
  String, ◌≡◌, refl, false, Option, none, some, [], ◌∷◌, ◌<◌, ◌≤◌, arith, ◌==◌, contains,
}
use shou_ba_shou_jiaoxue_ai.Schemas.{UserIdentity}
use shou_ba_shou_jiaoxue_ai.Value.{Fields, end}
use shou_ba_shou_jiaoxue_ai.Samples.{lead}
use shou_ba_shou_jiaoxue_ai.Result.{ok, err, authorization_error, authentication_error}
use shou_ba_shou_jiaoxue_ai.Security.Roles.{require_any_role, has_any_role, meets}
use shou_ba_shou_jiaoxue_ai.Security.Session.{
  AuthService, IsEntitled, account, demo_accounts, session_claims, issue_session, authenticate,
  verify_session, authenticate-verify_session,
}
use shou_ba_shou_jiaoxue_ai.Texts.{sorted, as_set}
use shou_ba_shou_jiaoxue_ai.Store.Table.{find}
use shou_ba_shou_jiaoxue_ai.Security.Capability.{
  Claims, Signed, CapabilityGrant, Request, issue, verify, claims_of, issue-verify,
}

abbrev asked : Request
asked = record {
  run_id = "run-1";
  plan_hash = "d2c7";
  step_id = "S1";
  tool_name = "scale_workers";
  payload = end;
}

abbrev hash : Fields → String
hash payload = "hash"

abbrev signs : Signed → String
signs s = "token"

abbrev claimed : Claims
claimed = claims_of hash signs 100 90 "CAP-1" asked lead "on-call-lead" 1

abbrev reads : String → Option Signed
reads token = some (record { alg = "HS256"; claims = claimed })

abbrev grant : CapabilityGrant
grant = record { token = "token"; jti = "CAP-1"; expires_at = 190 }

issued : issue hash signs 100 90 "CAP-1" asked lead "on-call-lead" 1 ≡ ok grant
unfolding issue require_any_role has_any_role meets contains ◌==◌
issued = refl

named : (lead.tenant_id == "") ≡ false
unfolding ◌==◌
named = refl

issue-verify_example :
    (verify hash reads 150 "token" "scale_workers" end (some "run-1") (some "d2c7") (some "xm-ops")
      ≡ ok claimed)
    × ((tool_name : String) (payload : Fields) (run plan tenant : Option String)
        → ("scale_workers" == tool_name) ≡ false
        → verify hash reads 150 "token" tool_name payload run plan tenant
          ≡ err (authorization_error "capability does not grant this tool"))
issue-verify_example =
    issue-verify hash signs reads 100 90 "CAP-1" asked lead "on-call-lead" 1 150 grant refl named
      issued (omega arith) (omega arith)

abbrev service : AuthService
service = record {
  lower = λ name. name;
  digest = λ name password. password;
  sign = λ session. "token";
  unsign = λ token. none;
  demo_password = "harbor-demo";
  ttl_minutes = 480;
}

abbrev duty_lead : UserIdentity
duty_lead =
    account "lead@harbor.local" "值班负责人" ("observer" ∷ "operator" ∷ "on-call-lead" ∷ []) "xm-ops"

-- The token reads back.
abbrev reading : AuthService
reading = record service {
  unsign = λ token. some (record { alg = "HS256"; claims = session_claims service 100 duty_lead });
}

logs_in :
    authenticate reading 100 "lead@harbor.local" "harbor-demo"
    ≡ ok (issue_session reading 100 duty_lead)
unfolding authenticate issue_session session_claims find demo_accounts ◌==◌
logs_in = refl

authenticate-verify_session_example :
    IsEntitled reading "lead@harbor.local" "harbor-demo" duty_lead
    × (28000 < 28900
        → verify_session reading 28000 "token"
          ≡ ok (record duty_lead { roles = sorted (as_set duty_lead.roles) }))
    × (28900 ≤ 28000
        → verify_session reading 28000 "token" ≡ err (authentication_error "token has expired"))
unfolding issue_session session_claims
authenticate-verify_session_example =
    authenticate-verify_session reading 100 28000 "lead@harbor.local" "harbor-demo"
      (issue_session reading 100 duty_lead) logs_in refl (omega arith)
