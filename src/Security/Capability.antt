-- ===== src/Security/Capability.antt =====
-- `CapabilityService` and `verify_signed_token` of backend/app/security.py. The signature and the
-- hash of a payload are parameters. Times here are whole seconds since the epoch, as in the claims.
use shou_ba_shou_jiaoxue_ai.Prelude.{
  ℕ, ◌+◌, ◌≤◌, ◌<◌, String, ◌≡◌, ap, ◌∙◌, Bool, true, false, not, ◌||◌, Option, none, some, List,
  [], ◌∷◌, arith, ltb, leb, ◌==◌, ==_refl, contains,
}
use shou_ba_shou_jiaoxue_ai.Schemas.{UserIdentity}
use shou_ba_shou_jiaoxue_ai.Value.{Fields}
use shou_ba_shou_jiaoxue_ai.Result.{
  Result, ok, err, guard, ◌>>=◌, ◌>>◌, authentication_error, authorization_error,
}
use shou_ba_shou_jiaoxue_ai.Security.Roles.{require_any_role, has_any_role, meets}
use shou_ba_shou_jiaoxue_ai.Texts.{sorted, as_set, contains-sorted, contains-as_set}

-- The claims of a capability, without `iat`, which nothing reads.
pub record Claims : Type 0 where
  pub aud : String
  pub sub : String
  pub roles : List String
  pub tenant_id : String
  pub required_role : String
  pub run_id : String
  pub plan_hash : String
  pub step_id : String
  pub tool : String
  pub payload_hash : String
  pub nbf : ℕ
  pub exp : ℕ
  pub jti : String
  pub max_uses : ℕ

-- What a signed token says: the algorithm of its header, and its claims.
pub record Signed : Type 0 where
  pub alg : String
  pub claims : Claims

pub record CapabilityGrant : Type 0 where
  pub token : String
  pub jti : String
  pub expires_at : ℕ

-- What a capability is asked for.
pub record Request : Type 0 where
  pub run_id : String
  pub plan_hash : String
  pub step_id : String
  pub tool_name : String
  pub payload : Fields

-- `sign` is `_sign` with the service's secret; `unsign` reads a token back when its signature is
-- right, and is `none` otherwise.
module _ (payload_hash : Fields → String) (sign : Signed → String) where
  unfoldable pub claims_of : ℕ → ℕ → String → Request → UserIdentity → String → ℕ → Claims
  claims_of now ttl jti q actor required_role max_uses = record {
    aud = "harbor-tool";
    sub = actor.username;
    roles = sorted (as_set actor.roles);
    tenant_id = actor.tenant_id;
    required_role = required_role;
    run_id = q.run_id;
    plan_hash = q.plan_hash;
    step_id = q.step_id;
    tool = q.tool_name;
    payload_hash = payload_hash q.payload;
    nbf = now;
    exp = now + ttl;
    jti = jti;
    max_uses = max_uses;
  }

  unfoldable pub issue :
      ℕ → ℕ → String → Request → UserIdentity → String → ℕ → Result CapabilityGrant
  unfolding claims_of
  issue now ttl jti q actor required_role max_uses =
      require_any_role actor (required_role ∷ [])
      >> ok (record {
        token = sign (record {
          alg = "HS256";
          claims = claims_of now ttl jti q actor required_role max_uses;
        });
        jti = jti;
        expires_at = now + ttl;
      })

module _ (payload_hash : Fields → String) (unsign : String → Option Signed) where
  unfoldable pub verify_signed_token : ℕ → String → String → Result Claims
  verify_signed_token now token audience = elim (unsign token) [
    | none ↦ err (authentication_error "token is malformed or its signature is invalid")
    | some s ↦ do
      guard (s.alg == "HS256") (authentication_error "token algorithm is not allowed")
      guard (s.claims.aud == audience) (authentication_error "token audience is invalid")
      guard (ltb now s.claims.exp) (authentication_error "token has expired")
      guard (leb s.claims.nbf (now + 5)) (authentication_error "token is not active yet")
      ok s.claims
  ]

  -- An expectation that may be left out.
  abbrev matches : Option String → String → Bool
  matches none s = true
  matches (some t) s = s == t

  bound_claims :
      Claims → String → Fields → Option String → Option String → Option String → Result Claims
  bound_claims c tool_name payload run_id plan_hash tenant_id = do
    guard (c.tool == tool_name) (authorization_error "capability does not grant this tool")
    guard (c.payload_hash == payload_hash payload)
        (authorization_error "capability payload binding is invalid")
    guard (matches run_id c.run_id) (authorization_error "capability does not grant this run")
    guard (matches plan_hash c.plan_hash) (authorization_error "capability plan binding is invalid")
    guard (matches tenant_id c.tenant_id)
        (authorization_error "capability tenant binding is invalid")
    guard (not (c.tenant_id == "")) (authorization_error "capability tenant binding is missing")
    guard (contains c.roles c.required_role || contains c.roles "admin")
        (authorization_error "capability role binding is invalid")
    ok c

  unfoldable pub verify :
      ℕ → String → String → Fields → Option String → Option String → Option String → Result Claims
  unfolding bound_claims
  verify now token tool_name payload run_id plan_hash tenant_id =
      verify_signed_token now token "harbor-tool"
      >>= (λ c. bound_claims c tool_name payload run_id plan_hash tenant_id)

module _ (payload_hash : Fields → String) (sign : Signed → String)
    (unsign : String → Option Signed) where
  -- A capability that was issued is good for its own tool and payload, run, plan and tenant until it
  -- expires, when its token reads back as it was signed and the actor is of some tenant; for
  -- another tool it is refused, however it is presented.
  pub issue-verify :
      (now ttl : ℕ) (jti : String) (q : Request) (actor : UserIdentity) (role : String)
      (uses later : ℕ) (g : CapabilityGrant)
      → unsign (
          sign (record {
            alg = "HS256";
            claims = claims_of payload_hash sign now ttl jti q actor role uses;
          }))
        ≡ some (record {
          alg = "HS256";
          claims = claims_of payload_hash sign now ttl jti q actor role uses;
        })
      → (actor.tenant_id == "") ≡ false
      → issue payload_hash sign now ttl jti q actor role uses ≡ ok g
      → now ≤ later
      → later < now + ttl
      → (verify payload_hash unsign later g.token q.tool_name q.payload
            (some q.run_id)
            (some q.plan_hash)
            (some actor.tenant_id)
          ≡ ok (claims_of payload_hash sign now ttl jti q actor role uses))
        × ((tool_name : String) (payload : Fields) (run plan tenant : Option String)
            → (q.tool_name == tool_name) ≡ false
            → verify payload_hash unsign later g.token tool_name payload run plan tenant
              ≡ err (authorization_error "capability does not grant this tool"))
  unfolding issue claims_of verify verify_signed_token require_any_role has_any_role meets contains
  issue-verify now ttl jti q actor role uses later g reads named h from until =
      let c = claims_of payload_hash sign now ttl jti q actor role uses in
      let e : g.token ≡ sign (record { alg = "HS256"; claims = c }) = ground (arith, h) in
      let r : unsign g.token ≡ some (record { alg = "HS256"; claims = c }) = ap unsign e ∙ reads in
      let held_role : contains (sorted (as_set actor.roles)) role
            || contains (sorted (as_set actor.roles)) "admin"
          ≡ true =
        ground (
          arith,
          h,
          contains-sorted role (as_set actor.roles),
          contains-as_set role actor.roles,
          contains-sorted "admin" (as_set actor.roles),
          contains-as_set "admin" actor.roles,
        ) in
      let opened : verify_signed_token payload_hash unsign later g.token "harbor-tool" ≡ ok c =
        ground (arith, r, from, until, ==_refl "HS256", ==_refl "harbor-tool") in
      (
        rw opened (
            ground (
              arith,
              named,
              ==_refl q.tool_name,
              ==_refl (payload_hash q.payload),
              ==_refl q.run_id,
              ==_refl q.plan_hash,
              ==_refl actor.tenant_id,
              held_role,
            )),
        λ t p run plan tenant ne. rw opened (ground (arith, ne)),
      )
