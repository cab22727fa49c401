-- ===== src/Security/Session.antt =====
-- `AuthService` and the demo accounts of backend/app/security.py. The digest of a password, the signature
-- of a token and Python's `lower` are parameters. Times are whole seconds since the epoch.
use shou_ba_shou_jiaoxue_ai.Prelude.{
  ℕ, ◌+◌, ◌*◌, ◌≤◌, ◌<◌, String, ◌≡◌, refl, sym, ap, ◌∙◌, inl, inr, Bool, true, false, not, Option,
  none, some, List, [], ◌∷◌, arith, ltb, leb, ◌==◌, eq_of_==, ==_refl, Bool-cases,
}
use shou_ba_shou_jiaoxue_ai.Schemas.{UserIdentity}
use shou_ba_shou_jiaoxue_ai.Result.{Result, ok, err, guard, ◌>>=◌, ◌>>◌, authentication_error}
use shou_ba_shou_jiaoxue_ai.Texts.{sorted, as_set}
use shou_ba_shou_jiaoxue_ai.Store.Table.{find}

abbrev pub account : String → String → List String → String → UserIdentity
account username display_name roles tenant_id = record {
  username = username;
  display_name = display_name;
  roles = roles;
  tenant_id = tenant_id;
}

-- DEMO_ACCOUNTS
unfoldable pub demo_accounts : List UserIdentity
demo_accounts =
    account "viewer@harbor.local" "只读观察员" ("observer" ∷ []) "xm-ops"
    ∷ account "operator@harbor.local" "值班操作员" ("observer" ∷ "operator" ∷ []) "xm-ops"
    ∷ account "lead@harbor.local" "值班负责人" ("observer" ∷ "operator" ∷ "on-call-lead" ∷ []) "xm-ops"
    ∷ account "security@harbor.local" "安全值班" ("observer" ∷ "operator" ∷ "security-on-call" ∷ [])
        "xm-ops"
    ∷ account "approver@harbor.local" "独立变更审批人"
        ("observer" ∷ "operator" ∷ "on-call-lead" ∷ "security-on-call" ∷ []) "xm-ops"
    ∷ account "other@harbor.local" "其他租户观察员" ("observer" ∷ []) "other-tenant"
    ∷ account "admin@harbor.local" "平台管理员"
        ("observer" ∷ "operator" ∷ "on-call-lead" ∷ "security-on-call" ∷ "admin" ∷ []) "xm-ops"
    ∷ []

-- The claims of a session, without `iat` and `jti`, which nothing reads.
pub record SessionClaims : Type 0 where
  pub aud : String
  pub sub : String
  pub name : String
  pub roles : List String
  pub tenant_id : String
  pub nbf : ℕ
  pub exp : ℕ

pub record SignedSession : Type 0 where
  pub alg : String
  pub claims : SessionClaims

pub record AuthResponse : Type 0 where
  pub access_token : String
  pub expires_at : ℕ
  pub user : UserIdentity

-- `digest` is `_password_digest`, `sign` is `_sign` with the service's secret; `unsign` reads a token
-- back when its signature is right.
pub record AuthService : Type 0 where
  pub lower : String → String
  pub digest : String → String → String
  pub sign : SignedSession → String
  pub unsign : String → Option SignedSession
  pub demo_password : String
  pub ttl_minutes : ℕ

module _ (s : AuthService) where
  unfoldable pub session_claims : ℕ → UserIdentity → SessionClaims
  session_claims now user = record {
    aud = "harbor-api";
    sub = user.username;
    name = user.display_name;
    roles = sorted (as_set user.roles);
    tenant_id = user.tenant_id;
    nbf = now;
    exp = now + s.ttl_minutes * 60;
  }

  -- `issue`
  unfoldable pub issue_session : ℕ → UserIdentity → AuthResponse
  issue_session now user = record {
    access_token = s.sign (record { alg = "HS256"; claims = session_claims now user });
    expires_at = now + s.ttl_minutes * 60;
    user = user;
  }

  admitted : ℕ → Option UserIdentity → Bool → Result AuthResponse
  admitted now (some user) true = ok (issue_session now user)
  admitted now _ _ = err (authentication_error "username or password is invalid")

  abbrev pub username_of : UserIdentity → String
  username_of u = u.username

  unfoldable pub authenticate : ℕ → String → String → Result AuthResponse
  unfolding admitted
  authenticate now username password =
      let name = s.lower username in
      admitted now (find username_of name demo_accounts)
        (s.digest name password == s.digest name s.demo_password)

  opened : ℕ → Option SignedSession → Result SessionClaims
  opened now none = err (authentication_error "token is malformed or its signature is invalid")
  opened now (some t) = do
    guard (t.alg == "HS256") (authentication_error "token algorithm is not allowed")
    guard (t.claims.aud == "harbor-api") (authentication_error "token audience is invalid")
    guard (ltb now t.claims.exp) (authentication_error "token has expired")
    guard (leb t.claims.nbf (now + 5)) (authentication_error "token is not active yet")
    ok t.claims

  -- `verify`
  unfoldable pub verify_session : ℕ → String → Result UserIdentity
  unfolding opened
  verify_session now token = do
    c ← opened now (s.unsign token)
    guard (not (c.tenant_id == "")) (authentication_error "token tenant is invalid")
    ok (record {
      username = c.sub;
      display_name = c.name;
      roles = c.roles;
      tenant_id = c.tenant_id;
    })

  abbrev AllTenants : List UserIdentity → Type 0
  AllTenants [] = Unit
  AllTenants (u ∷ us) = ((u.tenant_id == "") ≡ false) × AllTenants us

  find-tenant :
      (name : String) (us : List UserIdentity) {u : UserIdentity}
      → AllTenants us
      → find username_of name us ≡ some u
      → (u.tenant_id == "") ≡ false
  unfolding find
  find-tenant name [] a h = ground (arith, h)
  find-tenant name (x ∷ us) {u} a h = elim (Bool-cases (x.username == name)) [
    | inl y ↦ ground (arith, h, y, a.0)
    | inr n ↦ find-tenant name us {u = u} a.1 (ground (arith, h, n))
  ]

  accounts-AllTenants : AllTenants demo_accounts
  unfolding demo_accounts ◌==◌
  accounts-AllTenants = (refl, (refl, (refl, (refl, (refl, (refl, (refl, tt)))))))

  -- Who was let in: a demo account under the name in lower case, with the demo password's digest.
  pub record IsEntitled (username supplied : String) (user : UserIdentity) : Type 0 where
    pub known : find username_of (s.lower username) demo_accounts ≡ some user
    pub password :
        s.digest (s.lower username) supplied ≡ s.digest (s.lower username) s.demo_password

  authenticate-IsEntitled :
      (now : ℕ) (username password : String) (r : AuthResponse)
      → authenticate now username password ≡ ok r
      → IsEntitled username password r.user × (r ≡ issue_session now r.user)
  unfolding authenticate issue_session
  authenticate-IsEntitled now username password r h =
      go (find username_of (s.lower username) demo_accounts) refl
        (s.digest (s.lower username) password == s.digest (s.lower username) s.demo_password) refl
    where
      go :
          (o : Option UserIdentity)
          → find username_of (s.lower username) demo_accounts ≡ o
          → (b : Bool)
          → (s.digest (s.lower username) password == s.digest (s.lower username) s.demo_password)
            ≡ b
          → IsEntitled username password r.user × (r ≡ issue_session now r.user)
      go none f b d = ground (arith, h, f)
      go (some u) f false d = ground (arith, h, f, d)
      go (some u) f true d =
          let e : issue_session now u ≡ r = ground (arith, h, f, d) in
          (
            record {
              known = f ∙ ap (λ (x : AuthResponse). some x.user) e;
              password =
                  eq_of_== (s.digest (s.lower username) password)
                    (s.digest (s.lower username) s.demo_password) d;
            },
            sym e ∙ ap (λ (x : AuthResponse). issue_session now x.user) e,
          )

  -- Who logs in has a demo account and its password. When the token reads back as it was signed, it gives
  -- the same user back, with the roles as a sorted set, until the session expires; from then on it is
  -- refused.
  pub authenticate-verify_session :
      (now later : ℕ) (username password : String) (r : AuthResponse)
      → authenticate now username password ≡ ok r
      → s.unsign r.access_token
        ≡ some (record { alg = "HS256"; claims = session_claims now r.user })
      → now ≤ later
      → IsEntitled username password r.user
        × (later < r.expires_at
            → verify_session later r.access_token
              ≡ ok (record r.user { roles = sorted (as_set r.user.roles) }))
        × (r.expires_at ≤ later
            → verify_session later r.access_token ≡ err (authentication_error "token has expired"))
  unfolding verify_session session_claims issue_session
  authenticate-verify_session now later username password r h reads from =
      let (entitled, e) = authenticate-IsEntitled now username password r h in
      let until : r.expires_at ≡ now + s.ttl_minutes * 60 =
        ap (λ (x : AuthResponse). x.expires_at) e in
      let named =
        find-tenant (s.lower username) demo_accounts {u = r.user} accounts-AllTenants
          entitled.known in
      (
        entitled,
        (λ l.
            rw (reads, verify_session)
              (ground (arith, l, from, until, named, ==_refl "HS256", ==_refl "harbor-api"))),
        λ l.
            rw (reads, verify_session)
              (ground (arith, l, from, until, ==_refl "HS256", ==_refl "harbor-api")),
      )
