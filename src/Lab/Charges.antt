-- ===== src/Lab/Charges.antt =====
-- How often a capability may change the lab of ops_sandbox/app.py, and what a change is.
use shou_ba_shou_jiaoxue_ai.Prelude.{
  ℕ, suc, ◌+◌, ◌≤◌, ◌<◌, String, ◌≡◌, refl, sym, ap, ◌∙◌, subst, ◌⊎◌, inl, inr, false, none, some,
  List, [], ◌∷◌, arith, ◌==◌, if◌then◌else◌, ==_iff, eq_of_==, ==_refl, Bool-cases, is_text,
}
use shou_ba_shou_jiaoxue_ai.Result.{ok}
use shou_ba_shou_jiaoxue_ai.Store.Table.{find, update_where}
use shou_ba_shou_jiaoxue_ai.Store.Table.Laws.{find-insert, find-key}
use shou_ba_shou_jiaoxue_ai.Lab.Faults.{text_at}
use shou_ba_shou_jiaoxue_ai.Lab.Memory.{Experiment, experiment_key, replaced}
use shou_ba_shou_jiaoxue_ai.Lab.Service.{
  Held, Tables, Settings, Call, Admitted, Applied, admit, commit, invoke_tool, uses_of, held_key,
  apply_tool,
}
use shou_ba_shou_jiaoxue_ai.Lab.Uses.{
  IsCharged, invoke_tool-IsCharged, after_calls, spent, uses_of-charge,
}

-- What a call that commits does: its token was verified for the tool, the input and the tenant and had a
-- use left, and its key was new; the tool ran on the experiment that the input names, of the service that
-- it names. After it that experiment has the state that the tool left and its effects counted, the key
-- has the answer, the token has one use more, and nothing else has changed.
pub record IsCommitted (c : Settings) (now : ℕ) (q : Call) (t t' : Tables) : Type 0 where
  pub admitted : Admitted
  pub verified : admit c now q ≡ ok admitted
  pub fresh : find held_key admitted.key t.idempotency ≡ none
  pub left : uses_of admitted.claims.jti t.usage < admitted.claims.max_uses
  pub experiment : Experiment
  pub id : String
  pub identified : text_at admitted.input "experiment_id" ≡ ok id
  pub there : find experiment_key id t.experiments ≡ some experiment
  pub at_service : text_at admitted.input "service" ≡ ok experiment.service
  pub applied : Applied
  pub by_tool :
      apply_tool q.tool_name admitted.input experiment.fault_kind experiment.state ≡ ok applied
  pub written : Experiment
  pub stated : written.state ≡ applied.state
  pub effected : written.effects ≡ experiment.effects + applied.effect_delta
  pub same_service : written.service ≡ experiment.service
  pub same_fault : written.fault_kind ≡ experiment.fault_kind
  pub experiments :
      (k : String)
      → find experiment_key k t'.experiments
        ≡ (if id == k then some written else find experiment_key k t.experiments)
  pub held : Held
  pub answered : held.response ≡ applied.response
  pub hashed : held.payload_hash ≡ c.payload_hash admitted.input
  pub for_tool : held.tool_name ≡ q.tool_name
  pub kept :
      (k : String)
      → find held_key k t'.idempotency
        ≡ (if admitted.key == k then some held else find held_key k t.idempotency)
  pub counted :
      (j : String)
      → uses_of j t'.usage
        ≡ (if admitted.claims.jti == j then uses_of j t.usage + 1 else uses_of j t.usage)

replaced-other :
    (e : Experiment) (es : List Experiment) (k : String)
    → (e.id == k) ≡ false
    → find experiment_key k (replaced e es) ≡ find experiment_key k es
unfolding find update_where
replaced-other e [] k n = refl
replaced-other e (x ∷ es) k n =
    ground (arith, replaced-other e es k n, n, ==_iff x.id e.id, ==_iff x.id k, ==_iff e.id k)

replaced-own :
    (e e' : Experiment) (es : List Experiment)
    → find experiment_key e'.id es ≡ some e
    → find experiment_key e'.id (replaced e' es) ≡ some e'
unfolding find update_where
replaced-own e e' [] h = ground (arith, h)
replaced-own e e' (x ∷ es) h = elim (Bool-cases (x.id == e'.id)) [
  | inl y ↦ ground (arith, y, ==_refl e'.id)
  | inr n ↦ ground (arith, n, replaced-own e e' es (ground (arith, h, n)))
]

replaced-found :
    (id : String) (e e' : Experiment) (es : List Experiment)
    → find experiment_key id es ≡ some e
    → e'.id ≡ id
    → (k : String)
    → find experiment_key k (replaced e' es)
      ≡ (if id == k then some e' else find experiment_key k es)
replaced-found id e e' es h same k = elim (Bool-cases (id == k)) [
  | inr n ↦ rw n (replaced-other e' es k (ap (λ x. x == k) same ∙ n))
  | inl y ↦
      let at_k : e'.id ≡ k = same ∙ eq_of_== id k y in
      rw y (
        subst (λ j. find experiment_key j (replaced e' es) ≡ some e') at_k
          (replaced-own e e' es (ap (λ j. find experiment_key j es) same ∙ h)))
]

IsCharged-IsCommitted :
    (c : Settings) (now : ℕ) (q : Call) (t t' : Tables) (p : IsCharged c now q t t')
    → (m : IsCommitted c now q t t') × (m.admitted ≡ p.admitted)
unfolding commit
IsCharged-IsCommitted c now q t t' p =
    let w : Experiment = record p.experiment {
      state = p.applied.state;
      effects = p.experiment.effects + p.applied.effect_delta;
    } in
    let h : Held = record {
      key = p.admitted.key;
      payload_hash = c.payload_hash p.admitted.input;
      tool_name = q.tool_name;
      response = p.applied.response;
    } in
    (
      record {
        admitted = p.admitted;
        verified = p.verified;
        fresh = p.fresh;
        left = p.left;
        experiment = p.experiment;
        id = p.id;
        identified = p.identified;
        there = p.there;
        at_service = p.at_service;
        applied = p.applied;
        by_tool = p.by_tool;
        written = w;
        stated = refl;
        effected = refl;
        same_service = refl;
        same_fault = refl;
        experiments = λ k.
            ap (λ (x : Tables). find experiment_key k x.experiments) p.tables
            ∙ replaced-found p.id p.experiment w t.experiments p.there
                (find-key experiment_key p.id t.experiments {r = p.experiment} p.there) k;
        held = h;
        answered = refl;
        hashed = refl;
        for_tool = refl;
        kept = λ k.
            ap (λ (x : Tables). find held_key k x.idempotency) p.tables
            ∙ ground
                (arith, p.fresh, find-insert held_key k h t.idempotency, eq_of_== p.admitted.key k);
        counted = λ j.
            ap (λ (x : Tables). uses_of j x.usage) p.tables
            ∙ uses_of-charge j p.admitted.claims.jti p.admitted.claims.max_uses t.usage;
      },
      refl,
    )

-- A call leaves the tables of the lab as they are, whatever it returns or raises, or it commits. Then its
-- token was verified for the tool, the input and the tenant and had a use left, and its key was new; the
-- experiment that the input names, of the service that it names, has the state that the tool left and its
-- effects counted, the key has the answer, the token has one use more, and nothing else has changed.
pub invoke_tool-IsCommitted :
    (c : Settings) (now : ℕ) (q : Call) (t : Tables)
    → (((invoke_tool c now q t).1 ≡ t) × (spent c now q t ≡ none))
      ⊎ ((m : IsCommitted c now q t (invoke_tool c now q t).1) × (spent c now q t
            ≡ some m.admitted.claims.jti))
invoke_tool-IsCommitted c now q t = elim (invoke_tool-IsCharged c now q t) [
  | inl same ↦ inl same
  | inr (p, s) ↦
      let (m, e) = IsCharged-IsCommitted c now q t (invoke_tool c now q t).1 p in
      inr (m, s ∙ ap (λ (a : Admitted). some a.claims.jti) (sym e))
]

-- How many calls commit under tokens with this id.
unfoldable pub changes : Settings → String → Tables → List (ℕ × Call) → ℕ
changes c jti t [] = 0
changes c jti t ((now, q) ∷ qs) =
    let rest = changes c jti (invoke_tool c now q t).1 qs in
    if is_text (spent c now q t) jti then suc rest else rest

-- Each verified token with this id is for at most n uses.
abbrev pub Allows : Settings → String → ℕ → List (ℕ × Call) → Type 0
Allows c jti n [] = Unit
Allows c jti n ((now, q) ∷ qs) =
    ((a : Admitted) → admit c now q ≡ ok a → a.claims.jti ≡ jti → a.claims.max_uses ≤ n)
    × Allows c jti n qs

-- One call, seen from one token.
invoke_tool-uses :
    (c : Settings) (now : ℕ) (q : Call) (t : Tables) (jti : String) (n : ℕ)
    → ((a : Admitted) → admit c now q ≡ ok a → a.claims.jti ≡ jti → a.claims.max_uses ≤ n)
    → uses_of jti t.usage ≤ n
    → (uses_of jti (invoke_tool c now q t).1.usage
        ≡ (if is_text (spent c now q t) jti then uses_of jti t.usage + 1 else uses_of jti t.usage))
      × (uses_of jti (invoke_tool c now q t).1.usage ≤ n)
unfolding is_text
invoke_tool-uses c now q t jti n allows h = elim (invoke_tool-IsCommitted c now q t) [
  | inl (same, s) ↦ rw (s, same) (refl, h)
  | inr (m, s) ↦ elim (Bool-cases (m.admitted.claims.jti == jti)) [
    | inr n' ↦ rw s (ground (arith, m.counted jti, n'), ground (arith, m.counted jti, n', h))
    | inl y ↦
        let same = eq_of_== m.admitted.claims.jti jti y in
        let bound = allows m.admitted m.verified same in
        let left : uses_of jti t.usage < m.admitted.claims.max_uses =
          subst (λ k. uses_of k t.usage < m.admitted.claims.max_uses) same m.left in
        rw s (ground (arith, m.counted jti, y), ground (arith, m.counted jti, y, bound, left))
  ]
]

-- A capability for n uses changes the lab at most n times: whatever calls any clients make, at whatever
-- times, those that commit under a token with its id number at most n, the uses already counted
-- included, and its count of uses tells how many they are, when each token with its id that the service
-- accepts is for at most n uses.
pub after_calls-bound :
    (c : Settings) (t : Tables) (jti : String) (n : ℕ) (qs : List (ℕ × Call))
    → Allows c jti n qs
    → uses_of jti t.usage ≤ n
    → (uses_of jti t.usage + changes c jti t qs ≤ n)
      × (uses_of jti (after_calls c t qs).usage ≡ uses_of jti t.usage + changes c jti t qs)
unfolding after_calls changes
after_calls-bound c t jti n [] a h = (omega (arith, h), omega arith)
after_calls-bound c t jti n ((now, q) ∷ qs) a h =
    let (count, bound) = invoke_tool-uses c now q t jti n a.0 h in
    let rest = after_calls-bound c (invoke_tool c now q t).1 jti n qs a.1 bound in
    (ground (arith, count, rest), ground (arith, count, rest))
