-- ===== src/Lab/Uses.antt =====
-- What a call of ops_sandbox/app.py does to the tables of the lab: nothing, or one transaction.
use shou_ba_shou_jiaoxue_ai.Prelude.{
  ℕ, ◌+◌, ◌<◌, String, ◌≡◌, refl, sym, ap, ◌∙◌, ◌⊎◌, inl, inr, Option, none, some, List, [], ◌∷◌,
  arith, ltb, ◌==◌, if◌then◌else◌, ==_iff, eq_of_==,
}
use shou_ba_shou_jiaoxue_ai.Result.{Result, ok, err, guard, >>=-eq-ok}
use shou_ba_shou_jiaoxue_ai.Store.Table.{find}
use shou_ba_shou_jiaoxue_ai.Lab.Faults.{text_at}
use shou_ba_shou_jiaoxue_ai.Lab.Memory.{Experiment, experiment_key}
use shou_ba_shou_jiaoxue_ai.Lab.Service.{
  Held, Usage, Tables, Settings, Call, Admitted, Applied, Outcome, replay, committed, admit,
  transact, first_use, replay_held, found, commit, answered, invoke_tool, uses_of, charge, held_key,
  apply_tool,
}

pub uses_of-charge :
    (k j : String) (n : ℕ) (us : List Usage)
    → uses_of k (charge j n us) ≡ (if j == k then uses_of k us + 1 else uses_of k us)
unfolding uses_of charge
uses_of-charge k j n [] = ground arith
uses_of-charge k j n (u ∷ us) =
    ground (arith, uses_of-charge k j n us, ==_iff u.jti j, ==_iff u.jti k, ==_iff j k)

-- A call whose transaction commits: its token was verified and had a use left, its key was new, and the
-- tool ran on the experiment that the input names, which is of the service that it names.
pub record IsCharged (c : Settings) (now : ℕ) (q : Call) (t t' : Tables) : Type 0 where
  pub admitted : Admitted
  pub verified : admit c now q ≡ ok admitted
  pub fresh : find held_key admitted.key t.idempotency ≡ none
  pub left : uses_of admitted.claims.jti t.usage < admitted.claims.max_uses
  pub experiment : Experiment
  pub id : String
  pub identified : text_at admitted.input "experiment_id" ≡ ok id
  pub there : find experiment_key id t.experiments ≡ some experiment
  pub at_service : text_at admitted.input "service" ≡ ok experiment.service
  pub applied : Applied
  pub by_tool :
      apply_tool q.tool_name admitted.input experiment.fault_kind experiment.state ≡ ok applied
  pub tables : t' ≡ commit c q admitted experiment applied t

-- The id of the token under which a call commits.
spent_by : Admitted → Result Outcome → Option String
spent_by a (err e) = none
spent_by a (ok (replay r)) = none
spent_by a (ok (committed r t)) = some a.claims.jti

spent_of : Settings → Call → Tables → Result Admitted → Option String
spent_of c q t (err e) = none
spent_of c q t (ok a) = spent_by a (transact c q a t)

unfoldable pub spent : Settings → ℕ → Call → Tables → Option String
unfolding spent_of spent_by
spent c now q t = spent_of c q t (admit c now q)

module _ (c : Settings) (now : ℕ) (q : Call) (t : Tables) where
  first_use-IsCharged :
      (a : Admitted) (o : Outcome)
      → admit c now q ≡ ok a
      → find held_key a.key t.idempotency ≡ none
      → first_use c q a t ≡ ok o
      → (p : IsCharged c now q t (answered c q t (ok o)).1) × (spent_by a (ok o)
          ≡ some p.admitted.claims.jti)
  unfolding first_use found spent_by
  first_use-IsCharged a o v n h =
      let (u, l, h1) =
        >>=-eq-ok (guard (ltb (uses_of a.claims.jti t.usage) a.claims.max_uses) _) _ {value = o}
          h in
      let (id, i, h2) = >>=-eq-ok (text_at a.input "experiment_id") _ {value = o} h1 in
      let (e, f, h3) = >>=-eq-ok (found (find experiment_key id t.experiments)) _ {value = o} h2 in
      let (s, g, h4) = >>=-eq-ok (text_at a.input "service") _ {value = o} h3 in
      let (w, k, h5) = >>=-eq-ok (guard (e.service == s) _) _ {value = o} h4 in
      let (r, p, h6) =
        >>=-eq-ok (apply_tool q.tool_name a.input e.fault_kind e.state) _ {value = o} h5 in
      (
        record {
          admitted = a;
          verified = v;
          fresh = n;
          left = ground (arith, l);
          experiment = e;
          id = id;
          identified = i;
          there = here (find experiment_key id t.experiments) f;
          at_service = g ∙ ap ok (sym (eq_of_== e.service s (ground (arith, k))));
          applied = r;
          by_tool = p;
          tables = ap (λ x. (answered c q t (ok x)).1) (ok_injective h6);
        },
        ap (λ x. spent_by a (ok x)) (ok_injective h6),
      )
    where
      ok_injective : {x y : Outcome} → ◌≡◌ {A = Result Outcome} (ok x) (ok y) → y ≡ x
      ok_injective h = ground (arith, h)

      here : {e : Experiment} (m : Option Experiment) → found m ≡ ok e → m ≡ some e
      here none h = ground (arith, h)
      here (some x) h = ground (arith, h)

  transact-IsCharged :
      (a : Admitted) (r : Result Outcome)
      → admit c now q ≡ ok a
      → transact c q a t ≡ r
      → (((answered c q t r).1 ≡ t) × (spent_by a r ≡ none))
        ⊎ ((p : IsCharged c now q t (answered c q t r).1) × (spent_by a r
              ≡ some p.admitted.claims.jti))
  unfolding transact replay_held spent_by
  transact-IsCharged a (err e) v h = inl (refl, refl)
  transact-IsCharged a (ok (replay r)) v h = inl (refl, refl)
  transact-IsCharged a (ok (committed r t')) v h = go (find held_key a.key t.idempotency) refl
    where
      go :
          (o : Option Held)
          → find held_key a.key t.idempotency ≡ o
          → ((t' ≡ t) × (spent_by a (ok (committed r t')) ≡ none))
            ⊎ ((p : IsCharged c now q t t') × (spent_by a (ok (committed r t'))
                  ≡ some p.admitted.claims.jti))
      go (some x) e = absurd (ground (arith, e, h))
      go none e = inr (first_use-IsCharged a (committed r t') v e (rw (e, transact) at h))

  -- A call whose transaction does not commit leaves the tables of the lab as they are; any other is
  -- charged to its token.
  pub invoke_tool-IsCharged :
      (((invoke_tool c now q t).1 ≡ t) × (spent c now q t ≡ none))
      ⊎ ((p : IsCharged c now q t (invoke_tool c now q t).1) × (spent c now q t
            ≡ some p.admitted.claims.jti))
  unfolding invoke_tool spent spent_of
  invoke_tool-IsCharged = go (admit c now q) refl
    where
      go :
          (m : Result Admitted)
          → admit c now q ≡ m
          → (((invoke_tool c now q t).1 ≡ t) × (spent c now q t ≡ none))
            ⊎ ((p : IsCharged c now q t (invoke_tool c now q t).1) × (spent c now q t
                  ≡ some p.admitted.claims.jti))
      go (err e) v = inl (rw (v, invoke_tool, spent) (refl, refl))
      go (ok a) v = rw (v, invoke_tool, spent) (transact-IsCharged a (transact c q a t) v refl)

-- Calls of any clients, one after the other.
unfoldable pub after_calls : Settings → Tables → List (ℕ × Call) → Tables
after_calls c t [] = t
after_calls c t ((now, q) ∷ qs) = after_calls c (invoke_tool c now q t).1 qs
