-- ===== src/Adapter/Router.antt =====
-- `ResilientModelRouter` and `SafeDisabledModelAdapter` of backend/app/model_adapter.py. The live adapter
-- calls a language model: what it returns or raises, and what that makes of the world of the model, is a
-- parameter. Times are as the router reads them.
use shou_ba_shou_jiaoxue_ai.Prelude.{
  ℕ, ◌+◌, ◌≤◌, ◌<◌, String, ◌≡◌, refl, ap, ◌∙◌, true, false, some, List, [], arith, ltb,
  if◌then◌else◌,
}
use shou_ba_shou_jiaoxue_ai.Schemas.{Incident, SourceHit, Observation}
use shou_ba_shou_jiaoxue_ai.Result.{Error, Result, ok, err}
use shou_ba_shou_jiaoxue_ai.Workflow.Engine.{Proposal}

-- `propose` of the live adapter.
abbrev pub Live : Type 0 → Type 0
Live W = Incident → List SourceHit → List Observation → W → Result Proposal × W

pub record Router : Type 0 where
  pub breaker_seconds : ℕ
  pub unavailable_until : ℕ

abbrev pub closed_proposal : String → String → Proposal
closed_proposal diagnosis reason = record {
  diagnosis = diagnosis;
  plan = [];
  needs_handoff = true;
  handoff_reason = some reason;
}

-- `SafeDisabledModelAdapter.propose`
unfoldable pub propose_disabled : String → Proposal
propose_disabled reason = closed_proposal "本地模型不可用；系统拒绝用预设答案替代模型判断。" reason

-- `_failure`
unfoldable pub failure : String → Proposal
failure reason = closed_proposal "本地模型调用失败；系统已关闭写动作并请求人工接管。" reason

-- The time is read again when the live call has failed.
answered : {W : Type 0} → ℕ → Router → Result Proposal × W → Proposal × (Router × W)
answered later r (ok p, w) = (p, (r, w))
answered later r (err e, w) = (
  failure "local structured-output call failed validation or transport",
  (record r { unavailable_until = later + r.breaker_seconds }, w),
)

-- `ResilientModelRouter.propose`
unfoldable pub propose :
    {W : Type 0}
    → Live W
    → ℕ
    → ℕ
    → Incident
    → List SourceHit
    → List Observation
    → Router × W
    → Proposal × (Router × W)
unfolding answered
propose live now later incident sources observations (r, w) =
    if ltb now r.unavailable_until
    then (failure "local model circuit breaker is open", (r, w))
    else answered later r (live incident sources observations w)

-- A proposal without a plan that asks for a human.
abbrev pub IsClosed : Proposal → Type 0
IsClosed p = (p.plan ≡ []) × (p.needs_handoff ≡ true)

-- What the router is asked.
pub record Question : Type 0 where
  pub incident : Incident
  pub sources : List SourceHit
  pub observations : List Observation

abbrev pub ask : {W : Type 0} → Live W → ℕ → ℕ → Question → Router × W → Proposal × (Router × W)
ask live now later q s = propose live now later q.incident q.sources q.observations s

abbrev pub reply : {W : Type 0} → Live W → Question → W → Result Proposal × W
reply live q w = live q.incident q.sources q.observations w

module _ {W : Type 0} (live : Live W) (now later : ℕ) (q : Question) (r : Router) (w : W) where
  -- While the breaker is open.
  propose-open :
      now < r.unavailable_until
      → ask live now later q (r, w) ≡ (failure "local model circuit breaker is open", (r, w))
  unfolding propose
  propose-open l =
      let h : ltb now r.unavailable_until ≡ true = ground (arith, l) in rw (h, propose) refl

  propose-shut :
      r.unavailable_until ≤ now → ask live now later q (r, w) ≡ answered later r (reply live q w)
  unfolding propose
  propose-shut l =
      let h : ltb now r.unavailable_until ≡ false = ground (arith, l) in rw (h, propose) refl

-- When the live adapter raises, the router answers with a proposal that hands the run over without a
-- plan. After that, for the time of the breaker, it answers any question so, whatever the adapter and
-- its world are by then, and leaves the world as it is, for it does not call the adapter; when the time is
-- over, it calls the adapter, and the answer goes through.
pub propose-breaks :
    {W : Type 0} (live live' : Live W) (now later : ℕ) (q q' : Question) (r : Router) (w w' v : W)
    (e : Error)
    → reply live q w ≡ (err e, w')
    → r.unavailable_until ≤ now
    → (t t' : ℕ)
    → let first = ask live now later q (r, w) in
      IsClosed first.0
      × (first.1.1 ≡ w')
      × (t < later + r.breaker_seconds
          → IsClosed (ask live' t t' q' (first.1.0, v)).0
            × ((ask live' t t' q' (first.1.0, v)).1 ≡ (first.1.0, v)))
      × (later + r.breaker_seconds ≤ t
          → (p : Proposal) (v' : W) → reply live' q' v ≡ (ok p, v')
          → ask live' t t' q' (first.1.0, v) ≡ (p, (first.1.0, v')))
unfolding answered failure
propose-breaks live live' now later q q' r w w' v e h n t t' =
    let r' : Router = record r { unavailable_until = later + r.breaker_seconds } in
    let first : ask live now later q (r, w)
        ≡ (failure "local structured-output call failed validation or transport", (r', w')) =
      propose-shut live now later q r w n ∙ ap (answered later r) h in
    rw first (
      (refl, refl),
      refl,
      (λ l. rw (propose-open live' t t' q' r' v l) ((refl, refl), refl)),
      λ l p v' a. propose-shut live' t t' q' r' v l ∙ ap (answered t' r') a,
    )
