-- ===== src/Adapter/Examples.antt =====
-- Three step ids for which the loop of backend/app/model_adapter.py does not end, and a model that fails.
use shou_ba_shou_jiaoxue_ai.Prelude.{
  ℕ, suc, ◌≤◌, ◌<◌, String, ◌≡◌, refl, true, false, ◌&&◌, none, some, [], ◌∷◌, arith, ◌=ℕ◌, ◌==◌,
  if◌then◌else◌, contains,
}
use shou_ba_shou_jiaoxue_ai.Result.{ok, err, value_error}
use shou_ba_shou_jiaoxue_ai.Samples.{new_run}
use shou_ba_shou_jiaoxue_ai.Workflow.Engine.{Proposal}
use shou_ba_shou_jiaoxue_ai.Workflow.Checks.{remove_prefix}
use shou_ba_shou_jiaoxue_ai.Adapter.Naming.{words, cut, slug_of, next_id, next_id-ends, assign}
use shou_ba_shou_jiaoxue_ai.Adapter.Router.{
  Live, Router, Question, IsClosed, ask, reply, propose-breaks,
}

abbrev number : ℕ → String
number n = if n =ℕ 1 then "1" else if n =ℕ 2 then "2" else "3"

abbrev lower : String → String
lower s = if s == "AB" then "ab" else s

-- "ab-3" takes the name that "AB", as the third step, would fall back on.
hangs : assign number lower 50 1 [] ("ab-3" ∷ "ab" ∷ "AB" ∷ []) ≡ none
unfolding assign slug_of next_id words cut remove_prefix contains ◌==◌
hangs = refl

assigns :
    assign number lower 2 1 [] ("ab" ∷ "AB" ∷ "Scale" ∷ [])
    ≡ some ("step-ab" ∷ "step-ab-2" ∷ "step-cale" ∷ [])
unfolding assign slug_of next_id words cut remove_prefix contains ◌==◌
assigns = refl

next_id-ends_example :
    ((contains ("step-ab" ∷ "step-ab-3" ∷ []) "step-ab"
          && contains ("step-ab" ∷ "step-ab-3" ∷ []) "step-ab-3"
        ≡ true)
      → (n : ℕ) → next_id n ("step-ab" ∷ "step-ab-3" ∷ []) "step-ab-3" "step-ab" ≡ none)
    × ((contains ("step-ab" ∷ "step-ab-3" ∷ []) "step-ab"
            && contains ("step-ab" ∷ "step-ab-3" ∷ []) "step-ab-3"
          ≡ false)
        → (id : String) × (contains ("step-ab" ∷ "step-ab-3" ∷ []) id ≡ false)
          × ((n : ℕ)
              → 2 ≤ n
              → next_id n ("step-ab" ∷ "step-ab-3" ∷ []) "step-ab-3" "step-ab" ≡ some id))
next_id-ends_example = next_id-ends ("step-ab" ∷ "step-ab-3" ∷ []) "step-ab-3" "step-ab"

-- The world counts the calls of the model.
abbrev fails : Live ℕ
fails incident sources observations n = (err (value_error "not JSON"), suc n)

abbrev good : Proposal
good = record { diagnosis = "queue"; plan = []; needs_handoff = false; handoff_reason = none }

abbrev answers : Live ℕ
answers incident sources observations n = (ok good, suc n)

abbrev router : Router
router = record { breaker_seconds = 30; unavailable_until = 0 }

abbrev question : Question
question = record { incident = new_run.incident; sources = []; observations = [] }

propose-breaks_example :
    let first = ask fails 5 6 question (router, 0) in
    IsClosed first.0
    × (first.1.1 ≡ 1)
    × (20 < 36
        → IsClosed (ask answers 20 21 question (first.1.0, 1)).0
          × ((ask answers 20 21 question (first.1.0, 1)).1 ≡ (first.1.0, 1)))
    × (36 ≤ 20
        → (p : Proposal) (v : ℕ) → reply answers question 1 ≡ (ok p, v)
        → ask answers 20 21 question (first.1.0, 1) ≡ (p, (first.1.0, v)))
propose-breaks_example =
    propose-breaks fails answers 5 6 question question router 0 1 1 (value_error "not JSON") refl
      (omega arith) 20 21
