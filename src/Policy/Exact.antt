-- ===== src/Policy/Exact.antt =====
-- What `_has_cycle` of backend/app/policy.py decides.
use shou_ba_shou_jiaoxue_ai.Prelude.{
  suc, String, ◌≡◌, refl, ◌∙◌, ◌↔◌, ◌⊎◌, inl, inr, true, false, List, [], ◌∷◌, arith, length,
  contains,
}
use shou_ba_shou_jiaoxue_ai.Schemas.{PlanStep}
use shou_ba_shou_jiaoxue_ai.Policy.Cycle.{
  Entry, dependencies, has_key, Visit, cycle, done, out_of_fuel, visit, keys, search, is_cycle,
  has_cycle,
}
use shou_ba_shou_jiaoxue_ai.Policy.Acyclic.{
  Grounded, Cyclic, Grounded-irrefl, Reaches-key, AllReach, visit_all-Grounded, visit-Grounded,
  visit_all-Cyclic, visit-Cyclic,
}
use shou_ba_shou_jiaoxue_ai.Policy.Fuel.{fresh-bound, visit_all-fueled, visit-fueled}

module _ (d : List Entry) where
  has_key-keys : (es : List Entry) (k : String) → contains (keys es) k ≡ has_key es k
  unfolding has_key contains
  has_key-keys [] k = refl
  has_key-keys (e ∷ es) k = ground (arith, has_key-keys es k)

  -- The search always ends, by a loop or with every step grounded.
  pub search-cases :
      ((search d ≡ cycle) × Cyclic d)
      ⊎ ((is_cycle (search d) ≡ false) × ((k : String) → has_key d k ≡ true → Grounded d k))
  unfolding search is_cycle contains AllReach
  search-cases = go (search d) refl
    where
      go :
          (m : Visit)
          → search d ≡ m
          → ((search d ≡ cycle) × Cyclic d)
            ⊎ ((is_cycle (search d) ≡ false) × ((k : String) → has_key d k ≡ true → Grounded d k))
      go cycle e = inl (
        e,
        visit_all-Cyclic d (visit (suc (length d)) d []) (keys d)
            (λ w k c key. visit-Cyclic d (suc (length d)) [] w k (λ j. ground arith)) [] e,
      )
      go (done w) e = inr (
        ground (arith, e),
        λ k key.
            (visit_all-Grounded d (visit (suc (length d)) d [])
                (visit-Grounded d (suc (length d)) []) [] (keys d) w e (λ j. ground arith)).1
              k (has_key-keys d k ∙ key) key,
      )
      go out_of_fuel e = absurd (
          visit_all-fueled d (visit (suc (length d)) d []) (keys d)
            (λ w k key. visit-fueled d (suc (length d)) [] w k key (omega (arith, fresh-bound d d)))
            [] e)

-- The check for a cycle is exact, however long the chains of dependencies are: it answers yes
-- if some step of the plan depends on itself through other steps of the plan, and otherwise no, and
-- then every chain of dependencies ends.
pub has_cycle_iff :
    (plan : List PlanStep)
    → ((has_cycle plan ≡ true) ↔ Cyclic (dependencies plan))
      × (has_cycle plan ≡ false
          → (k : String) → has_key (dependencies plan) k ≡ true
          → Grounded (dependencies plan) k)
unfolding has_cycle is_cycle
has_cycle_iff plan = elim (search-cases (dependencies plan)) [
  | inl (e, loop) ↦ ((λ h. loop, λ l. ground (arith, e)), λ h. ground (arith, e))
  | inr (e, ends) ↦ (
    (
      λ h. absurd (ground (arith, e, h)),
      λ l. absurd (Grounded-irrefl (ends l.0 (Reaches-key l.1)) l.1),
    ),
    λ h. ends,
  )
]
