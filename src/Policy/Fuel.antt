-- ===== src/Policy/Fuel.antt =====
-- The depth-first search of backend/app/policy.py ends within its fuel.
use shou_ba_shou_jiaoxue_ai.Prelude.{
  ℕ, zero, suc, ◌≤◌, ◌<◌, String, ◌≡◌, refl, ◌≢◌, inl, inr, true, false, List, [], ◌∷◌, arith,
  if◌then◌else◌, ==_iff, Bool-cases, length, contains,
}
use shou_ba_shou_jiaoxue_ai.Policy.Cycle.{
  Entry, has_key, needs_of, Visit, cycle, done, out_of_fuel, visit, visit_all,
}

module _ (d : List Entry) where
  -- The steps that are not on the path.
  unfoldable pub fresh : List Entry → List String → ℕ
  fresh [] visiting = 0
  fresh (e ∷ es) visiting =
      let rest = fresh es visiting in if contains visiting e.id then rest else suc rest

  fresh-less :
      (es : List Entry) (x : String) (visiting : List String)
      → (fresh es (x ∷ visiting) ≤ fresh es visiting)
        × (has_key es x ≡ true
            → contains visiting x ≡ false
            → fresh es (x ∷ visiting) < fresh es visiting)
  unfolding fresh contains has_key
  fresh-less [] x visiting = (ground arith, λ h. ground arith)
  fresh-less (e ∷ es) x visiting =
      let (l, s) = fresh-less es x visiting in
      (ground (arith, l), λ h new. ground (arith, l, s, ==_iff x e.id, ==_iff e.id x))

  pub fresh-bound : (es : List Entry) → fresh es [] ≤ length es
  unfolding fresh contains
  fresh-bound [] = ground arith
  fresh-bound (e ∷ es) = ground (arith, fresh-bound es)

  pub visit_all-fueled :
      (f : List String → String → Visit) (ks : List String)
      → ((visited : List String) (k : String) → has_key d k ≡ true → f visited k ≢ out_of_fuel)
      → (visited : List String) → visit_all d f visited ks ≢ out_of_fuel
  unfolding visit_all
  visit_all-fueled f [] ends visited h = ground arith
  visit_all-fueled f (k ∷ ks) ends visited h = elim (Bool-cases (has_key d k)) [
    | inr outside ↦ visit_all-fueled f ks ends visited (ground (arith, outside, h))
    | inl known ↦ go (f visited k) refl known (λ w. visit_all-fueled f ks ends w)
  ]
    where
      go :
          (m : Visit)
          → f visited k ≡ m
          → has_key d k ≡ true
          → ((w : List String) → visit_all d f w ks ≢ out_of_fuel)
          → ⊥
      go cycle e known rest = ground (arith, e, known, h)
      go out_of_fuel e known rest = ends visited k known e
      go (done w) e known rest = rest w (ground (arith, e, known, h))

  -- Fuel beyond the number of steps off the path is enough.
  pub visit-fueled :
      (n : ℕ) (visiting visited : List String) (x : String)
      → has_key d x ≡ true
      → fresh d visiting < n
      → visit n d visiting visited x ≢ out_of_fuel
  unfolding visit
  visit-fueled zero visiting visited x key l h = omega (arith, l)
  visit-fueled (suc n) visiting visited x key l h = elim (Bool-cases (contains visiting x)) [
    | inl loop ↦ ground arith
    | inr new ↦
        visit_all-fueled (visit n d (x ∷ visiting)) (needs_of d x)
          (λ w k known.
            visit-fueled n (x ∷ visiting) w k known
              (omega (arith, (fresh-less d x visiting).1 key new, l)))
          visited (ground arith)
  ]
