-- ===== src/Workflow/Total.antt =====
-- `_topological` of backend/app/agent.py always finds an order for a plan that the compiler accepts.
use shou_ba_shou_jiaoxue_ai.Prelude.{
  ℕ, zero, suc, ◌≤◌, ◌<◌, String, ◌≡◌, refl, sym, ap, ◌∙◌, subst, ◌⊎◌, inl, inr, true, false, not,
  ◌&&◌, ◌||◌, List, [], ◌∷◌, ◌++◌, arith, ◌==◌, ==_iff, eq_of_==, ==_refl, Bool-cases, length,
  contains,
}
use shou_ba_shou_jiaoxue_ai.Schemas.{PlanStep}
use shou_ba_shou_jiaoxue_ai.Result.{ok}
use shou_ba_shou_jiaoxue_ai.Texts.{contains-sorted}
use shou_ba_shou_jiaoxue_ai.Policy.Cycle.{Entry, dependencies, has_key, needs_of, has_cycle}
use shou_ba_shou_jiaoxue_ai.Policy.Acyclic.{Grounded, grounded, Edge}
use shou_ba_shou_jiaoxue_ai.Policy.Exact.{has_cycle_iff}
use shou_ba_shou_jiaoxue_ai.Workflow.Topological.{
  release, release_all, free, ready, rounds, topological, steps_of,
}
use shou_ba_shou_jiaoxue_ai.Workflow.Ordered.{contains-discard}
use shou_ba_shou_jiaoxue_ai.Workflow.Complete.{
  has_key-release, AllFound, distinct-AllFound, enter-KeysDistinct,
}

length-release :
    (x : String) (p : List Entry)
    → (length (release x p) ≤ length p) × (has_key p x ≡ true → length (release x p) < length p)
unfolding release has_key
length-release x [] = (omega arith, λ h. ground arith)
length-release x (e ∷ p) =
    let (l, s) = length-release x p in (ground (arith, l), λ h. ground (arith, l, s))

length-release_all : (xs : List String) (p : List Entry) → length (release_all xs p) ≤ length p
unfolding release_all
length-release_all [] p = omega arith
length-release_all (x ∷ xs) p =
    omega (arith, length-release_all xs (release x p), (length-release x p).0)

free-key : (p : List Entry) (k : String) → contains (free p) k ≡ true → has_key p k ≡ true
unfolding free has_key contains
free-key [] k h = ground arith
free-key (e ∷ p) k h = go e.needs refl (free-key p k)
  where
    go :
        (ns : List String)
        → e.needs ≡ ns
        → (contains (free p) k ≡ true → has_key p k ≡ true)
        → (e.id == k) || has_key p k ≡ true
    go [] n rec = ground (arith, n, h, rec)
    go (z ∷ zs) n rec = ground (arith, n, h, rec)

module _ (d : List Entry) where
  -- What an entry still waits for is pending, and is a dependency in the plan.
  Waits : List Entry → Entry → Type 0
  Waits q e = (y : String) → contains e.needs y ≡ true → (has_key q y ≡ true) × Edge d e.id y

  AllWait : List Entry → List Entry → Type 0
  AllWait q [] = Unit
  AllWait q (e ∷ p) = Waits q e × AllWait q p

  release-AllWait :
      (x : String) (q p : List Entry) → AllWait q p → AllWait (release x q) (release x p)
  unfolding AllWait Waits release
  release-AllWait x q [] a = tt
  release-AllWait x q (e ∷ p) a = elim (Bool-cases (e.id == x)) [
    | inl s ↦ rw (s, release) (release-AllWait x q p a.1)
    | inr s ↦
        rw (s, release)
          (
            (λ y h.
                let now : contains e.needs y && not (x == y) ≡ true =
                  sym (contains-discard x y e.needs) ∙ h in
                let (key, edge) = a.0 y (ground (arith, now)) in
                (ground (arith, has_key-release x y q, key, now), edge)),
            release-AllWait x q p a.1,
          )
  ]

  release_all-AllWait :
      (xs : List String) (p : List Entry)
      → AllWait p p
      → AllWait (release_all xs p) (release_all xs p)
  unfolding release_all
  release_all-AllWait [] p a = a
  release_all-AllWait (x ∷ xs) p a = release_all-AllWait xs (release x p) (release-AllWait x p p a)

  -- A pending step is free, or waits for a step that it depends on and that is pending too.
  free-or-waits :
      (q p : List Entry) (k : String)
      → AllWait q p
      → has_key p k ≡ true
      → (contains (free p) k ≡ true) ⊎ ((y : String) × (has_key q y ≡ true) × Edge d k y)
  unfolding AllWait Waits has_key free contains
  free-or-waits q [] k a h = ground arith
  free-or-waits q (e ∷ p) k a h = elim (Bool-cases (e.id == k)) [
    | inr other ↦ later e.needs refl (free-or-waits q p k a.1 (ground (arith, other)))
    | inl same ↦ here e.needs refl (eq_of_== e.id k same)
  ]
    where
      Goal : Type 0
      Goal = (contains (free (e ∷ p)) k ≡ true) ⊎ ((y : String) × (has_key q y ≡ true) × Edge d k y)

      later :
          (ns : List String)
          → e.needs ≡ ns
          → (contains (free p) k ≡ true) ⊎ ((y : String) × (has_key q y ≡ true) × Edge d k y)
          → Goal
      later ns n (inr w) = inr w
      later [] n (inl f) = inl (ground (arith, n, f))
      later (z ∷ zs) n (inl f) = inl (ground (arith, n, f))

      here : (ns : List String) → e.needs ≡ ns → e.id ≡ k → Goal
      here [] n same = inl (ground (arith, n, ==_iff e.id k, same))
      here (z ∷ zs) n same =
          let (key, edge) = a.0 z (ground (arith, n, ==_refl z)) in
          inr (z, key, subst (λ i. Edge d i z) same edge)

  free-exists :
      (p : List Entry) {k : String}
      → AllWait p p
      → Grounded d k
      → has_key p k ≡ true
      → (x : String) × (contains (free p) x ≡ true)
  free-exists p {k} a (grounded g) h = elim (free-or-waits p p k a h) [
    | inl f ↦ (k, f)
    | inr (y, key, edge) ↦ free-exists p a (g y edge) key
  ]

  AllGround : List Entry → Type 0
  AllGround p = (k : String) → has_key p k ≡ true → Grounded d k

  release_all-AllGround :
      (xs : List String) (p : List Entry) → AllGround p → AllGround (release_all xs p)
  unfolding AllGround release_all
  release_all-AllGround [] p g = g
  release_all-AllGround (x ∷ xs) p g =
      release_all-AllGround xs (release x p) (λ k h. g k (ground (arith, has_key-release x k p)))

  rounds-ok :
      (n : ℕ) (p : List Entry)
      → length p ≤ n
      → AllWait p p
      → AllGround p
      → (ids : List String) × (rounds n p ≡ ok ids)
  unfolding rounds has_key AllGround contains ready release_all
  rounds-ok n [] l a g = ([], refl)
  rounds-ok zero (e ∷ p) l a g = absurd (omega (arith, l))
  rounds-ok (suc n) (e ∷ p) l a g =
      let (x, f) =
        free-exists (e ∷ p) a (g e.id (ground (arith, ==_refl e.id)))
          (ground (arith, ==_refl e.id)) in
      go (ready (e ∷ p)) refl x (contains-sorted x (free (e ∷ p)) ∙ f) (λ q m.
        rounds-ok n (release_all q (e ∷ p)) m (release_all-AllWait q (e ∷ p) a)
          (release_all-AllGround q (e ∷ p) g))
    where
      go :
          (q : List String)
          → ready (e ∷ p) ≡ q
          → (x : String) → contains (ready (e ∷ p)) x ≡ true
          → ((q : List String)
              → length (release_all q (e ∷ p)) ≤ n
              → (ids : List String) × (rounds n (release_all q (e ∷ p)) ≡ ok ids))
          → (ids : List String) × (rounds (suc n) (e ∷ p) ≡ ok ids)
      go [] r x c rec = absurd (ground (arith, c, r))
      go (y ∷ ys) r x c rec =
          let key : has_key (e ∷ p) y ≡ true =
            free-key (e ∷ p) y
              (sym (contains-sorted y (free (e ∷ p))) ∙ ground (arith, r, ==_refl y)) in
          let less : length (release_all (y ∷ ys) (e ∷ p)) ≤ n = omega (
            arith,
            length-release_all ys (release y (e ∷ p)),
            (length-release y (e ∷ p)).1 key,
            l,
          ) in
          let (ids, f) = rec (y ∷ ys) less in ((y ∷ ys) ++ ids, rw (r, f, rounds))

  AllFound-AllWait :
      (p : List Entry)
      → ((k y : String) → contains (needs_of d k) y ≡ true → has_key d y ≡ true)
      → AllFound d p
      → AllWait d p
  unfolding AllWait Waits
  AllFound-AllWait [] known f = tt
  AllFound-AllWait (e ∷ p) known f = (
    (λ y c.
        let n : contains (needs_of d e.id) y ≡ true = ap (λ ns. contains ns y) f.0 ∙ c in
        (known e.id y n, (n, known e.id y n))),
    AllFound-AllWait p known f.1,
  )

-- A plan in which no step depends on itself through others, and whose dependencies are all steps of
-- the plan, as the compiler demands of it, is always put in order: no error, whatever its size.
pub topological-total :
    (plan : List PlanStep)
    → has_cycle plan ≡ false
    → ((k y : String)
        → contains (needs_of (dependencies plan) k) y ≡ true
        → has_key (dependencies plan) y ≡ true)
    → (steps : List PlanStep) × (topological plan ≡ ok steps)
unfolding topological dependencies AllGround
topological-total plan acyclic known =
    let d = dependencies plan in
    let f = distinct-AllFound d (enter-KeysDistinct [] plan tt) in
    let (ids, h) =
      rounds-ok d (length d) d (omega arith) (AllFound-AllWait d d known f)
        ((has_cycle_iff plan).1 acyclic) in
    (steps_of plan ids, rw h)
