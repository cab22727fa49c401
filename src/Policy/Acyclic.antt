-- ===== src/Policy/Acyclic.antt =====
-- The depth-first search of backend/app/policy.py: what it has shown when it ends.
use shou_ba_shou_jiaoxue_ai.Prelude.{
  ℕ, zero, suc, String, ◌≡◌, refl, subst, inl, inr, true, false, List, [], ◌∷◌, arith, ◌==◌,
  eq_of_==, ==_refl, Bool-cases, contains,
}
use shou_ba_shou_jiaoxue_ai.Policy.Cycle.{
  Entry, has_key, needs_of, Visit, cycle, done, out_of_fuel, visit, visit_all,
}

-- x depends on k, and k is a step.
abbrev pub Edge : List Entry → String → String → Type 0
Edge d x k = (contains (needs_of d x) k ≡ true) × (has_key d k ≡ true)

-- A step of which every chain of dependencies ends.
pub data Grounded (d : List Entry) : String → Type 0 where
  grounded : {x : String} → ((k : String) → Edge d x k → Grounded d k) → Grounded d x

-- By one dependency or more.
pub data Reaches (d : List Entry) : String → String → Type 0 where
  edge : {x y : String} → Edge d x y → Reaches d x y
  via : {x y z : String} → Edge d x y → Reaches d y z → Reaches d x z

-- Some step depends on itself.
abbrev pub Cyclic : List Entry → Type 0
Cyclic d = (y : String) × Reaches d y y

abbrev pub AllGrounded : List Entry → List String → Type 0
AllGrounded d xs = (k : String) → contains xs k ≡ true → Grounded d k

extend : {d : List Entry} {x y z : String} → Reaches d x y → Edge d y z → Reaches d x z
extend (edge e) f = via e (edge f)
extend (via e r) f = via e (extend r f)

pub Grounded-irrefl : {d : List Entry} {x : String} → Grounded d x → Reaches d x x → ⊥
Grounded-irrefl (grounded g) (edge e) = Grounded-irrefl (g _ e) (edge e)
Grounded-irrefl (grounded g) (via e r) = Grounded-irrefl (g _ e) (extend r e)

pub Reaches-key : {d : List Entry} {x y : String} → Reaches d x y → has_key d y ≡ true
Reaches-key (edge e) = e.1
Reaches-key (via e r) = Reaches-key r

module _ (d : List Entry) where
  unfoldable pub Keeps : (List String → String → Visit) → Type 0
  Keeps f =
      (visited : List String) (x : String) (v : List String)
      → f visited x ≡ done v
      → AllGrounded d visited
      → AllGrounded d v × Grounded d x

  pub visit_all-Grounded :
      (f : List String → String → Visit)
      → Keeps f
      → (visited ks v : List String) → visit_all d f visited ks ≡ done v
      → AllGrounded d visited
      → AllGrounded d v × ((k : String) → contains ks k ≡ true → has_key d k ≡ true → Grounded d k)
  unfolding visit_all Keeps contains
  visit_all-Grounded f keep visited [] v h a =
      (subst (AllGrounded d) (ground arith) a, λ k c. ground arith)
  visit_all-Grounded f keep visited (k ∷ ks) v h a = elim (Bool-cases (has_key d k)) [
    | inr outside ↦
        let (b, g) = visit_all-Grounded f keep visited ks v (ground (arith, outside, h)) a in
        (b, λ j c key. g j (ground (arith, outside, eq_of_== k j)) key)
    | inl known ↦ go (f visited k) refl known (λ w. visit_all-Grounded f keep w ks v)
  ]
    where
      go :
          (m : Visit)
          → f visited k ≡ m
          → has_key d k ≡ true
          → ((w : List String)
              → visit_all d f w ks ≡ done v
              → AllGrounded d w
              → AllGrounded d v
                × ((j : String) → contains ks j ≡ true → has_key d j ≡ true → Grounded d j))
          → AllGrounded d v
            × ((j : String) → contains (k ∷ ks) j ≡ true → has_key d j ≡ true → Grounded d j)
      go cycle e known rest = absurd (ground (arith, e, known, h))
      go out_of_fuel e known rest = absurd (ground (arith, e, known, h))
      go (done w) e known rest =
          let (b, here) = keep visited k w e a in
          let (c, g) = rest w (ground (arith, e, known, h)) b in
          (
            c,
            λ j t key. elim (Bool-cases (k == j)) [
              | inl same ↦ subst (Grounded d) (eq_of_== k j same) here
              | inr other ↦ g j (ground arith) key
            ],
          )

  pub visit-Grounded : (n : ℕ) (visiting : List String) → Keeps (visit n d visiting)
  unfolding visit Keeps contains
  visit-Grounded zero visiting visited x v h a = ground arith
  visit-Grounded (suc n) visiting visited x v h a = elim (Bool-cases (contains visiting x)) [
    | inl loop ↦ absurd (ground arith)
    | inr new ↦ elim (Bool-cases (contains visited x)) [
      | inl old ↦ (subst (AllGrounded d) (ground arith) a, a x old)
      | inr fresh ↦
          go (visit_all d (visit n d (x ∷ visiting)) visited (needs_of d x)) refl new fresh
            (visit-Grounded n (x ∷ visiting))
    ]
  ]
    where
      go :
          (m : Visit)
          → visit_all d (visit n d (x ∷ visiting)) visited (needs_of d x) ≡ m
          → contains visiting x ≡ false
          → contains visited x ≡ false
          → Keeps (visit n d (x ∷ visiting))
          → AllGrounded d v × Grounded d x
      go cycle e new fresh keep = absurd (ground (arith, e))
      go out_of_fuel e new fresh keep = absurd (ground (arith, e))
      go (done w) e new fresh keep =
          let (b, g) =
            visit_all-Grounded (visit n d (x ∷ visiting)) keep visited (needs_of d x) w e a in
          let here : Grounded d x = grounded (λ k t. g k t.0 t.1) in
          (
            subst (AllGrounded d) {x = x ∷ w} (ground (arith, e)) (λ k t.
                elim (Bool-cases (x == k)) [
                  | inl same ↦ subst (Grounded d) (eq_of_== x k same) here
                  | inr other ↦ b k (ground arith)
                ]),
            here,
          )

  -- Every step on the path reaches x.
  unfoldable pub AllReach : List String → String → Type 0
  AllReach visiting x = (k : String) → contains visiting k ≡ true → Reaches d k x

  pub visit_all-Cyclic :
      (f : List String → String → Visit) (ks : List String)
      → ((visited : List String) (k : String)
          → contains ks k ≡ true
          → has_key d k ≡ true
          → f visited k ≡ cycle
          → Cyclic d)
      → (visited : List String) → visit_all d f visited ks ≡ cycle
      → Cyclic d
  unfolding visit_all contains
  visit_all-Cyclic f [] find visited h = absurd (ground arith)
  visit_all-Cyclic f (k ∷ ks) find visited h = elim (Bool-cases (has_key d k)) [
    | inr outside ↦
        visit_all-Cyclic f ks (λ w j c. find w j (ground arith)) visited
          (ground (arith, outside, h))
    | inl known ↦
        go (f visited k) refl known
          (λ w. visit_all-Cyclic f ks (λ u j c. find u j (ground arith)) w)
  ]
    where
      go :
          (m : Visit)
          → f visited k ≡ m
          → has_key d k ≡ true
          → ((w : List String) → visit_all d f w ks ≡ cycle → Cyclic d)
          → Cyclic d
      go cycle e known rest = find visited k (ground (arith, ==_refl k)) known e
      go out_of_fuel e known rest = absurd (ground (arith, e, known, h))
      go (done w) e known rest = rest w (ground (arith, e, known, h))

  pub visit-Cyclic :
      (n : ℕ) (visiting visited : List String) (x : String)
      → AllReach visiting x
      → visit n d visiting visited x ≡ cycle
      → Cyclic d
  unfolding visit contains AllReach
  visit-Cyclic zero visiting visited x a h = absurd (ground arith)
  visit-Cyclic (suc n) visiting visited x a h = elim (Bool-cases (contains visiting x)) [
    | inl loop ↦ (x, a x loop)
    | inr new ↦
        visit_all-Cyclic (visit n d (x ∷ visiting)) (needs_of d x)
          (λ w k c key e.
            visit-Cyclic n (x ∷ visiting) w k
              (λ j t. elim (Bool-cases (x == j)) [
                | inl same ↦ subst (λ z. Reaches d z k) (eq_of_== x j same) (edge (c, key))
                | inr other ↦ extend (a j (ground arith)) (c, key)
              ])
              e)
          visited (ground arith)
  ]
