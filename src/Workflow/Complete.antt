-- ===== src/Workflow/Complete.antt =====
-- The order of `_topological` in backend/app/agent.py holds every step of the plan.
use shou_ba_shou_jiaoxue_ai.Prelude.{
  ℕ, zero, suc, String, ◌≡◌, refl, sym, ap, ◌∙◌, inl, inr, true, false, not, ◌&&◌, ◌||◌, List, [],
  ◌∷◌, ◌++◌, arith, ◌==◌, ==_iff, eq_of_==, ==_refl, Bool-cases, length, contains,
}
use shou_ba_shou_jiaoxue_ai.Schemas.{PlanStep}
use shou_ba_shou_jiaoxue_ai.Result.{ok, >>=-eq-ok}
use shou_ba_shou_jiaoxue_ai.Texts.{contains-sorted}
use shou_ba_shou_jiaoxue_ai.Policy.Cycle.{Entry, dependencies, enter, set_entry, has_key, needs_of}
use shou_ba_shou_jiaoxue_ai.Workflow.Topological.{
  release, release_all, free, ready, rounds, topological, steps_of,
}
use shou_ba_shou_jiaoxue_ai.Workflow.Ordered.{InOrder, AllCovered, Covered, rounds-InOrder}

pub has_key-release :
    (x k : String) (p : List Entry) → has_key (release x p) k ≡ has_key p k && not (x == k)
unfolding has_key release
has_key-release x k [] = refl
has_key-release x k (e ∷ p) =
    ground (arith, has_key-release x k p, ==_iff e.id x, ==_iff e.id k, ==_iff x k)

has_key-release_all :
    (xs : List String) (k : String) (p : List Entry)
    → has_key (release_all xs p) k ≡ has_key p k && not (contains xs k)
unfolding release_all contains
has_key-release_all [] k p = ground arith
has_key-release_all (x ∷ xs) k p =
    ground (arith, has_key-release_all xs k (release x p), has_key-release x k p)

contains-append :
    (xs ys : List String) (k : String) → contains (xs ++ ys) k ≡ contains xs k || contains ys k
unfolding contains
contains-append [] ys k = refl
contains-append (x ∷ xs) ys k = ground (arith, contains-append xs ys k)

rounds-all :
    (n : ℕ) (p : List Entry) (ids : List String) (k : String)
    → rounds n p ≡ ok ids
    → has_key p k ≡ true
    → contains ids k ≡ true
unfolding rounds has_key
rounds-all n [] ids k h key = ground (arith, key)
rounds-all zero (e ∷ p) ids k h key = absurd (ground (arith, h))
rounds-all (suc n) (e ∷ p) ids k h key =
    go (ready (e ∷ p)) refl (λ q. rounds-all n (release_all q (e ∷ p)))
  where
    go :
        (q : List String)
        → ready (e ∷ p) ≡ q
        → ((q : List String) (ids : List String) (k : String)
            → rounds n (release_all q (e ∷ p)) ≡ ok ids
            → has_key (release_all q (e ∷ p)) k ≡ true
            → contains ids k ≡ true)
        → contains ids k ≡ true
    go [] r rec = absurd (ground (arith, h, r))
    go (x ∷ xs) r rec =
        let (rest, f, g) =
          >>=-eq-ok (rounds n (release_all (x ∷ xs) (e ∷ p))) (λ rest. ok ((x ∷ xs) ++ rest))
            {value = ids} (rw (r, rounds) at h) in
        ap (λ zs. contains zs k) {x = ids} {y = (x ∷ xs) ++ rest} (ground (arith, g))
        ∙ contains-append (x ∷ xs) rest k
        ∙ ground (arith, rec (x ∷ xs) rest k f, has_key-release_all (x ∷ xs) k (e ∷ p), key)

-- What is ready is pending.
free_key : (p : List Entry) (k : String) → contains (free p) k ≡ true → has_key p k ≡ true
unfolding free contains has_key
free_key [] k h = ground (arith, h)
free_key (e ∷ p) k h = go e.needs refl (free_key p k)
  where
    go :
        (ns : List String)
        → e.needs ≡ ns
        → (contains (free p) k ≡ true → has_key p k ≡ true)
        → has_key (e ∷ p) k ≡ true
    go [] n rec = ground (arith, h, n, rec)
    go (y ∷ ys) n rec = ground (arith, h, n, rec)

rounds_key :
    (n : ℕ) (p : List Entry) (ids : List String) (k : String)
    → rounds n p ≡ ok ids
    → contains ids k ≡ true
    → has_key p k ≡ true
unfolding rounds contains ready
rounds_key n [] ids k h c = ground (arith, h, c)
rounds_key zero (e ∷ p) ids k h c = absurd (ground (arith, h))
rounds_key (suc n) (e ∷ p) ids k h c =
    go (ready (e ∷ p)) refl (λ q. rounds_key n (release_all q (e ∷ p)))
  where
    go :
        (q : List String)
        → ready (e ∷ p) ≡ q
        → ((q : List String) (ids : List String) (k : String)
            → rounds n (release_all q (e ∷ p)) ≡ ok ids
            → contains ids k ≡ true
            → has_key (release_all q (e ∷ p)) k ≡ true)
        → has_key (e ∷ p) k ≡ true
    go [] r rec = absurd (ground (arith, h, r))
    go (x ∷ xs) r rec =
        let (rest, f, g) =
          >>=-eq-ok (rounds n (release_all (x ∷ xs) (e ∷ p))) (λ rest. ok ((x ∷ xs) ++ rest))
            {value = ids} (rw (r, rounds) at h) in
        let either : contains (x ∷ xs) k || contains rest k ≡ true =
          sym (contains-append (x ∷ xs) rest k)
          ∙ ap (λ zs. contains zs k) {x = (x ∷ xs) ++ rest} {y = ids} (ground (arith, g))
          ∙ c in
        elim (Bool-cases (contains (x ∷ xs) k)) [
          | inl y ↦
              free_key (e ∷ p) k
                (sym (contains-sorted k (free (e ∷ p))) ∙ ap (λ zs. contains zs k) r ∙ y)
          | inr y ↦ ground (
            arith,
            rec (x ∷ xs) rest k f (ground (arith, either, y)),
            has_key-release_all (x ∷ xs) k (e ∷ p),
          )
        ]

abbrev pub KeysDistinct : List Entry → Type 0
KeysDistinct [] = Unit
KeysDistinct (e ∷ d) = (has_key d e.id ≡ false) × KeysDistinct d

pub has_key-set_entry :
    (e : Entry) (d : List Entry) (k : String)
    → has_key (set_entry e d) k ≡ (e.id == k) || has_key d k
unfolding has_key set_entry
has_key-set_entry e [] k = refl
has_key-set_entry e (f ∷ d) k =
    ground (arith, has_key-set_entry e d k, ==_iff f.id e.id, ==_iff e.id k, ==_iff f.id k)

set_entry-KeysDistinct :
    (e : Entry) (d : List Entry) → KeysDistinct d → KeysDistinct (set_entry e d)
unfolding set_entry has_key
set_entry-KeysDistinct e [] u = (refl, tt)
set_entry-KeysDistinct e (f ∷ d) u = elim (Bool-cases (f.id == e.id)) [
  | inl s ↦ rw (s, set_entry) (ap (has_key d) (sym (eq_of_== f.id e.id s)) ∙ u.0, u.1)
  | inr s ↦
      rw (s, set_entry)
        (
          ground (arith, has_key-set_entry e d f.id, u.0, s, ==_iff e.id f.id, ==_iff f.id e.id),
          set_entry-KeysDistinct e d u.1,
        )
]

pub enter-KeysDistinct :
    (d : List Entry) (plan : List PlanStep) → KeysDistinct d → KeysDistinct (enter d plan)
unfolding enter
enter-KeysDistinct d [] u = u
enter-KeysDistinct d (s ∷ plan) u =
    enter-KeysDistinct (set_entry (record { id = s.id; needs = s.depends_on }) d) plan
      (set_entry-KeysDistinct (record { id = s.id; needs = s.depends_on }) d u)

-- Each entry is the one that a lookup finds.
abbrev pub AllFound : List Entry → List Entry → Type 0
AllFound d [] = Unit
AllFound d (f ∷ p) = (needs_of d f.id ≡ f.needs) × AllFound d p

AllFound-cons :
    (e : Entry) (d p : List Entry) → has_key p e.id ≡ false → AllFound d p → AllFound (e ∷ d) p
unfolding has_key needs_of
AllFound-cons e d [] k a = tt
AllFound-cons e d (f ∷ p) k a = (
  ground (arith, k, a.0, ==_iff f.id e.id, ==_iff e.id f.id),
  AllFound-cons e d p (ground (arith, k)) a.1,
)

pub distinct-AllFound : (d : List Entry) → KeysDistinct d → AllFound d d
unfolding needs_of
distinct-AllFound [] u = tt
distinct-AllFound (e ∷ d) u =
    (ground (arith, ==_refl e.id), AllFound-cons e d d u.0 (distinct-AllFound d u.1))

AllFound-AllCovered : (d p : List Entry) → AllFound d p → AllCovered d [] p
unfolding AllCovered Covered contains
AllFound-AllCovered d [] a = tt
AllFound-AllCovered d (f ∷ p) a =
    (λ y c. ground (arith, ap (λ ns. contains ns y) a.0, c), AllFound-AllCovered d p a.1)

-- When a plan is put in order, each step stands after every step that it depends on, and the order
-- holds the ids of the plan's steps and no other; so a step that needs one that is not in the plan
-- leaves no order.
pub topological-InOrder :
    (plan steps : List PlanStep)
    → topological plan ≡ ok steps
    → (ids : List String) × (steps ≡ steps_of plan ids)
      × InOrder (dependencies plan) [] ids
      × ((k : String) → contains ids k ≡ has_key (dependencies plan) k)
unfolding topological dependencies
topological-InOrder plan steps h =
    let d = dependencies plan in
    let (ids, f, g) =
      >>=-eq-ok (rounds (length d) d) (λ ids. ok (steps_of plan ids)) {value = steps} h in
    let u : KeysDistinct d = enter-KeysDistinct [] plan tt in
    (
      ids,
      ground (arith, g),
      rounds-InOrder d (length d) [] d ids (AllFound-AllCovered d d (distinct-AllFound d u)) f,
      λ k. ground (arith, rounds-all (length d) d ids k f, rounds_key (length d) d ids k f),
    )
