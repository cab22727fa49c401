-- ===== src/Workflow/Ordered.antt =====
-- The order of `_topological` in backend/app/agent.py, and when there is one.
use shou_ba_shou_jiaoxue_ai.Prelude.{
  ℕ, zero, suc, String, ◌≡◌, refl, sym, ◌∙◌, subst, inl, inr, true, not, ◌&&◌, ◌||◌, List, [], ◌∷◌,
  ◌++◌, arith, ◌==◌, ==_iff, eq_of_==, ==_refl, Bool-cases, contains,
}
use shou_ba_shou_jiaoxue_ai.Result.{ok, >>=-eq-ok}
use shou_ba_shou_jiaoxue_ai.Texts.{contains-sorted}
use shou_ba_shou_jiaoxue_ai.Policy.Cycle.{Entry, needs_of}
use shou_ba_shou_jiaoxue_ai.Workflow.Topological.{
  discard, release, release_all, free, ready, rounds,
}

pub contains-discard :
    (x z : String) (ys : List String) → contains (discard x ys) z ≡ contains ys z && not (x == z)
unfolding contains discard
contains-discard x z [] = refl
contains-discard x z (y ∷ ys) =
    ground (arith, contains-discard x z ys, ==_iff y x, ==_iff x z, ==_iff y z)

-- What `k` waits for is done, or is still noted in its entry.
module _ (d : List Entry) where
  unfoldable pub Covered : List String → Entry → Type 0
  Covered seen e =
      (y : String)
      → contains (needs_of d e.id) y ≡ true
      → contains e.needs y || contains seen y ≡ true

  unfoldable pub AllCovered : List String → List Entry → Type 0
  AllCovered seen [] = Unit
  AllCovered seen (e ∷ p) = Covered seen e × AllCovered seen p

  unfoldable pub Done : List String → String → Type 0
  Done seen k = (y : String) → contains (needs_of d k) y ≡ true → contains seen y ≡ true

  AllDone : List String → List String → Type 0
  AllDone seen ks = (k : String) → contains ks k ≡ true → Done seen k

  -- Each id comes after all that it needs.
  unfoldable pub InOrder : List String → List String → Type 0
  unfolding Done
  InOrder seen [] = Unit
  InOrder seen (k ∷ ks) = Done seen k × InOrder (k ∷ seen) ks

  release-AllCovered :
      (x : String) (seen : List String) (p : List Entry)
      → AllCovered seen p
      → AllCovered (x ∷ seen) (release x p)
  unfolding AllCovered Covered release contains
  release-AllCovered x seen [] a = tt
  release-AllCovered x seen (e ∷ p) a = elim (Bool-cases (e.id == x)) [
    | inl same ↦ rw (same, release) (release-AllCovered x seen p a.1)
    | inr other ↦
        rw (other, release)
          (
            (λ y h. ground (arith, a.0 y h, contains-discard x y e.needs)),
            release-AllCovered x seen p a.1,
          )
  ]

  push : List String → List String → List String
  push [] seen = seen
  push (x ∷ xs) seen = push xs (x ∷ seen)

  release_all-AllCovered :
      (xs seen : List String) (p : List Entry)
      → AllCovered seen p
      → AllCovered (push xs seen) (release_all xs p)
  unfolding push release_all
  release_all-AllCovered [] seen p a = a
  release_all-AllCovered (x ∷ xs) seen p a =
      release_all-AllCovered xs (x ∷ seen) (release x p) (release-AllCovered x seen p a)

  free-AllDone : (seen : List String) (p : List Entry) → AllCovered seen p → AllDone seen (free p)
  unfolding AllCovered Covered AllDone Done free contains
  free-AllDone seen [] a k h y c = ground (arith, h)
  free-AllDone seen (e ∷ p) a k h y c =
      go e.needs refl (λ t. free-AllDone seen p a.1 k t y c)
        (λ s. a.0 y (subst (λ z. contains (needs_of d z) y ≡ true) (sym (eq_of_== e.id k s)) c))
    where
      go :
          (ns : List String)
          → e.needs ≡ ns
          → (contains (free p) k ≡ true → contains seen y ≡ true)
          → ((e.id == k) ≡ true → contains e.needs y || contains seen y ≡ true)
          → contains seen y ≡ true
      go [] n later here = elim (Bool-cases (e.id == k)) [
        | inl s ↦ ground (arith, n, here s)
        | inr s ↦ later (ground (arith, n, s, h))
      ]
      go (z ∷ zs) n later here = later (ground (arith, n, h))

  more : (x : String) (seen ks : List String) → AllDone seen ks → AllDone (x ∷ seen) ks
  unfolding AllDone Done contains
  more x seen ks a k h y c = ground (arith, a k h y c)

  InOrder-append :
      (xs ids seen : List String)
      → AllDone seen xs
      → InOrder (push xs seen) ids
      → InOrder seen (xs ++ ids)
  unfolding InOrder push AllDone contains
  InOrder-append [] ids seen a o = o
  InOrder-append (x ∷ xs) ids seen a o = (
    a x (ground (arith, ==_refl x)),
    InOrder-append xs ids (x ∷ seen) (more x seen xs (λ k h. a k (ground (arith, h)))) o,
  )

  ready-AllDone : (seen : List String) (p : List Entry) → AllCovered seen p → AllDone seen (ready p)
  unfolding ready AllDone
  ready-AllDone seen p a k h = free-AllDone seen p a k (sym (contains-sorted k (free p)) ∙ h)

  pub rounds-InOrder :
      (n : ℕ) (seen : List String) (p : List Entry) (ids : List String)
      → AllCovered seen p
      → rounds n p ≡ ok ids
      → InOrder seen ids
  unfolding rounds InOrder
  rounds-InOrder n seen [] ids a h = subst (InOrder seen) {x = []} (ground (arith, h)) tt
  rounds-InOrder zero seen (e ∷ p) ids a h = absurd (ground (arith, h))
  rounds-InOrder (suc n) seen (e ∷ p) ids a h =
      go (ready (e ∷ p)) refl (λ q. rounds-InOrder n (push q seen) (release_all q (e ∷ p)))
    where
      go :
          (q : List String)
          → ready (e ∷ p) ≡ q
          → ((q : List String) (ids : List String)
              → AllCovered (push q seen) (release_all q (e ∷ p))
              → rounds n (release_all q (e ∷ p)) ≡ ok ids
              → InOrder (push q seen) ids)
          → InOrder seen ids
      go [] r rec = absurd (ground (arith, h, r))
      go (x ∷ xs) r rec =
          let (rest, f, g) =
            >>=-eq-ok (rounds n (release_all (x ∷ xs) (e ∷ p))) (λ rest. ok ((x ∷ xs) ++ rest))
              {value = ids} (rw (r, rounds) at h) in
          subst (InOrder seen) {x = (x ∷ xs) ++ rest} (ground (arith, g)) (
            InOrder-append (x ∷ xs) rest seen
              (subst (AllDone seen) r (ready-AllDone seen (e ∷ p) a))
              (rec (x ∷ xs) rest (release_all-AllCovered (x ∷ xs) seen (e ∷ p) a) f))
