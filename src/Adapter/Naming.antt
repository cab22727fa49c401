-- ===== src/Adapter/Naming.antt =====
-- The step ids of `_materialize` in backend/app/model_adapter.py. Python's `lower` is a parameter; a text
-- that the code cuts after 64 characters is cut here too.
use Prim.Native.Char.{Char, code}
use shou_ba_shou_jiaoxue_ai.Prelude.{
  ℕ, zero, suc, ◌≤◌, String, ◌≡◌, refl, inl, inr, Bool, true, false, ◌&&◌, ◌||◌, Option, none, some,
  List, [], ◌∷◌, arith, leb, ◌==◌, if◌then◌else◌, Bool-cases, contains,
}
use shou_ba_shou_jiaoxue_ai.Texts.{joined}
use shou_ba_shou_jiaoxue_ai.Workflow.Checks.{remove_prefix}

-- [a-z0-9]
abbrev is_plain : Char → Bool
is_plain c = leb 97 (code c) && leb (code c) 122 || leb 48 (code c) && leb (code c) 57

-- The runs of plain characters, joined by "-": re.sub(r"[^a-z0-9]+", "-", s).strip("-"). `begun` tells
-- that a run stands before, `gap` that other characters came after it.
unfoldable pub words : Bool → Bool → String → String
words begun gap String.[] = ""
words begun gap (String.◌∷◌ c s) =
    let inside = words true false s in
    let outside = words begun true s in
    if is_plain c
    then (if begun && gap then joined "-" (String.◌∷◌ c inside) else String.◌∷◌ c inside)
    else outside

unfoldable pub cut : ℕ → String → String
cut zero s = ""
cut (suc n) String.[] = ""
cut (suc n) (String.◌∷◌ c s) = String.◌∷◌ c (cut n s)

-- slug or f"action-{index}", where `number` prints the index
unfoldable pub slug_of : (ℕ → String) → (String → String) → ℕ → String → String
slug_of number lower index id =
    let slug = cut 64 (remove_prefix (words false false (lower id)) "step-") in
    if slug == "" then joined "action-" (number index) else slug

abbrev pub named : String → String
named slug = joined "step-" slug

abbrev pub numbered : (ℕ → String) → String → ℕ → String
numbered number slug index = joined (joined "step-" slug) (joined "-" (number index))

-- while candidate in used_ids: candidate = f"step-{slug}-{index}"; `none` is a loop that has not ended.
unfoldable pub next_id : ℕ → List String → String → String → Option String
next_id zero used other candidate = none
next_id (suc n) used other candidate =
    let rest = next_id n used other other in
    if contains used candidate then rest else some candidate

-- The candidates of the steps, in order; the loops may take n turns each.
unfoldable pub assign :
    (ℕ → String) → (String → String) → ℕ → ℕ → List String → List String → Option (List String)
assign number lower n index used [] = some []
assign number lower n index used (id ∷ ids) =
    let slug = slug_of number lower index id in
    elim (next_id n used (numbered number slug index) (named slug)) [
      | none ↦ none
      | some candidate ↦ elim (assign number lower n (suc index) (candidate ∷ used) ids) [
        | none ↦ none
        | some rest ↦ some (candidate ∷ rest)
      ]
    ]

next_id-used :
    (n : ℕ) (used : List String) (other : String)
    → contains used other ≡ true
    → next_id n used other other ≡ none
unfolding next_id
next_id-used zero used other h = refl
next_id-used (suc n) used other h = ground (arith, h, next_id-used n used other h)

next_id-both :
    (n : ℕ) (used : List String) (other candidate : String)
    → contains used candidate ≡ true
    → contains used other ≡ true
    → next_id n used other candidate ≡ none
unfolding next_id
next_id-both zero used other candidate c h = refl
next_id-both (suc n) used other candidate c h = ground (arith, c, next_id-used n used other h)

-- The loop that looks for an id tries two names only. When one of them is free, two turns are enough, and
-- it ends with a name that is not in use; when both are in use it never ends, however many turns it gets.
pub next_id-ends :
    (used : List String) (other candidate : String)
    → (contains used candidate && contains used other ≡ true
        → (n : ℕ) → next_id n used other candidate ≡ none)
      × (contains used candidate && contains used other ≡ false
          → (id : String) × (contains used id ≡ false)
            × ((n : ℕ) → 2 ≤ n → next_id n used other candidate ≡ some id))
unfolding next_id
next_id-ends used other candidate = (
  (λ both n. next_id-both n used other candidate (ground (arith, both)) (ground (arith, both))),
  λ free. elim (Bool-cases (contains used candidate)) [
    | inr c ↦ (candidate, c, λ n l. at_once n l c)
    | inl c ↦ (other, ground (arith, c, free), λ n l. second n l c (ground (arith, c, free)))
  ],
)
  where
    at_once :
        (n : ℕ)
        → 2 ≤ n
        → contains used candidate ≡ false
        → next_id n used other candidate ≡ some candidate
    at_once zero l c = absurd (omega (arith, l))
    at_once (suc n) l c = ground (arith, c)

    second :
        (n : ℕ)
        → 2 ≤ n
        → contains used candidate ≡ true
        → contains used other ≡ false
        → next_id n used other candidate ≡ some other
    second zero l c f = absurd (omega (arith, l))
    second (suc zero) l c f = absurd (omega (arith, l))
    second (suc (suc n)) l c f = ground (arith, c, f)
