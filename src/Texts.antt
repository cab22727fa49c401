-- ===== src/Texts.antt =====
-- `sorted` on texts, which Python compares by code points, and sets of texts, as backend/app/policy.py
-- and backend/app/security.py use them.
use Prim.Native.Char.{code}
use Prim.Native.String.{◌++◌ as append}
use shou_ba_shou_jiaoxue_ai.Prelude.{
  String, ◌≡◌, refl, Bool, true, false, ◌||◌, List, [], ◌∷◌, arith, ltb, ◌=ℕ◌, ◌==◌, if◌then◌else◌,
  ==_iff, contains,
}

-- a <= b
unfoldable pub text_leb : String → String → Bool
text_leb String.[] b = true
text_leb (String.◌∷◌ c a) String.[] = false
text_leb (String.◌∷◌ c a) (String.◌∷◌ d b) =
    let rest = text_leb a b in if code c =ℕ code d then rest else ltb (code c) (code d)

unfoldable pub insert_text : String → List String → List String
insert_text x [] = x ∷ []
insert_text x (y ∷ ys) =
    let rest = insert_text x ys in if text_leb x y then x ∷ y ∷ ys else y ∷ rest

unfoldable pub sorted : List String → List String
unfolding insert_text
sorted [] = []
sorted (x ∷ xs) = insert_text x (sorted xs)

-- s.add(x)
unfoldable pub add : String → List String → List String
add x xs = if contains xs x then xs else x ∷ xs

contains-insert_text :
    (x z : String) (ys : List String) → contains (insert_text x ys) z ≡ ((x == z) || contains ys z)
unfolding contains insert_text
contains-insert_text x z [] = ground arith
contains-insert_text x z (y ∷ ys) = ground (arith, contains-insert_text x z ys)

pub contains-sorted : (z : String) (xs : List String) → contains (sorted xs) z ≡ contains xs z
unfolding contains sorted
contains-sorted z [] = refl
contains-sorted z (x ∷ xs) =
    ground (arith, contains-insert_text x z (sorted xs), contains-sorted z xs)

pub contains-add :
    (x z : String) (xs : List String) → contains (add x xs) z ≡ ((x == z) || contains xs z)
unfolding contains add
contains-add x z xs = ground (arith, ==_iff x z)

-- set(xs)
unfoldable pub as_set : List String → List String
as_set [] = []
as_set (x ∷ xs) = add x (as_set xs)

pub contains-as_set : (z : String) (xs : List String) → contains (as_set xs) z ≡ contains xs z
unfolding contains as_set
contains-as_set z [] = refl
contains-as_set z (x ∷ xs) = ground (arith, contains-add x z (as_set xs), contains-as_set z xs)

-- a + b
abbrev pub joined : String → String → String
joined a b = append a b

-- separator.join(xs)
unfoldable pub join_texts : String → List String → String
join_texts separator [] = ""
join_texts separator (x ∷ []) = x
join_texts separator (x ∷ y ∷ ys) = joined x (joined separator (join_texts separator (y ∷ ys)))
