-- ===== src/Store/Table/Laws.antt =====
-- The laws of tables.
use shou_ba_shou_jiaoxue_ai.Prelude.{
  ℕ, String, ◌≡◌, refl, inl, inr, Bool, true, false, ◌&&◌, Option, none, some, List, [], ◌∷◌, arith,
  ◌==◌, if◌then◌else◌, ==_iff, eq_of_==, ==_refl, Bool-cases, Option-cases,
}
use shou_ba_shou_jiaoxue_ai.Store.Table.{
  find, Unique, update_where, row_count, insert, first_where, least_where,
}

-- An update seen from one row.
abbrev pub patch {ℓ} : {R : Type ℓ} → (R → Bool) → (R → R) → Option R → Option R
patch p f none = none
patch p f (some r) = some (if p r then f r else r)

-- How many rows with a given key satisfy a test: none or one.
abbrev pub hits {ℓ} : {R : Type ℓ} → (R → Bool) → Option R → ℕ
hits p none = 0
hits p (some r) = if p r then 1 else 0

module _ {ℓ} {R : Type ℓ} (key : R → String) where
  pub find-key : (k : String) (rs : List R) {r : R} → find key k rs ≡ some r → key r ≡ k
  unfolding find
  find-key k [] e = ground arith
  find-key k (x ∷ rs) {r} e = ground (arith, find-key k rs {r = r}, eq_of_== (key x) k)

  pub find-update_where :
      (p : R → Bool) (f : R → R) (keeps : (r : R) → key (f r) ≡ key r) (k : String) (rs : List R)
      → find key k (update_where p f rs) ≡ patch p f (find key k rs)
  unfolding find update_where
  find-update_where p f keeps k [] = refl
  find-update_where p f keeps k (x ∷ rs) = ground (arith, find-update_where p f keeps k rs, keeps x)

  -- With the key among its conditions, an update touches at most the one row of that key.
  pub row_count-find :
      (q : R → Bool) (k : String) (rs : List R)
      → Unique key rs
      → row_count (λ r. key r == k && q r) rs ≡ hits q (find key k rs)
  unfolding find row_count
  row_count-find q k [] u = refl
  row_count-find q k (x ∷ rs) u = ground (arith, row_count-find q k rs u.1, eq_of_== (key x) k)

  pub find-insert :
      (k : String) (r : R) (rs : List R)
      → find key k (insert r rs)
        ≡ elim (find key k rs) [ none ↦ if key r == k then some r else none | some s ↦ some s ]
  unfolding find insert
  find-insert k r [] = refl
  find-insert k r (x ∷ rs) = ground (arith, find-insert k r rs)

module _ {ℓ} {R : Type ℓ} (key : R → String) where
  pub Unique-update_where :
      (p : R → Bool) (f : R → R) (keeps : (r : R) → key (f r) ≡ key r) (rs : List R)
      → Unique key rs
      → Unique key (update_where p f rs)
  unfolding find update_where
  Unique-update_where p f keeps [] u = tt
  Unique-update_where p f keeps (x ∷ rs) u = (
    ground (arith, find-update_where key p f keeps (key x) rs, keeps x, u.0),
    Unique-update_where p f keeps rs u.1,
  )

  pub Unique-insert :
      (r : R) (rs : List R) → Unique key rs → find key (key r) rs ≡ none → Unique key (insert r rs)
  unfolding find insert
  Unique-insert r [] u e = (refl, tt)
  Unique-insert r (x ∷ rs) u e = (
    ground (arith, find-insert key (key x) r rs, u.0, eq_of_== (key r) (key x), ==_refl (key x)),
    Unique-insert r rs u.1 (ground arith),
  )

-- What an ORDER BY needs of its sort keys: `before` is a strict weak order.
pub record IsOrder {ℓ} {R : Type ℓ} (before : R → R → Bool) : Type ℓ where
  pub asym : (x y : R) → before x y ≡ true → before y x ≡ false
  pub co_trans : (x y z : R) → before x y ≡ false → before y z ≡ false → before x z ≡ false
  pub irrefl : (x : R) → before x x ≡ false

module _ {ℓ} {R : Type ℓ} (key : R → String) (p : R → Bool) (before : R → R → Bool) where
  pub least_where-meets : (rs : List R) {r : R} → least_where p before rs ≡ some r → p r ≡ true
  unfolding least_where
  least_where-meets [] e = ground arith
  least_where-meets (x ∷ rs) {r} e = ground (arith, least_where-meets rs {r = r})

  pub find-least_where :
      (rs : List R) {r : R}
      → Unique key rs
      → least_where p before rs ≡ some r
      → find key (key r) rs ≡ some r
  unfolding find least_where
  find-least_where [] u e = ground arith
  find-least_where (x ∷ rs) {r} u e =
      ground (arith, find-least_where rs {r = r} u.1, ==_refl (key x), eq_of_== (key x) (key r))

  pub least_where-none :
      (k : String) (rs : List R) {x : R}
      → least_where p before rs ≡ none
      → find key k rs ≡ some x
      → p x ≡ false
  unfolding find least_where
  least_where-none k [] e f = ground arith
  least_where-none k (y ∷ rs) {x} e f = ground (arith, least_where-none k rs {x = x})

  pub least_where-least :
      IsOrder before
      → (k : String) (rs : List R) {r x : R} → least_where p before rs ≡ some r
      → find key k rs ≡ some x
      → p x ≡ true
      → before x r ≡ false
  unfolding find least_where
  least_where-least o k [] e f m = ground arith
  least_where-least o k (y ∷ rs) {r} {x} e f m = elim (Option-cases (least_where p before rs)) [
    | inl h ↦ ground (arith, least_where-none k rs {x = x} h, o.irrefl x)
    | inr (s, h) ↦ ground (
      arith,
      least_where-least o k rs {r = s} {x = x} h,
      o.irrefl x,
      o.asym s y,
      o.co_trans x s y,
    )
  ]

module _ {ℓ} {R : Type ℓ} (key : R → String) where
  -- An update whose condition fixes the key, as a write to a map.
  pub find-update_one :
      (p : R → Bool) (f : R → R) (id : String) (rs : List R) {r : R}
      → ((x : R) → key (f x) ≡ key x)
      → ((x : R) → p x ≡ true → key x ≡ id)
      → find key id rs ≡ some r
      → p r ≡ true
      → (k : String)
      → find key k (update_where p f rs) ≡ (if id == k then some (f r) else find key k rs)
  find-update_one p f id rs {r} keeps only here hit k =
      rw (find-update_where key p f keeps k rs) (elim (Bool-cases (id == k)) [
        | inl e ↦
            let same : id ≡ k = eq_of_== id k e in rw (e, ← same, here, patch) (ground (arith, hit))
        | inr e ↦ rw (e, patch) (elsewhere (find key k rs) refl e)
      ])
    where
      elsewhere : (o : Option R) → find key k rs ≡ o → (id == k) ≡ false → patch p f o ≡ o
      elsewhere none h e = refl
      elsewhere (some x) h e = ground (arith, find-key key k rs {r = x} h, only x, ==_iff id k)

  pub first_where-find :
      (q : R → Bool) (k : String) (rs : List R)
      → Unique key rs
      → first_where (λ r. key r == k && q r) rs
        ≡ elim (find key k rs) [ none ↦ none | some r ↦ if q r then some r else none ]
  unfolding find first_where
  first_where-find q k [] u = refl
  first_where-find q k (x ∷ rs) u = ground (arith, first_where-find q k rs u.1, eq_of_== (key x) k)
