-- ===== src/Store/Table.antt =====
-- Tables of rows with a text primary key, as the SQL statements of backend/app/store.py use them:
-- `SELECT … WHERE id=?`, `UPDATE … WHERE …` with its row count, `INSERT`, and `SELECT … ORDER BY …
-- LIMIT 1`. The rows stand in insertion order, and ties of an ORDER BY go to the first of them.
pub mod Laws
use shou_ba_shou_jiaoxue_ai.Prelude.{
  ℕ, zero, suc, ◌+◌, ◌-◌, ◌*◌, ◌/◌, ◌^◌, ◌≤◌, ◌<◌, min, max, String, ◌≡◌, refl, sym, ap, ◌∙◌, subst,
  ◌≢◌, ◌↔◌, ◌⊎◌, inl, inr, Bool, true, false, not, ◌&&◌, ◌||◌, Option, none, some, List, [], ◌∷◌,
  ◌++◌, map, arith, ltb, leb, ◌=ℕ◌, ◌==◌, if◌then◌else◌, ==_iff, eq_of_==, ==_refl, Bool-cases,
  Option-cases, is_text, eq_of_is_text, length, any, all, length-append, contains,
}

module _ {ℓ} {R : Type ℓ} (key : R → String) where
  unfoldable pub find : String → List R → Option R
  find k [] = none
  find k (r ∷ rs) = if key r == k then some r else find k rs

  -- The primary key: no two rows share one.
  abbrev pub Unique : List R → Type ℓ
  Unique [] = Unit
  Unique (r ∷ rs) = (find (key r) rs ≡ none) × Unique rs

module _ {ℓ} {R : Type ℓ} where
  unfoldable pub update_where : (R → Bool) → (R → R) → List R → List R
  update_where p f [] = []
  update_where p f (r ∷ rs) = (if p r then f r else r) ∷ update_where p f rs

  -- `cursor.rowcount` of that update.
  unfoldable pub row_count : (R → Bool) → List R → ℕ
  row_count p [] = 0
  row_count p (r ∷ rs) = if p r then suc (row_count p rs) else row_count p rs

  unfoldable pub insert : R → List R → List R
  insert r rs = rs ++ r ∷ []

  -- `SELECT … WHERE p` … `fetchone()`
  unfoldable pub first_where : (R → Bool) → List R → Option R
  first_where p [] = none
  first_where p (r ∷ rs) = if p r then some r else first_where p rs

  pick : (R → R → Bool) → R → Option R → R
  pick before r none = r
  pick before r (some s) = if before s r then s else r

  -- `SELECT … WHERE p ORDER BY … LIMIT 1`, with `before` the strict order of the sort keys.
  unfoldable pub least_where : (R → Bool) → (R → R → Bool) → List R → Option R
  unfolding pick
  least_where p before [] = none
  least_where p before (r ∷ rs) =
      let rest = least_where p before rs in if p r then some (pick before r rest) else rest
