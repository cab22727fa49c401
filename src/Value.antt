-- ===== src/Value.antt =====
-- JSON values, as `dict[str, Any]` and `Any` carry them in backend/app/schemas.py: tool inputs, tool
-- outputs, observations and the expected value of a check. A number is an integer count of
-- thousandths (`num 540000` is 540, `num 400` is 0.4), which holds each number that the repository
-- writes; a negative number is not modelled. The fields of an object keep their insertion order.
use shou_ba_shou_jiaoxue_ai.Prelude.{
  false, ℕ, ◌*◌, String, ◌≡◌, refl, Bool, Option, none, some, arith, ◌==◌, ==_iff, if◌then◌else◌,
}

mutual
  pub data Fields : Type 0 where
    end : Fields
    field : String → Value → Fields → Fields

  pub data Items : Type 0 where
    nil : Items
    cons : Value → Items → Items

  pub data Value : Type 0 where
    obj : Fields → Value
    arr : Items → Value
    str : String → Value
    num : ℕ → Value
    bool : Bool → Value
    null : Value

-- The whole number n.
abbrev pub int : ℕ → Value
int n = num (n * 1000)

-- v == t, for a value that may be missing
abbrev pub holds_text : Option Value → String → Bool
holds_text (some (str s)) t = s == t
holds_text _ t = false

-- d.get(k)
unfoldable pub get : Fields → String → Option Value
get end k = none
get (field j v fs) k = if j == k then some v else get fs k

-- d[k] = v
unfoldable pub put : Fields → String → Value → Fields
put end k v = field k v end
put (field j w fs) k v = if j == k then field k v fs else field j w (put fs k v)

-- d.update(e), and {**d, **e}
unfoldable pub update : Fields → Fields → Fields
unfolding put
update d end = d
update d (field k v e) = update (put d k v) e

pub get-put :
    (d : Fields) (k j : String) (v : Value)
    → get (put d k v) j ≡ (if k == j then some v else get d j)
unfolding get put
get-put end k j v = refl
get-put (field i w fs) k j v = ground (arith, get-put fs k j v, ==_iff i k, ==_iff i j, ==_iff k j)
