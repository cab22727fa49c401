-- ===== src/Workflow/Checks.antt =====
-- `_field` and `_check` of backend/app/agent.py: a condition on JSON values, as Python compares them.
-- A comparison that raises a TypeError does not hold.
use Prim.Native.Char.{Char, code}
use shou_ba_shou_jiaoxue_ai.Prelude.{
  ℕ, suc, String, Bool, true, false, not, ◌&&◌, ◌||◌, Option, none, some, List, [], ◌∷◌, ltb, leb,
  ◌=ℕ◌, ◌==◌, if◌then◌else◌,
}
use shou_ba_shou_jiaoxue_ai.Schemas.{Operator, Check, Observation}
use shou_ba_shou_jiaoxue_ai.Value.{
  Value, Items, Fields, null, bool, num, str, arr, obj, nil, cons, end, field, get, update,
}
use shou_ba_shou_jiaoxue_ai.Texts.{text_leb}
use shou_ba_shou_jiaoxue_ai.Schemas.{eq, ne, lt, lte, gt, gte, in_}

-- The number that a number or a Boolean is: True is 1, False is 0.
abbrev pub as_number : Value → Option ℕ
as_number (num n) = some n
as_number (bool true) = some 1000
as_number (bool false) = some 0
as_number _ = none

abbrev pub size : Fields → ℕ
size end = 0
size (field k v fs) = suc (size fs)

abbrev same_number : Option ℕ → Option ℕ → Bool
same_number (some a) (some b) = a =ℕ b
same_number _ _ = false

-- v == w
unfoldable mutual
  pub same_value : Value → Value → Bool
  same_value (obj d) (obj e) = size d =ℕ size e && fields_in d e
  same_value (arr xs) (arr ys) = same_items xs ys
  same_value (str s) (str t) = s == t
  same_value null null = true
  same_value v w = same_number (as_number v) (as_number w)

  pub fields_in : Fields → Fields → Bool
  fields_in end e = true
  fields_in (field k v d) e =
      let rest = fields_in d e in elim (get e k) [ none ↦ false | some w ↦ same_value v w && rest ]

  pub same_items : Items → Items → Bool
  same_items nil nil = true
  same_items (cons v xs) (cons w ys) = same_value v w && same_items xs ys
  same_items _ _ = false

-- The order of two numbers and of two texts, `<` or (or_equal) `<=`.
abbrev number_order : Bool → Option ℕ → Option ℕ → Bool
number_order or_equal (some a) (some b) = if or_equal then leb a b else ltb a b
number_order or_equal _ _ = false

abbrev text_order : Bool → String → String → Bool
text_order or_equal s t = if or_equal then text_leb s t else not (text_leb t s)

-- Lists are ordered at the first items that differ.
unfoldable mutual
  pub precedes : Bool → Value → Value → Bool
  precedes or_equal (str s) (str t) = text_order or_equal s t
  precedes or_equal (arr xs) (arr ys) = items_precede or_equal xs ys
  precedes or_equal v w = number_order or_equal (as_number v) (as_number w)

  pub items_precede : Bool → Items → Items → Bool
  items_precede or_equal nil nil = or_equal
  items_precede or_equal nil (cons w ys) = true
  items_precede or_equal (cons v xs) nil = false
  items_precede or_equal (cons v xs) (cons w ys) =
      let here = precedes or_equal v w in
      let rest = items_precede or_equal xs ys in if same_value v w then rest else here

unfoldable pub starts_with : String → String → Bool
starts_with s String.[] = true
starts_with String.[] (String.◌∷◌ d t) = false
starts_with (String.◌∷◌ c s) (String.◌∷◌ d t) = code c =ℕ code d && starts_with s t

-- t in s
unfoldable pub within : String → String → Bool
within t String.[] = starts_with String.[] t
within t (String.◌∷◌ c s) = starts_with (String.◌∷◌ c s) t || within t s

unfoldable pub item_of : Value → Items → Bool
item_of v nil = false
item_of v (cons w xs) = same_value v w || item_of v xs

-- v in w
unfoldable pub value_in : Value → Value → Bool
value_in v (arr xs) = item_of v xs
value_in (str t) (str s) = within t s
value_in (str k) (obj d) = elim (get d k) [ none ↦ false | some w ↦ true ]
value_in _ _ = false

-- path.split(".")
abbrev pub grown : Char → List String → List String
grown c [] = String.◌∷◌ c String.[] ∷ []
grown c (w ∷ ws) = String.◌∷◌ c w ∷ ws

unfoldable pub split : String → List String
split String.[] = "" ∷ []
split (String.◌∷◌ c s) = let rest = split s in if code c =ℕ 46 then "" ∷ rest else grown c rest

unfoldable pub walk : Value → List String → Value
walk v [] = v
walk (obj d) (p ∷ ps) = elim (get d p) [ none ↦ null | some v ↦ walk v ps ]
walk _ (p ∷ ps) = null

-- `_field`
unfoldable pub value_at : Fields → String → Value
unfolding split walk
value_at context path = walk (obj context) (split path)

unfoldable pub compared : Operator → Value → Value → Bool
compared eq actual expected = same_value actual expected
compared ne actual expected = not (same_value actual expected)
compared lt actual expected = precedes false actual expected
compared lte actual expected = precedes true actual expected
compared gt actual expected = precedes false expected actual
compared gte actual expected = precedes true expected actual
compared Operator.contains actual expected = value_in expected actual
compared in_ actual expected = value_in actual expected

-- `_check`, the Boolean of its pair
unfoldable pub check_passes : Fields → String → Check → Bool
unfolding compared value_at
check_passes context result_status c =
    let actual =
      if c.name == "__result_status__" then str result_status else value_at context c.name in
    compared c.operator actual c.value

unfoldable pub failed_checks : Fields → String → List Check → List String
failed_checks context result_status [] = []
failed_checks context result_status (c ∷ cs) =
    let rest = failed_checks context result_status cs in
    if check_passes context result_status c then rest else c.description ∷ rest

-- `_observation_context`
unfoldable pub observation_context : List Observation → Fields → Fields
observation_context [] context = context
observation_context (o ∷ os) context = observation_context os (update context o.facts)

-- s.removeprefix(p)
abbrev pub removed_prefix : String → String → Option String
removed_prefix s String.[] = some s
removed_prefix String.[] (String.◌∷◌ d t) = none
removed_prefix (String.◌∷◌ c s) (String.◌∷◌ d t) =
    if code c =ℕ code d then removed_prefix s t else none

unfoldable pub remove_prefix : String → String → String
remove_prefix s p = elim (removed_prefix s p) [ none ↦ s | some rest ↦ rest ]
