-- ===== src/Security/Roles.antt =====
-- `require_any_role` and `require_all_roles` of backend/app/security.py, and the comparison of two
-- subjects by `str.lower()`, for user names in ASCII.
use Prim.Native.Char.{code}
use shou_ba_shou_jiaoxue_ai.Prelude.{
  ℕ, ◌+◌, String, ◌≡◌, refl, Bool, true, false, ◌&&◌, ◌||◌, List, [], ◌∷◌, arith, leb, ◌=ℕ◌,
  if◌then◌else◌, contains,
}
use shou_ba_shou_jiaoxue_ai.Schemas.{UserIdentity}
use shou_ba_shou_jiaoxue_ai.Result.{Result, guard, authorization_error}

-- s.lower(), as code points.
lower : String → List ℕ
lower String.[] = []
lower (String.◌∷◌ c s) =
    (if leb b'A' (code c) && leb (code c) b'Z' then code c + 32 else code c) ∷ lower s

same_codes : List ℕ → List ℕ → Bool
same_codes [] [] = true
same_codes (x ∷ xs) (y ∷ ys) = x =ℕ y && same_codes xs ys
same_codes _ _ = false

-- a.lower() == b.lower()
unfoldable pub same_subject : String → String → Bool
unfolding lower same_codes
same_subject a b = same_codes (lower a) (lower b)

same_codes_refl : (xs : List ℕ) → same_codes xs xs ≡ true
unfolding same_codes
same_codes_refl [] = refl
same_codes_refl (x ∷ xs) = ground (arith, same_codes_refl xs)

same_codes_sym : (xs ys : List ℕ) → same_codes xs ys ≡ same_codes ys xs
unfolding same_codes
same_codes_sym [] [] = refl
same_codes_sym [] (y ∷ ys) = refl
same_codes_sym (x ∷ xs) [] = refl
same_codes_sym (x ∷ xs) (y ∷ ys) = ground (arith, same_codes_sym xs ys)

pub same_subject_refl : (a : String) → same_subject a a ≡ true
unfolding same_subject
same_subject_refl a = same_codes_refl (lower a)

pub same_subject_sym : (a b : String) → same_subject a b ≡ same_subject b a
unfolding same_subject
same_subject_sym a b = same_codes_sym (lower a) (lower b)

-- set(required) <= set(held)
unfoldable pub includes : List String → List String → Bool
includes [] held = true
includes (r ∷ required) held = contains held r && includes required held

-- required.intersection(held)
unfoldable pub meets : List String → List String → Bool
meets [] held = false
meets (r ∷ required) held = contains held r || meets required held

is_empty : List String → Bool
is_empty [] = true
is_empty (x ∷ xs) = false

-- Whether each check passes: an admin passes both, and an empty requirement holds nobody back.
unfoldable pub has_any_role : UserIdentity → List String → Bool
unfolding is_empty
has_any_role user required =
    contains user.roles "admin" || (is_empty required || meets required user.roles)

unfoldable pub has_all_roles : UserIdentity → List String → Bool
has_all_roles user required = contains user.roles "admin" || includes required user.roles

unfoldable pub require_any_role : UserIdentity → List String → Result (Unit {0})
require_any_role user required =
    guard (has_any_role user required) (authorization_error "one of the roles is required")

unfoldable pub require_all_roles : UserIdentity → List String → Result (Unit {0})
require_all_roles user required =
    guard (has_all_roles user required) (authorization_error "all roles are required")
