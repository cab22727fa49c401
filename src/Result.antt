-- ===== src/Result.antt =====
-- Exceptions as values: `http_exception` is the HTTPException of ops_sandbox/app.py, with its status.
-- `Error` has the exception classes that the code raises or catches;
-- `LeaseLostError` is a subclass of `ConcurrencyError` in backend/app/store.py.
use shou_ba_shou_jiaoxue_ai.Prelude.{ℕ, String, ◌≡◌, refl, Bool, true, false}

pub data Error : Type 0 where
  key_error value_error authorization_error authentication_error : String → Error
  http_exception : ℕ → String → Error
  concurrency_error lease_lost_error integrity_error type_error : Error

-- `except ConcurrencyError`, which takes the subclass too.
abbrev pub is_concurrency : Error → Bool
is_concurrency concurrency_error = true
is_concurrency lease_lost_error = true
is_concurrency _ = false

-- What a call that may raise leaves: a value, or the exception.
pub data Result {ℓ} (A : Type ℓ) : Type ℓ where
  err : Error → Result A
  ok : A → Result A

-- `if not test: raise e`
abbrev pub guard : Bool → Error → Result (Unit {0})
guard false e = err e
guard true _ = ok tt

infixl 5 ◌>>=◌ ◌>>◌
abbrev pub ◌>>=◌ {ℓ κ} : {A : Type ℓ} {B : Type κ} → Result A → (A → Result B) → Result B
err e >>= next = err e
ok x >>= next = next x

abbrev pub ◌>>◌ {κ} : {B : Type κ} → Result (Unit {0}) → Result B → Result B
first >> next = first >>= (λ done. next)

-- What stands before a call that returned has returned too.
pub >>=-eq-ok {ℓ κ} :
    {A : Type ℓ} {B : Type κ} (call : Result A) (next : A → Result B) {value : B}
    → (call >>= next) ≡ ok value
    → (x : A) × (call ≡ ok x) × (next x ≡ ok value)
>>=-eq-ok (err raised) next returned = cc
>>=-eq-ok (ok x) next returned = (x, refl, returned)
