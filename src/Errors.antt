-- ===== src/Errors.antt =====
-- src/app/shared/errors.py: the error hierarchy, as values. `Result` is what a method that may
-- raise returns.
use softbox_ai.Prelude.{◌≡◌, refl, String, Option, none, some, Bool, true, false, ◌<+>◌}

-- A constructor for each class, with the message. Of Python's own exceptions: `value_error`,
-- `key_error`, `not_implemented` (`NotImplementedError`), `assertion_error`, and `empty_max`, the
-- `ValueError` of `max()` over nothing. `integrity_error` is a violated constraint of the database.
pub data AppError : Type 0 where
  validation_error not_found conflict authentication permission_denied : String → AppError
  quota_exceeded rate_limited unavailable value_error key_error empty_max integrity_error :
      String → AppError
  not_implemented assertion_error : String → AppError

-- The class attribute `code`; a built-in exception has none.
pub code : AppError → String
code (validation_error _) = "validation_error"
code (not_found _) = "not_found"
code (conflict _) = "conflict"
code (authentication _) = "unauthenticated"
code (permission_denied _) = "permission_denied"
code (quota_exceeded _) = "quota_exceeded"
code (rate_limited _) = "rate_limited"
code (unavailable _) = "unavailable"
code (value_error _) = ""
code (key_error _) = ""
code (empty_max _) = ""
code (integrity_error _) = ""
code (not_implemented _) = ""
code (assertion_error _) = ""

pub data Result {ℓ} (A : Type ℓ) : Type ℓ where
  ok : A → Result A
  err : AppError → Result A

-- `if x is None: raise e`.
abbrev pub require {ℓ} : {A : Type ℓ} → Option A → AppError → Result A
require none e = err e
require (some a) e = ok a

-- `if not passed: raise failure`.
abbrev pub guard : Bool → AppError → Result (Unit {0})
guard false failure = err failure
guard true failure = ok tt

infixl 5 ◌>>=◌
abbrev pub ◌>>=◌ {ℓ κ} : {A : Type ℓ} {B : Type κ} → Result A → (A → Result B) → Result B
err failure >>= rest = err failure
ok a >>= rest = rest a

infixl 5 ◌>>◌
abbrev pub ◌>>◌ {ℓ} : {A : Type ℓ} → Result (Unit {0}) → Result A → Result A
checked >> rest = checked >>= λ passed. rest

-- The message of a refused transition, `Cannot <act> from status '<status>'.`
pub cannot : String → String → AppError
cannot act status = validation_error ("Cannot " <+> act <+> " from status '" <+> status <+> "'.")

-- Inversion of a call that returned.
pub require-eq_ok {ℓ} :
    {A : Type ℓ} (o : Option A) (e : AppError) (a : A) → require o e ≡ ok a → o ≡ some a
require-eq_ok none e a h = cc
require-eq_ok (some b) e a h = cc

pub >>=-eq_ok {ℓ κ} :
    {A : Type ℓ} {B : Type κ} (m : Result A) (f : A → Result B) (b : B)
    → (m >>= f) ≡ ok b
    → (a : A) × (m ≡ ok a) × (f a ≡ ok b)
>>=-eq_ok (ok a) f b h = (a, refl, h)
>>=-eq_ok (err e) f b h = cc

pub guard-eq_ok : (c : Bool) (e : AppError) → guard c e ≡ ok tt → c ≡ true
guard-eq_ok true e h = refl
guard-eq_ok false e h = cc

pub ok_inj {ℓ} : {A : Type ℓ} (a b : A) → ok a ≡ ok b → a ≡ b
ok_inj a b h = cc
