-- ===== src/Base/Errors.antt =====
-- The exceptions that the program raises and tells apart, and the results that carry them.
-- `DeviceException` and `ControlRejected` are subclasses of `ValueError`, `SessionUnavailable`
-- of `ConnectionError`; a handler that catches the base class is a test on the constructors.
use Prim.Native.Nat.{ℕ}
use Prim.Native.String.{String}
use mathlib.Core.Path.{◌≡◌, refl, subst}
use mathlib.Core.Bool.{Bool, true, false}
use mathlib.Core.Logic.{◌⊎◌, inl, inr}

pub data Error : Type 0 where
  value_error : String → Error
  device_exception : ℕ → Error
  control_rejected : String → Error
  session_unavailable : String → Error
  connection_error : String → Error
  home_assistant_error : String → Error
  runtime_error : String → Error
  os_error : String → Error
  zero_division_error : Error
  type_error : Error
  timeout_error : Error
  cancelled_error : Error

pub data Result {ℓ} (A : Type ℓ) : Type ℓ where
  ok : A → Result A
  err : Error → Result A

-- `isinstance(error, ValueError)`
abbrev pub is_value_error : Error → Bool
is_value_error (value_error _) = true
is_value_error (device_exception _) = true
is_value_error (control_rejected _) = true
is_value_error _ = false

-- `isinstance(error, OSError)`: a timeout and a connection error are subclasses of it
abbrev pub is_os_error : Error → Bool
is_os_error (os_error _) = true
is_os_error (connection_error _) = true
is_os_error (session_unavailable _) = true
is_os_error timeout_error = true
is_os_error _ = false

-- `isinstance(error, HomeAssistantError)`
abbrev pub is_home_assistant_error : Error → Bool
is_home_assistant_error (home_assistant_error _) = true
is_home_assistant_error _ = false

-- `isinstance(error, ControlRejected)`
abbrev pub is_control_rejected : Error → Bool
is_control_rejected (control_rejected _) = true
is_control_rejected _ = false

-- the statements after a call: an error ends them
infixl 5 ◌>>=◌ ◌>>◌
abbrev pub ◌>>=◌ {κ ℓ} : {S : Type κ} {T : Type ℓ} → Result S → (S → Result T) → Result T
err raised >>= rest = err raised
ok value >>= rest = rest value

abbrev pub ◌>>◌ {κ} : {T : Type κ} → Result (Unit {0}) → Result T → Result T
first >> rest = first >>= λ done. rest

-- `if not condition: raise ValueError(message)`
abbrev pub require : Bool → String → Result (Unit {0})
require true m = ok tt
require false m = err (value_error m)

pub Result-cases {ℓ} :
    {A : Type ℓ} (r : Result A) → ((a : A) × (r ≡ ok a)) ⊎ ((e : Error) × (r ≡ err e))
Result-cases (ok a) = inl (a, refl)
Result-cases (err e) = inr (e, refl)

-- a property of a result's value, where there is one
abbrev pub OnOk {ℓ κ} : {A : Type ℓ} → (A → Type κ) → Result A → Type κ
OnOk P (ok a) = P a
OnOk P (err e) = Unit

pub of-OnOk {ℓ κ} : {A : Type ℓ} (P : A → Type κ) {r : Result A} {a : A} → OnOk P r → r ≡ ok a → P a
of-OnOk P h e = subst (OnOk P) e h

pub bind-OnOk :
    {A B : Type 0} (P : B → Type 0) (r : Result A) (f : A → Result B)
    → ((a : A) → r ≡ ok a → OnOk P (f a))
    → OnOk P (r >>= f)
bind-OnOk P (ok a) f h = h a refl
bind-OnOk P (err e) f h = tt
