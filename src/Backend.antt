-- ===== src/Backend.antt =====
-- agent/src/backend.rs: the error of a request, and the result of one.
use proton_vpn_omarchy_core.Base.{Bool, false, String, Option, none, some}
use proton_vpn_omarchy_core.Json.{Value}

pub record BackendError : Type 0 where
  pub code : String
  pub message : String
  pub details : Option Value
  pub retryable : Bool

pub data Result {ℓ} (A : Type ℓ) : Type ℓ where
  ok : A → Result A
  err : BackendError → Result A

infixl 5 ◌>>=◌
abbrev pub ◌>>=◌ {ℓ κ} : {A : Type ℓ} {B : Type κ} → Result A → (A → Result B) → Result B
ok a >>= f = f a
err e >>= f = err e

-- `BackendError::new`, `with_details` and `retryable`.
abbrev pub new_error : String → String → BackendError
new_error code message = record {
  code = code;
  message = message;
  details = none;
  retryable = false;
}

abbrev pub with_details : BackendError → Value → BackendError
with_details e details = record e { details = some details }

abbrev pub set_retryable : BackendError → Bool → BackendError
set_retryable e retryable = record e { retryable = retryable }

-- What `as_ref().map(|_| ())` hands to `finish`: the error, if there is one.
abbrev pub failure_of {ℓ} : {A : Type ℓ} → Result A → Option BackendError
failure_of (ok a) = none
failure_of (err e) = some e
