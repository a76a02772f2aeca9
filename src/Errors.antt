-- ===== src/Errors.antt =====
-- internal/model/errors.go and the sentinel errors of internal/service, as values. `wrap` is
-- `fmt.Errorf("…: %w", …)`, which `errors.Is` sees through.
use gaty.Prelude.{◌≡◌, refl, ◌⊎◌, inl, inr, Bool, true, false, String}
use gaty.Schedule.Expr.{ExprError}

pub data Err : Type 0 where
  not_found already_exists unauthorized : Err
  schedule_denied : Err
  invalid_pin too_many_attempts max_uses_exceeded invalid_session : Err
  invalid_credentials username_taken invalid_token weak_password : Err
  sso_not_configured sso_invalid_state sso_access_denied : Err
  invalid_expr : ExprError → Err
  wrap : String → Err → Err
  message : String → Err

-- `errors.Is(err, model.ErrNotFound)`
abbrev pub is_not_found : Err → Bool
is_not_found not_found = true
is_not_found (wrap _ e) = is_not_found e
is_not_found _ = false

-- what is under the wrappings: `errors.Is(err, e)` holds where it is `e`
abbrev pub root : Err → Err
root (wrap _ e) = root e
root e = e

-- A Go pair `(T, error)` of which one half is meaningful.
pub data Result {ℓ} (Value : Type ℓ) : Type ℓ where
  err : Err → Result Value
  ok : Value → Result Value

-- `if err != nil { return fmt.Errorf("…: %w", err) }`
abbrev pub wrapping {ℓ} : {Value : Type ℓ} → String → Result Value → Result Value
wrapping s (err e) = err (wrap s e)
wrapping s (ok v) = ok v

-- `if err != nil { return err }`, with the value
infixl 5 ◌>>=◌ ◌>>◌
abbrev pub ◌>>=◌ {ℓ κ} :
    {Value : Type ℓ} {Next : Type κ} → Result Value → (Value → Result Next) → Result Next
err e >>= next = err e
ok v >>= next = next v

-- and without one
abbrev pub ◌>>◌ {ℓ} : {Next : Type ℓ} → Result (Unit {0}) → Result Next → Result Next
err e >> next = err e
ok _ >> next = next

pub Result-cases {ℓ} :
    {Value : Type ℓ} (x : Result Value) → ((v : Value) × (x ≡ ok v)) ⊎ ((e : Err) × (x ≡ err e))
Result-cases (ok v) = inl (v, refl)
Result-cases (err e) = inr (e, refl)
