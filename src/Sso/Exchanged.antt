-- ===== src/Sso/Exchanged.antt =====
-- What a one-time code gives: `Exchange` of internal/handler/sso.go.
use gaty.Prelude.{String, none, Bool, eq_iff, ℤ, pos, ◌≡◌, refl, arith, inl, inr, Option-cases}
use gaty.Http.{done}
use gaty.Redis.{Redis, answered}
use gaty.Auth.Tokens.{returned, text_field}
use gaty.Auth.Refresh.{get_del}
use gaty.Auth.Handlers.{cookie, whole_seconds, set_auth_cookies}
use gaty.Sso.Handlers.{Codes, ExchangeOutput, code_key, stored_tokens, handle_exchange}

module _ (r : Redis) (k : Codes) (decimal : ℤ → String) (secure : Bool) where
  -- A code whose exchange gives cookies is spent, and the cookie of the access token has a lifetime
  -- of 0 seconds, with which a browser drops it.
  pub handle_exchange-cookies :
      (code : String) (s : r.Store) (out : ExchangeOutput)
      → (handle_exchange r k decimal secure answered code s).1 ≡ returned (done out)
      → (r.get (handle_exchange r k decimal secure answered code s).0 (code_key code) ≡ none)
        × ((access : String) × (out.cookies.0
              ≡ cookie "gatie_access" access secure "/api" (decimal (pos 0))))
  unfolding handle_exchange get_del stored_tokens set_auth_cookies whole_seconds
  handle_exchange-cookies code s out h = (
    ground (
      arith,
      r.get-del (code_key code) (code_key code) s,
      (eq_iff (code_key code) (code_key code)).1 refl,
    ),
    elim (Option-cases (r.get s (code_key code))) [
      | inl q ↦ absurd (ground arith)
      | inr (val, q) ↦ elim (Option-cases (k.unmarshal val)) [
        | inl q' ↦ absurd (ground arith)
        | inr (payload, q') ↦ elim (Option-cases (text_field "access_token" payload)) [
          | inl a ↦ absurd (ground arith)
          | inr (access, a) ↦ elim (Option-cases (text_field "refresh_token" payload)) [
            | inl b ↦ absurd (ground arith)
            | inr (token, b) ↦ (access, ground arith)
          ]
        ]
      ]
    ],
  )
