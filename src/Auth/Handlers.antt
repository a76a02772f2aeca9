-- ===== src/Auth/Handlers.antt =====
-- internal/handler/auth.go and setup.go: the routes of logging in, refreshing, logging out, and of
-- the first set-up. `decimal` is the %d of package fmt.
use gaty.Prelude.{
  ℕ, ◌*◌, ◌/◌, String, Option, none, some, List, [], Bool, not, ◌==◌, str_eq, ℤ, pos, negsuc, leb_ℤ,
  ltb, ◌+◌, ◌-◌, if◌then◌else◌,
}
use gaty.Errors.{ok, err, root, invalid_credentials, invalid_token, weak_password}
use gaty.Http.{Reply, refused, done}
use gaty.Access.{Member, Identity}
use gaty.Redis.{Redis, ◌▹◌, Fate}
use gaty.Gate.{second}
use gaty.Pin.Session.{TokenPair}
use gaty.Accounts as Members
use gaty.Accounts.Service.{Secrets, New}
use gaty.Auth.{State, MemberTokens, Unicode, PasswordPolicy, login, register}
use gaty.Auth.Refresh.{Kit, RefreshResult, refresh, revoke_refresh_token}

-- `int(d.Seconds())`, which rounds toward 0
unfoldable pub whole_seconds : ℤ → ℤ
whole_seconds (pos n) = pos (n / second)
whole_seconds (negsuc n) = if ltb (n + 1) second then pos 0 else negsuc ((n + 1) / second - 1)

-- the lifetime of the refresh cookie: 90 days for a session without one
unfoldable pub refresh_max_age : TokenPair → ℤ
unfolding whole_seconds
refresh_max_age tokens =
    let given = whole_seconds tokens.session_duration in
    if leb_ℤ given (pos 0) then pos (90 * 24 * 60 * 60) else given

abbrev pub secure_flag : Bool → String
secure_flag secure = if secure then "; Secure" else ""

unfoldable pub cookie : String → String → Bool → String → String → String
cookie name value secure path max_age =
    name
    ▹ "="
    ▹ value
    ▹ "; HttpOnly"
    ▹ secure_flag secure
    ▹ "; SameSite=Lax; Path="
    ▹ path
    ▹ "; Max-Age="
    ▹ max_age

-- `setAuthCookies`
unfoldable pub set_auth_cookies : (ℤ → String) → TokenPair → Bool → String × String
unfolding cookie whole_seconds refresh_max_age
set_auth_cookies decimal tokens secure = (
  cookie "gatie_access" tokens.access_token secure "/api"
      (decimal (whole_seconds tokens.access_token_ttl)),
  cookie "gatie_refresh" tokens.refresh_token secure "/api/auth" (decimal (refresh_max_age tokens)),
)

-- `clearAuthCookies`
unfoldable pub clear_auth_cookies : Bool → String × String
unfolding cookie
clear_auth_cookies secure =
    (cookie "gatie_access" "" secure "/api" "0", cookie "gatie_refresh" "" secure "/api/auth" "0")

pub record AuthOutput : Type 0 where
  pub cookies : String × String
  pub type : String
  pub member : Member

pub record RefreshOutput : Type 0 where
  pub cookies : String × String
  pub type : String
  pub member : Option Member
  pub gate_id : Option ℕ
  pub permissions : List String

module _ (r : Redis) (decimal : ℤ → String) (secure : Bool) where
  -- `Login`
  unfoldable pub handle_login :
      Secrets → MemberTokens → Fate → ℕ → ℤ → String → String → State r → State r × Reply AuthOutput
  unfolding login set_auth_cookies
  handle_login x t f now duration username password st =
      let answer = login r x t f now duration username password st in
      (
        answer.0,
        elim answer.1 [
          | ok (tokens, m) ↦ done (record {
            cookies = set_auth_cookies decimal tokens secure;
            type = "member";
            member = m;
          })
          | err e ↦ elim (root e) [
            | invalid_credentials ↦ refused 401 "invalid credentials"
            | _ ↦ refused 500 "login failed"
          ]
        ],
      )

  -- the body of `Refresh`, by the type of what was refreshed
  unfoldable pub refresh_output : RefreshResult → RefreshOutput
  unfolding set_auth_cookies
  refresh_output x = record {
    cookies = set_auth_cookies decimal x.tokens secure;
    type = x.type;
    member = if str_eq x.type "member" then x.member else none;
    gate_id = if str_eq x.type "pin_session" then some x.gate_id else none;
    permissions = if str_eq x.type "pin_session" then x.permissions else [];
  }

  -- `Refresh`, with the value of the refresh cookie
  unfoldable pub handle_refresh :
      Kit → Fate → Fate → ℕ → String → State r → State r × Reply RefreshOutput
  unfolding refresh refresh_output
  handle_refresh k f g now token st =
      if str_eq token ""
      then (st, refused 401 "missing refresh token")
      else let answer = refresh r k f g now token st in
        (
          answer.0,
          elim answer.1 [
            | ok x ↦ done (refresh_output x)
            | err e ↦ elim (root e) [
              | invalid_token ↦ refused 401 "invalid or expired refresh token"
              | _ ↦ refused 500 "refresh failed"
            ]
          ],
        )

  -- `Logout`
  unfoldable pub handle_logout : Kit → Fate → String → State r → State r × Reply (String × String)
  unfolding revoke_refresh_token clear_auth_cookies
  handle_logout k f token st = (
    if str_eq token "" then st else revoke_refresh_token r k f token st,
    done (clear_auth_cookies secure),
  )

  -- `Me`
  unfoldable pub handle_me : Identity → State r → Reply Member
  unfolding Members.get_by_id
  handle_me i st =
      if i.member_id == 0
      then refused 401 "not authenticated"
      else elim (Members.get_by_id i.member_id st.accounts) [
        | ok m ↦ done m
        | err e ↦ refused 500 "failed to fetch member"
      ]

  -- `status` of the set-up: whether it is required
  unfoldable pub setup_status : State r → Reply Bool
  unfolding Members.has_any
  setup_status st = done (not (Members.has_any st.accounts))

  -- `init` of the set-up, which a mutex serialises
  unfoldable pub setup_init :
      Unicode
      → PasswordPolicy
      → Secrets
      → MemberTokens
      → Fate
      → New
      → ℤ
      → String
      → String
      → Option String
      → State r
      → State r × Reply AuthOutput
  unfolding Members.has_any register set_auth_cookies
  setup_init u p x t f new duration username password disp st =
      if Members.has_any st.accounts
      then (st, refused 409 "setup already completed")
      else let answer = register r u p x t f new duration username password disp st in
        (
          answer.0,
          elim answer.1 [
            | ok (tokens, m) ↦ done (record {
              cookies = set_auth_cookies decimal tokens secure;
              type = "member";
              member = m;
            })
            | err e ↦ elim (root e) [
              | weak_password ↦ refused 400 "weak password"
              | _ ↦ refused 500 "failed to create admin member"
            ]
          ],
        )
