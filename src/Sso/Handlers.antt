-- ===== src/Sso/Handlers.antt =====
-- internal/handler/sso.go: the redirects of the callback, and the one-time code behind which the
-- tokens wait. `frontend_callback_url` is a URL of the frontend with a code, a gate and an error.
use gaty.Prelude.{ℕ, String, Option, none, some, List, [], Bool, not, str_eq, ℤ, pos, if◌then◌else◌}
use gaty.Errors.{
  Result, ok, err, root, message, sso_not_configured, sso_invalid_state, sso_access_denied,
}
use gaty.Http.{Reply, refused, done}
use gaty.Json.{Json, Fields, lookup}
use gaty.Redis.{Redis, Fate, answered, lost_before, lost_after, ◌▹◌}
use gaty.Access.{Member}
use gaty.Pin.Session.{TokenPair, seconds}
use gaty.Accounts.Service.{New}
use gaty.Auth.{State, MemberTokens, issue_token_pair}
use gaty.Auth.Tokens.{Run, panicked, returned, text_field, or_empty}
use gaty.Auth.Refresh.{Floats, get_del}
use gaty.Auth.Handlers.{set_auth_cookies}
use gaty.Sso.{
  Oidc, SsoProviderConfig, PublicSsoProvider, list_public_providers, generate_auth_url,
  consume_state, callback,
}

-- `ListProviders`
unfoldable pub list_providers : List SsoProviderConfig → Reply (List PublicSsoProvider)
unfolding list_public_providers
list_providers providers = elim (list_public_providers providers) [
  | ok ps ↦ done ps
  | err e ↦ elim (root e) [
    | sso_not_configured ↦ done []
    | _ ↦ refused 500 "failed to list SSO providers"
  ]
]

-- the libraries of the handler: a random code, and JSON
pub record Codes : Type 0 where
  pub random : Result String
  pub encode : TokenPair → ℕ → String → String
  pub unmarshal : String → Option Fields
  pub floats : Floats

abbrev pub code_key : String → String
code_key code = "sso:code:" ▹ code

pub record ExchangeOutput : Type 0 where
  pub cookies : String × String
  pub type : String
  pub member_id : String
  pub gate_id : String

-- the lifetime that a stored code carries
unfoldable pub stored_duration : Floats → Fields → ℤ
unfolding seconds
stored_duration fl payload = elim (lookup "session_duration" payload) [
  | some (Json.num sec) ↦ seconds (fl.truncate sec)
  | _ ↦ pos 0
]

-- the tokens of a stored code, without a lifetime of the access token
unfoldable pub stored_tokens : Floats → Fields → Run TokenPair
unfolding text_field stored_duration
stored_tokens fl payload = elim (text_field "access_token" payload) [
  | none ↦ panicked
  | some access ↦ elim (text_field "refresh_token" payload) [
    | none ↦ panicked
    | some refresh ↦ returned (record {
      access_token = access;
      refresh_token = refresh;
      session_duration = stored_duration fl payload;
      access_token_ttl = pos 0;
    })
  ]
]

module _ (r : Redis) (k : Codes) (decimal : ℤ → String) (secure : Bool) where
  -- `storeSSOCode`
  unfoldable pub store_sso_code : Fate → TokenPair → ℕ → String → r.Store → r.Store × Result String
  store_sso_code f tokens member_id gate_id s = elim k.random [
    | err e ↦ (s, err e)
    | ok code ↦ elim f [
      | answered ↦ (r.set (code_key code) (k.encode tokens member_id gate_id) s, ok code)
      | lost_before ↦ (s, err (message "redis"))
      | lost_after ↦
          (r.set (code_key code) (k.encode tokens member_id gate_id) s, err (message "redis"))
    ]
  ]

  -- `Exchange`: a code is redeemed once
  unfoldable pub handle_exchange : Fate → String → r.Store → r.Store × Run (Reply ExchangeOutput)
  unfolding get_del stored_tokens set_auth_cookies text_field
  handle_exchange f code s =
      let taken = get_del r f (code_key code) s in
      (
        taken.0,
        elim taken.1 [
          | none ↦ returned (refused 401 "invalid or expired code")
          | some val ↦ elim (k.unmarshal val) [
            | none ↦ returned (refused 500 "corrupt code payload")
            | some payload ↦ elim (stored_tokens k.floats payload) [
              | panicked ↦ panicked
              | returned tokens ↦ returned (
                  done (record {
                    cookies = set_auth_cookies decimal tokens secure;
                    type = "local";
                    member_id = or_empty (text_field "member_id" payload);
                    gate_id = or_empty (text_field "gate_id" payload);
                  }))
            ]
          ]
        ],
      )

  module _ (o : Oidc) (frontend_callback_url : String → String → String → String) where
    -- `Authorize`: where the browser is sent
    unfoldable pub authorize :
        Fate → List SsoProviderConfig → String → String → r.Store → r.Store × String
    unfolding generate_auth_url
    authorize f providers id gate_id s =
        let made = generate_auth_url r o f providers id gate_id s in
        (
          made.0,
          elim made.1 [
            | ok url ↦ url
            | err e ↦ elim (root e) [
              | sso_not_configured ↦ frontend_callback_url "" gate_id "not_configured"
              | _ ↦ frontend_callback_url "" gate_id "config_error"
            ]
          ],
        )

    -- the end of the callback for a member who is known
    unfoldable pub admit_sso :
        MemberTokens → Fate → Fate → ℕ → ℤ → Member → String → State r → State r × String
    unfolding issue_token_pair store_sso_code
    admit_sso t g h now duration m gate_id st =
        let issued = issue_token_pair r t g now m.id m.role duration st.store in
        let stored : r.Store × Result String = elim issued.1 [
          | err e ↦ (issued.0, err e)
          | ok tokens ↦ store_sso_code h tokens m.id gate_id issued.0
        ] in
        (
          record { accounts = st.accounts; store = stored.0 },
          elim stored.1 [
            | err e ↦ frontend_callback_url "" gate_id "server_error"
            | ok code ↦ frontend_callback_url code gate_id ""
          ],
        )

    -- `Callback`, with the fates of the state, the refresh token and the code
    unfoldable pub handle_callback :
        MemberTokens
        → Fate
        → Fate
        → Fate
        → New
        → ℤ
        → List SsoProviderConfig
        → String
        → String
        → String
        → String
        → State r
        → State r × String
    unfolding consume_state callback admit_sso
    handle_callback t f g h new duration providers id code state error st =
        if not (str_eq error "")
        then (let consumed = consume_state r o f state st.store in
            (
              record { accounts = st.accounts; store = consumed.0 },
              frontend_callback_url "" consumed.1 error,
            ))
        else let (st', gate_id, result) = callback r o f new providers id code state st in
          elim result [
            | ok m ↦ admit_sso t g h new.now duration m gate_id st'
            | err e ↦ elim (root e) [
              | sso_invalid_state ↦ (st', frontend_callback_url "" "" "invalid_state")
              | sso_access_denied ↦ (st', frontend_callback_url "" gate_id "access_denied")
              | _ ↦ (st', frontend_callback_url "" gate_id "server_error")
            ]
          ]
