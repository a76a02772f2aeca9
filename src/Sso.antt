-- ===== src/Sso.antt =====
-- Single sign-on: internal/service/sso.go and sso_oidc.go. Discovery, the exchange of a code and the
-- verification of its token are the OpenID library's, and arguments here.
pub mod Handlers
pub mod Provisioned
pub mod Exchanged
mod Tests
use gaty.Prelude.{
  ℕ, String, Option, none, some, List, [], ◌∷◌, map, Bool, true, false, not, ◌&&◌, ◌||◌, is_empty,
  str_eq, ltb, codes, zero, suc, if◌then◌else◌,
}
use gaty.Errors.{
  Err, Result, ok, err, wrap, message, root, not_found, already_exists, sso_not_configured,
  sso_invalid_state, sso_access_denied,
}
use gaty.Json.{Json, Fields, field, end, lookup}
use gaty.Redis.{Redis, Fate, answered, lost_before, lost_after, ◌▹◌}
use gaty.Trigger.{Role, admin, member}
use gaty.Access.{Member}
use gaty.Accounts as Members
use gaty.Accounts.{Accounts}
use gaty.Accounts.Credentials as Credentials
use gaty.Accounts.Service.{New}
use gaty.Auth.{State, byte_length}
use gaty.Auth.Tokens.{text_field, or_empty}
use gaty.Auth.Refresh.{get_del}

pub record SsoIdentity : Type 0 where
  pub subject : String
  pub email : String
  pub display_name : String
  pub claims : Fields

-- without the secret and the scopes, which only the library reads
pub record SsoProviderConfig : Type 0 where
  pub id : String
  pub name : String
  pub type : String
  pub client_id : String
  pub issuer : String
  pub auth_endpoint : String
  pub token_endpoint : String
  pub jwks_url : String
  pub auto_provision : Bool
  pub default_role : String
  pub role_claim : String
  pub role_mapping : List (String × String)

pub record PublicSsoProvider : Type 0 where
  pub id : String
  pub name : String
  pub type : String

-- `NewSSOService` and `SetProviders`: a role by default
unfoldable pub set_providers : List SsoProviderConfig → List SsoProviderConfig
set_providers [] = []
set_providers (p ∷ ps) =
    (if str_eq p.default_role "" then record p { default_role = "MEMBER" } else p)
    ∷ set_providers ps

unfoldable pub find_provider : List SsoProviderConfig → String → Result SsoProviderConfig
find_provider [] id = err (message "provider not found")
find_provider (p ∷ ps) id = let rest = find_provider ps id in if str_eq p.id id then ok p else rest

-- `ListPublicProviders`
unfoldable pub list_public_providers : List SsoProviderConfig → Result (List PublicSsoProvider)
list_public_providers [] = err sso_not_configured
list_public_providers (p ∷ ps) =
    ok (map (λ q. record { id = q.id; name = q.name; type = q.type }) (p ∷ ps))

-- `newOIDCProvider`: whether there is a provider; `discover` asks an issuer for its endpoints
unfoldable pub new_oidc_provider :
    (String → Result (Unit {0})) → SsoProviderConfig → Result (Unit {0})
new_oidc_provider discover cfg =
    if str_eq cfg.client_id ""
    then err sso_not_configured
    else if not (str_eq cfg.auth_endpoint "") && not (str_eq cfg.token_endpoint "")
    then if str_eq cfg.jwks_url ""
      then err (message "jwks_uri is required when using manual OAuth2 endpoints")
      else ok tt
    else if str_eq cfg.issuer ""
    then err sso_not_configured
    else discover cfg.issuer

-- `newProvider`
unfoldable pub new_provider : (String → Result (Unit {0})) → SsoProviderConfig → Result (Unit {0})
unfolding new_oidc_provider
new_provider discover cfg =
    if str_eq cfg.type "oidc" || str_eq cfg.type ""
    then new_oidc_provider discover cfg
    else err (message "unsupported SSO provider type")

-- the provider that a request names, ready for use
unfoldable pub open_provider :
    (String → Result (Unit {0})) → List SsoProviderConfig → String → Result SsoProviderConfig
unfolding find_provider new_provider
open_provider discover [] id = err sso_not_configured
open_provider discover (p ∷ ps) id = elim (find_provider (p ∷ ps) id) [
  | err e ↦ err sso_not_configured
  | ok cfg ↦ elim (new_provider discover cfg) [
    | err e ↦ err (wrap "init SSO provider" e)
    | ok _ ↦ ok cfg
  ]
]

unfoldable pub find_mapping : String → List (String × String) → Option String
find_mapping claim [] = none
find_mapping claim (m ∷ ms) =
    let rest = find_mapping claim ms in if str_eq m.0 claim then some m.1 else rest

-- the role that a claim is mapped to
unfoldable pub mapped_role : SsoProviderConfig → SsoIdentity → String
unfolding text_field find_mapping
mapped_role cfg identity =
    if str_eq cfg.role_claim ""
    then cfg.default_role
    else elim (text_field cfg.role_claim identity.claims) [
      | none ↦ cfg.default_role
      | some claim ↦ elim (find_mapping claim cfg.role_mapping) [
        | none ↦ cfg.default_role
        | some role ↦ role
      ]
    ]

-- the CHECK of the column `role`
unfoldable pub role_of : String → Option Role
role_of role =
    if str_eq role "ADMIN" then some admin else if str_eq role "MEMBER" then some member else none

-- `members.Create` with a role that is a text
unfoldable pub create_member :
    New → String → Option String → String → Accounts → Result (Accounts × Member)
unfolding role_of Members.create
create_member new username display_name role db = elim (role_of role) [
  | none ↦ err (wrap "create member" (message "check violation"))
  | some r ↦ Members.create new.member_id new.now username display_name r db
]

abbrev pub take_text : ℕ → String → String
take_text zero s = String.[]
take_text (suc n) String.[] = String.[]
take_text (suc n) (String.◌∷◌ c s) = String.◌∷◌ c (take_text n s)

-- the first eight bytes of a subject in ASCII
abbrev pub suffix_of : String → String
suffix_of subject = if ltb 8 (byte_length (codes subject)) then take_text 8 subject else subject

abbrev pub username_of : SsoIdentity → String
username_of i = if str_eq i.email "" then i.subject else i.email

abbrev pub given : String → Option String
given s = if str_eq s "" then none else some s

-- a member under the identity's name, or under the name with a suffix if it is taken
unfoldable pub create_named : New → String → SsoIdentity → Accounts → Result (Accounts × Member)
unfolding create_member
create_named new role i db =
    elim (create_member new (username_of i) (given i.display_name) role db) [
      | ok made ↦ ok made
      | err e ↦ elim (root e) [
        | already_exists ↦
            create_member new (username_of i ▹ "_" ▹ suffix_of i.subject) (given i.display_name)
              role db
        | _ ↦ err e
      ]
    ]

-- a member and the credential of the identity
unfoldable pub provision :
    New → SsoProviderConfig → SsoIdentity → Accounts → Accounts × Result Member
unfolding mapped_role create_named Credentials.create
provision new cfg i db = elim (create_named new (mapped_role cfg i) i db) [
  | err e ↦ (db, err (wrap "create member" e))
  | ok (db', m) ↦
      elim (Credentials.create new.credential_id new.now m.id "SSO_IDENTITY" i.subject none none
        (field "email" (Json.str i.email) (field "issuer" (Json.str cfg.issuer) end)) db') [
          | err e ↦ (db', err (wrap "create sso identity credential" e))
          | ok (db'', _) ↦ (db'', ok m)
        ]
]

-- `resolveOrProvision`
unfoldable pub resolve_or_provision :
    New → SsoProviderConfig → SsoIdentity → Accounts → Accounts × Result Member
unfolding Credentials.find_by_sso_identity Members.get_by_id provision
resolve_or_provision new cfg i db = elim (Credentials.find_by_sso_identity i.subject db) [
  | ok c ↦ (db, Members.get_by_id c.member_id db)
  | err e ↦ elim (root e) [
    | not_found ↦
        if not cfg.auto_provision then (db, err sso_access_denied) else provision new cfg i db
    | _ ↦ (db, err (wrap "lookup sso identity" e))
  ]
]

-- the identity of a token's subject and claims
abbrev pub identity_of : String → Fields → SsoIdentity
identity_of subject claims = record {
  subject = subject;
  email = or_empty (text_field "email" claims);
  display_name = or_empty (text_field "name" claims);
  claims = claims;
}

-- The library: the issuer's endpoints, the random state, and the subject and claims of the verified
-- token that a code is exchanged for. `state_gate` reads the stored state, "" if it does not parse.
pub record Oidc : Type 0 where
  pub discover : String → Result (Unit {0})
  pub random_state : Result String
  pub auth_code_url : SsoProviderConfig → String → String
  pub redeem_code : SsoProviderConfig → String → Result (String × Fields)
  pub state_text : String → String
  pub state_gate : String → String

abbrev pub state_key : String → String
state_key state = "sso:state:" ▹ state

module _ (r : Redis) (o : Oidc) where
  -- `AuthURL`
  unfoldable pub auth_url : Fate → SsoProviderConfig → String → r.Store → r.Store × Result String
  auth_url f cfg gate_id s = elim o.random_state [
    | err e ↦ (s, err (wrap "generate state" e))
    | ok state ↦ elim f [
      | answered ↦
          (r.set (state_key state) (o.state_text gate_id) s, ok (o.auth_code_url cfg state))
      | lost_before ↦ (s, err (wrap "store SSO state" (message "redis")))
      | lost_after ↦ (
        r.set (state_key state) (o.state_text gate_id) s,
        err (wrap "store SSO state" (message "redis")),
      )
    ]
  ]

  -- `GenerateAuthURL`
  unfoldable pub generate_auth_url :
      Fate → List SsoProviderConfig → String → String → r.Store → r.Store × Result String
  unfolding open_provider auth_url
  generate_auth_url f providers id gate_id s = elim (open_provider o.discover providers id) [
    | err e ↦ (s, err e)
    | ok cfg ↦ auth_url f cfg gate_id s
  ]

  -- `ConsumeState`
  unfoldable pub consume_state : Fate → String → r.Store → r.Store × String
  unfolding get_del
  consume_state f state s =
      if str_eq state ""
      then (s, "")
      else let taken = get_del r f (state_key state) s in
        (taken.0, elim taken.1 [ none ↦ "" | some v ↦ o.state_gate v ])

  -- `Exchange`
  unfoldable pub exchange :
      Fate → SsoProviderConfig → String → String → r.Store → r.Store × Result (SsoIdentity × String)
  unfolding get_del
  exchange f cfg code state s =
      let taken = get_del r f (state_key state) s in
      (
        taken.0,
        elim taken.1 [
          | none ↦ err sso_invalid_state
          | some v ↦ elim (o.redeem_code cfg code) [
            | err e ↦ err e
            | ok (subject, claims) ↦ ok (identity_of subject claims, o.state_gate v)
          ]
        ],
      )

  -- `Callback`: the member and the gate of the state, which an error loses only before the exchange
  unfoldable pub callback :
      Fate
      → New
      → List SsoProviderConfig
      → String
      → String
      → String
      → State r
      → State r × String × Result Member
  unfolding open_provider exchange resolve_or_provision
  callback f new providers id code state st = elim (open_provider o.discover providers id) [
    | err e ↦ (st, "", err e)
    | ok cfg ↦
        let exchanged = exchange f cfg code state st.store in
        elim exchanged.1 [
          | err e ↦ (record { accounts = st.accounts; store = exchanged.0 }, "", err e)
          | ok (i, gate_id) ↦
              let resolved = resolve_or_provision new cfg i st.accounts in
              (record { accounts = resolved.0; store = exchanged.0 }, gate_id, resolved.1)
        ]
  ]
