-- ===== src/Sso/Tests.antt =====
-- Single sign-on on a provider and a member: internal/service/sso.go and internal/handler/sso.go.
use gaty.Prelude.{List, String, none, some, [], ◌∷◌, true, false, ℤ, pos, ◌≡◌, refl}
use gaty.Errors.{ok}
use gaty.Json.{Json, Fields, field, end, lookup}
use gaty.Redis.{answered}
use gaty.Redis.InMemory.{Memory, in_memory, empty}
use gaty.Trigger.{member}
use gaty.Access.{Member, Credential, find_member}
use gaty.Accounts as Members
use gaty.Accounts.{Accounts}
use gaty.Accounts.Credentials as Credentials
use gaty.Accounts.Service.{New}
use gaty.Auth.Refresh.{get_del}
use gaty.Auth.Tokens.{text_field}
use gaty.Auth.Handlers.{cookie, set_auth_cookies}
use gaty.Sso.{
  SsoIdentity, SsoProviderConfig, resolve_or_provision, provision, create_named, create_member,
  mapped_role, role_of,
}
use gaty.Sso.Handlers.{Codes, ExchangeOutput, code_key, handle_exchange, stored_tokens}
use gaty.Pin.Session.{TokenPair}
use gaty.Sso.Provisioned.{
  Attempt, attempted, resolve_or_provision-stable, resolve_or_provision-again,
}
use gaty.Sso.Exchanged.{handle_exchange-cookies}

abbrev provider : SsoProviderConfig
provider = record {
  id = "a";
  name = "A";
  type = "oidc";
  client_id = "gatie";
  issuer = "https://a.example";
  auth_endpoint = "";
  token_endpoint = "";
  jwks_url = "";
  auto_provision = true;
  default_role = "MEMBER";
  role_claim = "";
  role_mapping = [];
}

-- another provider
abbrev other : SsoProviderConfig
other = record provider { id = "b"; issuer = "https://b.example"; auto_provision = false }

abbrev identity : SsoIdentity
identity = record { subject = "sub-1"; email = "ann@a.example"; display_name = "Ann"; claims = end }

abbrev new : New
new = record { member_id = 7; credential_id = 9; now = 3 }

abbrev ann : Member
ann = record {
  id = 7;
  username = "ann@a.example";
  display_name = some "Ann";
  role = member;
  created_at = 3;
}

abbrev linked : Credential
linked = record {
  id = 9;
  member_id = 7;
  type = "SSO_IDENTITY";
  hashed_value = "sub-1";
  label = none;
  expires_at = none;
  metadata =
      field "email" (Json.str "ann@a.example") (field "issuer" (Json.str "https://a.example") end);
  created_at = 3;
}

abbrev nobody : Accounts
nobody = record { members = []; credentials = [] }

abbrev accounts : Accounts
accounts = record { members = ann ∷ []; credentials = linked ∷ [] }

-- another subject with the same address, who is given a second account
abbrev callbacks : List Attempt
callbacks =
    record {
      new = record { member_id = 8; credential_id = 10; now = 4 };
      cfg = provider;
      identity = record identity { subject = "sub-2" };
    }
    ∷ []

resolve_or_provision-stable_example :
    resolve_or_provision new other identity (attempted callbacks accounts)
    ≡ (attempted callbacks accounts, ok ann)
unfolding Credentials.find_by_sso_identity Credentials.find_credential Members.get_by_id find_member
resolve_or_provision-stable_example =
    resolve_or_provision-stable callbacks new other identity accounts linked ann refl refl

resolve_or_provision-again_example :
    (true ≡ true) × (resolve_or_provision new other identity accounts ≡ (accounts, ok ann))
unfolding Credentials.find_by_sso_identity Credentials.find_credential resolve_or_provision
    provision create_named create_member mapped_role role_of Members.create Credentials.create
    Credentials.insert
resolve_or_provision-again_example =
    resolve_or_provision-again new new provider other identity nobody accounts ann refl refl

abbrev payload : Fields
payload = field "access_token" (Json.str "access") (field "refresh_token" (Json.str "refresh") end)

abbrev coded : Codes
coded = record {
  random = ok "code";
  encode = λ t i g. "{}";
  unmarshal = λ t. some payload;
  floats = record { is_zero = λ x. true; is_positive = λ x. false; truncate = λ x. pos 0 };
}

abbrev stored : Memory
stored = in_memory.set (code_key "code") "{}" empty

abbrev tokens : TokenPair
tokens = record {
  access_token = "access";
  refresh_token = "refresh";
  session_duration = pos 0;
  access_token_ttl = pos 0;
}

abbrev no_digits : ℤ → String
no_digits i = "0"

abbrev out : ExchangeOutput
out = record {
  cookies = set_auth_cookies no_digits tokens true;
  type = "local";
  member_id = "";
  gate_id = "";
}

handle_exchange-cookies_example :
    (in_memory.get
        (handle_exchange in_memory coded no_digits true answered "code" stored).0
        (code_key "code")
      ≡ none)
    × ((access : String) × (out.cookies.0
          ≡ cookie "gatie_access" access true "/api" (no_digits (pos 0))))
unfolding handle_exchange get_del stored_tokens text_field set_auth_cookies lookup
handle_exchange-cookies_example =
    handle_exchange-cookies in_memory coded no_digits true "code" stored out refl
