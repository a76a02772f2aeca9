-- ===== src/Access.antt =====
-- Who makes a request and what routes it may use: internal/middleware/auth.go,
-- internal/middleware/rbac.go, and the look-up of internal/repository/postgres/credential.go.
pub mod Guards
pub mod RateLimit
mod Tests
use gaty.Prelude.{
  ℕ, String, Option, none, some, List, [], ◌∷◌, Bool, true, false, not, ◌||◌, ◌&&◌, ◌==◌, str_eq,
  ltb, if◌then◌else◌,
}
use gaty.Errors.{Result, ok, err}
use gaty.Json.{Json, Fields, end, lookup}
use gaty.Trigger.{Role, admin, member}

-- a row of `members`
pub record Member : Type 0 where
  pub id : ℕ
  pub username : String
  pub display_name : Option String
  pub role : Role
  pub created_at : ℕ

-- a row of `credentials`
pub record Credential : Type 0 where
  pub id : ℕ
  pub member_id : ℕ
  pub type : String
  pub hashed_value : String
  pub label : Option String
  pub expires_at : Option ℕ
  pub metadata : Fields
  pub created_at : ℕ

-- `APITokenEnabled`
unfoldable pub api_token_enabled : Fields → Bool
api_token_enabled config = elim (lookup "api_token" config) [ some (Json.bool b) ↦ b | _ ↦ true ]

abbrev pub is_current : Option ℕ → ℕ → Bool
is_current none now = true
is_current (some t) now = ltb now t

unfoldable pub find_member : ℕ → List Member → Option Member
find_member i [] = none
find_member i (m ∷ members) = let rest = find_member i members in if m.id == i then some m else rest

-- `FindByHashedAPIToken`
unfoldable pub find_by_hashed_api_token :
    List Credential → List Member → ℕ → String → Option (Credential × Member)
unfolding find_member
find_by_hashed_api_token [] members now hash = none
find_by_hashed_api_token (c ∷ creds) members now hash =
    let rest = find_by_hashed_api_token creds members now hash in
    if str_eq c.hashed_value hash && str_eq c.type "API_TOKEN" && is_current c.expires_at now
    then elim (find_member c.member_id members) [ none ↦ rest | some m ↦ some (c, m) ]
    else rest

-- The identity in a request's context. 0 is the nil UUID, which reads as absent.
pub record Identity : Type 0 where
  pub member_id : ℕ
  pub role : Option Role
  pub credential_id : ℕ

abbrev pub anonymous : Identity
anonymous = record { member_id = 0; role = none; credential_id = 0 }

-- `strings.HasPrefix`
unfoldable pub has_prefix : String → String → Bool
has_prefix s String.[] = true
has_prefix String.[] (String.◌∷◌ d p) = false
has_prefix (String.◌∷◌ c s) (String.◌∷◌ d p) =
    let rest = has_prefix s p in str_eq (String.◌∷◌ c String.[]) (String.◌∷◌ d String.[]) && rest

-- `AuthExtractor`, after the cookie and the header were read: the access cookie is tried first, and
-- a token of the API only without one. `validate` is `ValidateAccessToken` and `hash` SHA-256 in
-- hexadecimal.
-- The code reads `member.AuthConfig`, a field that `Member` lacks; `auth_config` stands for it.
unfoldable pub auth_extractor :
    (String → Option (ℕ × Role))
    → (String → String)
    → (Member → Fields)
    → List Credential
    → List Member
    → ℕ
    → String
    → String
    → Identity
unfolding find_by_hashed_api_token api_token_enabled has_prefix
auth_extractor validate hash auth_config creds members now cookie bearer =
    if not (str_eq cookie "")
    then elim (validate cookie) [
      | none ↦ anonymous
      | some (i, role) ↦ record { member_id = i; role = some role; credential_id = 0 }
    ]
    else if not (str_eq bearer "") && has_prefix bearer "gatie_"
    then elim (find_by_hashed_api_token creds members now (hash bearer)) [
      | none ↦ anonymous
      | some (c, m) ↦
          if api_token_enabled (auth_config m)
          then record { member_id = m.id; role = some m.role; credential_id = c.id }
          else anonymous
    ]
    else anonymous

-- what a guard does with a request
pub data Guarded : Type 0 where
  next unauthorized_401 forbidden_403 bad_request_400 : Guarded

unfoldable pub require_auth : Identity → Guarded
require_auth i = if i.member_id == 0 then unauthorized_401 else next

-- `IsAPITokenAuth`
abbrev pub is_api_token_auth : Identity → Bool
is_api_token_auth i = not (i.credential_id == 0)

abbrev pub is_admin : Option Role → Bool
is_admin (some admin) = true
is_admin _ = false

unfoldable pub require_admin : Identity → Guarded
require_admin i =
    if is_api_token_auth i then forbidden_403 else if is_admin i.role then next else forbidden_403

-- `IsPrivilegedMember`
unfoldable pub is_privileged_member : Identity → Bool
is_privileged_member i = if is_api_token_auth i then false else is_admin i.role

-- a permission that was looked up: an error forbids
abbrev pub allowed : Result Bool → Guarded
allowed (ok true) = next
allowed _ = forbidden_403

-- `GateManager`; the gate is none where its identifier does not parse
unfoldable pub gate_manager : (ℕ → ℕ → String → Result Bool) → Option ℕ → Identity → Guarded
gate_manager has_permission gate i =
    if not (is_api_token_auth i) && is_admin i.role then next else elim gate [
      | none ↦ bad_request_400
      | some g ↦
          if i.member_id == 0
          then forbidden_403
          else allowed (has_permission i.member_id g "gate:manage")
    ]

-- `AdminOrGateManager`
unfoldable pub admin_or_gate_manager : (ℕ → String → Result Bool) → Identity → Guarded
admin_or_gate_manager has_permission_on_any_gate i =
    if is_admin i.role && not (is_api_token_auth i)
    then next
    else if i.member_id == 0
    then forbidden_403
    else allowed (has_permission_on_any_gate i.member_id "gate:manage")
