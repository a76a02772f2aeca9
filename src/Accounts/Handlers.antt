-- ===== src/Accounts/Handlers.antt =====
-- internal/handler/credential.go: a member's own credentials, and the administrator's handling of
-- anyone's. Tables of policies and of accounts are one database.
use gaty.Prelude.{
  ℕ, String, Option, none, some, List, [], ◌∷◌, ◌++◌, map, ◌==◌, str_eq, not, if◌then◌else◌,
}
use gaty.Errors.{Result, ok, err, not_found, root}
use gaty.Http.{Reply, refused, done}
use gaty.Json.{Fields, end}
use gaty.Pagination.{PaginationParams}
use gaty.Policy.{Tables}
use gaty.Policy.Credential as CredPolicy
use gaty.Access.{Credential, Identity}
use gaty.Accounts as Members
use gaty.Accounts.{Accounts}
use gaty.Accounts.Credentials as Credentials
use gaty.Accounts.Service.{Secrets, New, create_password, generate_api_token}

pub record Database : Type 0 where
  pub accounts : Accounts
  pub tables : Tables

-- `credentialView`: a credential without its hash
pub record CredentialView : Type 0 where
  pub id : ℕ
  pub type : String
  pub label : Option String
  pub expires_at : Option ℕ
  pub metadata : Fields
  pub created_at : ℕ

unfoldable pub cred_view : Credential → CredentialView
cred_view c = record {
  id = c.id;
  type = c.type;
  label = c.label;
  expires_at = c.expires_at;
  metadata = c.metadata;
  created_at = c.created_at;
}

pub record PolicyInput : Type 0 where
  pub gate_id : ℕ
  pub permission_code : String

pub record CreateApiTokenInput : Type 0 where
  pub label : String
  pub expires_at : Option ℕ
  pub policies : List PolicyInput
  pub schedule_id : Option ℕ

-- the view of the new token, and the token itself, which is shown once
pub record CreateApiTokenOutput : Type 0 where
  pub view : CredentialView
  pub token : String

abbrev pub with_accounts : Database → Accounts → Database
with_accounts d a = record d { accounts = a }

-- tokens, then identities of single sign-on
unfoldable pub list_of : ℕ → PaginationParams → Database → List CredentialView
unfolding cred_view Credentials.list_by_member_and_type
list_of member_id p d =
    map cred_view (Credentials.list_by_member_and_type member_id "API_TOKEN" p d.accounts).0
    ++ map cred_view (Credentials.list_by_member_and_type member_id "SSO_IDENTITY" p d.accounts).0

-- `ListMyCredentials`
unfoldable pub list_my_credentials :
    Identity → PaginationParams → Database → Reply (List CredentialView)
unfolding list_of
list_my_credentials i p d =
    if i.member_id == 0 then refused 401 "not authenticated" else done (list_of i.member_id p d)

-- the policies of a new token, one after the other
unfoldable pub grant_all : ℕ → List PolicyInput → Tables → Tables × Result (Unit {0})
unfolding CredPolicy.grant
grant_all cred_id [] db = (db, ok tt)
grant_all cred_id (p ∷ ps) db = elim (CredPolicy.grant cred_id p.gate_id p.permission_code db) [
  | err e ↦ (db, err e)
  | ok db' ↦ grant_all cred_id ps db'
]

-- the schedule of a new token
unfoldable pub link_schedule : ℕ → Option ℕ → Tables → Result Tables
unfolding CredPolicy.set_schedule
link_schedule cred_id none db = ok db
link_schedule cred_id (some schedule_id) db = CredPolicy.set_schedule cred_id schedule_id db

-- what is written for a new token after its credential
unfoldable pub restrict_token :
    Credential → String → CreateApiTokenInput → Database → Database × Reply CreateApiTokenOutput
unfolding grant_all link_schedule cred_view
restrict_token cred raw input d =
    let granted = grant_all cred.id input.policies d.tables in
    elim granted.1 [
      | err e ↦ (record d { tables = granted.0 }, refused 500 "failed to set token policy")
      | ok _ ↦ elim (link_schedule cred.id input.schedule_id granted.0) [
        | err e ↦ (record d { tables = granted.0 }, refused 500 "failed to set token schedule")
        | ok db ↦ (record d { tables = db }, done (record { view = cred_view cred; token = raw }))
      ]
    ]

-- a credential of the type API_TOKEN, with its raw token
unfoldable pub store_token :
    Secrets → New → ℕ → String → Option ℕ → Accounts → Reply (Accounts × Credential × String)
unfolding generate_api_token Credentials.create
store_token s new member_id label expires_at db = elim (generate_api_token s) [
  | err e ↦ refused 500 "failed to generate token"
  | ok (raw, hash) ↦
      elim (Credentials.create new.credential_id new.now member_id "API_TOKEN" hash (some label)
        expires_at end db) [
          | err e ↦ refused 500 "failed to create token"
          | ok (db', cred) ↦ done (db', cred, raw)
        ]
]

-- `CreateMyAPIToken`
unfoldable pub create_my_api_token :
    Secrets
    → New
    → Identity
    → CreateApiTokenInput
    → Database
    → Database × Reply CreateApiTokenOutput
unfolding store_token restrict_token
create_my_api_token s new i input d =
    if i.member_id == 0
    then (d, refused 401 "not authenticated")
    else elim (store_token s new i.member_id input.label input.expires_at d.accounts) [
      | refused code text ↦ (d, refused code text)
      | done (db, cred, raw) ↦ restrict_token cred raw input (with_accounts d db)
    ]

-- `_ = …`: a failure leaves the tables
abbrev pub or_ignored : Result Tables → Tables → Tables
or_ignored (err e) before = before
or_ignored (ok after) before = after

-- both deletions: a password is refused, then the policies and the schedule go first
unfoldable pub delete_of : String → ℕ → ℕ → Database → Database × Reply (Unit {0})
unfolding Credentials.get_by_id Credentials.delete CredPolicy.revoke_all CredPolicy.remove_schedule
delete_of refusal cred_id member_id d = elim (Credentials.get_by_id cred_id member_id d.accounts) [
  | err e ↦ elim (root e) [
    | not_found ↦ (d, refused 404 "credential not found")
    | _ ↦ (d, refused 500 "failed to get credential")
  ]
  | ok cred ↦
      if str_eq cred.type "PASSWORD"
      then (d, refused 400 refusal)
      else let revoked = or_ignored (CredPolicy.revoke_all cred.id d.tables) d.tables in
        let freed = or_ignored (CredPolicy.remove_schedule cred.id revoked) revoked in
        elim (Credentials.delete cred_id member_id d.accounts) [
          | err e ↦ (record d { tables = freed }, refused 500 "failed to delete credential")
          | ok db ↦ (record { accounts = db; tables = freed }, done tt)
        ]
]

-- `DeleteMyCredential`
unfoldable pub delete_my_credential : Identity → ℕ → Database → Database × Reply (Unit {0})
unfolding delete_of
delete_my_credential i cred_id d =
    if i.member_id == 0
    then (d, refused 401 "not authenticated")
    else delete_of "use PATCH /api/auth/me/password to change your password" cred_id i.member_id d

-- `ChangeMyPassword`, after the request is known to have a member
unfoldable pub change_password :
    Secrets → ℕ → String → String → Accounts → Accounts × Reply (Unit {0})
unfolding Credentials.get_by_member_and_type Credentials.update_hashed_value
change_password s member_id old_password new_password db =
    elim (Credentials.get_by_member_and_type member_id "PASSWORD" db) [
      | err e ↦ elim (root e) [
        | not_found ↦ (db, refused 400 "no password set on this account")
        | _ ↦ (db, refused 500 "failed to retrieve credential")
      ]
      | ok existing ↦
          if not (s.compare existing.hashed_value old_password)
          then (db, refused 401 "incorrect current password")
          else elim (s.generate new_password) [
            | err e ↦ (db, refused 500 "failed to hash password")
            | ok hash ↦ elim (Credentials.update_hashed_value member_id "PASSWORD" hash db) [
              | err e ↦ (db, refused 500 "failed to update password")
              | ok db' ↦ (db', done tt)
            ]
          ]
    ]

-- `ChangeMyPassword`
unfoldable pub change_my_password :
    Secrets → Identity → String → String → Accounts → Accounts × Reply (Unit {0})
unfolding change_password
change_my_password s i old_password new_password db =
    if i.member_id == 0
    then (db, refused 401 "not authenticated")
    else change_password s i.member_id old_password new_password db

-- `validateMember`, in front of the rest of a handler
unfoldable pub refusal_of_member : ℕ → Accounts → Option (ℕ × String)
unfolding Members.get_by_id
refusal_of_member member_id db = elim (Members.get_by_id member_id db) [
  | ok _ ↦ none
  | err e ↦ elim (root e) [
    | not_found ↦ some (404, "member not found")
    | _ ↦ some (500, "failed to validate member")
  ]
]

-- `AdminListMemberCredentials`
unfoldable pub admin_list_member_credentials :
    ℕ → PaginationParams → Database → Reply (List CredentialView)
unfolding refusal_of_member list_of
admin_list_member_credentials member_id p d = elim (refusal_of_member member_id d.accounts) [
  | some (code, text) ↦ refused code text
  | none ↦ done (list_of member_id p d)
]

-- `AdminCreateMemberAPIToken`: a token without policies or schedule
unfoldable pub admin_create_member_api_token :
    Secrets → New → ℕ → String → Option ℕ → Database → Database × Reply CreateApiTokenOutput
unfolding refusal_of_member store_token cred_view
admin_create_member_api_token s new member_id label expires_at d =
    elim (refusal_of_member member_id d.accounts) [
      | some (code, text) ↦ (d, refused code text)
      | none ↦ elim (store_token s new member_id label expires_at d.accounts) [
        | refused code text ↦ (d, refused code text)
        | done (db, cred, raw) ↦
            (with_accounts d db, done (record { view = cred_view cred; token = raw }))
      ]
    ]

-- `AdminDeleteMemberCredential`
unfoldable pub admin_delete_member_credential : ℕ → ℕ → Database → Database × Reply (Unit {0})
unfolding refusal_of_member delete_of
admin_delete_member_credential member_id cred_id d = elim (refusal_of_member member_id d.accounts) [
  | some (code, text) ↦ (d, refused code text)
  | none ↦ delete_of "use the set-password endpoint to manage passwords" cred_id member_id d
]

-- `AdminSetMemberPassword`: the hash is replaced, or a first password is stored
unfoldable pub admin_set_member_password :
    Secrets → New → ℕ → String → Accounts → Accounts × Reply (Unit {0})
unfolding refusal_of_member Credentials.update_hashed_value create_password
admin_set_member_password s new member_id password db = elim (refusal_of_member member_id db) [
  | some (code, text) ↦ (db, refused code text)
  | none ↦ elim (s.generate password) [
    | err e ↦ (db, refused 500 "failed to hash password")
    | ok hash ↦ elim (Credentials.update_hashed_value member_id "PASSWORD" hash db) [
      | ok db' ↦ (db', done tt)
      | err e ↦ elim (root e) [
        | not_found ↦ elim (create_password new member_id hash db) [
          | err _ ↦ (db, refused 500 "failed to set password")
          | ok (db', _) ↦ (db', done tt)
        ]
        | _ ↦ (db, refused 500 "failed to set password")
      ]
    ]
  ]
]
