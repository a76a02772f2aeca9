-- ===== src/Accounts/Service.antt =====
-- internal/service/member.go and credential.go. A step that failed leaves the rows that the steps
-- before it wrote: there is no transaction.
use gaty.Prelude.{ℕ, String, Option, none, Bool}
use gaty.Errors.{
  Err, Result, ok, err, wrap, wrapping, not_found, already_exists, username_taken, root,
}
use gaty.Json.{end}
use gaty.Trigger.{Role}
use gaty.Access.{Member, Credential}
use gaty.Redis.{◌▹◌}
use gaty.Accounts as Members
use gaty.Accounts.{Accounts}
use gaty.Accounts.Credentials as Credentials

-- bcrypt, the random bytes of a token in hexadecimal, and SHA-256 in hexadecimal
pub record Secrets : Type 0 where
  pub generate : String → Result String
  pub compare : String → String → Bool
  pub random_hex : Result String
  pub sha256_hex : String → String

-- what the database chooses for a new row
pub record New : Type 0 where
  pub member_id : ℕ
  pub credential_id : ℕ
  pub now : ℕ

-- an error, with the state that the steps before it left
abbrev pub failed {ℓ} : {A : Type ℓ} → Accounts → Err → Accounts × Result A
failed db e = (db, err e)

-- a password credential
unfoldable pub create_password : New → ℕ → String → Accounts → Result (Accounts × Credential)
unfolding Credentials.create
create_password new member_id hashed db =
    Credentials.create new.credential_id new.now member_id "PASSWORD" hashed none none end db

abbrev pub taken_or : String → Err → Err
taken_or s e = elim (root e) [ already_exists ↦ username_taken | _ ↦ wrap s e ]

-- `Create`
unfoldable pub create :
    Secrets → New → String → Option String → String → Role → Accounts → Accounts × Result Member
unfolding Members.create create_password
create s new username display_name password role db = elim (s.generate password) [
  | err e ↦ failed db (wrap "hash password" e)
  | ok hashed ↦ elim (Members.create new.member_id new.now username display_name role db) [
    | err e ↦ failed db (taken_or "create member" e)
    | ok (db', m) ↦ elim (create_password new m.id hashed db') [
      | err e ↦ failed db' (wrap "create password credential" e)
      | ok (db'', _) ↦ (db'', ok m)
    ]
  ]
]

-- the password that is there is deleted first
unfoldable pub drop_password : ℕ → Accounts → Result Accounts
unfolding Credentials.get_by_member_and_type Credentials.delete
drop_password member_id db = elim (Credentials.get_by_member_and_type member_id "PASSWORD" db) [
  | err e ↦ elim (root e) [ not_found ↦ ok db | _ ↦ err (wrap "get existing credential" e) ]
  | ok existing ↦
      wrapping "delete existing credential" (Credentials.delete existing.id member_id db)
]

-- `SetPassword`
unfoldable pub set_password : Secrets → New → ℕ → String → Accounts → Accounts × Result (Unit {0})
unfolding Members.get_by_id drop_password create_password
set_password s new member_id password db = elim (Members.get_by_id member_id db) [
  | err e ↦ failed db e
  | ok _ ↦ elim (s.generate password) [
    | err e ↦ failed db (wrap "hash password" e)
    | ok hashed ↦ elim (drop_password member_id db) [
      | err e ↦ failed db e
      | ok db' ↦ elim (create_password new member_id hashed db') [
        | err e ↦ failed db' (wrap "create password credential" e)
        | ok (db'', _) ↦ (db'', ok tt)
      ]
    ]
  ]
]

-- `GenerateAPIToken`: the token that is shown once, and the hash that is stored
unfoldable pub generate_api_token : Secrets → Result (String × String)
generate_api_token s = elim s.random_hex [
  | err e ↦ err (wrap "generate random bytes" e)
  | ok b ↦ let raw = "gatie_" ▹ b in ok (raw, s.sha256_hex raw)
]
