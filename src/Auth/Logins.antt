-- ===== src/Auth/Logins.antt =====
-- Which password logs a member in: `Register` and `Login` of internal/service/auth.go, `SetPassword`
-- of internal/service/member.go, and the password handlers of internal/handler/credential.go.
use gaty.Prelude.{
  ℕ, ◌≡◌, refl, String, Option, List, [], ◌∷◌, ==_iff, eq_iff, arith, if◌then◌else◌, inl, inr,
}
use gaty.Errors.{Result, ok, err, invalid_credentials, Result-cases}
use gaty.Http.{done}
use gaty.Trigger.{Role, member}
use gaty.Access.{Member, Credential}
use gaty.Accounts as Members
use gaty.Accounts.{Accounts, find_username}
use gaty.Accounts.Credentials as Credentials
use gaty.Accounts.Credentials.{insert, find_credential, set_hash, of_member}
use gaty.Accounts.Service.{Secrets, New, create_password, drop_password, set_password}
use gaty.Accounts.Handlers.{change_password}
use gaty.Auth.{enrol, authenticate}

-- the answer to a password, given the hash that is stored
abbrev pub judged : Secrets → String → String → Member → Result Member
judged x hashed password m = if x.compare hashed password then ok m else err invalid_credentials

-- A password credential that was just stored for the member of a username decides its logins.
authenticate-create_password :
    (x : Secrets) (new : New) (m : Member) (username hashed password : String) (db db' : Accounts)
    (c : Credential)
    → Members.get_by_username username db ≡ ok m
    → create_password new m.id hashed db ≡ ok (db', c)
    → authenticate x username password db' ≡ judged x hashed password m
unfolding create_password Credentials.create insert authenticate Members.get_by_username
    Credentials.get_by_member_and_type find_credential
authenticate-create_password x new m username hashed password db db' c hm h =
    ground (arith, ==_iff m.id m.id, (eq_iff "PASSWORD" "PASSWORD").1 refl)

get_by_username-create :
    (id now : ℕ) (username : String) (disp : Option String) (role : Role) (db db' : Accounts)
    (m : Member)
    → Members.create id now username disp role db ≡ ok (db', m)
    → Members.get_by_username username db' ≡ ok m
unfolding Members.create Members.get_by_username find_username
get_by_username-create id now username disp role db db' m h =
    ground (arith, (eq_iff username username).1 refl)

-- A member who registered logs in under the username with exactly the passwords that compare to the
-- hash of the one that was given.
pub authenticate-enrol :
    (x : Secrets) (new : New) (username password hashed attempt : String) (disp : Option String)
    (db db' : Accounts) (m : Member)
    → x.generate password ≡ ok hashed
    → enrol x new username password disp db ≡ (db', ok m)
    → authenticate x username attempt db' ≡ judged x hashed attempt m
unfolding enrol
authenticate-enrol x new username password hashed attempt disp db db' m hg h =
    elim (Result-cases (Members.create new.member_id new.now username disp member db)) [
      | inr (e, q) ↦ ground arith
      | inl ((db1, m1), q) ↦ elim (Result-cases (create_password new m1.id hashed db1)) [
        | inr (e, q') ↦ ground arith
        | inl ((db2, c), q') ↦ ground (
          arith,
          authenticate-create_password x new m1 username hashed attempt db1 db2 c
              (get_by_username-create new.member_id new.now username disp member db db1 m1 q) q',
        )
      ]
    ]

drop_password_username :
    (i : ℕ) (username : String) (m : Member) (db db' : Accounts)
    → Members.get_by_username username db ≡ ok m
    → drop_password i db ≡ ok db'
    → Members.get_by_username username db' ≡ ok m
unfolding drop_password Credentials.delete Members.get_by_username
drop_password_username i username m db db' hm h = ground arith

-- After `SetPassword` a member logs in with exactly the passwords that compare to the new hash: the
-- old one is gone.
pub authenticate-set_password :
    (x : Secrets) (new : New) (m : Member) (username password hashed attempt : String)
    (db db' : Accounts)
    → Members.get_by_username username db ≡ ok m
    → x.generate password ≡ ok hashed
    → set_password x new m.id password db ≡ (db', ok tt)
    → authenticate x username attempt db' ≡ judged x hashed attempt m
unfolding set_password drop_password
authenticate-set_password x new m username password hashed attempt db db' hm hg h =
    elim (Result-cases (drop_password m.id db)) [
      | inr (e, q) ↦ ground arith
      | inl (db1, q) ↦ elim (Result-cases (create_password new m.id hashed db1)) [
        | inr (e, q') ↦ ground arith
        | inl ((db2, c), q') ↦ ground (
          arith,
          authenticate-create_password x new m username hashed attempt db1 db2 c
              (drop_password_username m.id username m db db1 hm q) q',
        )
      ]
    ]

find_credential-set_hash :
    (i : ℕ) (type hash : String) (cs : List Credential) (c : Credential)
    → find_credential (of_member i type) cs ≡ ok c
    → find_credential (of_member i type) (set_hash i type hash cs)
      ≡ ok (record c { hashed_value = hash })
unfolding find_credential
find_credential-set_hash i type hash [] c h = ground arith
find_credential-set_hash i type hash (d ∷ cs) c h =
    ground (arith, find_credential-set_hash i type hash cs c)

-- A member who changed the password gave the one that logged in until then, and logs in from then on
-- with exactly the passwords that compare to the hash of the new one.
pub authenticate-change_password :
    (x : Secrets) (m : Member) (username old_password new_password hashed attempt : String)
    (db db' : Accounts)
    → Members.get_by_username username db ≡ ok m
    → x.generate new_password ≡ ok hashed
    → change_password x m.id old_password new_password db ≡ (db', done tt)
    → (authenticate x username old_password db ≡ ok m)
      × (authenticate x username attempt db' ≡ judged x hashed attempt m)
unfolding change_password Credentials.get_by_member_and_type Credentials.update_hashed_value
    authenticate Members.get_by_username
authenticate-change_password x m username old_password new_password hashed attempt db db' hm hg h =
    elim (Result-cases (find_credential (of_member m.id "PASSWORD") db.credentials)) [
      | inr (e, q) ↦ ground arith
      | inl (c, q) ↦
          ground (arith, find_credential-set_hash m.id "PASSWORD" hashed db.credentials c q)
    ]
