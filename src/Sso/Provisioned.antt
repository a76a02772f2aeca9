-- ===== src/Sso/Provisioned.antt =====
-- Whom single sign-on logs in: `resolveOrProvision` of internal/service/sso.go, and what the one-time
-- code of internal/handler/sso.go gives.
use gaty.Prelude.{
  List, [], ◌∷◌, some, any, false, str_eq, ◌==◌, ◌⊎◌, ℕ, String, Option, none, true, eq_iff, ==_iff,
  ◌≡◌, refl, ap, ◌∙◌, arith, inl, inr, Bool-cases, Option-cases,
}
use gaty.Errors.{ok, err, not_found, Result-cases}
use gaty.Json.{Json, Fields, field, end}
use gaty.Redis.{◌▹◌}
use gaty.Access.{Member, Credential, find_member}
use gaty.Accounts as Members
use gaty.Accounts.{Accounts, clashes}
use gaty.Accounts.Credentials as Credentials
use gaty.Accounts.Service.{New}
use gaty.Trigger.{Role}
use gaty.Sso.{
  SsoIdentity, SsoProviderConfig, resolve_or_provision, provision, create_named, create_member,
  mapped_role, role_of, username_of, given, suffix_of,
}

get_by_id-create :
    (id now : ℕ) (username : String) (disp : Option String) (role : Role) (db db' : Accounts)
    (m : Member)
    → Members.create id now username disp role db ≡ ok (db', m)
    → Members.get_by_id m.id db' ≡ ok m
unfolding Members.create Members.get_by_id find_member
get_by_id-create id now username disp role db db' m h = ground (arith, ==_iff id id)

get_by_id-create_named :
    (new : New) (role : String) (i : SsoIdentity) (db db' : Accounts) (m : Member)
    → create_named new role i db ≡ ok (db', m)
    → Members.get_by_id m.id db' ≡ ok m
unfolding create_named create_member
get_by_id-create_named new role i db db' m h = elim (Option-cases (role_of role)) [
  | inl q ↦ ground arith
  | inr (found, q) ↦ ground (
    arith,
    get_by_id-create new.member_id new.now (username_of i) (given i.display_name) found db db' m,
    get_by_id-create new.member_id new.now (username_of i ▹ "_" ▹ suffix_of i.subject)
        (given i.display_name) found db db' m,
  )
]

resolved :
    (new : New) (cfg : SsoProviderConfig) (i : SsoIdentity) (db : Accounts) (c : Credential)
    → Credentials.find_by_sso_identity i.subject db ≡ ok c
    → resolve_or_provision new cfg i db ≡ (db, Members.get_by_id c.member_id db)
unfolding resolve_or_provision
resolved new cfg i db c h = rw (resolve_or_provision, h)

-- a stored identity is found by its subject
find_by_sso_identity-create :
    (id now member_id : ℕ) (subject : String) (meta : Fields) (db db' : Accounts) (c : Credential)
    → Credentials.create id now member_id "SSO_IDENTITY" subject none none meta db ≡ ok (db', c)
    → (Credentials.find_by_sso_identity subject db' ≡ ok c)
      × (c.member_id ≡ member_id)
      × (db'.members ≡ db.members)
unfolding Credentials.create Credentials.insert Credentials.find_by_sso_identity
    Credentials.find_credential
find_by_sso_identity-create id now member_id subject meta db db' c h =
    ground (arith, (eq_iff subject subject).1 refl)

-- a member and a credential that were just stored
resolve-provision :
    (new new' : New) (cfg cfg' : SsoProviderConfig) (i : SsoIdentity) (db db' : Accounts)
    (m : Member)
    → provision new cfg i db ≡ (db', ok m)
    → resolve_or_provision new' cfg' i db' ≡ (db', ok m)
unfolding provision resolve_or_provision Members.get_by_id
resolve-provision new new' cfg cfg' i db db' m h =
    elim (Result-cases (create_named new (mapped_role cfg i) i db)) [
      | inr (e, q) ↦ ground arith
      | inl ((db1, m1), q) ↦
          let stored =
            Credentials.create new.credential_id new.now m1.id "SSO_IDENTITY" i.subject none none
              (field "email" (Json.str i.email) (field "issuer" (Json.str cfg.issuer) end)) db1 in
          elim (Result-cases stored) [
            | inr (e, q') ↦ ground arith
            | inl ((db2, c), q') ↦ ground (
              arith,
              get_by_id-create_named new (mapped_role cfg i) i db db1 m1 q,
              find_by_sso_identity-create new.credential_id new.now m1.id i.subject
                  (field "email" (Json.str i.email) (field "issuer" (Json.str cfg.issuer) end)) db1
                  db2 c q',
            )
          ]
    ]

-- A member whom single sign-on made for a subject that no credential had: the provider provisions
-- members, and the subject logs the same member in from then on, at any provider.
pub resolve_or_provision-again :
    (new new' : New) (cfg cfg' : SsoProviderConfig) (i : SsoIdentity) (db db' : Accounts)
    (m : Member)
    → Credentials.find_by_sso_identity i.subject db ≡ err not_found
    → resolve_or_provision new cfg i db ≡ (db', ok m)
    → (cfg.auto_provision ≡ true) × (resolve_or_provision new' cfg' i db' ≡ (db', ok m))
unfolding resolve_or_provision
resolve_or_provision-again new new' cfg cfg' i db db' m h k = elim (Bool-cases cfg.auto_provision) [
  | inr off ↦ ground arith
  | inl on ↦ (on, resolve-provision new new' cfg cfg' i db db' m (ground arith))
]

-- a callback whose identity was verified
pub record Attempt : Type 0 where
  pub new : New
  pub cfg : SsoProviderConfig
  pub identity : SsoIdentity

-- what a run of them leaves
abbrev pub attempted : List Attempt → Accounts → Accounts
attempted [] db = db
attempted (a ∷ as_) db = attempted as_ (resolve_or_provision a.new a.cfg a.identity db).0

-- Who a subject is: the credential that has it, and the row of its member.
abbrev pub IsLinked : String → Credential → Member → Accounts → Type 0
IsLinked subject c m db =
    (Credentials.find_by_sso_identity subject db ≡ ok c) × (Members.get_by_id c.member_id db ≡ ok m)

-- the identifier of a row that is there clashes
clashes-find_member :
    (i id : ℕ) (username : String) (ms : List Member) (m : Member)
    → find_member i ms ≡ some m
    → (id == i) ≡ true
    → any (clashes id username) ms ≡ true
unfolding find_member
clashes-find_member i id username [] m h e = ground arith
clashes-find_member i id username (n ∷ ms) m h e =
    ground (arith, clashes-find_member i id username ms m, ==_iff id i, ==_iff n.id id)

create-IsLinked :
    (subject : String) (c : Credential) (m : Member) (id now : ℕ) (username : String)
    (disp : Option String) (role : Role) (db db' : Accounts) (made : Member)
    → IsLinked subject c m db
    → Members.create id now username disp role db ≡ ok (db', made)
    → IsLinked subject c m db'
unfolding Members.create Members.get_by_id find_member Credentials.find_by_sso_identity
create-IsLinked subject c m id now username disp role db db' made (found, row) h =
    elim (Bool-cases (id == c.member_id)) [
      | inl same ↦ absurd (ground (arith, clashes-find_member c.member_id id username db.members m))
      | inr other ↦ ground arith
    ]

create_named-IsLinked :
    (subject : String) (c : Credential) (m : Member) (new : New) (role : String) (i : SsoIdentity)
    (db db' : Accounts) (made : Member)
    → IsLinked subject c m db
    → create_named new role i db ≡ ok (db', made)
    → IsLinked subject c m db'
unfolding create_named create_member
create_named-IsLinked subject c m new role i db db' made linked h =
    elim (Option-cases (role_of role)) [
      | inl q ↦ absurd (ground arith)
      | inr (found, q) ↦
          let plain =
            create-IsLinked subject c m new.member_id new.now (username_of i) (given i.display_name)
              found db db' made linked in
          let suffixed =
            create-IsLinked subject c m new.member_id new.now
              (username_of i ▹ "_" ▹ suffix_of i.subject) (given i.display_name) found db db' made
              linked in
          ground (arith, plain, suffixed)
    ]

credential-IsLinked :
    (subject : String) (c : Credential) (m : Member) (id now member_id : ℕ) (other : String)
    (meta : Fields) (db db' : Accounts) (made : Credential)
    → str_eq other subject ≡ false
    → IsLinked subject c m db
    → Credentials.create id now member_id "SSO_IDENTITY" other none none meta db ≡ ok (db', made)
    → IsLinked subject c m db'
unfolding Credentials.create Credentials.insert Credentials.find_by_sso_identity
    Credentials.find_credential Members.get_by_id
credential-IsLinked subject c m id now member_id other meta db db' made apart linked h =
    ground arith

resolve_or_provision-cases :
    (new : New) (cfg : SsoProviderConfig) (i : SsoIdentity) (db : Accounts)
    → ((resolve_or_provision new cfg i db).0 ≡ db)
      ⊎ ((resolve_or_provision new cfg i db).0 ≡ (provision new cfg i db).0)
unfolding resolve_or_provision
resolve_or_provision-cases new cfg i db = ground arith

provision-IsLinked :
    (subject : String) (c : Credential) (m : Member) (new : New) (cfg : SsoProviderConfig)
    (i : SsoIdentity) (db : Accounts)
    → str_eq i.subject subject ≡ false
    → IsLinked subject c m db
    → IsLinked subject c m (provision new cfg i db).0
unfolding provision
provision-IsLinked subject c m new cfg i db other linked =
    elim (Result-cases (create_named new (mapped_role cfg i) i db)) [
      | inr (e, q) ↦ rw (provision, q) linked
      | inl ((db1, made), q) ↦
          let there =
            create_named-IsLinked subject c m new (mapped_role cfg i) i db db1 made linked q in
          let meta = field "email" (Json.str i.email) (field "issuer" (Json.str cfg.issuer) end) in
          let stored =
            Credentials.create new.credential_id new.now made.id "SSO_IDENTITY" i.subject none none
              meta db1 in
          elim (Result-cases stored) [
            | inr (e, q') ↦ rw (provision, q, q') there
            | inl ((db2, made_credential), q') ↦
                rw (provision, q, q')
                  (credential-IsLinked subject c m new.credential_id new.now made.id i.subject meta
                    db1 db2 made_credential other there q')
          ]
    ]

resolve_or_provision-IsLinked :
    (subject : String) (c : Credential) (m : Member) (new : New) (cfg : SsoProviderConfig)
    (i : SsoIdentity) (db : Accounts)
    → IsLinked subject c m db
    → IsLinked subject c m (resolve_or_provision new cfg i db).0
resolve_or_provision-IsLinked subject c m new cfg i db linked =
    elim (Bool-cases (str_eq i.subject subject)) [
      | inl same ↦
          let found : Credentials.find_by_sso_identity i.subject db ≡ ok c =
            ap (λ t. Credentials.find_by_sso_identity t db) ((eq_iff i.subject subject).0 same)
            ∙ linked.0 in
          rw (resolved new cfg i db c found) linked
      | inr other ↦ elim (resolve_or_provision-cases new cfg i db) [
        | inl kept ↦ rw kept linked
        | inr made ↦ rw made (provision-IsLinked subject c m new cfg i db other linked)
      ]
    ]

attempted-IsLinked :
    (subject : String) (c : Credential) (m : Member) (as_ : List Attempt) (db : Accounts)
    → IsLinked subject c m db
    → IsLinked subject c m (attempted as_ db)
attempted-IsLinked subject c m [] db linked = linked
attempted-IsLinked subject c m (a ∷ as_) db linked =
    attempted-IsLinked subject c m as_ (resolve_or_provision a.new a.cfg a.identity db).0
      (resolve_or_provision-IsLinked subject c m a.new a.cfg a.identity db linked)

-- A subject that a stored credential links to a member stays linked to that member, with the same
-- row, whatever callbacks for whatever identities came in between, at any providers; and from then on
-- an identity with that subject, of any provider and with any other claims, logs that member in and
-- stores nothing.
pub resolve_or_provision-stable :
    (as_ : List Attempt) (new : New) (cfg : SsoProviderConfig) (i : SsoIdentity) (db : Accounts)
    (c : Credential) (m : Member)
    → Credentials.find_by_sso_identity i.subject db ≡ ok c
    → Members.get_by_id c.member_id db ≡ ok m
    → resolve_or_provision new cfg i (attempted as_ db) ≡ (attempted as_ db, ok m)
resolve_or_provision-stable as_ new cfg i db c m found row =
    let (found', row') = attempted-IsLinked i.subject c m as_ db (found, row) in
    resolved new cfg i (attempted as_ db) c found' ∙ ap (λ x. (attempted as_ db, x)) row'
