-- ===== src/Accounts/Administration.antt =====
-- internal/handler/member.go: the administrator's handling of members.
use gaty.Prelude.{ℕ, String, Option, List}
use gaty.Errors.{ok, err, root, not_found, already_exists, username_taken}
use gaty.Http.{Reply, refused, done}
use gaty.Pagination.{PaginationParams}
use gaty.Trigger.{Role}
use gaty.Access.{Member}
use gaty.Accounts as Members
use gaty.Accounts.{Accounts}
use gaty.Accounts.Service as Service
use gaty.Accounts.Service.{Secrets, New}

-- `Create`
unfoldable pub create :
    Secrets → New → String → Option String → String → Role → Accounts → Accounts × Reply Member
unfolding Service.create
create s new username display_name password role db =
    let made = Service.create s new username display_name password role db in
    (
      made.0,
      elim made.1 [
        | ok m ↦ done m
        | err e ↦ elim (root e) [
          | username_taken ↦ refused 409 "username already taken"
          | _ ↦ refused 500 "failed to create member"
        ]
      ],
    )

-- `List`, without the parameters that its body repeats
unfoldable pub list : PaginationParams → Accounts → Reply (List Member × ℕ)
unfolding Members.list
list p db = done (Members.list p db)

-- `Get`
unfoldable pub get : ℕ → Accounts → Reply Member
unfolding Members.get_by_id
get member_id db = elim (Members.get_by_id member_id db) [
  | ok m ↦ done m
  | err e ↦ elim (root e) [
    | not_found ↦ refused 404 "member not found"
    | _ ↦ refused 500 "failed to get member"
  ]
]

-- `Update`
unfoldable pub update :
    ℕ → Option String → Option String → Option Role → Accounts → Accounts × Reply Member
unfolding Members.update
update member_id display_name username role db =
    elim (Members.update member_id display_name username role db) [
      | ok (db', m) ↦ (db', done m)
      | err e ↦ elim (root e) [
        | not_found ↦ (db, refused 404 "member not found")
        | already_exists ↦ (db, refused 409 "username already taken")
        | _ ↦ (db, refused 500 "failed to update member")
      ]
    ]

-- `Delete`
unfoldable pub delete : ℕ → Accounts → Accounts × Reply (Unit {0})
unfolding Members.delete
delete member_id db = elim (Members.delete member_id db) [
  | ok db' ↦ (db', done tt)
  | err e ↦ elim (root e) [
    | not_found ↦ (db, refused 404 "member not found")
    | _ ↦ (db, refused 500 "failed to delete member")
  ]
]
