-- ===== src/Policy/Handlers.antt =====
-- internal/handler/policy.go, over internal/service/policy.go: who administers the permissions of members,
-- and their schedules. `order` is the ORDER BY of the database.
use gaty.Prelude.{ℕ, String, Option, none, some, List, keep, length, ◌&&◌, ◌==◌, if◌then◌else◌}
use gaty.Errors.{Result, ok, err, root, not_found}
use gaty.Http.{Reply, refused, done}
use gaty.Access.{Identity}
use gaty.Pagination.{PaginationParams, page}
use gaty.Schedule.{AccessSchedule}
use gaty.Schedule.Store as Store
use gaty.Schedule.Store.{Schedules}
use gaty.Policy.{AccessPolicy, Tables, membership, same_type, of_subject}
use gaty.Policy.Member as Member

-- `ListForGate`, `ListForMember`: a page of the rows, and their number
unfoldable pub list_for_gate :
    (List AccessPolicy → List AccessPolicy) → ℕ → PaginationParams → Tables → List AccessPolicy × ℕ
list_for_gate order gate_id p db =
    let rows =
      keep (λ q. same_type membership q.subject_type && q.gate_id == gate_id) db.policies in
    (page p (order rows), length rows)

unfoldable pub list_for_member :
    (List AccessPolicy → List AccessPolicy) → ℕ → PaginationParams → Tables → List AccessPolicy × ℕ
list_for_member order member_id p db =
    let rows = keep (of_subject membership member_id) db.policies in
    (page p (order rows), length rows)

-- `List`, `ListByMember`, `ListMine`
unfoldable pub list :
    (List AccessPolicy → List AccessPolicy)
    → ℕ
    → PaginationParams
    → Tables
    → Reply (List AccessPolicy × ℕ)
unfolding list_for_gate
list order gate_id p db = done (list_for_gate order gate_id p db)

unfoldable pub list_by_member :
    (List AccessPolicy → List AccessPolicy)
    → ℕ
    → PaginationParams
    → Tables
    → Reply (List AccessPolicy × ℕ)
unfolding list_for_member
list_by_member order member_id p db = done (list_for_member order member_id p db)

unfoldable pub list_mine :
    (List AccessPolicy → List AccessPolicy)
    → Identity
    → PaginationParams
    → Tables
    → Reply (List AccessPolicy × ℕ)
unfolding list_for_member
list_mine order i p db =
    if i.member_id == 0
    then refused 401 "not authenticated"
    else done (list_for_member order i.member_id p db)

-- a change of the tables, every error of which is a failure of the server
abbrev pub changed : String → Tables → Result Tables → Tables × Reply (Unit {0})
changed failure db result = elim result [
  | ok db' ↦ (db', done tt)
  | err e ↦ (db, refused 500 failure)
]

-- `Grant`, `Revoke`
unfoldable pub grant : ℕ → ℕ → String → Tables → Tables × Reply (Unit {0})
unfolding Member.grant
grant gate_id member_id code db =
    changed "failed to grant policy" db (Member.grant member_id gate_id code db)

unfoldable pub revoke : ℕ → ℕ → Tables → Tables × Reply (Unit {0})
unfolding Member.revoke
revoke gate_id member_id db =
    changed "failed to revoke policy" db (Member.revoke member_id gate_id db)

-- `RevokePermission`
unfoldable pub revoke_permission : ℕ → ℕ → String → Tables → Tables × Reply (Unit {0})
unfolding Member.revoke_permission
revoke_permission gate_id member_id code db =
    elim (Member.revoke_permission member_id gate_id code db) [
      | ok db' ↦ (db', done tt)
      | err e ↦ elim (root e) [
        | not_found ↦ (db, refused 404 "policy not found")
        | _ ↦ (db, refused 500 "failed to revoke permission")
      ]
    ]

-- the schedule of a member at a gate, by the service
unfoldable pub member_gate_schedule : ℕ → ℕ → Tables → Schedules → Result AccessSchedule
unfolding Member.get_schedule_id Store.get_by_id
member_gate_schedule member_id gate_id db schedules =
    elim (Member.get_schedule_id member_id gate_id db) [
      | err e ↦ err e
      | ok schedule_id ↦ Store.get_by_id schedule_id schedules
    ]

-- `GetMemberGateSchedule`
unfoldable pub get_member_gate_schedule : ℕ → ℕ → Tables → Schedules → Reply (Option AccessSchedule)
unfolding member_gate_schedule
get_member_gate_schedule gate_id member_id db schedules =
    elim (member_gate_schedule member_id gate_id db schedules) [
      | ok s ↦ done (some s)
      | err e ↦ elim (root e) [ not_found ↦ done none | _ ↦ refused 500 "failed to get schedule" ]
    ]

-- `SetMemberGateSchedule`, `RemoveMemberGateSchedule`
unfoldable pub set_member_gate_schedule : ℕ → ℕ → ℕ → Tables → Tables × Reply (Unit {0})
unfolding Member.set_schedule
set_member_gate_schedule gate_id member_id schedule_id db =
    changed "failed to set schedule" db (Member.set_schedule member_id gate_id schedule_id db)

unfoldable pub remove_member_gate_schedule : ℕ → ℕ → Tables → Tables × Reply (Unit {0})
unfolding Member.remove_schedule
remove_member_gate_schedule gate_id member_id db =
    changed "failed to remove schedule" db (Member.remove_schedule member_id gate_id db)
