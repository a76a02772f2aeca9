-- ===== src/Schedule/Handlers.antt =====
-- internal/handler/access_schedule.go: the administrator's schedules, and a member's own.
use gaty.Prelude.{ℕ, String, Option, none, some, List, ◌==◌, if◌then◌else◌}
use gaty.Errors.{ok, err, root, not_found}
use gaty.Http.{Reply, refused, done}
use gaty.Access.{Identity}
use gaty.Pagination.{PaginationParams}
use gaty.Schedule.{AccessSchedule, ExprNode}
use gaty.Schedule.Store as Store
use gaty.Schedule.Store.{Schedules, is_owned_by}

-- what the body of a request gives, and the row's identifier and time
pub record ScheduleInput : Type 0 where
  pub name : String
  pub description : Option String
  pub expr : Option ExprNode

abbrev pub new_row : ℕ → ℕ → Option ℕ → ScheduleInput → AccessSchedule
new_row id now owner input = record {
  id = id;
  member_id = owner;
  name = input.name;
  description = input.description;
  expr = input.expr;
  created_at = now;
}

-- a creation: every error is a refusal of the input
unfoldable pub create_for :
    List ℕ → ℕ → ℕ → Option ℕ → ScheduleInput → Schedules → Schedules × Reply AccessSchedule
unfolding Store.create
create_for members id now owner input table =
    elim (Store.create members (new_row id now owner input) table) [
      | ok (table', s) ↦ (table', done s)
      | err e ↦ (table, refused 400 "validation failed")
    ]

-- `Create`
unfoldable pub create :
    List ℕ → ℕ → ℕ → ScheduleInput → Schedules → Schedules × Reply AccessSchedule
unfolding create_for
create members id now input table = create_for members id now none input table

-- `CreateMine`
unfoldable pub create_mine :
    List ℕ → ℕ → ℕ → Identity → ScheduleInput → Schedules → Schedules × Reply AccessSchedule
unfolding create_for
create_mine members id now i input table =
    if i.member_id == 0
    then (table, refused 401 "unauthorized")
    else create_for members id now (some i.member_id) input table

-- `List`, `ListMine`
unfoldable pub list : (Schedules → Schedules) → PaginationParams → Schedules → Reply (Schedules × ℕ)
unfolding Store.list
list order p table = done (Store.list order p table)

unfoldable pub list_mine :
    (Schedules → Schedules) → Identity → PaginationParams → Schedules → Reply (Schedules × ℕ)
unfolding Store.list_by_member
list_mine order i p table =
    if i.member_id == 0
    then refused 401 "unauthorized"
    else done (Store.list_by_member order i.member_id p table)

-- `Get`
unfoldable pub get : ℕ → Schedules → Reply AccessSchedule
unfolding Store.get_by_id
get schedule_id table = elim (Store.get_by_id schedule_id table) [
  | ok s ↦ done s
  | err e ↦ elim (root e) [
    | not_found ↦ refused 404 "schedule not found"
    | _ ↦ refused 500 "failed to get schedule"
  ]
]

-- `GetMine`: a schedule of someone else counts as missing
unfoldable pub get_mine : Identity → ℕ → Schedules → Reply AccessSchedule
unfolding get
get_mine i schedule_id table =
    if i.member_id == 0 then refused 401 "unauthorized" else elim (get schedule_id table) [
      | refused code text ↦ refused code text
      | done s ↦ if is_owned_by i.member_id s then done s else refused 404 "schedule not found"
    ]

-- `Update`
unfoldable pub update : ℕ → ScheduleInput → Schedules → Schedules × Reply AccessSchedule
unfolding Store.update
update schedule_id input table =
    elim (Store.update schedule_id input.name input.description input.expr table) [
      | ok (table', s) ↦ (table', done s)
      | err e ↦ elim (root e) [
        | not_found ↦ (table, refused 404 "schedule not found")
        | _ ↦ (table, refused 400 "validation failed")
      ]
    ]

-- `UpdateMine`
unfoldable pub update_mine :
    Identity → ℕ → ScheduleInput → Schedules → Schedules × Reply AccessSchedule
unfolding get update
update_mine i schedule_id input table =
    if i.member_id == 0 then (table, refused 401 "unauthorized") else elim (get schedule_id table) [
      | refused code text ↦ (table, refused code text)
      | done s ↦
          if is_owned_by i.member_id s
          then update schedule_id input table
          else (table, refused 403 "you can only edit your own schedules")
    ]

-- `Delete`
unfoldable pub delete : ℕ → Schedules → Schedules × Reply (Unit {0})
unfolding Store.delete
delete schedule_id table = elim (Store.delete schedule_id table) [
  | ok table' ↦ (table', done tt)
  | err e ↦ elim (root e) [
    | not_found ↦ (table, refused 404 "schedule not found")
    | _ ↦ (table, refused 500 "failed to delete schedule")
  ]
]

-- `DeleteMine`
unfoldable pub delete_mine : Identity → ℕ → Schedules → Schedules × Reply (Unit {0})
unfolding get Store.delete
delete_mine i schedule_id table =
    if i.member_id == 0 then (table, refused 401 "unauthorized") else elim (get schedule_id table) [
      | refused code text ↦ (table, refused code text)
      | done s ↦
          if is_owned_by i.member_id s
          then elim (Store.delete schedule_id table) [
            | ok table' ↦ (table', done tt)
            | err e ↦ (table, refused 500 "failed to delete schedule")
          ]
          else (table, refused 403 "you can only delete your own schedules")
    ]
