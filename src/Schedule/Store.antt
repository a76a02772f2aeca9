-- ===== src/Schedule/Store.antt =====
-- The stored schedules: internal/repository/postgres/access_schedule.go and the operations of
-- internal/service/schedule.go over them. A row holds its expression as a tree: the JSON in between
-- is left out. The identifier and the time of a new row are the database's.
use gaty.Prelude.{
  ℕ, String, Option, none, some, List, [], ◌∷◌, Bool, true, false, not, any, keep, length, ◌==◌,
  if◌then◌else◌,
}
use gaty.Errors.{Result, ok, err, wrap, message, not_found, invalid_expr}
use gaty.Pagination.{PaginationParams, page}
use gaty.Schedule.{AccessSchedule, ExprNode}
use gaty.Schedule.Expr.{validate_expr}

abbrev pub Schedules : Type 0
Schedules = List AccessSchedule

unfoldable pub find_schedule : ℕ → Schedules → Option AccessSchedule
find_schedule i [] = none
find_schedule i (s ∷ ss) = let rest = find_schedule i ss in if s.id == i then some s else rest

-- `GetByID` and `GetByIDPublic`
unfoldable pub get_by_id : ℕ → Schedules → Result AccessSchedule
unfolding find_schedule
get_by_id i table = elim (find_schedule i table) [ none ↦ err not_found | some s ↦ ok s ]

-- `member_id` refers to a member
abbrev pub known_member : Option ℕ → List ℕ → Bool
known_member none members = true
known_member (some m) members = any (λ i. i == m) members

-- `Create`
unfoldable pub insert : List ℕ → AccessSchedule → Schedules → Result (Schedules × AccessSchedule)
insert members s table =
    if known_member s.member_id members
    then ok (s ∷ table, s)
    else err (wrap "scan access schedule" (message "foreign key violation"))

abbrev pub is_shared : AccessSchedule → Bool
is_shared s = elim s.member_id [ none ↦ true | some m ↦ false ]

abbrev pub is_owned_by : ℕ → AccessSchedule → Bool
is_owned_by m s = elim s.member_id [ none ↦ false | some i ↦ i == m ]

-- `List` and `ListByMember`; `order` is ORDER BY name
unfoldable pub list : (Schedules → Schedules) → PaginationParams → Schedules → Schedules × ℕ
list order p table = let rows = keep is_shared table in (page p (order rows), length rows)

unfoldable pub list_by_member :
    (Schedules → Schedules) → ℕ → PaginationParams → Schedules → Schedules × ℕ
list_by_member order m p table =
    let rows = keep (is_owned_by m) table in (page p (order rows), length rows)

abbrev pub rewritten : String → Option String → Option ExprNode → AccessSchedule → AccessSchedule
rewritten name description expr s = record s { name = name; description = description; expr = expr }

abbrev pub replace : ℕ → (AccessSchedule → AccessSchedule) → Schedules → Schedules
replace i f [] = []
replace i f (s ∷ ss) = let rest = replace i f ss in (if s.id == i then f s else s) ∷ rest

-- `Update` of the repository
unfoldable pub update_row :
    ℕ → String → Option String → Option ExprNode → Schedules → Result (Schedules × AccessSchedule)
unfolding find_schedule
update_row i name description expr table = elim (find_schedule i table) [
  | none ↦ err (wrap "update access schedule" not_found)
  | some s ↦
      ok (replace i (rewritten name description expr) table, rewritten name description expr s)
]

-- `Delete`
unfoldable pub delete : ℕ → Schedules → Result Schedules
delete i table =
    if any (λ s. s.id == i) table then ok (keep (λ s. not (s.id == i)) table) else err not_found

-- the validation that the service puts first
unfoldable pub validate : Option ExprNode → Result (Unit {0})
unfolding validate_expr
validate none = ok tt
validate (some e) = elim (validate_expr e []) [ none ↦ ok tt | some x ↦ err (invalid_expr x) ]

-- `Create` and `CreateMember` of the service
unfoldable pub create : List ℕ → AccessSchedule → Schedules → Result (Schedules × AccessSchedule)
unfolding validate insert
create members s table = elim (validate s.expr) [ err e ↦ err e | ok _ ↦ insert members s table ]

-- `Update` of the service
unfoldable pub update :
    ℕ → String → Option String → Option ExprNode → Schedules → Result (Schedules × AccessSchedule)
unfolding validate update_row
update i name description expr table = elim (validate expr) [
  | err e ↦ err e
  | ok _ ↦ update_row i name description expr table
]
