-- ===== src/Schedule/Stored.antt =====
-- What the handlers of internal/handler/access_schedule.go keep true of the stored schedules.
use gaty.Prelude.{
  ℕ, String, Option, none, some, List, [], ◌∷◌, true, false, not, keep, All, All-keep, ◌==◌, ◌≡◌,
  ◌⊎◌, refl, sym, arith, inl, inr, ==_iff, Bool-cases, if◌then◌else◌,
}
use mathlib.Core.Path.{subst}
use gaty.Errors.{ok}
use gaty.Access.{Identity}
use gaty.Schedule.{AccessSchedule, ExprNode}
use gaty.Schedule.Meaning.{IsWellFormed, validate_expr_iff}
use gaty.Schedule.Store as Store
use gaty.Schedule.Store.{Schedules, find_schedule, is_owned_by, rewritten, replace, validate}
use gaty.Schedule.Handlers.{
  ScheduleInput, new_row, create_for, create, create_mine, get, update, update_mine, delete,
  delete_mine,
}

module _ (i j : ℕ) (other : (j == i) ≡ false) where
  find_schedule-replace :
      (name : String) (description : Option String) (expr : Option ExprNode) (ss : Schedules)
      → find_schedule j (replace i (rewritten name description expr) ss) ≡ find_schedule j ss
  unfolding find_schedule
  find_schedule-replace name description expr [] = refl
  find_schedule-replace name description expr (s ∷ ss) =
      ground (arith, find_schedule-replace name description expr ss)

  find_schedule-keep :
      (ss : Schedules) → find_schedule j (keep (λ s. not (s.id == i)) ss) ≡ find_schedule j ss
  unfolding find_schedule
  find_schedule-keep [] = refl
  find_schedule-keep (s ∷ ss) = ground (arith, find_schedule-keep ss)

-- what an update or a deletion by a member leaves: the table, or the row that the member owns is
-- changed
update_mine-cases :
    (i : Identity) (schedule_id : ℕ) (input : ScheduleInput) (table : Schedules)
    → ((update_mine i schedule_id input table).0 ≡ table)
      ⊎ (((update_mine i schedule_id input table).0
            ≡ replace schedule_id (rewritten input.name input.description input.expr) table)
          × (validate input.expr ≡ ok tt))
unfolding update_mine get update Store.update Store.update_row Store.get_by_id
update_mine-cases i schedule_id input table = ground arith

delete_mine-cases :
    (i : Identity) (schedule_id : ℕ) (table : Schedules)
    → ((delete_mine i schedule_id table).0 ≡ table)
      ⊎ ((delete_mine i schedule_id table).0 ≡ keep (λ s. not (s.id == schedule_id)) table)
unfolding delete_mine get Store.delete Store.get_by_id
delete_mine-cases i schedule_id table = ground arith

-- a row that the member does not own is refused
mine-refused :
    (i : Identity) (schedule_id : ℕ) (input : ScheduleInput) (table : Schedules)
    (s : AccessSchedule)
    → find_schedule schedule_id table ≡ some s
    → is_owned_by i.member_id s ≡ false
    → ((update_mine i schedule_id input table).0 ≡ table)
      × ((delete_mine i schedule_id table).0 ≡ table)
unfolding update_mine delete_mine get Store.get_by_id
mine-refused i schedule_id input table s h k = ground arith

-- A schedule that another member owns, or nobody, is as it was after a member's update or deletion,
-- whatever the request names.
pub update_mine-others :
    (i : Identity) (schedule_id other : ℕ) (input : ScheduleInput) (table : Schedules)
    (s : AccessSchedule)
    → find_schedule other table ≡ some s
    → is_owned_by i.member_id s ≡ false
    → (find_schedule other (update_mine i schedule_id input table).0 ≡ some s)
      × (find_schedule other (delete_mine i schedule_id table).0 ≡ some s)
update_mine-others i schedule_id other input table s h k =
    elim (Bool-cases (other == schedule_id)) [
      | inl same ↦
          let (updated, deleted) =
            mine-refused i schedule_id input table s
              (subst (λ j. find_schedule j table ≡ some s) ((==_iff other schedule_id).0 same) h)
              k in
          (rw updated h, rw deleted h)
      | inr apart ↦ (
        elim (update_mine-cases i schedule_id input table) [
          | inl e ↦ rw e h
          | inr (e, _) ↦
              rw
                (
                  e,
                  find_schedule-replace schedule_id other apart input.name input.description
                      input.expr table,
                )
                h
        ],
        elim (delete_mine-cases i schedule_id table) [
          | inl e ↦ rw e h
          | inr e ↦ rw (e, find_schedule-keep schedule_id other apart table) h
        ],
      )
    ]

-- A stored schedule: no expression, or a well-formed one.
abbrev pub IsValid : AccessSchedule → Type 0
IsValid s = elim s.expr [ none ↦ Unit | some e ↦ IsWellFormed e ]

-- what a request does to the schedules
pub data Change (table : Schedules) : Schedules → Type 0 where
  creates :
      (members : List ℕ) (id now : ℕ) (input : ScheduleInput)
      → Change table (create members id now input table).0
  creates_mine :
      (members : List ℕ) (id now : ℕ) (i : Identity) (input : ScheduleInput)
      → Change table (create_mine members id now i input table).0
  updates :
      (schedule_id : ℕ) (input : ScheduleInput) → Change table (update schedule_id input table).0
  updates_mine :
      (i : Identity) (schedule_id : ℕ) (input : ScheduleInput)
      → Change table (update_mine i schedule_id input table).0
  deletes : (schedule_id : ℕ) → Change table (delete schedule_id table).0
  deletes_mine : (i : Identity) (schedule_id : ℕ) → Change table (delete_mine i schedule_id table).0

pub data Reach (table : Schedules) : Schedules → Type 0 where
  here : Reach table table
  after : {mid table' : Schedules} → Reach table mid → Change mid table' → Reach table table'

create_for-cases :
    (members : List ℕ) (id now : ℕ) (owner : Option ℕ) (input : ScheduleInput) (table : Schedules)
    → ((create_for members id now owner input table).0 ≡ table)
      ⊎ (((create_for members id now owner input table).0 ≡ new_row id now owner input ∷ table)
          × (validate input.expr ≡ ok tt))
unfolding create_for Store.create Store.insert
create_for-cases members id now owner input table = ground arith

create_mine-cases :
    (members : List ℕ) (id now : ℕ) (i : Identity) (input : ScheduleInput) (table : Schedules)
    → ((create_mine members id now i input table).0 ≡ table)
      ⊎ ((create_mine members id now i input table).0
          ≡ (create_for members id now (some i.member_id) input table).0)
unfolding create_mine
create_mine-cases members id now i input table = ground arith

update-cases :
    (schedule_id : ℕ) (input : ScheduleInput) (table : Schedules)
    → ((update schedule_id input table).0 ≡ table)
      ⊎ (((update schedule_id input table).0
            ≡ replace schedule_id (rewritten input.name input.description input.expr) table)
          × (validate input.expr ≡ ok tt))
unfolding update Store.update Store.update_row
update-cases schedule_id input table = ground arith

delete-cases :
    (schedule_id : ℕ) (table : Schedules)
    → ((delete schedule_id table).0 ≡ table)
      ⊎ ((delete schedule_id table).0 ≡ keep (λ s. not (s.id == schedule_id)) table)
unfolding delete Store.delete
delete-cases schedule_id table = ground arith

-- what was validated may be stored
IsValid-validate :
    (s : AccessSchedule) (expr : Option ExprNode)
    → validate expr ≡ ok tt
    → IsValid (record s { expr = expr })
unfolding validate
IsValid-validate s none h = tt
IsValid-validate s (some e) h = (validate_expr_iff e []).0 (ground arith)

replace-IsValid :
    (i : ℕ) (input : ScheduleInput) (ss : Schedules)
    → validate input.expr ≡ ok tt
    → All IsValid ss
    → All IsValid (replace i (rewritten input.name input.description input.expr) ss)
replace-IsValid i input [] h v = tt
replace-IsValid i input (s ∷ ss) h (vs, v) = (
  elim (s.id == i)
      as (λ b. IsValid (if b then rewritten input.name input.description input.expr s else s)) [
        | true ↦ IsValid-validate (rewritten input.name input.description input.expr s) input.expr h
        | false ↦ vs
      ],
  replace-IsValid i input ss h v,
)

kept : {table table' : Schedules} → table' ≡ table → All IsValid table → All IsValid table'
kept e v = subst (All IsValid) (sym e) v

create_for-IsValid :
    (members : List ℕ) (id now : ℕ) (owner : Option ℕ) (input : ScheduleInput) (table : Schedules)
    → All IsValid table
    → All IsValid (create_for members id now owner input table).0
create_for-IsValid members id now owner input table v =
    elim (create_for-cases members id now owner input table) [
      | inl e ↦ kept e v
      | inr (e, h) ↦ kept e (IsValid-validate (new_row id now owner input) input.expr h, v)
    ]

Change-IsValid :
    {table table' : Schedules} → Change table table' → All IsValid table → All IsValid table'
unfolding create
Change-IsValid {table} (creates members id now input) v =
    create_for-IsValid members id now none input table v
Change-IsValid {table} (creates_mine members id now i input) v =
    elim (create_mine-cases members id now i input table) [
      | inl e ↦ kept e v
      | inr e ↦ kept e (create_for-IsValid members id now (some i.member_id) input table v)
    ]
Change-IsValid {table} (updates schedule_id input) v = elim (update-cases schedule_id input table) [
  | inl e ↦ kept e v
  | inr (e, h) ↦ kept e (replace-IsValid schedule_id input table h v)
]
Change-IsValid {table} (updates_mine i schedule_id input) v =
    elim (update_mine-cases i schedule_id input table) [
      | inl e ↦ kept e v
      | inr (e, h) ↦ kept e (replace-IsValid schedule_id input table h v)
    ]
Change-IsValid {table} (deletes schedule_id) v = elim (delete-cases schedule_id table) [
  | inl e ↦ kept e v
  | inr e ↦ kept e (All-keep IsValid _ table v)
]
Change-IsValid {table} (deletes_mine i schedule_id) v =
    elim (delete_mine-cases i schedule_id table) [
      | inl e ↦ kept e v
      | inr e ↦ kept e (All-keep IsValid _ table v)
    ]

-- Whatever requests were served, from valid schedules every stored schedule has no expression or a
-- well-formed one.
pub Reach-IsValid :
    {table table' : Schedules} → All IsValid table → Reach table table' → All IsValid table'
Reach-IsValid v here = v
Reach-IsValid v (after r c) = Change-IsValid c (Reach-IsValid v r)
