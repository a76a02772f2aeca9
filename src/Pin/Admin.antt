-- ===== src/Pin/Admin.antt =====
-- The administration of access codes: internal/repository/postgres/gate_pin.go and `Create`,
-- `Update`, `Delete`, `SetSchedule`, `ClearSchedule` of internal/service/gate_pin.go. `generate` is
-- bcrypt; the identifier and the time of a new row are the database's.
use gaty.Prelude.{
  ℕ, String, Option, none, some, List, [], ◌∷◌, Bool, true, not, ◌&&◌, ◌||◌, any, keep, length,
  codes, ◌==◌, str_eq, ltb, if◌then◌else◌,
}
use gaty.Errors.{Result, ok, err, wrap, message, not_found}
use gaty.Json.{Json, Fields, field, end}
use gaty.Redis.{Redis, UuidText, Fate, lost_before}
use gaty.Pagination.{PaginationParams, page}
use gaty.Gate.Status.{put}
use gaty.Auth.{byte_length}
use gaty.Pin.{GatePin, uses_key}

abbrev pub Pins : Type 0
Pins = List GatePin

-- what a new row refers to
pub record References : Type 0 where
  pub gates : List ℕ
  pub schedules : List ℕ

abbrev pub known : ℕ → List ℕ → Bool
known i ids = any (λ j. j == i) ids

abbrev pub known_schedule : Option ℕ → List ℕ → Bool
known_schedule none ids = true
known_schedule (some i) ids = known i ids

-- `Create` of the repository
unfoldable pub insert : References → GatePin → Pins → Result (Pins × GatePin)
insert refs p table =
    if known p.gate_id refs.gates && known_schedule p.schedule_id refs.schedules
    then ok (p ∷ table, p)
    else err (wrap "create gate pin" (message "foreign key violation"))

abbrev pub is_row : ℕ → ℕ → GatePin → Bool
is_row pin_id gate_id p = p.id == pin_id && p.gate_id == gate_id

unfoldable pub find_pin : (GatePin → Bool) → Pins → Option GatePin
find_pin q [] = none
find_pin q (p ∷ ps) = let rest = find_pin q ps in if q p then some p else rest

-- `GetByID`
unfoldable pub get_by_id : ℕ → ℕ → Pins → Result GatePin
unfolding find_pin
get_by_id pin_id gate_id table = elim (find_pin (is_row pin_id gate_id) table) [
  | none ↦ err not_found
  | some p ↦ ok p
]

-- `List`, a page of the rows, which stand newest first, and their number
unfoldable pub list : ℕ → PaginationParams → Pins → Pins × ℕ
list gate_id p table =
    let rows = keep (λ q. q.gate_id == gate_id) table in (page p rows, length rows)

abbrev pub replace : (GatePin → Bool) → (GatePin → GatePin) → Pins → Pins
replace q f [] = []
replace q f (p ∷ ps) = let rest = replace q f ps in (if q p then f p else p) ∷ rest

-- UPDATE … WHERE id AND gate_id RETURNING
unfoldable pub update_row : String → ℕ → ℕ → (GatePin → GatePin) → Pins → Result (Pins × GatePin)
unfolding find_pin
update_row what pin_id gate_id f table = elim (find_pin (is_row pin_id gate_id) table) [
  | none ↦ err (wrap what not_found)
  | some p ↦ ok (replace (is_row pin_id gate_id) f table, f p)
]

-- `metadata || $2`: the keys of the second object override
unfoldable pub merge : Fields → Fields → Fields
unfolding put
merge old end = old
merge old (field k v fs) = let rest = merge old fs in put k v rest

abbrev pub relabelled : Option String → Fields → GatePin → GatePin
relabelled label metadata p = record p {
  label = elim label [ none ↦ p.label | some l ↦ l ];
  metadata = merge p.metadata metadata;
}

-- `Update`
unfoldable pub update : ℕ → ℕ → Option String → Fields → Pins → Result (Pins × GatePin)
unfolding update_row merge
update pin_id gate_id label metadata table =
    update_row "update gate access code" pin_id gate_id (relabelled label metadata) table

abbrev pub scheduled : Option ℕ → GatePin → GatePin
scheduled schedule_id p = record p { schedule_id = schedule_id }

-- `SetPinSchedule`: the schedule must exist where there is a row to change
unfoldable pub set_pin_schedule : References → ℕ → ℕ → ℕ → Pins → Result (Pins × GatePin)
unfolding update_row
set_pin_schedule refs pin_id gate_id schedule_id table =
    if any (is_row pin_id gate_id) table && not (known schedule_id refs.schedules)
    then err (wrap "set pin schedule" (message "foreign key violation"))
    else update_row "set pin schedule" pin_id gate_id (scheduled (some schedule_id)) table

-- `ClearPinSchedule`
unfoldable pub clear_pin_schedule : ℕ → ℕ → Pins → Result (Pins × GatePin)
unfolding update_row
clear_pin_schedule pin_id gate_id table =
    update_row "clear pin schedule" pin_id gate_id (scheduled none) table

-- `Delete` of the repository
unfoldable pub delete_row : ℕ → ℕ → Pins → Result Pins
delete_row pin_id gate_id table =
    if any (is_row pin_id gate_id) table
    then ok (keep (λ p. not (is_row pin_id gate_id p)) table)
    else err not_found

pub record CreatePinParams : Type 0 where
  pub pin : String
  pub code_type : String
  pub label : String
  pub metadata : Fields
  pub schedule_id : Option ℕ

abbrev pub is_digit : ℕ → Bool
is_digit c = not (ltb c 48 || ltb 57 c)

unfoldable pub digits_only : List ℕ → Bool
digits_only [] = true
digits_only (c ∷ cs) = is_digit c && digits_only cs

abbrev pub code_type_of : CreatePinParams → String
code_type_of p = if str_eq p.code_type "" then "pin" else p.code_type

-- the checks of a code of the type "pin"
unfoldable pub check_code : CreatePinParams → Result (Unit {0})
unfolding byte_length digits_only
check_code p =
    if str_eq (code_type_of p) "pin"
    then if ltb (byte_length (codes p.pin)) 4
      then err (message "pin code must be at least 4 digits")
      else if not (digits_only (codes p.pin))
      then err (message "pin code must contain digits only")
      else ok tt
    else ok tt

-- `Create`
unfoldable pub create :
    (String → Result String)
    → References
    → ℕ
    → ℕ
    → ℕ
    → CreatePinParams
    → Pins
    → Result (Pins × GatePin)
unfolding check_code put insert
create generate refs id now gate_id params table = elim (check_code params) [
  | err e ↦ err e
  | ok _ ↦ elim (generate params.pin) [
    | err e ↦ err (wrap "hash pin" e)
    | ok hashed ↦
        insert refs
          (record {
            id = id;
            gate_id = gate_id;
            hashed_pin = hashed;
            label = params.label;
            metadata = put "code_type" (Json.str (code_type_of params)) params.metadata;
            schedule_id = params.schedule_id;
            created_at = now;
          })
          table
  ]
]

module _ (r : Redis) (u : UuidText) where
  -- DEL of the counter of uses, whose failure is ignored
  unfoldable pub drop_uses : Fate → ℕ → r.Store → r.Store
  drop_uses lost_before pin_id s = s
  drop_uses _ pin_id s = r.del (uses_key u pin_id) s

  -- `Delete`
  unfoldable pub delete : Fate → ℕ → ℕ → Pins → r.Store → Pins × r.Store × Result (Unit {0})
  unfolding delete_row drop_uses
  delete f pin_id gate_id table s = elim (delete_row pin_id gate_id table) [
    | err e ↦ (table, s, err e)
    | ok table' ↦ (table', drop_uses f pin_id s, ok tt)
  ]
