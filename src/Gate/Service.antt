-- ===== src/Gate/Service.antt =====
-- `GateService` of internal/service/gate.go, less `Trigger`, over the table of gates
-- (internal/repository/postgres/gate.go) and the tokens of internal/service/gate_token.go.
use gaty.Prelude.{
  ℕ, String, Option, none, some, List, map, Bool, not, str_eq, keep, if◌then◌else◌, ℤ,
}
use gaty.Errors.{Result, ok, err, wrap, unauthorized}
use gaty.Json.{end}
use gaty.Gate.{Gate, ActionConfig, MetaField, StatusRule, StatusTransition, effective_status}
use gaty.Gate.Table.{Table, update_rows, get_by_id, get_by_token, set_token}
use gaty.Pagination.{PaginationParams, page}
use gaty.Policy.{Tables}
use gaty.Policy.Member.{has_permission, has_any_permission}
use gaty.Trigger.{Role, admin, member}

-- internal/model/omittable_nullable.go
pub record OmittableNullable (Value : Type 0) : Type 0 where
  pub sent : Bool
  pub null : Bool
  pub value : Value

-- a column after a field that may be left out or null
abbrev pub assign : {Value : Type 0} → OmittableNullable Value → Option Value → Option Value
assign f old = if f.sent then (if f.null then none else some f.value) else old

-- a column after a field that may be nil
abbrev pub assign_some : {Value : Type 0} → Option Value → Value → Value
assign_some none old = old
assign_some (some v) old = v

pub record UpdateGateParams : Type 0 where
  pub name : Option String
  pub open_config : OmittableNullable ActionConfig
  pub close_config : OmittableNullable ActionConfig
  pub status_config : OmittableNullable ActionConfig
  pub meta_config : Option (List MetaField)
  pub status_rules : Option (List StatusRule)
  pub custom_statuses : Option (List String)
  pub ttl_seconds : OmittableNullable ℤ
  pub status_transitions : Option (List StatusTransition)

-- the SET clauses of `Update`
unfoldable pub assign_row : UpdateGateParams → Gate → Gate
assign_row p g = record g {
  name = assign_some p.name g.name;
  open_config = assign p.open_config g.open_config;
  close_config = assign p.close_config g.close_config;
  status_config = assign p.status_config g.status_config;
  meta_config = assign_some p.meta_config g.meta_config;
  status_rules = assign_some p.status_rules g.status_rules;
  custom_statuses = assign_some p.custom_statuses g.custom_statuses;
  ttl_seconds = assign p.ttl_seconds g.ttl_seconds;
  status_transitions = assign_some p.status_transitions g.status_transitions;
}

-- `Update` of the repository. With nothing to set it reads the row, which is the same.
unfoldable pub update_row : ℕ → UpdateGateParams → Table → Table × Result Gate
unfolding update_rows assign_row get_by_id
update_row i p gates =
    (update_rows i (assign_row p) gates, get_by_id (update_rows i (assign_row p) gates) i)

-- the status that is shown
unfoldable pub shown : ℕ → Gate → Gate
unfolding effective_status
shown now g = record g { status = effective_status g now }

unfoldable pub update : ℕ → ℕ → UpdateGateParams → Table → Table × Result Gate
unfolding update_row shown
update now i p gates = (
  (update_row i p gates).0,
  elim (update_row i p gates).1 [ err e ↦ err e | ok g ↦ ok (shown now g) ],
)

-- The libraries behind a gate's token: a signed JWT for a gate, the type and the subject of a JWT
-- whose signature verifies, and the parser of UUIDs.
pub record GateTokens : Type 0 where
  pub issue : ℕ → Result String
  pub claims : String → Option (String × String)
  pub parse_uuid : String → Option ℕ

unfoldable pub parse_gate_token : GateTokens → String → Option ℕ
parse_gate_token t token = elim (t.claims token) [
  | none ↦ none
  | some (type, subject) ↦ if str_eq type "gate_token" then t.parse_uuid subject else none
]

unfoldable pub authenticate_token : GateTokens → String → Table → Result Gate
unfolding parse_gate_token get_by_token
authenticate_token t token gates = elim (parse_gate_token t token) [
  | none ↦ err unauthorized
  | some i ↦ get_by_token gates i token
]

-- The credentials of the broker are synchronised after it, whose failure is ignored.
unfoldable pub rotate_token : GateTokens → ℕ → Table → Table × Result String
unfolding get_by_id set_token
rotate_token t i gates = elim (get_by_id gates i) [
  | err e ↦ (gates, err e)
  | ok g ↦ elim (t.issue g.id) [
    | err e ↦ (gates, err (wrap "issue gate token" e))
    | ok token ↦ (
      (set_token i token gates).0,
      elim (set_token i token gates).1 [ err e ↦ err (wrap "set gate token" e) | ok _ ↦ ok token ],
    )
  ]
]

-- the rows of `List`: all of them for an admin, those with a permission for a member
unfoldable pub visible : Role → ℕ → Tables → Table → Table
unfolding has_any_permission
visible admin member_id db gates = gates
visible member member_id db gates = keep (λ g. has_any_permission member_id g.id db) gates

-- `List` over a table that is held newest first
unfoldable pub list : ℕ → Role → ℕ → Tables → PaginationParams → Table → List Gate
unfolding visible shown
list now role member_id db p gates = map (shown now) (page p (visible role member_id db gates))

-- `Get` of a gate that a member may see, without the metadata that takes gate:read_status
unfoldable pub get : ℕ → Role → ℕ → Tables → ℕ → Table → Result Gate
unfolding get_by_id has_any_permission has_permission shown
get now role member_id db i gates = elim (get_by_id gates i) [
  | err e ↦ err e
  | ok g ↦ elim role [
    | admin ↦ ok (shown now g)
    | member ↦
        if not (has_any_permission member_id g.id db)
        then err unauthorized
        else if has_permission member_id g.id "gate:read_status" db
        then ok (shown now g)
        else ok (shown now (record g { status_metadata = end }))
  ]
]
