-- ===== src/Gate/Handlers.antt =====
-- internal/handler/gate.go. The routes are behind RequireAuth, so that a request has a role. `unmarshal`
-- is encoding/json's for a mapping, `truncate` the conversion of a float64 to int.
use gaty.Prelude.{
  ℕ, String, Option, none, some, List, [], ◌∷◌, Bool, true, false, not, ◌&&◌, str_eq, ℤ,
  if◌then◌else◌,
}
use gaty.Errors.{Result, ok, err, root, not_found, unauthorized, schedule_denied}
use gaty.Http.{Reply, refused, done}
use gaty.Json.{Json}
use gaty.Redis.{◌▹◌}
use gaty.Pagination.{PaginationParams}
use gaty.Policy.{Tables}
use gaty.Schedule.Clock.{Now}
use gaty.Trigger.{Role, Queries, Fired, trigger, perm_code}
use gaty.Gate.{Gate}
use gaty.Gate.Status.{PayloadMapping}
use gaty.Gate.Table.{Table}
use gaty.Gate.Table as Table
use gaty.Gate.Validation.{
  Verdict, valid, validate_action_config, validate_status_action_config, validate_custom_statuses,
  validate_status_rules, validate_ttl_seconds, validate_status_transitions,
}
use gaty.Gate.Service.{OmittableNullable, UpdateGateParams, GateTokens}
use gaty.Gate.Service as Service
use gaty.Gate.Creation.{CreateGateParams}
use gaty.Gate.Creation as Creation

abbrev pub is_valid : Verdict → Bool
is_valid v = elim v [ valid ↦ true | bad ↦ false ]

-- No check fails. The replies to a failure differ only in the detail that names the field.
abbrev pub accepts : List Verdict → Bool
accepts [] = true
accepts (v ∷ vs) = is_valid v && accepts vs

-- `Create`
abbrev pub create_checks :
    (Json → Option PayloadMapping) → (ℕ → ℤ) → CreateGateParams → List Verdict
create_checks unmarshal truncate p =
    validate_action_config p.open_config
    ∷ validate_action_config p.close_config
    ∷ validate_status_action_config unmarshal truncate p.status_config
    ∷ validate_custom_statuses p.custom_statuses
    ∷ validate_status_rules p.status_rules p.custom_statuses
    ∷ validate_ttl_seconds p.ttl_seconds
    ∷ validate_status_transitions p.status_transitions p.custom_statuses
    ∷ []

unfoldable pub handle_create :
    (Json → Option PayloadMapping)
    → (ℕ → ℤ)
    → GateTokens
    → ℕ
    → ℕ
    → String
    → CreateGateParams
    → Table
    → Table × Reply Gate
unfolding Creation.create
handle_create unmarshal truncate t id now token p gates =
    if not (accepts (create_checks unmarshal truncate p))
    then (gates, refused 400 "validation failed")
    else let made = Creation.create t id now token p gates in
      (made.0, elim made.1 [ err e ↦ refused 500 "failed to create gate" | ok g ↦ done g ])

-- `List`, without the total, and `Get`
unfoldable pub handle_list : ℕ → Role → ℕ → Tables → PaginationParams → Table → Reply (List Gate)
unfolding Service.list
handle_list now role member_id db p gates = done (Service.list now role member_id db p gates)

unfoldable pub handle_get : ℕ → Role → ℕ → Tables → ℕ → Table → Reply Gate
unfolding Service.get
handle_get now role member_id db i gates = elim (Service.get now role member_id db i gates) [
  | ok g ↦ done g
  | err e ↦ elim (root e) [
    | not_found ↦ refused 404 "gate not found"
    | unauthorized ↦ refused 403 "access denied"
    | _ ↦ refused 500 "failed to get gate"
  ]
]

-- a value that was sent and is not null
abbrev pub sent_value : {Value : Type 0} → OmittableNullable Value → Option Value
sent_value f = if f.sent && not f.null then some f.value else none

-- an entry that is left out is not checked
abbrev pub if_given : {Value : Type 0} → (Value → Verdict) → Option Value → Verdict
if_given check none = valid
if_given check (some v) = check v

abbrev pub or_nil : {Value : Type 0} → Option (List Value) → List Value
or_nil none = []
or_nil (some vs) = vs

-- `Update`: the rules and the transitions are checked against the names of the request
abbrev pub update_checks :
    (Json → Option PayloadMapping) → (ℕ → ℤ) → UpdateGateParams → List Verdict
update_checks unmarshal truncate p =
    validate_action_config (sent_value p.open_config)
    ∷ validate_action_config (sent_value p.close_config)
    ∷ validate_status_action_config unmarshal truncate (sent_value p.status_config)
    ∷ if_given validate_custom_statuses p.custom_statuses
    ∷ if_given (λ rules. validate_status_rules rules (or_nil p.custom_statuses)) p.status_rules
    ∷ validate_ttl_seconds (sent_value p.ttl_seconds)
    ∷ if_given (λ ts. validate_status_transitions ts (or_nil p.custom_statuses))
        p.status_transitions
    ∷ []

unfoldable pub handle_update :
    (Json → Option PayloadMapping) → (ℕ → ℤ) → ℕ → ℕ → UpdateGateParams → Table → Table × Reply Gate
unfolding Service.update
handle_update unmarshal truncate now i p gates =
    if not (accepts (update_checks unmarshal truncate p))
    then (gates, refused 400 "validation failed")
    else let changed = Service.update now i p gates in
      (
        changed.0,
        elim changed.1 [
          | ok g ↦ done g
          | err e ↦ elim (root e) [
            | not_found ↦ refused 404 "gate not found"
            | _ ↦ refused 500 "failed to update gate"
          ]
        ],
      )

-- `Delete`
unfoldable pub handle_delete : ℕ → Table → Table × Reply (Unit {0})
unfolding Table.delete
handle_delete i gates =
    let left = Table.delete i gates in
    (
      left.0,
      elim left.1 [
        | ok _ ↦ done tt
        | err e ↦ elim (root e) [
          | not_found ↦ refused 404 "gate not found"
          | _ ↦ refused 500 "failed to delete gate"
        ]
      ],
    )

abbrev pub action_of : String → String
action_of action = if str_eq action "" then "open" else action

-- `Trigger`, with the time of each of its two checks
unfoldable pub handle_trigger : Queries → ℕ → Role → ℕ → ℕ → String → Now → Now → Reply Fired
unfolding perm_code
handle_trigger q i role member_id credential_id action now now' =
    elim (trigger q i role member_id credential_id (action_of action) now now') [
      | ok fired ↦ done fired
      | err e ↦ elim (root e) [
        | not_found ↦ refused 404 "gate not found"
        | unauthorized ↦ refused 403 ("missing " ▹ perm_code (action_of action) ▹ " permission")
        | schedule_denied ↦ refused 403 "access not allowed at this time"
        | _ ↦ refused 500 "failed to trigger gate"
      ]
    ]

-- `GetToken`, `RotateToken`
unfoldable pub token_reply : String → Result String → Reply String
token_reply failure (ok token) = done token
token_reply failure (err e) = elim (root e) [
  | not_found ↦ refused 404 "gate not found"
  | _ ↦ refused 500 failure
]

unfoldable pub handle_get_token : ℕ → Table → Reply String
unfolding Creation.get_token token_reply
handle_get_token i gates = token_reply "failed to get gate token" (Creation.get_token i gates)

unfoldable pub handle_rotate_token : GateTokens → ℕ → Table → Table × Reply String
unfolding Service.rotate_token token_reply
handle_rotate_token t i gates =
    let made = Service.rotate_token t i gates in
    (made.0, token_reply "failed to rotate gate token" made.1)
