-- ===== src/Pin/Handlers.antt =====
-- internal/handler/gate_pin.go. The time that a handler waits to answer is not modelled.
use gaty.Prelude.{ℕ, String, Option, List, Bool, true, str_eq, ℤ, if◌then◌else◌}
use gaty.Errors.{
  Err, Result, ok, err, root, not_found, unauthorized, invalid_pin, too_many_attempts,
  max_uses_exceeded, schedule_denied, invalid_session,
}
use gaty.Http.{Reply, refused, done}
use gaty.Json.{Fields}
use gaty.Redis.{Redis, UuidText, Fate, ◌▹◌}
use gaty.Pagination.{PaginationParams}
use gaty.Gate.{Gate}
use gaty.Pin.{GatePin, Outside, Limits, Call}
use gaty.Pin.Session.{Tokens, World, unlock, open_pin}
use gaty.Pin.Admin as Admin
use gaty.Pin.Admin.{Pins, References, CreatePinParams}
use gaty.Auth.Tokens.{Readers, Run, panicked, returned, trigger_with_session, required_perm}
use gaty.Auth.Handlers.{set_auth_cookies}

-- `CreatePIN`: every error is a refusal of the configuration
unfoldable pub create_pin :
    (String → Result String)
    → References
    → ℕ
    → ℕ
    → ℕ
    → CreatePinParams
    → Pins
    → Pins × Reply GatePin
unfolding Admin.create
create_pin generate refs id now gate_id params table =
    elim (Admin.create generate refs id now gate_id params table) [
      | ok (table', p) ↦ (table', done p)
      | err e ↦ (table, refused 400 "invalid pin configuration")
    ]

-- `ListPINs`
unfoldable pub list_pins : ℕ → PaginationParams → Pins → Reply (Pins × ℕ)
unfolding Admin.list
list_pins gate_id p table = done (Admin.list gate_id p table)

-- the answer to a change of a row
abbrev pub changed : String → Pins → Result (Pins × GatePin) → Pins × Reply GatePin
changed failure table result = elim result [
  | ok (table', p) ↦ (table', done p)
  | err e ↦ elim (root e) [
    | not_found ↦ (table, refused 404 "pin not found")
    | _ ↦ (table, refused 500 failure)
  ]
]

-- `UpdatePIN`, `SetPinSchedule`, `ClearPinSchedule`
unfoldable pub update_pin : ℕ → ℕ → Option String → Fields → Pins → Pins × Reply GatePin
unfolding Admin.update
update_pin gate_id pin_id label metadata table =
    changed "failed to update pin" table (Admin.update pin_id gate_id label metadata table)

unfoldable pub set_pin_schedule : References → ℕ → ℕ → ℕ → Pins → Pins × Reply GatePin
unfolding Admin.set_pin_schedule
set_pin_schedule refs gate_id pin_id schedule_id table =
    changed "failed to set schedule" table
      (Admin.set_pin_schedule refs pin_id gate_id schedule_id table)

unfoldable pub clear_pin_schedule : ℕ → ℕ → Pins → Pins × Reply GatePin
unfolding Admin.clear_pin_schedule
clear_pin_schedule gate_id pin_id table =
    changed "failed to clear schedule" table (Admin.clear_pin_schedule pin_id gate_id table)

-- `mapPINError`
unfoldable pub map_pin_error : {Body : Type 0} → Err → Reply Body
map_pin_error e = elim (root e) [
  | too_many_attempts ↦ refused 429 "too many attempts, try again later"
  | invalid_pin ↦ refused 401 "invalid pin"
  | schedule_denied ↦ refused 403 "access denied"
  | max_uses_exceeded ↦ refused 403 "pin max uses exceeded"
  | _ ↦ refused 500 "internal error"
]

-- the body and the cookies of `OpenGate`; the service always issues tokens
pub record OpenGateOutput : Type 0 where
  pub cookies : String × String
  pub has_session : Bool
  pub gate_id : ℕ
  pub permissions : List String

-- `PublicTrigger`, with the value of the access cookie
unfoldable pub public_trigger :
    Readers
    → (ℕ → Result Gate)
    → String
    → String
    → List (Gate × String)
    → Run (List (Gate × String) × Reply (Unit {0}))
unfolding trigger_with_session
public_trigger x load_gate cookie action moved =
    if str_eq cookie ""
    then returned (moved, refused 401 "missing session")
    else let asked = if str_eq action "" then "open" else action in
      elim (trigger_with_session x load_gate cookie asked moved) [
        | panicked ↦ panicked
        | returned (moved', result) ↦ returned (
          moved',
          elim result [
            | ok _ ↦ done tt
            | err e ↦ elim (root e) [
              | invalid_session ↦ refused 401 "invalid or expired session"
              | unauthorized ↦ refused 403 ("missing " ▹ required_perm asked ▹ " permission")
              | not_found ↦ refused 404 "gate not found"
              | _ ↦ refused 500 "failed to trigger gate"
            ]
          ],
        )
      ]

module _ (r : Redis) (u : UuidText) where
  -- `DeletePIN`
  unfoldable pub delete_pin : Fate → ℕ → ℕ → Pins → r.Store → Pins × r.Store × Reply (Unit {0})
  unfolding Admin.delete
  delete_pin f gate_id pin_id table s =
      let (table', s', result) = Admin.delete r u f pin_id gate_id table s in
      (
        table',
        s',
        elim result [
          | ok _ ↦ done tt
          | err e ↦ elim (root e) [
            | not_found ↦ refused 404 "pin not found"
            | _ ↦ refused 500 "failed to delete pin"
          ]
        ],
      )

  module _ (o : Outside) (limits : Limits) (load_gate : ℕ → Result Gate) where
    -- `Unlock`
    unfoldable pub handle_unlock :
        Call → ℕ → String → String → World r.Store → World r.Store × Reply (Unit {0})
    unfolding unlock map_pin_error
    handle_unlock c gate_id pin ip w =
        let answer = unlock r u o limits load_gate c gate_id pin ip w in
        (answer.0, elim answer.1 [ ok _ ↦ done tt | err e ↦ map_pin_error e ])

    -- `OpenGate`
    unfoldable pub handle_open :
        (ℤ → String)
        → Bool
        → Tokens
        → Call
        → ℕ
        → String
        → String
        → World r.Store
        → World r.Store × Reply OpenGateOutput
    unfolding open_pin map_pin_error set_auth_cookies
    handle_open decimal secure t c gate_id pin ip w =
        let answer = open_pin r u o limits load_gate t c gate_id pin ip w in
        (
          answer.0,
          elim answer.1 [
            | err e ↦ map_pin_error e
            | ok x ↦ done (record {
              cookies = set_auth_cookies decimal x.tokens secure;
              has_session = true;
              gate_id = gate_id;
              permissions = x.permissions;
            })
          ],
        )
