-- ===== src/Pin/Tests.antt =====
-- internal/service/gate_pin.go on a store of counters and a code.
use gaty.Prelude.{
  String, ℕ, ◌+◌, ◌-◌, ◌≡◌, ◌↔◌, ◌≤◌, refl, none, some, List, [], ◌∷◌, true, str_eq, pos, ◌≤ℤ◌,
  pos_part,
}
use gaty.Errors.{Result, ok, err, not_found}
use gaty.Json.{Json, field, end}
use gaty.Gate.{Gate}
use gaty.Redis.{Redis, answered, lost_before}
use gaty.Redis.InMemory.{Memory, in_memory, empty, uuids}
use gaty.Pagination.{normalize}
use gaty.Pin.{
  GatePin, PinMetadata, Outside, Limits, Call, ip_key, gate_key, uses_key, new_limits, validate_pin,
  list_pins, accept, find_match, schedule_rejects,
}
use gaty.Pin.Session.{Tokens, World, OpenResult, session_duration_of, consume_use, open_pin}
use gaty.Pin.Attempts.{IsAccepted, Attempt, validate_pin_iff, compared, compared-le}
use gaty.Pin.Admin.{References, CreatePinParams, create, insert, check_code, digits_only}
use gaty.Auth.{byte_length}
use gaty.Pin.Created.{find_match-create}
use gaty.Gate.Accepted.{Among}
use gaty.Pin.Granted.{Request, opens, unlocks, granted, lost, granted-le}
use gaty.Pin.Uses.{IsGranted, IsCarried, moved, open_pin-moved, open_pin_sound}

-- hashing by the identity
abbrev outside : Outside
outside = record {
  compare_hash = str_eq;
  parse_metadata = λ _. record {
    session_duration = none;
    max_uses = some (pos 1);
    permissions = "gate:manage" ∷ "gate:trigger_open" ∷ [];
    expires_at = none;
  };
}

abbrev code_of_gate : GatePin
code_of_gate = record {
  id = 4;
  gate_id = 1;
  hashed_pin = "1234";
  label = "door";
  metadata = end;
  schedule_id = none;
  created_at = 0;
}

abbrev call : Call
call = record {
  now = record {
    instant = 0;
    civil = record { year = 2026; month = 1; day = 3; weekday = 6; hour = 23; minute = 30 };
  };
  table = ok (code_of_gate ∷ []);
  load = λ _. err not_found;
  pipeline_fate = answered;
  del_fate = answered;
  script_fate = answered;
  set_fate = answered;
}

abbrev limits : Limits
limits = new_limits (pos 0) (pos 0)

abbrev store : Redis
store = in_memory

abbrev fresh : Memory
fresh = empty

validate_pin_example :
    (validate_pin store uuids outside limits call 1 "1234" "::1" fresh).1
    ≡ ok (code_of_gate, outside.parse_metadata end)
unfolding validate_pin new_limits gate_key ip_key accept find_match list_pins normalize
    schedule_rejects
validate_pin_example = refl

validate_pin_iff_example :
    ((validate_pin store uuids outside limits call 1 "1234" "::1" fresh).1
      ≡ ok (code_of_gate, outside.parse_metadata end))
    ↔ ((call.pipeline_fate ≡ answered)
        × (pos (store.count fresh (ip_key uuids 1 "::1") + 1) ≤ℤ limits.max_attempts)
        × (pos (store.count fresh (gate_key uuids 1) + 1) ≤ℤ limits.max_gate_attempts)
        × IsAccepted outside call 1 "1234" code_of_gate (outside.parse_metadata end))
validate_pin_iff_example =
    validate_pin_iff store uuids outside limits call 1 "1234" "::1" fresh code_of_gate
      (outside.parse_metadata end)

abbrev attempts : List Attempt
attempts =
    record { call = call; gate_id = 1; pin = "0000"; ip = "::1" }
    ∷ record { call = call; gate_id = 1; pin = "1234"; ip = "::2" }
    ∷ []

compared-le_example :
    compared store uuids outside limits 1 attempts fresh
    ≤ pos_part limits.max_gate_attempts - store.count fresh (gate_key uuids 1)
compared-le_example = compared-le store uuids outside limits 1 attempts fresh

compared_example : compared store uuids outside limits 1 attempts fresh ≡ 2
unfolding compared validate_pin new_limits gate_key ip_key accept find_match list_pins normalize
    schedule_rejects
compared_example = refl

abbrev load_gate : ℕ → Result Gate
load_gate i = ok (record {
  id = i;
  name = "north";
  integration_type = "MQTT";
  integration_config = end;
  open_config = none;
  close_config = none;
  status_config = none;
  status = "closed";
  last_seen_at = none;
  created_at = 0;
  status_metadata = end;
  meta_config = [];
  status_rules = [];
  custom_statuses = [];
  ttl_seconds = none;
  status_transitions = [];
  gate_token = none;
})

abbrev world : World Memory
world = record { store = fresh; triggered = [] }

abbrev tokens : Tokens
tokens = record {
  sign = λ _. ok "access";
  random = ok "refresh";
  sha256_hex = λ s. s;
  encode = λ _. "{}";
}

open_pin-moved_example :
    (open_pin store uuids outside limits load_gate tokens call 1 "1234" "::1" world).0.triggered
    ≡ moved
        (load_gate 1)
        (open_pin store uuids outside limits load_gate tokens call 1 "1234" "::1" world).1
        []
open_pin-moved_example =
    open_pin-moved store uuids outside limits load_gate tokens call 1 "1234" "::1" world

-- a code of one use, opened twice, with an `Unlock` in between
abbrev uses : List Request
uses =
    opens outside tokens call 1 "1234" "::1"
    ∷ unlocks outside call 1 "1234" "::1"
    ∷ opens outside tokens (record call { script_fate = lost_before }) 1 "1234" "::2"
    ∷ []

granted-le_example :
    granted store uuids limits load_gate 4 1 uses world
    ≤ (1 - store.count fresh (uses_key uuids 4)) + lost store uuids limits load_gate 4 1 uses
granted-le_example = granted-le store uuids limits load_gate 4 1 uses world

abbrev opened : OpenResult
opened = record {
  tokens = record {
    access_token = "access";
    refresh_token = "refresh";
    session_duration = pos 0;
    access_token_ttl = pos 900000000000;
  };
  permissions = "gate:trigger_open" ∷ [];
}

open_pin_example :
    (open_pin store uuids outside limits load_gate tokens call 1 "1234" "::1" world).1 ≡ ok opened
unfolding open_pin validate_pin new_limits gate_key ip_key accept find_match list_pins normalize
    schedule_rejects uses_key
open_pin_example = refl

open_pin_sound_example :
    (m : GatePin) × (meta : PinMetadata) × ((validate_pin store uuids outside limits call 1 "1234"
        "::1" fresh).1
      ≡ ok (m, meta))
    × ((consume_use store call.script_fate uuids m.id meta
          (validate_pin store uuids outside limits call 1 "1234" "::1" fresh).0).1
        ≡ true)
    × ((p : String) → Among p opened.permissions ↔ IsGranted meta.permissions p)
    × IsCarried store uuids outside limits load_gate tokens call m.id 1
        (session_duration_of meta)
        (open_pin store uuids outside limits load_gate tokens call 1 "1234" "::1" world).0.store
        opened
open_pin_sound_example =
    open_pin_sound store uuids outside limits load_gate tokens call 1 "1234" "::1" world opened
      open_pin_example

abbrev params : CreatePinParams
params = record { pin = "1234"; code_type = ""; label = "door"; metadata = end; schedule_id = none }

abbrev refs : References
refs = record { gates = 1 ∷ []; schedules = [] }

abbrev created : GatePin
created = record code_of_gate { id = 5; metadata = field "code_type" (Json.str "pin") end }

find_match-create_example :
    find_match (λ q. str_eq q.hashed_pin "1234") (list_pins (created ∷ code_of_gate ∷ []) 1)
    ≡ some created
unfolding create insert check_code digits_only byte_length
find_match-create_example =
    find_match-create (λ t. ok t) str_eq refs 5 0 1 params (code_of_gate ∷ [])
      (created ∷ code_of_gate ∷ []) created refl refl
