-- ===== src/Gate/Tests.antt =====
-- The status of gates and its configuration on concrete values.
use gaty.Prelude.{
  ℕ, arith, length, codes, true, String, str_eq, eq_iff, ◌*◌, ◌≡◌, ◌↔◌, refl, none, some, [], ◌∷◌,
  false, All, pos, inl,
}
use gaty.Errors.{ok, err, unauthorized}
use gaty.Policy.{Tables, membership}
use gaty.Policy.Member.{has_any_permission}
use gaty.Trigger.{member}
use gaty.Gate.Handlers as Handlers
use gaty.Gate.Creation.{CreateGateParams}
use gaty.Http.{refused}
use gaty.Gate.Configured.{IsConfigured, handle_create-IsConfigured, handle_update-names}
use gaty.Gate.Service.{
  UpdateGateParams, OmittableNullable, GateTokens, parse_gate_token, authenticate_token,
  rotate_token, get,
}
use gaty.Gate.Tokens.{authenticate_token-rotate_token}
use gaty.Json.{Fields, field, end, num, obj, lookup}
use gaty.Gate.{Gate, StatusRule, StatusTransition, effective_status, second}
use gaty.Gate.Status.{Values, evaluate_status_rules}
use gaty.Gate.Validation.{
  valid, invalid, duplicate, validate_status_transitions, validate_transitions_from,
  validate_status_rules, validate_rules_from, validate_custom_statuses, validate_names, is_blank,
}
use gaty.Gate.Accepted.{IsStatus, IsRule, validate_status_rules_iff}
use gaty.Gate.Table.{Table, mark_unresponsive, final_status}
use gaty.Redis.InMemory.{in_memory, empty, uuids, tally}
use gaty.Gate.Transitions.{transition_key, Decimal, Tick, is_before, check_transitions}
use gaty.Pin.Session.{seconds}
use gaty.Gate.Ticks.{ticked, check_transitions-ticked}
use gaty.Gate.Armed.{check_transitions-armed}
use gaty.Gate.Table.{find_row, with_status}
use gaty.Gate.Updates.{IsFirst, evaluate_status_rules_iff, final_status-IsStatus}

-- a parser that reads every text as 20.0
abbrev values : Values
values = record { parse_float = λ _. some 4626322717216342016; print = λ _. "" }

abbrev low : StatusRule
low = record { key = "power.battery"; op = "lt"; value = "20"; set_status = "low_battery" }

abbrev to_closed : StatusTransition
to_closed = record {
  from = "open";
  to = "closed";
  after_seconds = pos 60;
  persist_on_change = false;
}

-- a battery at 10.0
abbrev meta : Fields
meta = field "power" (obj (field "battery" (num 4621819117588971520) end)) end

abbrev gate : Gate
gate = record {
  id = 1;
  name = "north";
  integration_type = "MQTT";
  integration_config = end;
  open_config = none;
  close_config = none;
  status_config = none;
  status = "open";
  last_seen_at = some 0;
  created_at = 0;
  status_metadata = end;
  meta_config = [];
  status_rules = low ∷ [];
  custom_statuses = "low_battery" ∷ [];
  ttl_seconds = none;
  status_transitions = to_closed ∷ [];
  gate_token = none;
}

transitions_example : validate_status_transitions (to_closed ∷ []) [] ≡ valid
unfolding validate_transitions_from
transitions_example = refl

rules_example : validate_status_rules (low ∷ []) ("low_battery" ∷ []) ≡ valid
unfolding validate_rules_from is_blank
rules_example = refl

names_example : validate_custom_statuses ("low_battery" ∷ "low_battery" ∷ []) ≡ invalid duplicate
unfolding validate_names is_blank
names_example = refl

rule_example : evaluate_status_rules values (low ∷ []) meta ≡ some "low_battery"
unfolding evaluate_status_rules lookup
rule_example = refl

evaluate_status_rules_iff_example :
    (evaluate_status_rules values (low ∷ []) meta ≡ some "low_battery") ↔ (
      (rule : StatusRule) × IsFirst values meta (low ∷ []) rule × (rule.set_status ≡ "low_battery"))
evaluate_status_rules_iff_example = evaluate_status_rules_iff values meta (low ∷ []) "low_battery"

final_status-IsStatus_example : IsStatus gate.custom_statuses (final_status values gate "open" meta)
final_status-IsStatus_example =
    final_status-IsStatus values gate "open" meta rules_example (inl (inl refl))

mark_example : (mark_unresponsive (40 * second) (pos 30) (gate ∷ [])).1 ≡ 1 ∷ []
unfolding mark_unresponsive
mark_example = refl

effective_status_example : effective_status gate (400 * second) ≡ "offline"
unfolding effective_status
effective_status_example = refl

-- one gate, named by every token
abbrev gate_tokens : GateTokens
gate_tokens = record {
  issue = λ _. ok "new";
  claims = λ _. some ("gate_token", "one");
  parse_uuid = λ _. some 1;
}

abbrev issued : Table
issued = record gate { gate_token = some "old" } ∷ []

abbrev rotated : Table
rotated = record gate { gate_token = some "new" } ∷ []

rotate_token_example : rotate_token gate_tokens 1 issued ≡ (rotated, ok "new")
unfolding rotate_token
rotate_token_example = refl

parse_gate_token_example : (token : String) → parse_gate_token gate_tokens token ≡ some 1
unfolding parse_gate_token
parse_gate_token_example token = refl

differ : str_eq "old" "new" ≡ true → ⊥
differ h = cc

authenticate_token-rotate_token_example :
    (authenticate_token gate_tokens "old" rotated ≡ err unauthorized)
    × ((g : Gate) × (authenticate_token gate_tokens "new" rotated ≡ ok g) × (g.id ≡ 1))
authenticate_token-rotate_token_example =
    authenticate_token-rotate_token gate_tokens 1 issued rotated "new" "old" rotate_token_example
      (parse_gate_token_example "new") (parse_gate_token_example "old")
      (λ same. differ ((eq_iff "old" "new").1 same))

abbrev db : Tables
db = record {
  gates = 1 ∷ [];
  permissions = "gate:trigger_open" ∷ [];
  schedules = [];
  policies =
      record {
        subject_type = membership;
        subject_id = 7;
        gate_id = 1;
        permission_code = "gate:trigger_open";
      }
      ∷ [];
  links = [];
}

hidden_example : get 0 member 8 db 1 (gate ∷ []) ≡ err unauthorized
unfolding get has_any_permission
hidden_example = refl

-- unary numbers
abbrev unary : Decimal
unary = record { parse = λ t. some (length (codes t)); print = tally }

parse-print : (n : ℕ) → unary.parse (unary.print n) ≡ some n
parse-print ℕ.zero = refl
parse-print (ℕ.suc n) = ground (arith, parse-print n)

abbrev tick : Tick in_memory uuids unary true
tick = record { table = gate ∷ []; store = empty; events = [] }

-- a minute after the gate was seen, in the status "open"
check_transitions-ticked_example :
    find_row 1 (check_transitions in_memory uuids unary true (60 * second) 7 tick).table
    ≡ some (ticked (60 * second) 7 0 gate)
unfolding find_row
check_transitions-ticked_example =
    check_transitions-ticked in_memory uuids unary true (60 * second) 7 0 gate tick (refl, tt) refl
      refl (refl, tt)

abbrev lasting : StatusTransition
lasting = record to_closed { persist_on_change = true }

abbrev lasting_gate : Gate
lasting_gate = record gate { status_transitions = lasting ∷ [] }

abbrev offline : Gate
offline = record lasting_gate { status = "offline"; last_seen_at = some 3 }

abbrev first_tick : Tick in_memory uuids unary true
first_tick = record { table = lasting_gate ∷ []; store = empty; events = [] }

abbrev second_tick : Tick in_memory uuids unary true
second_tick = record {
  table = offline ∷ [];
  store = (check_transitions in_memory uuids unary true 1000 7 first_tick).store;
  events = [];
}

check_transitions-armed_example :
    (find_row 1 (check_transitions in_memory uuids unary true 100000000000 8 second_tick).table
      ≡ some (with_status "closed" (some 8) end offline))
    × (in_memory.get
          (check_transitions in_memory uuids unary true 100000000000 8 second_tick).store
          (transition_key (uuids.text 1) lasting.from lasting.to)
        ≡ none)
unfolding is_before seconds find_row
check_transitions-armed_example =
    check_transitions-armed in_memory uuids unary lasting lasting_gate parse-print [] [] 1000 7 0
      100000000000 8 3 offline first_tick second_tick refl refl refl refl refl (refl, tt) refl tt
      (inl refl, tt) refl refl refl refl (refl, tt) refl (inl refl, tt) refl

abbrev params : CreateGateParams
params = record {
  name = "south";
  integration_type = "";
  integration_config = end;
  open_config = none;
  close_config = none;
  status_config = none;
  meta_config = [];
  status_rules = low ∷ [];
  custom_statuses = "low_battery" ∷ [];
  ttl_seconds = some (pos 60);
  status_transitions = to_closed ∷ [];
}

handle_create-IsConfigured_example :
    All IsConfigured (Handlers.handle_create (λ j. none) pos gate_tokens 2 7 "first" params []).0
handle_create-IsConfigured_example =
    handle_create-IsConfigured (λ j. none) pos gate_tokens 2 7 "first" params [] tt

abbrev unsent : {Value : Type 0} → Value → OmittableNullable Value
unsent v = record { sent = false; null = false; value = v }

abbrev rules_alone : UpdateGateParams
rules_alone = record {
  name = none;
  open_config = unsent (record { type = "NONE"; config = end });
  close_config = unsent (record { type = "NONE"; config = end });
  status_config = unsent (record { type = "NONE"; config = end });
  meta_config = none;
  status_rules = some (low ∷ []);
  custom_statuses = none;
  ttl_seconds = unsent (pos 0);
  status_transitions = none;
}

not_built_in : All (IsRule []) (low ∷ []) → ⊥
unfolding validate_rules_from is_blank
not_built_in k = ground (arith, (validate_status_rules_iff (low ∷ []) []).1 k)

-- the rule is one that the gate has
handle_update-names_example :
    Handlers.handle_update (λ j. none) pos 7 1 rules_alone (gate ∷ [])
    ≡ (gate ∷ [], refused 400 "validation failed")
handle_update-names_example =
    handle_update-names (λ j. none) pos 7 1 rules_alone (gate ∷ []) (low ∷ []) [] refl
      (inl (refl, not_built_in))
