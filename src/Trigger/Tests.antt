-- ===== src/Trigger/Tests.antt =====
-- `Trigger` of internal/service/gate.go on concrete tables.
use gaty.Prelude.{ℕ, ◌≡◌, ◌↔◌, ◌⊎◌, refl, none, [], ◌∷◌}
use gaty.Errors.{ok, err, unauthorized}
use gaty.Json.{end}
use gaty.Gate.{Gate}
use gaty.Schedule.Clock.{Now}
use gaty.Policy.{Tables, membership, credential}
use gaty.Policy.Member
use gaty.Policy.Credential
use gaty.Trigger.{admin, member, Fired, trigger}
use gaty.Trigger.Allowed.{TimeAllows, PermissionAllows, Acts, trigger_iff}
use gaty.Trigger.Store.{queries_of, find_schedule, trigger-revoke}

abbrev now : Now
now = record { year = 2026; month = 1; day = 3; weekday = 6; hour = 23; minute = 30 }

abbrev gate : Gate
gate = record {
  id = 1;
  name = "north";
  integration_type = "MQTT";
  integration_config = end;
  open_config = none;
  close_config = none;
  status_config = none;
  status = "closed";
  last_seen_at = none;
  created_at = 0;
  status_metadata = end;
  meta_config = [];
  status_rules = [];
  custom_statuses = [];
  ttl_seconds = none;
  status_transitions = [];
  gate_token = none;
}

-- member 7 may open gate 1, and token 9 may close it
abbrev db : Tables
db = record {
  gates = 1 ∷ [];
  permissions = "gate:trigger_open" ∷ "gate:trigger_close" ∷ [];
  schedules = [];
  policies =
      record {
        subject_type = membership;
        subject_id = 7;
        gate_id = 1;
        permission_code = "gate:trigger_open";
      }
      ∷ record {
        subject_type = credential;
        subject_id = 9;
        gate_id = 1;
        permission_code = "gate:trigger_close";
      }
      ∷ [];
  links = [];
}

abbrev revoked : Tables
revoked = record db {
  policies =
      record {
        subject_type = credential;
        subject_id = 9;
        gate_id = 1;
        permission_code = "gate:trigger_close";
      }
      ∷ [];
}

abbrev opened : Fired
opened = record {
  gate = gate;
  action = "open";
  audit = record { gate_id = 1; member_id = 7; action = "gate:trigger_open" };
}

trigger_example : trigger (queries_of db [] (gate ∷ [])) 1 member 7 0 "open" now now ≡ ok opened
unfolding trigger queries_of Member.has_permission Member.get_schedule_id
trigger_example = refl

trigger_iff_example :
    (trigger (queries_of db [] (gate ∷ [])) 1 member 7 0 "open" now now ≡ ok opened)
    ↔ ((◌≡◌ {A = ℕ} 0 0)
        ⊎ TimeAllows (Credential.get_schedule_id 0 db) (λ i. find_schedule i []) now)
      × PermissionAllows (queries_of db [] (gate ∷ [])) 1 member 7 0 "open"
      × (((member ≡ admin) × (◌≡◌ {A = ℕ} 0 0))
          ⊎ TimeAllows (Member.get_schedule_id 7 1 db) (λ i. find_schedule i []) now)
      × Acts (queries_of db [] (gate ∷ [])) 1 member 7 0 "open" opened
unfolding queries_of
trigger_iff_example = trigger_iff (queries_of db [] (gate ∷ [])) 1 member 7 0 "open" now now opened

revoke_example : Member.revoke 7 1 db ≡ ok revoked
unfolding Member.revoke
revoke_example = refl

trigger-revoke_example :
    (trigger (queries_of revoked [] (gate ∷ [])) 1 member 7 0 "open" now now ≡ err unauthorized)
    × (trigger (queries_of revoked [] (gate ∷ [])) 1 member 8 0 "open" now now
        ≡ trigger (queries_of db [] (gate ∷ [])) 1 member 8 0 "open" now now)
trigger-revoke_example =
    trigger-revoke db revoked [] (gate ∷ []) 1 7 1 8 "open" now now revoke_example refl
