-- ===== src/Trigger/Store.antt =====
-- `Trigger` of internal/service/gate.go over the stored permissions, schedules and gates
-- (internal/repository/postgres): what revoking does, and what a token may do.
use gaty.Prelude.{
  ℕ, String, ◌≡◌, ◌≢◌, refl, List, [], ◌∷◌, true, false, ◌==◌, ◌&&◌, arith, if◌then◌else◌,
}
use gaty.Errors.{Result, ok, err, not_found, unauthorized}
use gaty.Schedule.{AccessSchedule}
use gaty.Schedule.Clock.{Now}
use gaty.Gate.{Gate}
use gaty.Policy.{Tables}
use gaty.Policy.Member
use gaty.Policy.Credential
use gaty.Policy.Laws.{has_permission-revoke}
use gaty.Trigger.{Role, member, Queries, Fired, perm_code, trigger}
use gaty.Trigger.Allowed.{trigger_iff}

-- `GetByID` of the schedule repository
unfoldable pub find_schedule : ℕ → List AccessSchedule → Result AccessSchedule
find_schedule i [] = err not_found
find_schedule i (s ∷ ss) = if s.id == i then ok s else find_schedule i ss

-- `GetByID` of the gate repository
unfoldable pub find_gate : ℕ → List Gate → Result Gate
find_gate i [] = err not_found
find_gate i (g ∷ gs) = if g.id == i then ok g else find_gate i gs

-- The repositories over their tables.
unfoldable pub queries_of : Tables → List AccessSchedule → List Gate → Queries
unfolding find_schedule find_gate
queries_of db schedules gates = record {
  credential_schedule_id = λ c. Credential.get_schedule_id c db;
  credential_has_any = λ c. ok (Credential.has_any c db);
  credential_has_permission = λ c g p. ok (Credential.has_permission c g p db);
  member_has_permission = λ m g p. ok (Member.has_permission m g p db);
  member_schedule_id = λ m g. Member.get_schedule_id m g db;
  schedule_by_id = λ i. find_schedule i schedules;
  gate_by_id = λ i. find_gate i gates;
}

get_schedule_id-revoke :
    (m g k h : ℕ) (db db' : Tables)
    → Member.revoke m g db ≡ ok db'
    → Member.get_schedule_id k h db' ≡ Member.get_schedule_id k h db
unfolding Member.revoke Member.get_schedule_id
get_schedule_id-revoke m g k h db db' e = ground arith

-- Once every permission of a member on a gate is revoked, the member's own session is refused there,
-- for any action, at any time and whatever the schedules. For every other member, and for that
-- member at every other gate, a session's trigger is answered as before.
pub trigger-revoke :
    (db db' : Tables) (schedules : List AccessSchedule) (gates : List Gate) (gate_id member_id : ℕ)
    (other_gate other_member : ℕ) (action : String) (now now' : Now)
    → Member.revoke member_id gate_id db ≡ ok db'
    → (member_id == other_member && gate_id == other_gate) ≡ false
    → (trigger (queries_of db' schedules gates) gate_id member member_id 0 action now now'
        ≡ err unauthorized)
      × (trigger (queries_of db' schedules gates) other_gate member other_member 0 action now now'
          ≡ trigger
              (queries_of db schedules gates)
              other_gate
              member
              other_member
              0
              action
              now
              now')
unfolding trigger queries_of
trigger-revoke db db' schedules gates g m h k action now now' e other =
    let same : Member.has_permission k h (perm_code action) db'
        ≡ Member.has_permission k h (perm_code action) db =
      ground (arith, has_permission-revoke m g k h (perm_code action) db db' e) in
    (
      ground (arith, has_permission-revoke m g m g (perm_code action) db db' e),
      rw (trigger, same, get_schedule_id-revoke m g k h db db' e) refl,
    )

-- A token that has policies, and none for the action on this gate, never acts there, even if its
-- owner is an admin or may do so in person.
pub trigger-token_bound :
    (db : Tables) (schedules : List AccessSchedule) (gates : List Gate) (gate_id : ℕ) (role : Role)
    (member_id credential_id : ℕ) (action : String) (now now' : Now) (f : Fired)
    → credential_id ≢ 0
    → Credential.has_any credential_id db ≡ true
    → Credential.has_permission credential_id gate_id (perm_code action) db ≡ false
    → trigger (queries_of db schedules gates) gate_id role member_id credential_id action now now'
      ≢ ok f
unfolding queries_of
trigger-token_bound db schedules gates g role m c action now now' f token some_policy none_here h =
    let allowed = (trigger_iff (queries_of db schedules gates) g role m c action now now' f).0 h in
    ground (arith, allowed.1)
