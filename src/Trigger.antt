-- ===== src/Trigger.antt =====
-- `Trigger` of internal/service/gate.go: who may open or close a gate, and when.
pub mod Allowed
pub mod Store
mod Tests
use gaty.Prelude.{ℕ, String, List, Bool, true, false, not, ◌||◌, ◌==◌, str_eq, if◌then◌else◌}
use gaty.Errors.{
  Err, Result, ok, err, wrap, wrapping, is_not_found, unauthorized, schedule_denied, ◌>>=◌, ◌>>◌,
}
use gaty.Schedule.{AccessSchedule}
use gaty.Schedule.Clock.{Now}
use gaty.Schedule.Check.{check}
use gaty.Gate.{Gate}

-- internal/model/member.go
pub data Role : Type 0 where
  admin member : Role

abbrev pub is_member : Role → Bool
is_member member = true
is_member admin = false

-- What the service asks of its repositories, each answer with its error.
pub record Queries : Type 0 where
  pub credential_schedule_id : ℕ → Result ℕ
  pub credential_has_any : ℕ → Result Bool
  pub credential_has_permission : ℕ → ℕ → String → Result Bool
  pub member_has_permission : ℕ → ℕ → String → Result Bool
  pub member_schedule_id : ℕ → ℕ → Result ℕ
  pub schedule_by_id : ℕ → Result AccessSchedule
  pub gate_by_id : ℕ → Result Gate

-- internal/repository/audit.go; the IP is left empty here
pub record AuditEntry : Type 0 where
  pub gate_id : ℕ
  pub member_id : ℕ
  pub action : String

-- What a call that succeeds does: the action on the gate, then the audit entry, whose own failure is
-- ignored.
pub record Fired : Type 0 where
  pub gate : Gate
  pub action : String
  pub audit : AuditEntry

-- `uuid.Nil`: the request carries no API token
abbrev pub nil_id : ℕ
nil_id = 0

unfoldable pub perm_code : String → String
perm_code action = if str_eq action "close" then "gate:trigger_close" else "gate:trigger_open"

-- a schedule that rejects is reported as `ErrScheduleDenied` alone
denied : Result (Unit {0}) → Result (Unit {0})
denied (ok _) = ok tt
denied (err _) = err schedule_denied

-- The time restriction behind a lookup: none if there is no link, and a failure of the lookup or of
-- the loading denies.
restrict : Result ℕ → (ℕ → Result AccessSchedule) → Now → String → String → Result (Unit {0})
unfolding denied
restrict (ok schedule_id) load now lookup_text load_text = do
  schedule ← wrapping load_text (load schedule_id)
  denied (check schedule now)
restrict (err e) load now lookup_text load_text =
    if is_not_found e then ok tt else err (wrap lookup_text e)

module _ (q : Queries) (gate_id : ℕ) (role : Role) (member_id credential_id : ℕ)
    (action : String) where
  abbrev pub has_credential : Bool
  has_credential = not (credential_id == nil_id)

  -- The token's own schedule.
  check_credential_time : Now → Result (Unit {0})
  unfolding restrict
  check_credential_time now =
      if has_credential
      then restrict (q.credential_schedule_id credential_id) q.schedule_by_id now
          "lookup credential schedule" "load credential schedule"
      else ok tt

  -- Whether the member's permission is still to be checked: a token with policies answers by these.
  credential_permission : Bool → Result Bool
  credential_permission true = do
    allowed ←
        wrapping "check credential permission"
          (q.credential_has_permission credential_id gate_id (perm_code action))
    if allowed then ok false else err unauthorized
  credential_permission false = ok (is_member role)

  needs_member_check : Result Bool
  unfolding credential_permission
  needs_member_check =
      if has_credential
      then (do
        has_policies ← wrapping "check credential policies" (q.credential_has_any credential_id)
        credential_permission has_policies)
      else ok (is_member role)

  member_permission : Bool → Result (Unit {0})
  member_permission false = ok tt
  member_permission true = do
    allowed ←
        wrapping "check permission" (q.member_has_permission member_id gate_id (perm_code action))
    if allowed then ok tt else err unauthorized

  -- The member's schedule for the gate, which also binds the member's tokens.
  check_member_time : Now → Result (Unit {0})
  unfolding restrict
  check_member_time now =
      if is_member role || has_credential
      then restrict (q.member_schedule_id member_id gate_id) q.schedule_by_id now
          "lookup member schedule" "load member schedule"
      else ok tt

  -- `Trigger`. The clock is read once for each schedule.
  pub trigger : Now → Now → Result Fired
  unfolding check_credential_time needs_member_check member_permission check_member_time perm_code
  trigger now now' = do
    check_credential_time now
    needs ← needs_member_check
    member_permission needs
    check_member_time now'
    gate ← q.gate_by_id gate_id
    ok (record {
      gate = gate;
      action = action;
      audit = record { gate_id = gate_id; member_id = member_id; action = perm_code action };
    })
