-- ===== src/Trigger/Allowed.antt =====
-- When `Trigger` of internal/service/gate.go acts: exactly when time, permission and time again allow.
use gaty.Prelude.{
  ℕ, String, ◌≡◌, ◌⊎◌, ◌↔◌, ◌≢◌, refl, Bool, true, false, not, ◌==◌, ◌||◌, if◌then◌else◌, arith,
  inl, inr,
}
use mathlib.Core.Path.{subst}
use gaty.Errors.{Err, Result, ok, err, wrapping, is_not_found, ◌>>=◌, ◌>>◌}
use gaty.Schedule.{AccessSchedule}
use gaty.Schedule.Clock.{Now}
use gaty.Schedule.Check.{check}
use gaty.Gate.{Gate}
use gaty.Trigger.{
  Role, admin, is_member, Queries, Fired, perm_code, denied, restrict, check_credential_time,
  needs_member_check, member_permission, check_member_time, trigger,
}

-- The linked schedule loads and allows.
abbrev ScheduleAllows : Result AccessSchedule → Now → Type 0
ScheduleAllows loaded now = (s : AccessSchedule) × (loaded ≡ ok s) × (check s now ≡ ok tt)

-- No schedule is linked, or the linked one loads and allows.
abbrev pub TimeAllows : Result ℕ → (ℕ → Result AccessSchedule) → Now → Type 0
TimeAllows link load now =
    ((e : Err) × (link ≡ err e) × (is_not_found e ≡ true))
    ⊎ ((i : ℕ) × (link ≡ ok i) × ScheduleAllows (load i) now)

load_iff :
    (loaded : Result AccessSchedule) (now : Now) (text : String)
    → ((do schedule ← wrapping text loaded; denied (check schedule now)) ≡ ok tt)
      ↔ ScheduleAllows loaded now
unfolding denied
load_iff (ok s) now text = (λ h. (s, refl, ground arith), λ (s', same, allows). ground arith)
load_iff (err e) now text = (λ h. cc, λ (s', same, allows). cc)

restrict_iff :
    (link : Result ℕ) (load : ℕ → Result AccessSchedule) (now : Now)
    (lookup_text load_text : String)
    → (restrict link load now lookup_text load_text ≡ ok tt) ↔ TimeAllows link load now
unfolding restrict
restrict_iff (ok i) load now a b = (
  λ h. inr (i, refl, (load_iff (load i) now b).0 h),
  λ h. elim h [
    | inl (e, absent, _) ↦ cc
    | inr (j, same, allows) ↦
        let i-j : j ≡ i = cc in
        (load_iff (load i) now b).1 (subst (λ k. ScheduleAllows (load k) now) i-j allows)
  ],
)
restrict_iff (err e) load now a b = (
  λ h. inl (e, refl, ground arith),
  λ h. elim h [ inl (e', absent, k) ↦ ground arith | inr (j, same, _) ↦ cc ],
)

-- A check that is made only under a condition.
guarded_iff :
    {P : Type 0} (b : Bool) (m : Result (Unit {0}))
    → (m ≡ ok tt) ↔ P
    → ((if b then m else ok tt) ≡ ok tt) ↔ ((b ≡ false) ⊎ P)
guarded_iff true m iff = (λ h. inr (iff.0 h), λ h. elim h [ inl e ↦ cc | inr p ↦ iff.1 p ])
guarded_iff false m iff = (λ h. inl refl, λ h. refl)

or_else_iff : {A B P : Type 0} → A ↔ B → (A ⊎ P) ↔ (B ⊎ P)
or_else_iff e = (
  λ h. elim h [ inl a ↦ inl (e.0 a) | inr p ↦ inr p ],
  λ h. elim h [ inl b ↦ inl (e.1 b) | inr p ↦ inr p ],
)

iff_trans : {A B C : Type 0} → A ↔ B → B ↔ C → A ↔ C
iff_trans e f = (λ a. f.0 (e.0 a), λ c. e.1 (f.1 c))

-- the chain of steps of `trigger`, over the results of the steps
chain_iff :
    (a d : Result (Unit {0})) (b : Result Bool) (c : Bool → Result (Unit {0})) (g : Result Gate)
    (gate_id member_id : ℕ) (action perm : String) (f : Fired)
    → ((do
      a
      needs ← b
      c needs
      d
      gate ← g
      ok (record {
        gate = gate;
        action = action;
        audit = record { gate_id = gate_id; member_id = member_id; action = perm };
      }))
        ≡ ok f)
      ↔ (a ≡ ok tt)
        × ((b >>= c) ≡ ok tt)
        × (d ≡ ok tt)
        × ((g ≡ ok f.gate)
            × (f.action ≡ action)
            × (f.audit.gate_id ≡ gate_id)
            × (f.audit.member_id ≡ member_id)
            × (f.audit.action ≡ perm))
chain_iff a d b c g gate_id member_id action perm f = (λ h. ground arith, λ h. ground arith)

module _ (q : Queries) (gate_id : ℕ) (role : Role) (member_id credential_id : ℕ)
    (action : String) where
  -- An admin, or a member who holds the permission for the action on the gate.
  abbrev pub MemberAllows : Type 0
  MemberAllows =
      (role ≡ admin) ⊎ (q.member_has_permission member_id gate_id (perm_code action) ≡ ok true)

  -- A session answers for its member. A token with policies answers by these alone, and a token
  -- without any answers for its member.
  abbrev pub PermissionAllows : Type 0
  PermissionAllows =
      ((credential_id ≡ 0) × MemberAllows)
      ⊎ ((credential_id ≢ 0)
          × (q.credential_has_any credential_id ≡ ok true)
          × (q.credential_has_permission credential_id gate_id (perm_code action) ≡ ok true))
      ⊎ ((credential_id ≢ 0) × (q.credential_has_any credential_id ≡ ok false) × MemberAllows)

  permission_sound :
      (needs_member_check q gate_id role member_id credential_id action
          >>= member_permission q gate_id role member_id credential_id action)
        ≡ ok tt
      → PermissionAllows
  unfolding needs_member_check member_permission
  permission_sound h = ground arith

  permission_complete :
      PermissionAllows
      → (needs_member_check q gate_id role member_id credential_id action
          >>= member_permission q gate_id role member_id credential_id action)
        ≡ ok tt
  unfolding needs_member_check member_permission
  permission_complete h = ground arith

  credential_time_iff :
      (now : Now)
      → (check_credential_time q gate_id role member_id credential_id action now ≡ ok tt) ↔ (
          (credential_id ≡ 0)
          ⊎ TimeAllows (q.credential_schedule_id credential_id) q.schedule_by_id now)
  unfolding check_credential_time
  credential_time_iff now =
      iff_trans
        (guarded_iff (not (credential_id == 0)) _
          (restrict_iff (q.credential_schedule_id credential_id) q.schedule_by_id now _ _))
        (or_else_iff (ground arith, ground arith))

  member_time_iff :
      (now : Now)
      → (check_member_time q gate_id role member_id credential_id action now ≡ ok tt) ↔ (
          ((role ≡ admin) × (credential_id ≡ 0))
          ⊎ TimeAllows (q.member_schedule_id member_id gate_id) q.schedule_by_id now)
  unfolding check_member_time
  member_time_iff now =
      iff_trans
        (guarded_iff (is_member role || not (credential_id == 0)) _
          (restrict_iff (q.member_schedule_id member_id gate_id) q.schedule_by_id now _ _))
        (or_else_iff (λ h. (ground arith, ground arith), λ h. ground arith))

  -- What a call does, when it does anything.
  abbrev pub Acts : Fired → Type 0
  Acts f =
      (q.gate_by_id gate_id ≡ ok f.gate)
      × (f.action ≡ action)
      × (f.audit.gate_id ≡ gate_id)
      × (f.audit.member_id ≡ member_id)
      × (f.audit.action ≡ perm_code action)

  -- A trigger acts exactly when all of this holds: the request carries no token, or the token's
  -- schedule allows or is not set; the permission rules allow; the caller is an admin's session, or
  -- the member's schedule for the gate allows or is not set; and the gate loads. What it does is the
  -- requested action on that gate, with an audit entry for the member, the gate and the permission
  -- that the action needs.
  pub trigger_iff :
      (now now' : Now) (f : Fired)
      → (trigger q gate_id role member_id credential_id action now now' ≡ ok f)
        ↔ ((credential_id ≡ 0)
            ⊎ TimeAllows (q.credential_schedule_id credential_id) q.schedule_by_id now)
          × PermissionAllows
          × (((role ≡ admin) × (credential_id ≡ 0))
              ⊎ TimeAllows (q.member_schedule_id member_id gate_id) q.schedule_by_id now')
          × Acts f
  unfolding trigger
  trigger_iff now now' f =
      let (sound, complete) =
        chain_iff (check_credential_time q gate_id role member_id credential_id action now)
          (check_member_time q gate_id role member_id credential_id action now')
          (needs_member_check q gate_id role member_id credential_id action)
          (member_permission q gate_id role member_id credential_id action) (q.gate_by_id gate_id)
          gate_id member_id action (perm_code action) f in
      let early = credential_time_iff now in
      let late = member_time_iff now' in
      (
        λ h. let (a, b, d, acts) = sound h in (early.0 a, permission_sound b, late.0 d, acts),
        λ h. complete (early.1 h.0, permission_complete h.1, late.1 h.2, h.3),
      )
