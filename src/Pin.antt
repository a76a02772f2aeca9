-- ===== src/Pin.antt =====
-- internal/service/gate_pin.go: access codes, their rate limit, and the sessions that they open.
use gaty.Prelude.{
  ℕ, ◌+◌, ◌*◌, ◌-◌, ◌^◌, ◌%◌, suc, String, Option, none, some, List, [], ◌∷◌, ◌≡◌, Bool, true,
  false, not, ◌&&◌, ◌||◌, ◌==◌, str_eq, ltb, leb, ℤ, pos, negsuc, leb_ℤ, ltb_ℤ, pos_part, keep,
  is_empty, if◌then◌else◌,
}
use gaty.Errors.{
  Err, Result, ok, err, wrap, message, invalid_pin, too_many_attempts, max_uses_exceeded,
  schedule_denied,
}
use gaty.Json.{Fields}
use gaty.Schedule.{AccessSchedule}
use gaty.Schedule.Clock.{Now}
use gaty.Schedule.Check.{check}
use gaty.Redis.{Redis, UuidText, ◌▹◌, Fate, answered, lost_before, lost_after}
use gaty.Pagination.{page}
pub mod Session
pub mod Counters
pub mod Attempts
pub mod Uses
pub mod Counted
pub mod Granted
pub mod Admin
pub mod Handlers
pub mod Created
mod Tests

-- internal/model/gate_pin.go
pub record GatePin : Type 0 where
  pub id : ℕ
  pub gate_id : ℕ
  pub hashed_pin : String
  pub label : String
  pub metadata : Fields
  pub schedule_id : Option ℕ
  pub created_at : ℕ

-- `pinMetadata`
pub record PinMetadata : Type 0 where
  pub session_duration : Option ℤ
  pub max_uses : Option ℤ
  pub permissions : List String
  pub expires_at : Option ℕ

-- `time.Now()`: the instant in nanoseconds, and the civil time
pub record Moment : Type 0 where
  pub instant : ℕ
  pub civil : Now

-- What the service calls outside the repository: bcrypt's comparison, and encoding/json reading the
-- stored metadata into `pinMetadata`.
pub record Outside : Type 0 where
  pub compare_hash : String → String → Bool
  pub parse_metadata : Fields → PinMetadata

-- `NewGatePinService`: limits that are not positive take their defaults.
pub record Limits : Type 0 where
  pub max_attempts : ℤ
  pub max_gate_attempts : ℤ

unfoldable pub or_default : ℤ → ℤ → ℤ
or_default given default = if leb_ℤ given (pos 0) then default else given

unfoldable pub new_limits : ℤ → ℤ → Limits
unfolding or_default
new_limits max_attempts max_gate_attempts = record {
  max_attempts = or_default max_attempts (pos 5);
  max_gate_attempts = or_default max_gate_attempts (pos 50);
}

-- `List` of internal/repository/postgres/gate_pin.go. The table is held newest first, which is the
-- order of the query.
unfoldable pub list_pins : List GatePin → ℕ → List GatePin
list_pins table gate_id =
    page (record { limit = pos 10000; offset = pos 0 }) (keep (λ p. p.gate_id == gate_id) table)

-- the loop that looks for the code
unfoldable pub find_match : (GatePin → Bool) → List GatePin → Option GatePin
find_match matches [] = none
find_match matches (p ∷ ps) = if matches p then some p else find_match matches ps

-- a code past its `expires_at`
abbrev pub expired : Option ℕ → ℕ → Bool
expired none now = false
expired (some t) now = ltb t now

-- A schedule that rejects denies. One that does not load is passed over.
unfoldable pub schedule_rejects : Option ℕ → (ℕ → Result AccessSchedule) → Now → Bool
schedule_rejects none load now = false
schedule_rejects (some i) load now = elim (load i) [
  | err e ↦ false
  | ok s ↦ elim (check s now) [ ok _ ↦ false | err _ ↦ true ]
]

module _ (u : UuidText) where
  unfoldable pub ip_key : ℕ → String → String
  ip_key gate_id ip = "rl:unlock:" ▹ (u.text gate_id ▹ (":" ▹ ip))

  unfoldable pub gate_key : ℕ → String
  gate_key gate_id = "rl:unlock:gate:" ▹ u.text gate_id

  unfoldable pub uses_key : ℕ → String
  uses_key pin_id = "pin:uses:" ▹ u.text pin_id

-- One call's surroundings: the time, the repositories' answers, and what becomes of each command.
pub record Call : Type 0 where
  pub now : Moment
  pub table : Result (List GatePin)
  pub load : ℕ → Result AccessSchedule
  pub pipeline_fate : Fate
  pub del_fate : Fate
  pub script_fate : Fate
  pub set_fate : Fate

unfoldable pub is_answered : Fate → Bool
is_answered answered = true
is_answered _ = false

module _ (r : Redis) where
  -- MULTI; INCR; EXPIRE NX; INCR; EXPIRE NX; EXEC
  unfoldable pub count_attempt : Fate → String → String → r.Store → r.Store
  count_attempt lost_before ip_k gate_k s = s
  count_attempt _ ip_k gate_k s = r.incr gate_k (r.incr ip_k s)

  -- DEL, whose failure is ignored
  unfoldable pub forget : Fate → String → r.Store → r.Store
  forget lost_before k s = s
  forget _ k s = r.del k s

-- what follows the rate limit, before the counter of the address is deleted
unfoldable pub accept : Outside → Call → ℕ → String → Result (GatePin × PinMetadata)
accept o c gate_id pin = elim c.table [
  | err e ↦ err (wrap "list pins" e)
  | ok table ↦ elim (find_match (λ p. o.compare_hash p.hashed_pin pin) (list_pins table gate_id)) [
    | none ↦ err invalid_pin
    | some matched ↦
        let meta = o.parse_metadata matched.metadata in
        if expired meta.expires_at c.now.instant
        then err schedule_denied
        else if schedule_rejects matched.schedule_id c.load c.now.civil
        then err schedule_denied
        else ok (matched, meta)
  ]
]

-- an attempt over a limit
unfoldable pub over_limit : Limits → ℕ → ℕ → Bool
over_limit limits by_ip by_gate =
    ltb_ℤ limits.max_attempts (pos by_ip) || ltb_ℤ limits.max_gate_attempts (pos by_gate)

module _ (r : Redis) (u : UuidText) (o : Outside) (limits : Limits) where
  -- `validatePIN`
  unfoldable pub validate_pin :
      Call → ℕ → String → String → r.Store → r.Store × Result (GatePin × PinMetadata)
  unfolding count_attempt is_answered forget over_limit
  validate_pin c gate_id pin ip s =
      let ip_k = ip_key u gate_id ip in
      let gate_k = gate_key u gate_id in
      let s' = count_attempt r c.pipeline_fate ip_k gate_k s in
      if not (is_answered c.pipeline_fate)
        || over_limit limits (r.count s' ip_k) (r.count s' gate_k)
      then (s', err too_many_attempts)
      else elim (accept o c gate_id pin) [
        | err e ↦ (s', err e)
        | ok found ↦ (forget r c.del_fate ip_k s', ok found)
      ]
