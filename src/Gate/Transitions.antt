-- ===== src/Gate/Transitions.antt =====
-- `checkTransitions` of internal/service/gate_ttl.go, with `ListTransitionCandidates` of
-- internal/repository/postgres/gate.go: status transitions that fire after a time. Redis commands
-- that fail are not modelled here; `has_redis` says whether there is a client.
use gaty.Prelude.{
  ℕ, ◌+◌, ◌*◌, ◌/◌, String, Option, none, some, List, [], ◌∷◌, Bool, true, false, not, keep,
  is_empty, str_eq, ltb, ℤ, pos, negsuc, if◌then◌else◌,
}
use gaty.Redis.{Redis, UuidText, ◌▹◌}
use gaty.Gate.{Gate, StatusTransition}
use gaty.Gate.Table.{Table, GateStatusEvent, update_status}
use gaty.Pin.Session.{seconds}

-- `transitionRedisKey`
abbrev pub transition_key : String → String → String → String
transition_key gate_id from to = "gate:tr:" ▹ gate_id ▹ ":" ▹ from ▹ ":" ▹ to

-- package strconv: an `int64` in decimal
pub record Decimal : Type 0 where
  pub parse : String → Option ℕ
  pub print : ℕ → String

-- `now.Before(at.Add(d))`
unfoldable pub is_before : ℕ → ℕ → ℤ → Bool
is_before now at_ (pos n) = ltb now (at_ + n)
is_before now at_ (negsuc n) = ltb (now + n + 1) at_

-- `ListTransitionCandidates`
abbrev pub is_candidate : Gate → Bool
is_candidate g = elim g.last_seen_at [
  | none ↦ false
  | some seen ↦ not (is_empty g.status_transitions)
]

module _ (r : Redis) (u : UuidText) (dec : Decimal) (has_redis : Bool) where
  abbrev pub when_redis : (r.Store → r.Store) → r.Store → r.Store
  when_redis f s = if has_redis then f s else s

  -- a transition whose status is not the gate's: a kept one fires when its time has come
  unfoldable pub away : ℕ → Gate → StatusTransition → r.Store → r.Store × Bool
  unfolding is_before seconds
  away now g t s =
      let key = transition_key (u.text g.id) t.from t.to in
      if not t.persist_on_change
      then (when_redis (r.del key) s, false)
      else if not has_redis
      then (s, false)
      else elim (r.get s key) [
        | none ↦ (s, false)
        | some v ↦ elim (dec.parse v) [
          | none ↦ (s, false)
          | some armed ↦
              if is_before now (armed * 1000) (seconds t.after_seconds)
              then (s, false)
              else (r.del key s, true)
        ]
      ]

  -- a transition from the gate's status
  unfoldable pub at_status : ℕ → ℕ → Gate → StatusTransition → r.Store → r.Store × Bool
  unfolding is_before seconds
  at_status now seen g t s =
      let key = transition_key (u.text g.id) t.from t.to in
      let armed =
        if t.persist_on_change then when_redis (r.set key (dec.print (seen / 1000))) s else s in
      if is_before now seen (seconds t.after_seconds)
      then (armed, false)
      else (when_redis (r.del key) armed, true)

  -- the store after a transition was looked at, and whether it fires
  unfoldable pub is_due : ℕ → ℕ → Gate → StatusTransition → r.Store → r.Store × Bool
  unfolding away at_status
  is_due now seen g t s =
      if not (str_eq g.status t.from) then away now g t s else at_status now seen g t s

  -- the loop over a gate's transitions, which ends at the first that fires
  unfoldable pub first_transition :
      ℕ → ℕ → Gate → List StatusTransition → r.Store → r.Store × Option String
  first_transition now seen g [] s = (s, none)
  first_transition now seen g (t ∷ ts) s =
      let looked = is_due now seen g t s in
      let rest = first_transition now seen g ts looked.0 in
      if looked.1 then (looked.0, some t.to) else rest

  pub record Tick : Type 0 where
    pub table : Table
    pub store : r.Store
    pub events : List GateStatusEvent

  -- a gate of the list: the row is updated at a later time than the tick's
  unfoldable pub check_gate : ℕ → ℕ → Gate → Tick → Tick
  unfolding first_transition update_status
  check_gate now later g w = elim g.last_seen_at [
    | none ↦ w
    | some seen ↦
        let found = first_transition now seen g g.status_transitions w.store in
        elim found.1 [
          | none ↦ record w { store = found.0 }
          | some to ↦ record {
            table = update_status later g.id to g.status_metadata w.table;
            store = found.0;
            events =
                if has_redis
                then record { gate_id = g.id; status = to; status_metadata = none } ∷ w.events
                else w.events;
          }
        ]
  ]

  unfoldable pub check_gates : ℕ → ℕ → List Gate → Tick → Tick
  unfolding check_gate
  check_gates now later [] w = w
  check_gates now later (g ∷ gs) w = check_gates now later gs (check_gate now later g w)

  -- `checkTransitions`: the candidates are read once
  unfoldable pub check_transitions : ℕ → ℕ → Tick → Tick
  unfolding check_gates
  check_transitions now later w = check_gates now later (keep is_candidate w.table) w
