-- ===== src/Pin/Granted.antt =====
-- How often `Open` of internal/service/gate_pin.go lets a code in, over runs of `Open` and `Unlock`.
use gaty.Prelude.{
  ℕ, ◌+◌, ◌-◌, ◌≤◌, inl, inr, String, List, [], ◌∷◌, Bool, false, if◌then◌else◌, arith, Bool-cases,
}
use gaty.Errors.{Result}
use gaty.Gate.{Gate}
use gaty.Redis.{Redis, UuidText}
use gaty.Pin.{Outside, Limits, Call, uses_key, validate_pin}
use gaty.Pin.Session.{Tokens, World, unlock, open_pin}
use gaty.Pin.Counted.{is_lost, is_granted, open_pin-le, open_pin-counted, unlock-le}

-- A request, with the surroundings that may change from one to the next.
pub data Request : Type 0 where
  opens : Outside → Tokens → Call → ℕ → String → String → Request
  unlocks : Outside → Call → ℕ → String → String → Request

module _ (r : Redis) (u : UuidText) (limits : Limits) (load_gate : ℕ → Result Gate)
    (i max : ℕ) where
  -- What a request leaves, and whether it takes a use of the code `i` under a maximum of at most
  -- `max`.
  unfoldable pub serve : Request → World r.Store → World r.Store
  serve (opens o t c gate_id pin ip) w = (open_pin r u o limits load_gate t c gate_id pin ip w).0
  serve (unlocks o c gate_id pin ip) w = (unlock r u o limits load_gate c gate_id pin ip w).0

  unfoldable pub takes_use : Request → World r.Store → Bool
  takes_use (opens o t c gate_id pin ip) w =
      is_granted i max (validate_pin r u o limits c gate_id pin ip w.store).1
        (open_pin r u o limits load_gate t c gate_id pin ip w).1
  takes_use (unlocks o c gate_id pin ip) w = false

  unfoldable pub loses : Request → Bool
  loses (opens o t c gate_id pin ip) = is_lost c.script_fate
  loses (unlocks o c gate_id pin ip) = false

  -- The uses taken over a run of requests, and the requests whose script's answer was lost.
  unfoldable pub granted : List Request → World r.Store → ℕ
  granted [] w = 0
  granted (q ∷ qs) w = let rest = granted qs (serve q w) in if takes_use q w then rest + 1 else rest

  unfoldable pub lost : List Request → ℕ
  lost [] = 0
  lost (q ∷ qs) = let rest = lost qs in if loses q then rest + 1 else rest

  -- Over any run of `Open` and `Unlock`, at any gates and for any codes, whose surroundings may change
  -- from one request to the next: the calls of `Open` that succeed on the code `i` while its maximum
  -- is positive and at most `max` are at most what `max` leaves of the code's counter at the start,
  -- and one for each `Open` whose script's answer was lost.
  pub granted-le :
      (qs : List Request) (w : World r.Store)
      → granted qs w ≤ (max - r.count w.store (uses_key u i)) + lost qs
  unfolding granted lost serve takes_use loses
  granted-le [] w = omega arith
  granted-le (unlocks o c gate_id pin ip ∷ qs) w =
      let rest = granted-le qs (serve (unlocks o c gate_id pin ip) w) in
      let grown = unlock-le r u limits load_gate i max o c gate_id pin ip w in omega arith
  granted-le (opens o t c gate_id pin ip ∷ qs) w =
      let rest = granted-le qs (serve (opens o t c gate_id pin ip) w) in
      let grown = open_pin-le r u limits load_gate i max o t c gate_id pin ip w in
      let counted = open_pin-counted r u limits load_gate i max o t c gate_id pin ip w in
      elim (Bool-cases (takes_use (opens o t c gate_id pin ip) w)) [
        | inr q ↦ elim (Bool-cases (is_lost c.script_fate)) [
          | inl l ↦ ground arith
          | inr l ↦ ground arith
        ]
        | inl q ↦ elim (Bool-cases (is_lost c.script_fate)) [
          | inl l ↦ ground arith
          | inr l ↦ let (a, b) = counted q l in ground arith
        ]
      ]
