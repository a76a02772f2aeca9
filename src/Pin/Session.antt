-- ===== src/Pin/Session.antt =====
-- `Unlock`, `Open` of internal/service/gate_pin.go, and `IssueGatePinSession` of internal/service/auth.go.
use gaty.Prelude.{
  ℕ, ◌+◌, ◌*◌, ◌-◌, ◌/◌, ◌^◌, ◌%◌, String, none, some, List, [], ◌∷◌, Bool, true, not, str_eq, ltb,
  ℤ, pos, negsuc, ltb_ℤ, keep, is_empty, if◌then◌else◌,
}
use gaty.Errors.{Err, Result, ok, err, wrap, max_uses_exceeded}
use gaty.Gate.{Gate, second}
use gaty.Redis.{Redis, UuidText, ◌▹◌, Fate, answered, lost_before, lost_after}
use gaty.Pin.{GatePin, PinMetadata, Outside, Limits, uses_key, Call, validate_pin}

-- `int64`: wrap-around to the signed numbers of 64 bits
unfoldable pub to_int64 : ℤ → ℤ
to_int64 (pos n) = let m = n % 2 ^ 64 in if ltb m (2 ^ 63) then pos m else negsuc (2 ^ 64 - 1 - m)
to_int64 (negsuc n) =
    let m = n % 2 ^ 64 in if ltb m (2 ^ 63) then negsuc m else pos (2 ^ 64 - 1 - m)

-- `time.Duration(x) * time.Second`
unfoldable pub seconds : ℤ → ℤ
unfolding to_int64
seconds (pos n) = to_int64 (pos (n * second))
seconds (negsuc n) = to_int64 (negsuc ((n + 1) * second - 1))

unfoldable pub session_duration_of : PinMetadata → ℤ
session_duration_of meta = elim meta.session_duration [
  | none ↦ pos (7 * 24 * 3600 * second)
  | some x ↦ seconds x
]

-- the permissions of the session: a default, and never `gate:manage`
unfoldable pub session_permissions : List String → List String
session_permissions perms =
    keep (λ p. not (str_eq p "gate:manage"))
      (if is_empty perms then "gate:trigger_open" ∷ [] else perms)

-- The claims of the access token. `iat` and `exp` are in seconds.
pub record PinClaims : Type 0 where
  pub sub : ℕ
  pub gate_id : ℕ
  pub permissions : List String
  pub iat : ℕ
  pub exp : ℕ

-- what the refresh token stands for
pub record PinSession : Type 0 where
  pub sub : ℕ
  pub gate_id : ℕ
  pub permissions : List String
  pub session_duration : ℤ

pub record TokenPair : Type 0 where
  pub access_token : String
  pub refresh_token : String
  pub session_duration : ℤ
  pub access_token_ttl : ℤ

pub record OpenResult : Type 0 where
  pub tokens : TokenPair
  pub permissions : List String

-- The libraries of the authentication: signing, the random token, SHA-256 in hexadecimal, and JSON.
pub record Tokens : Type 0 where
  pub sign : PinClaims → Result String
  pub random : Result String
  pub sha256_hex : String → String
  pub encode : PinSession → String

-- The store, and the actions that were triggered, the newest first.
pub record World (Store : Type 0) : Type 0 where
  pub store : Store
  pub triggered : List (Gate × String)

module _ (r : Redis) where
  -- The script of `Open`: INCR, and above the maximum DECR and 0. An error of the script allows
  -- the use.
  unfoldable pub run_script : String → ℤ → r.Store → r.Store × ℕ
  run_script k max s =
      let s' = r.incr k s in
      if ltb_ℤ max (pos (r.count s' k)) then (r.decr k s', 0) else (s', r.count s' k)

  unfoldable pub consume : Fate → String → ℤ → r.Store → r.Store × Bool
  unfolding run_script
  consume lost_before k max s = (s, true)
  consume lost_after k max s = ((run_script k max s).0, true)
  consume answered k max s = ((run_script k max s).0, ltb 0 (run_script k max s).1)

  -- the maximum applies where it is given and positive
  unfoldable pub consume_use : Fate → UuidText → ℕ → PinMetadata → r.Store → r.Store × Bool
  unfolding consume
  consume_use f u pin_id meta s = elim meta.max_uses [
    | none ↦ (s, true)
    | some max ↦ if ltb_ℤ (pos 0) max then consume f (uses_key u pin_id) max s else (s, true)
  ]

  -- SET, whose failure is an error
  unfoldable pub store_session : Fate → String → String → r.Store → r.Store × Result (Unit {0})
  store_session answered k v s = (r.set k v s, ok tt)
  store_session lost_before k v s =
      (s, err (wrap "store pin session refresh token" (Err.message "redis")))
  store_session lost_after k v s =
      (r.set k v s, err (wrap "store pin session refresh token" (Err.message "redis")))

  unfoldable pub issue_gate_pin_session :
      Tokens → Fate → ℕ → ℕ → ℕ → ℤ → List String → r.Store → r.Store × Result TokenPair
  unfolding store_session
  issue_gate_pin_session t f now pin_id gate_id duration permissions s =
      elim (t.sign (record {
        sub = pin_id;
        gate_id = gate_id;
        permissions = permissions;
        iat = now;
        exp = now + 15 * 60;
      })) [
        | err e ↦ (s, err (wrap "sign pin session access token" e))
        | ok access ↦ elim t.random [
          | err e ↦ (s, err (wrap "generate pin session refresh token" e))
          | ok refresh ↦
              let stored =
                store_session f ("refresh:" ▹ t.sha256_hex refresh)
                  (t.encode (record {
                    sub = pin_id;
                    gate_id = gate_id;
                    permissions = permissions;
                    session_duration = duration;
                  }))
                  s in
              (
                stored.0,
                elim stored.1 [
                  | err e ↦ err e
                  | ok _ ↦ ok (record {
                    access_token = access;
                    refresh_token = refresh;
                    session_duration = pos 0;
                    access_token_ttl = pos (15 * 60 * second);
                  })
                ],
              )
        ]
      ]

  -- `triggerGate`: a gate that does not load is passed over.
  unfoldable pub trigger_gate : (ℕ → Result Gate) → ℕ → World r.Store → World r.Store
  trigger_gate load_gate gate_id w = elim (load_gate gate_id) [
    | err e ↦ w
    | ok g ↦ record { store = w.store; triggered = (g, "open") ∷ w.triggered }
  ]

  module _ (u : UuidText) (o : Outside) (limits : Limits) (load_gate : ℕ → Result Gate) where
    unfoldable pub unlock :
        Call → ℕ → String → String → World r.Store → World r.Store × Result (Unit {0})
    unfolding trigger_gate validate_pin
    unlock c gate_id pin ip w =
        let checked = validate_pin r u o limits c gate_id pin ip w.store in
        let w' : World r.Store = record { store = checked.0; triggered = w.triggered } in
        elim checked.1 [ err e ↦ (w', err e) | ok _ ↦ (trigger_gate load_gate gate_id w', ok tt) ]

    -- what `Open` does with a code that was accepted
    unfoldable pub open_session :
        Tokens
        → Call
        → ℕ
        → GatePin
        → PinMetadata
        → World r.Store
        → World r.Store × Result OpenResult
    unfolding consume_use session_duration_of session_permissions issue_gate_pin_session
        trigger_gate
    open_session t c gate_id matched meta w =
        let used = consume_use c.script_fate u matched.id meta w.store in
        if not used.1
        then (record { store = used.0; triggered = w.triggered }, err max_uses_exceeded)
        else let permissions = session_permissions meta.permissions in
          let issued =
            issue_gate_pin_session t c.set_fate (c.now.instant / second) matched.id gate_id
              (session_duration_of meta) permissions used.0 in
          let w' : World r.Store = record { store = issued.0; triggered = w.triggered } in
          elim issued.1 [
            | err e ↦ (w', err (wrap "issue session" e))
            | ok tokens ↦ (
              trigger_gate load_gate gate_id w',
              ok (record { tokens = tokens; permissions = permissions }),
            )
          ]

    unfoldable pub open_pin :
        Tokens → Call → ℕ → String → String → World r.Store → World r.Store × Result OpenResult
    unfolding open_session validate_pin
    open_pin t c gate_id pin ip w =
        let checked = validate_pin r u o limits c gate_id pin ip w.store in
        let w' : World r.Store = record { store = checked.0; triggered = w.triggered } in
        elim checked.1 [
          | err e ↦ (w', err e)
          | ok found ↦ open_session t c gate_id found.0 found.1 w'
        ]
