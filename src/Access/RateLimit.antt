-- ===== src/Access/RateLimit.antt =====
-- internal/middleware/ratelimit.go: a limit of requests per address. The window is the expiry of the
-- key, which is left to the environment: a run here is one within a window.
use gaty.Prelude.{
  ℕ, ◌+◌, String, List, [], ◌∷◌, ◌≡◌, ◌⊎◌, refl, inl, inr, str_eq, eq_iff, arith, ℤ, pos, ltb_ℤ,
  ◌≤ℤ◌, Bool-cases, if◌then◌else◌,
}
use gaty.Redis.{Redis, Fate, answered, lost_before, lost_after, ◌▹◌}
use gaty.Http.{Reply, refused, done}

abbrev pub key_of : String → String → String
key_of prefix ip = "rl:" ▹ prefix ▹ ":" ▹ ip

-- a request to a route that is limited, and what its command to Redis meets
pub record Attempt : Type 0 where
  pub prefix : String
  pub ip : String
  pub fate : Fate

module _ (r : Redis) (max_attempts : ℤ) where
  -- a request passes, or is refused
  unfoldable pub rate_limit : Attempt → r.Store → r.Store × Reply (Unit {0})
  rate_limit a s =
      let key = key_of a.prefix a.ip in
      elim a.fate [
        | lost_before ↦ (s, refused 503 "service temporarily unavailable")
        | lost_after ↦ (r.incr key s, refused 503 "service temporarily unavailable")
        | answered ↦ (
          r.incr key s,
          if ltb_ℤ max_attempts (pos (r.count (r.incr key s) key))
              then refused 429 "too many requests, try again later"
              else done tt,
        )
      ]

  module _ (key : String) where
    abbrev passed : Reply (Unit {0}) → ℕ
    passed (done _) = 1
    passed (refused code text) = 0

    -- how many requests with a key pass in a run
    unfoldable pub admitted : List Attempt → r.Store → ℕ
    admitted [] s = 0
    admitted (a ∷ as_) s =
        let rest = admitted as_ (rate_limit a s).0 in
        (if str_eq (key_of a.prefix a.ip) key then passed (rate_limit a s).1 else 0) + rest

    -- In a window at most the maximum of requests with a key pass, less those that were counted
    -- before, whatever else is requested in between and whatever commands are lost.
    pub admitted-le :
        (as_ : List Attempt) (s : r.Store)
        → (admitted as_ s ≡ 0) ⊎ (pos (r.count s key + admitted as_ s) ≤ℤ max_attempts)
    unfolding admitted rate_limit
    admitted-le [] s = inl refl
    admitted-le (a ∷ as_) s = elim (Bool-cases (str_eq (key_of a.prefix a.ip) key)) [
      | inl same ↦ ground (
        arith,
        admitted-le as_ (rate_limit a s).0,
        r.count-incr (key_of a.prefix a.ip) key s,
        r.count-incr (key_of a.prefix a.ip) (key_of a.prefix a.ip) s,
        (eq_iff (key_of a.prefix a.ip) key).0 same,
      )
      | inr other ↦
          ground
            (arith, admitted-le as_ (rate_limit a s).0, r.count-incr (key_of a.prefix a.ip) key s)
    ]
