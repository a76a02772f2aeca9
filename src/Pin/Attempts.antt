-- ===== src/Pin/Attempts.antt =====
-- `validatePIN` of internal/service/gate_pin.go: what an accepted code means, and how often a gate
-- compares codes.
use gaty.Prelude.{
  ℕ, ◌+◌, ◌-◌, ◌≤◌, ◌≡◌, ◌↔◌, ◌⊎◌, inl, inr, refl, sym, String, some, List, [], ◌∷◌, Bool, true,
  false, not, ◌||◌, ◌&&◌, ◌==◌, ℤ, pos, ◌≤ℤ◌, pos_part, if◌then◌else◌, arith, ==_iff, keep,
}
use mathlib.Core.Path.{subst}
use gaty.Errors.{Result, ok, err, too_many_attempts}
use gaty.Redis.{Redis, UuidText, Fate, answered}
use gaty.Pagination.{normalize, clamp_limit, take}
use gaty.Pin.{
  GatePin, PinMetadata, Outside, Limits, Call, ip_key, gate_key, count_attempt, is_answered, forget,
  accept, over_limit, validate_pin, find_match, list_pins, expired, schedule_rejects,
}
use gaty.Pin.Counters.{ip_key-ne-gate_key, count-count_attempt, count_attempt-le, count-forget}

-- A code of the gate that matches, is not past its expiry, and whose schedule does not reject.
abbrev pub IsAccepted : Outside → Call → ℕ → String → GatePin → PinMetadata → Type 0
IsAccepted o c gate_id pin m meta =
    (table : List GatePin) × (c.table ≡ ok table)
    × (find_match (λ p. o.compare_hash p.hashed_pin pin) (list_pins table gate_id) ≡ some m)
    × (meta ≡ o.parse_metadata m.metadata)
    × (expired meta.expires_at c.now.instant ≡ false)
    × (schedule_rejects m.schedule_id c.load c.now.civil ≡ false)

accept_iff :
    (o : Outside) (c : Call) (gate_id : ℕ) (pin : String) (m : GatePin) (meta : PinMetadata)
    → (accept o c gate_id pin ≡ ok (m, meta)) ↔ IsAccepted o c gate_id pin m meta
unfolding accept
accept_iff o c gate_id pin m meta =
    (λ h. ground arith, λ (table, loaded, found, parsed, fresh, timely). ground arith)

-- an attempt that the rate limit let through
abbrev pub is_compared {ℓ} : {A : Type ℓ} → Result A → Bool
is_compared (ok _) = true
is_compared (err too_many_attempts) = false
is_compared (err _) = true

-- `validatePIN` over the results of its parts
outcome : {S A : Type 0} → Limits → Fate → ℕ → ℕ → Result A → S → S → S × Result A
outcome limits f by_ip by_gate acc s t =
    if not (is_answered f) || over_limit limits by_ip by_gate
    then (s, err too_many_attempts)
    else elim acc [ err e ↦ (s, err e) | ok found ↦ (t, ok found) ]

outcome_iff :
    {S A : Type 0} (limits : Limits) (f : Fate) (by_ip by_gate : ℕ) (acc : Result A) (s t : S)
    (x : A)
    → ((outcome limits f by_ip by_gate acc s t).1 ≡ ok x) ↔ (
        (f ≡ answered)
        × (pos by_ip ≤ℤ limits.max_attempts)
        × (pos by_gate ≤ℤ limits.max_gate_attempts)
        × (acc ≡ ok x))
unfolding is_answered over_limit outcome
outcome_iff limits f by_ip by_gate acc s t x = (λ h. ground arith, λ h. ground arith)

outcome-store :
    {S A : Type 0} (limits : Limits) (f : Fate) (by_ip by_gate : ℕ) (acc : Result A) (s t : S)
    → ((outcome limits f by_ip by_gate acc s t).0 ≡ s)
      ⊎ ((outcome limits f by_ip by_gate acc s t).0 ≡ t)
unfolding outcome
outcome-store limits f by_ip by_gate acc s t = ground arith

outcome-is_compared :
    {S A : Type 0} (limits : Limits) (f : Fate) (by_ip by_gate : ℕ) (acc : Result A) (s t : S)
    → is_compared (outcome limits f by_ip by_gate acc s t).1 ≡ true
    → (f ≡ answered) × (pos by_gate ≤ℤ limits.max_gate_attempts)
unfolding outcome is_answered over_limit
outcome-is_compared limits f by_ip by_gate acc s t h = ground arith

step_le :
    (at_gate counted : Bool) (rest before after : ℕ) (max : ℤ)
    → rest ≤ pos_part max - after
    → before ≤ after
    → (at_gate ≡ true → counted ≡ true → (before + 1 ≤ after) × (pos (before + 1) ≤ℤ max))
    → (if at_gate && counted then rest + 1 else rest) ≤ pos_part max - before
step_le true true rest before after max h grown one = let (a, b) = one refl refl in ground arith
step_le true false rest before after max h grown one = omega arith
step_le false counted rest before after max h grown one = omega arith

module _ (r : Redis) (u : UuidText) (o : Outside) (limits : Limits) where
  -- A code is accepted exactly when the attempt was counted and answered, neither counter, this
  -- attempt included, is above its limit, and the code is accepted.
  pub validate_pin_iff :
      (c : Call) (gate_id : ℕ) (pin ip : String) (s : r.Store) (m : GatePin) (meta : PinMetadata)
      → ((validate_pin r u o limits c gate_id pin ip s).1 ≡ ok (m, meta)) ↔ (
          (c.pipeline_fate ≡ answered)
          × (pos (r.count s (ip_key u gate_id ip) + 1) ≤ℤ limits.max_attempts)
          × (pos (r.count s (gate_key u gate_id) + 1) ≤ℤ limits.max_gate_attempts)
          × IsAccepted o c gate_id pin m meta)
  unfolding validate_pin outcome
  validate_pin_iff c gate_id pin ip s m meta =
      let i = ip_key u gate_id ip in
      let g = gate_key u gate_id in
      let f = c.pipeline_fate in
      let s' = count_attempt r f i g s in
      let guard =
        outcome_iff limits f (r.count s' i) (r.count s' g) (accept o c gate_id pin) s'
          (forget r c.del_fate i s') (m, meta) in
      let accepted = accept_iff o c gate_id pin m meta in
      let counted : f ≡ answered
          → (r.count s' g ≡ r.count s g + 1) × (r.count s' i ≡ r.count s i + 1) =
        λ sent.
          count-count_attempt r f i g s (λ lost. cc) (ip_key-ne-gate_key u gate_id gate_id ip) in
      (
        λ h.
            let (sent, by_ip, by_gate, a) = guard.0 h in
            let (at_gate, at_ip) = counted sent in
            (
              sent,
              subst (λ n. pos n ≤ℤ limits.max_attempts) at_ip by_ip,
              subst (λ n. pos n ≤ℤ limits.max_gate_attempts) at_gate by_gate,
              accepted.0 a,
            ),
        λ (sent, by_ip, by_gate, a).
            let (at_gate, at_ip) = counted sent in
            guard.1 (
              sent,
              subst (λ n. pos n ≤ℤ limits.max_attempts) (sym at_ip) by_ip,
              subst (λ n. pos n ≤ℤ limits.max_gate_attempts) (sym at_gate) by_gate,
              accepted.1 a,
            ),
      )

-- attempts at gates, one after another
pub record Attempt : Type 0 where
  pub call : Call
  pub gate_id : ℕ
  pub pin : String
  pub ip : String

module _ (r : Redis) (u : UuidText) (o : Outside) (limits : Limits) where
  -- the attempts at a gate that were compared with its codes
  unfoldable pub compared : ℕ → List Attempt → r.Store → ℕ
  compared g [] s = 0
  compared g (a ∷ later) s =
      let result = validate_pin r u o limits a.call a.gate_id a.pin a.ip s in
      let rest = compared g later result.0 in
      if (a.gate_id == g) && is_compared result.1 then rest + 1 else rest

  validate_pin-le :
      (c : Call) (h g : ℕ) (pin ip : String) (s : r.Store)
      → r.count s (gate_key u g) ≤ r.count (validate_pin r u o limits c h pin ip s).0 (gate_key u g)
  unfolding validate_pin outcome
  validate_pin-le c h g pin ip s =
      let i = ip_key u h ip in
      let k = gate_key u h in
      let s' = count_attempt r c.pipeline_fate i k s in
      let t = forget r c.del_fate i s' in
      let grown = count_attempt-le r c.pipeline_fate i k (gate_key u g) s in
      let kept = count-forget r c.del_fate i (gate_key u g) s' (ip_key-ne-gate_key u h g ip) in
      let store =
        outcome-store limits c.pipeline_fate (r.count s' i) (r.count s' k) (accept o c h pin) s'
          t in
      elim store [
        | inl e ↦ subst (λ x. r.count s (gate_key u g) ≤ r.count x (gate_key u g)) (sym e) grown
        | inr e ↦
            subst (λ x. r.count s (gate_key u g) ≤ r.count x (gate_key u g)) (sym e)
              (subst (λ n. r.count s (gate_key u g) ≤ n) (sym kept) grown)
      ]

  validate_pin-is_compared :
      (c : Call) (g : ℕ) (pin ip : String) (s : r.Store)
      → is_compared (validate_pin r u o limits c g pin ip s).1 ≡ true
      → (r.count s (gate_key u g) + 1
          ≤ r.count (validate_pin r u o limits c g pin ip s).0 (gate_key u g))
        × (pos (r.count s (gate_key u g) + 1) ≤ℤ limits.max_gate_attempts)
  unfolding validate_pin outcome
  validate_pin-is_compared c g pin ip s h =
      let i = ip_key u g ip in
      let k = gate_key u g in
      let s' = count_attempt r c.pipeline_fate i k s in
      let t = forget r c.del_fate i s' in
      let (sent, bound) =
        outcome-is_compared limits c.pipeline_fate (r.count s' i) (r.count s' k) (accept o c g pin)
          s' t h in
      let ne = ip_key-ne-gate_key u g g ip in
      let (at_gate, _) = count-count_attempt r c.pipeline_fate i k s (λ lost. cc) ne in
      let kept = count-forget r c.del_fate i k s' ne in
      let store =
        outcome-store limits c.pipeline_fate (r.count s' i) (r.count s' k) (accept o c g pin) s'
          t in
      let bound' : pos (r.count s k + 1) ≤ℤ limits.max_gate_attempts =
        subst (λ n. pos n ≤ℤ limits.max_gate_attempts) at_gate bound in
      elim store [
        | inl e ↦ (subst (λ x. r.count s k + 1 ≤ r.count x k) (sym e) (omega arith), bound')
        | inr e ↦ (subst (λ x. r.count s k + 1 ≤ r.count x k) (sym e) (omega arith), bound')
      ]

  -- However many attempts are made, from any addresses and at any gates, the codes of a gate are
  -- compared at most as often as the limit of the gate leaves, while its counter does not expire.
  pub compared-le :
      (g : ℕ) (attempts : List Attempt) (s : r.Store)
      → compared g attempts s ≤ pos_part limits.max_gate_attempts - r.count s (gate_key u g)
  unfolding compared
  compared-le g [] s = omega arith
  compared-le g (a ∷ later) s =
      let rest = compared-le g later (validate_pin r u o limits a.call a.gate_id a.pin a.ip s).0 in
      let grown = validate_pin-le a.call a.gate_id g a.pin a.ip s in
      let one = validate_pin-is_compared a.call a.gate_id a.pin a.ip s in
      step_le (a.gate_id == g)
        (is_compared (validate_pin r u o limits a.call a.gate_id a.pin a.ip s).1)
        (compared g later (validate_pin r u o limits a.call a.gate_id a.pin a.ip s).0)
        (r.count s (gate_key u g))
        (r.count (validate_pin r u o limits a.call a.gate_id a.pin a.ip s).0 (gate_key u g))
        limits.max_gate_attempts rest grown
        (λ at_gate counted.
          subst
            (λ h.
              (r.count s (gate_key u h) + 1
                ≤ r.count (validate_pin r u o limits a.call a.gate_id a.pin a.ip s).0
                    (gate_key u h))
              × (pos (r.count s (gate_key u h) + 1) ≤ℤ limits.max_gate_attempts))
            ((==_iff a.gate_id g).0 at_gate) (one counted))

-- The codes that an attempt is compared with are the newest hundred of the gate, although a page
-- of ten thousand is asked for.
pub list_pins-newest :
    (table : List GatePin) (g : ℕ) → list_pins table g ≡ take 100 (keep (λ p. p.gate_id == g) table)
unfolding list_pins normalize clamp_limit
list_pins-newest table g = refl
