-- ===== src/Pin/Counters.antt =====
-- What the commands of internal/service/gate_pin.go do to the counters of a gate and an address.
use gaty.Prelude.{
  ℕ, ◌+◌, ◌≤◌, ◌≡◌, ◌≢◌, refl, sym, String, true, false, str_eq, eq_iff, arith, Bool-cases, inl,
  inr, ◌⊎◌,
}
use gaty.Redis.{Redis, UuidText, Fate, answered, lost_before, lost_after}
use gaty.Pin.{ip_key, gate_key, count_attempt, forget}

-- The counter of an address at a gate is not the counter of a gate.
pub ip_key-ne-gate_key : (u : UuidText) (h g : ℕ) (ip : String) → ip_key u h ip ≢ gate_key u g
unfolding ip_key gate_key
ip_key-ne-gate_key u h g ip same =
    let split : u.text h ≡ String.◌∷◌ (u.head h) (u.tail h) = u.text_lem h in u.head_hex h cc

pub str_eq-ne : (s t : String) → s ≢ t → str_eq s t ≡ false
str_eq-ne s t h = elim (Bool-cases (str_eq s t)) [
  | inl e ↦ absurd (h ((eq_iff s t).0 e))
  | inr e ↦ e
]

pub str_eq_cases : (s t : String) → (s ≡ t) ⊎ (s ≢ t)
str_eq_cases s t = elim (Bool-cases (str_eq s t)) [
  | inl e ↦ inl ((eq_iff s t).0 e)
  | inr e ↦ inr (λ same. let t = (eq_iff s t).1 same in cc)
]

pub str_eq_refl : (s : String) → str_eq s s ≡ true
str_eq_refl s = (eq_iff s s).1 refl

module _ (r : Redis) where
  pub count-incr_same : (k : String) (s : r.Store) → r.count (r.incr k s) k ≡ r.count s k + 1
  count-incr_same k s = rw (r.count-incr k k s, str_eq_refl k)

  pub count-incr_ne : (k j : String) (s : r.Store) → k ≢ j → r.count (r.incr k s) j ≡ r.count s j
  count-incr_ne k j s ne = rw (r.count-incr k j s, str_eq-ne k j ne)

  pub count-incr_le : (k j : String) (s : r.Store) → r.count s j ≤ r.count (r.incr k s) j
  count-incr_le k j s = elim (str_eq_cases k j) [
    | inl e ↦ ground (arith, count-incr_same k s)
    | inr ne ↦ ground (arith, count-incr_ne k j s ne)
  ]

  -- An attempt counts at both of its keys.
  pub count-count_attempt :
      (f : Fate) (i g : String) (s : r.Store)
      → f ≢ lost_before
      → i ≢ g
      → (r.count (count_attempt r f i g s) g ≡ r.count s g + 1)
        × (r.count (count_attempt r f i g s) i ≡ r.count s i + 1)
  unfolding count_attempt
  count-count_attempt f i g s sent ne =
      let once = count-incr_same i s in
      let twice = count-incr_same g (r.incr i s) in
      let kept = count-incr_ne i g s ne in
      let kept' = count-incr_ne g i (r.incr i s) (λ e. ne (sym e)) in
      elim f
          as (λ f.
            f ≢ lost_before
            → (r.count (count_attempt r f i g s) g ≡ r.count s g + 1)
              × (r.count (count_attempt r f i g s) i ≡ r.count s i + 1)) [
                | lost_before ↦ λ sent. absurd (sent refl)
                | answered ↦ λ sent. (omega arith, omega arith)
                | lost_after ↦ λ sent. (omega arith, omega arith)
              ]
        sent

  -- An attempt decreases no counter.
  pub count_attempt-le :
      (f : Fate) (i g j : String) (s : r.Store) → r.count s j ≤ r.count (count_attempt r f i g s) j
  unfolding count_attempt
  count_attempt-le lost_before i g j s = omega arith
  count_attempt-le answered i g j s =
      let a = count-incr_le i j s in let b = count-incr_le g j (r.incr i s) in omega arith
  count_attempt-le lost_after i g j s =
      let a = count-incr_le i j s in let b = count-incr_le g j (r.incr i s) in omega arith

  pub count-forget :
      (f : Fate) (k j : String) (s : r.Store) → k ≢ j → r.count (forget r f k s) j ≡ r.count s j
  unfolding forget
  count-forget lost_before k j s ne = refl
  count-forget answered k j s ne = rw (r.count-del k j s, str_eq-ne k j ne)
  count-forget lost_after k j s ne = rw (r.count-del k j s, str_eq-ne k j ne)
