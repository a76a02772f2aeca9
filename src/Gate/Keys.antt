-- ===== src/Gate/Keys.antt =====
-- Which keys of Redis a tick of `checkTransitions`, internal/service/gate_ttl.go, leaves alone.
use gaty.Prelude.{
  ℕ, ◌/◌, String, List, [], ◌∷◌, true, false, ◌==◌, ◌⊎◌, inl, inr, Option-cases, All, any, str_eq,
  ◌≡◌, refl, ◌∙◌, arith,
}
use gaty.Redis.{Redis, UuidText}
use gaty.Gate.{Gate, StatusTransition}
use gaty.Gate.Table.{Table}
use gaty.Gate.Transitions.{
  Decimal, Tick, away, at_status, is_due, transition_key, first_transition, check_gate, check_gates,
}

-- no transition of these has the key
abbrev pub IsApart : UuidText → String → ℕ → List StatusTransition → Type 0
IsApart u k i = All (λ x. str_eq (transition_key (u.text i) x.from x.to) k ≡ false)

-- no other gate's transition has the key
abbrev pub AreApart : UuidText → String → ℕ → Table → Type 0
AreApart u k i = All (λ h. ((h.id == i) ≡ true) ⊎ IsApart u k h.id h.status_transitions)

module _ (r : Redis) (u : UuidText) (dec : Decimal) (k : String) (now later : ℕ) where
  get-is_due :
      (seen : ℕ) (g : Gate) (x : StatusTransition) (s : r.Store)
      → str_eq (transition_key (u.text g.id) x.from x.to) k ≡ false
      → r.get (is_due r u dec true now seen g x s).0 k ≡ r.get s k
  unfolding is_due away at_status
  get-is_due seen g x s apart =
      let kx = transition_key (u.text g.id) x.from x.to in
      let armed = r.set kx (dec.print (seen / 1000)) s in
      ground
        (arith, r.get-set kx k (dec.print (seen / 1000)) s, r.get-del kx k s, r.get-del kx k armed)

  pub get-first_transition :
      (seen : ℕ) (g : Gate) (ts : List StatusTransition) (s : r.Store)
      → IsApart u k g.id ts
      → r.get (first_transition r u dec true now seen g ts s).0 k ≡ r.get s k
  unfolding first_transition
  get-first_transition seen g [] s h = refl
  get-first_transition seen g (x ∷ ts) s (h, hs) =
      let looked = is_due r u dec true now seen g x s in
      let here = get-is_due seen g x s h in
      let rest = get-first_transition seen g ts looked.0 hs in ground arith

  pub get-check_gate :
      (g : Gate) (w : Tick r u dec true)
      → IsApart u k g.id g.status_transitions
      → r.get (check_gate r u dec true now later g w).store k ≡ r.get w.store k
  unfolding check_gate
  get-check_gate g w h = elim (Option-cases g.last_seen_at) [
    | inl e ↦ rw e refl
    | inr (seen, e) ↦
        let kept = get-first_transition seen g g.status_transitions w.store h in
        elim (Option-cases
          (first_transition r u dec true now seen g g.status_transitions w.store).1) [
            | inl e' ↦ ground arith
            | inr (to, e') ↦ ground arith
          ]
  ]

  pub get-check_gates :
      (i : ℕ) (gs : Table) (w : Tick r u dec true)
      → AreApart u k i gs
      → any (λ h. h.id == i) gs ≡ false
      → r.get (check_gates r u dec true now later gs w).store k ≡ r.get w.store k
  unfolding check_gates
  get-check_gates i [] w h new = refl
  get-check_gates i (g ∷ gs) w (inl same, hs) new = ground arith
  get-check_gates i (g ∷ gs) w (inr h, hs) new =
      get-check_gates i gs (check_gate r u dec true now later g w) hs (ground arith)
      ∙ get-check_gate g w h
