-- ===== src/Gate/Armed.antt =====
-- Transitions that outlast a change of status: `checkTransitions` of internal/service/gate_ttl.go.
use gaty.Prelude.{
  All-keep, List, [], ◌∷◌, ◌==◌, ==_iff, inl, inr, Option-cases, Bool-cases, any, keep, ◌∙◌, ℕ, ◌*◌,
  ◌/◌, String, none, some, true, false, str_eq, eq_iff, ◌≡◌, refl, ap, arith, if◌then◌else◌,
}
use mathlib.Core.Path.{subst}
use gaty.Redis.{Redis, UuidText}
use gaty.Gate.{Gate, StatusTransition}
use gaty.Gate.Table.{Table, find_row, with_status, update_status}
use gaty.Gate.Ticks.{
  IsKeyed, find_row-update_status, find_row_id, keep-IsKeyed, find_row-keep, check_gate-other,
  check_gates-others,
}
use gaty.Gate.Keys.{IsApart, AreApart, get-first_transition, get-check_gate, get-check_gates}
use gaty.Gate.Transitions.{
  first_transition, check_gate, check_gates, check_transitions, Tick, is_candidate, Decimal,
  is_before, away, at_status, is_due, transition_key,
}
use gaty.Pin.Session.{seconds}

module _ (r : Redis) (u : UuidText) (dec : Decimal) (t : StatusTransition) (g : Gate) where
  key : String
  key = transition_key (u.text g.id) t.from t.to

  -- a first look arms the transition
  is_due-from :
      (now seen : ℕ) (s : r.Store)
      → t.persist_on_change ≡ true
      → str_eq g.status t.from ≡ true
      → is_before now seen (seconds t.after_seconds) ≡ true
      → is_due r u dec true now seen g t s ≡ (r.set key (dec.print (seen / 1000)) s, false)
  unfolding is_due at_status key
  is_due-from now seen s p at_from early = ground arith

  -- a look from another status, by what the store holds
  is_due-away :
      (now seen : ℕ) (g' : Gate) (s : r.Store) (armed : ℕ)
      → t.persist_on_change ≡ true
      → str_eq g'.status t.from ≡ false
      → g'.id ≡ g.id
      → (v : String) → r.get s key ≡ some v
      → dec.parse v ≡ some armed
      → is_due r u dec true now seen g' t s ≡ (
          if is_before now (armed * 1000) (seconds t.after_seconds)
          then (s, false)
          else (r.del key s, true))
  unfolding is_due away key
  is_due-away now seen g' s armed p gone same v held read =
      rw (is_due, away, gone, p, same, held, read)
        (ap
          (λ i.
            if is_before now (armed * 1000) (seconds t.after_seconds)
            then (s, false)
            else (r.del (transition_key (u.text i) t.from t.to) s, true))
          same)

  passed_over :
      (ts : List StatusTransition) (now seen : ℕ) (g' : Gate) (s s' : r.Store)
      → g'.status_transitions ≡ t ∷ ts
      → is_due r u dec true now seen g' t s ≡ (s', false)
      → first_transition r u dec true now seen g' g'.status_transitions s
        ≡ first_transition r u dec true now seen g' ts s'
  unfolding first_transition
  passed_over ts now seen g' s s' listed look =
      ap (λ l. first_transition r u dec true now seen g' l s) listed
      ∙ rw (first_transition, look) refl

  fires :
      (ts : List StatusTransition) (now seen : ℕ) (g' : Gate) (s s' : r.Store)
      → g'.status_transitions ≡ t ∷ ts
      → is_due r u dec true now seen g' t s ≡ (s', true)
      → first_transition r u dec true now seen g' g'.status_transitions s ≡ (s', some t.to)
  unfolding first_transition
  fires ts now seen g' s s' listed look =
      ap (λ l. first_transition r u dec true now seen g' l s) listed
      ∙ rw (first_transition, look) refl

  -- a look at the gate in the status of its first transition, too early, leaves the time it was seen
  get-check_gate_from :
      (ts : List StatusTransition) (now later seen : ℕ) (w : Tick r u dec true)
      → t.persist_on_change ≡ true
      → g.status_transitions ≡ t ∷ ts
      → g.last_seen_at ≡ some seen
      → str_eq g.status t.from ≡ true
      → IsApart u key g.id ts
      → is_before now seen (seconds t.after_seconds) ≡ true
      → r.get (check_gate r u dec true now later g w).store key ≡ some (dec.print (seen / 1000))
  unfolding check_gate
  get-check_gate_from ts now later seen w p listed at_ from apart early =
      let look = is_due-from now seen w.store p from early in
      let armed = r.set key (dec.print (seen / 1000)) w.store in
      let held : r.get armed key ≡ some (dec.print (seen / 1000)) =
        ground
          (arith, r.get-set key key (dec.print (seen / 1000)) w.store, (eq_iff key key).1 refl) in
      let kept = get-first_transition r u dec key now later seen g ts armed apart in
      let found = passed_over ts now seen g w.store armed listed look in
      elim (Option-cases (first_transition r u dec true now seen g ts armed).1) [
        | inl e ↦ ground (arith, found)
        | inr (to, e) ↦ ground (arith, found)
      ]

  get-check_gates_from :
      (ts : List StatusTransition) (now later seen : ℕ) (gs : Table) (w : Tick r u dec true)
      → t.persist_on_change ≡ true
      → g.status_transitions ≡ t ∷ ts
      → g.last_seen_at ≡ some seen
      → str_eq g.status t.from ≡ true
      → IsApart u key g.id ts
      → is_before now seen (seconds t.after_seconds) ≡ true
      → IsKeyed gs
      → AreApart u key g.id gs
      → find_row g.id gs ≡ some g
      → r.get (check_gates r u dec true now later gs w).store key ≡ some (dec.print (seen / 1000))
  unfolding check_gates find_row
  get-check_gates_from ts now later seen [] w p listed at_ from apart early _ _ e = ground arith
  get-check_gates_from ts now later seen (x ∷ gs) w p listed at_ from apart early (new, ks)
        (_, others) e =
      elim (Bool-cases (x.id == g.id)) [
        | inr other ↦
            get-check_gates_from ts now later seen gs (check_gate r u dec true now later x w) p
              listed at_ from apart early ks others (ground arith)
        | inl same ↦
            let is : x ≡ g = ground arith in
            get-check_gates r u dec key now later g.id gs (check_gate r u dec true now later x w)
              others (subst (λ y. any (λ z. z.id == y.id) gs ≡ false) is new)
            ∙ ap (λ y. r.get (check_gate r u dec true now later y w).store key) is
            ∙ get-check_gate_from ts now later seen w p listed at_ from apart early
      ]

  -- a later look at its row in another status, when the time is over
  check_gate-away :
      (ts : List StatusTransition) (now later seen armed : ℕ) (v : String) (g' : Gate)
      (w : Tick r u dec true)
      → t.persist_on_change ≡ true
      → g'.status_transitions ≡ t ∷ ts
      → g'.last_seen_at ≡ some seen
      → str_eq g'.status t.from ≡ false
      → g'.id ≡ g.id
      → is_before now (armed * 1000) (seconds t.after_seconds) ≡ false
      → dec.parse v ≡ some armed
      → r.get w.store key ≡ some v
      → find_row g.id w.table ≡ some g'
      → (find_row g.id (check_gate r u dec true now later g' w).table
          ≡ some (with_status t.to (some later) g'.status_metadata g'))
        × (r.get (check_gate r u dec true now later g' w).store key ≡ none)
  unfolding check_gate
  check_gate-away ts now later seen armed v g' w p listed at_ gone same late read held row =
      let look = is_due-away now seen g' w.store armed p gone same v held read in
      let forgotten : r.get (r.del key w.store) key ≡ none =
        ground (arith, r.get-del key key w.store, (eq_iff key key).1 refl) in
      let updated = find_row-update_status g.id later t.to g'.status_metadata w.table g' row in
      let found =
        fires ts now seen g' w.store (r.del key w.store) listed
          (look ∙ ap (λ b. if b then (w.store, false) else (r.del key w.store, true)) late) in
      let there =
        ap (λ j. find_row g.id (update_status later j t.to g'.status_metadata w.table)) same in
      (ground (arith, found, there, updated), ground (arith, found, forgotten))

  check_gates-away :
      (ts : List StatusTransition) (now later seen armed : ℕ) (v : String) (g' : Gate) (gs : Table)
      (w : Tick r u dec true)
      → t.persist_on_change ≡ true
      → g'.status_transitions ≡ t ∷ ts
      → g'.last_seen_at ≡ some seen
      → str_eq g'.status t.from ≡ false
      → g'.id ≡ g.id
      → is_before now (armed * 1000) (seconds t.after_seconds) ≡ false
      → dec.parse v ≡ some armed
      → IsKeyed gs
      → AreApart u key g.id gs
      → find_row g.id gs ≡ some g'
      → r.get w.store key ≡ some v
      → find_row g.id w.table ≡ some g'
      → (find_row g.id (check_gates r u dec true now later gs w).table
          ≡ some (with_status t.to (some later) g'.status_metadata g'))
        × (r.get (check_gates r u dec true now later gs w).store key ≡ none)
  unfolding check_gates find_row
  check_gates-away ts now later seen armed v g' [] w p listed at_ gone same late read _ _ e held
        row =
      ground arith
  check_gates-away ts now later seen armed v g' (x ∷ gs) w p listed at_ gone same late read
        (new, ks) (apart, others) e held row =
      elim (Bool-cases (x.id == g.id)) [
        | inr other ↦
            let kept : r.get (check_gate r u dec true now later x w).store key ≡ r.get w.store key =
              elim apart [
                | inl is ↦ absurd (ground arith)
                | inr h ↦ get-check_gate r u dec key now later x w h
              ] in
            check_gates-away ts now later seen armed v g' gs (check_gate r u dec true now later x w)
              p listed at_ gone same late read ks others (ground arith) (kept ∙ held)
              (check_gate-other r u dec true now later g.id x w other ∙ row)
        | inl is_own ↦
            let is : x ≡ g' = ground arith in
            let fired =
              check_gate-away ts now later seen armed v g' w p listed at_ gone same late read held
                row in
            let none_left : any (λ h. h.id == g.id) gs ≡ false =
              subst (λ j. any (λ z. z.id == j) gs ≡ false) ((==_iff x.id g.id).0 is_own) new in
            (
              check_gates-others r u dec true now later g.id gs
                    (check_gate r u dec true now later x w) none_left
                  ∙ ap (λ y. find_row g.id (check_gate r u dec true now later y w).table) is
                  ∙ fired.0,
              get-check_gates r u dec key now later g.id gs (check_gate r u dec true now later x w)
                    others none_left
                  ∙ ap (λ y. r.get (check_gate r u dec true now later y w).store key) is
                  ∙ fired.1,
            )
      ]

  listed_candidate :
      (ts : List StatusTransition) (seen : ℕ) (g' : Gate)
      → g'.status_transitions ≡ t ∷ ts
      → g'.last_seen_at ≡ some seen
      → is_candidate g' ≡ true
  listed_candidate ts seen g' listed at_ = ground arith

  -- The first transition of a gate outlasts a change of its status, and a tick, with Redis, finds the
  -- gate in the status that it starts from, too early to fire. Then a later tick that finds the gate
  -- in another status fires it, if by then the time since the gate was last seen at the first tick, in
  -- whole microseconds, is over: the row has the transition's target, and Redis has nothing at the
  -- transition's key. The identifiers of each table are distinct; no other gate's transition, and at
  -- the first tick no other transition of the gate, has that key; and it is not written between the
  -- two ticks, while the table, the time and the other keys may change.
  pub check_transitions-armed :
      ((n : ℕ) → dec.parse (dec.print n) ≡ some n)
      → (ts ts' : List StatusTransition) (now later seen now' later' seen' : ℕ) (g' : Gate)
        (w w' : Tick r u dec true)
      → t.persist_on_change ≡ true
      → g.status_transitions ≡ t ∷ ts
      → g.last_seen_at ≡ some seen
      → str_eq g.status t.from ≡ true
      → is_before now seen (seconds t.after_seconds) ≡ true
      → IsKeyed w.table
      → find_row g.id w.table ≡ some g
      → IsApart u (transition_key (u.text g.id) t.from t.to) g.id ts
      → AreApart u (transition_key (u.text g.id) t.from t.to) g.id w.table
      → g'.status_transitions ≡ t ∷ ts'
      → g'.last_seen_at ≡ some seen'
      → str_eq g'.status t.from ≡ false
      → is_before now' (seen / 1000 * 1000) (seconds t.after_seconds) ≡ false
      → IsKeyed w'.table
      → find_row g.id w'.table ≡ some g'
      → AreApart u (transition_key (u.text g.id) t.from t.to) g.id w'.table
      → r.get w'.store (transition_key (u.text g.id) t.from t.to)
        ≡ r.get
            (check_transitions r u dec true now later w).store
            (transition_key (u.text g.id) t.from t.to)
      → (find_row g.id (check_transitions r u dec true now' later' w').table
          ≡ some (with_status t.to (some later') g'.status_metadata g'))
        × (r.get
              (check_transitions r u dec true now' later' w').store
              (transition_key (u.text g.id) t.from t.to)
            ≡ none)
  unfolding check_transitions key
  check_transitions-armed read ts ts' now later seen now' later' seen' g' w w' p listed at_ from
        early keyed row own apart listed' at_' gone late keyed' row' apart' untouched =
      let q = is_candidate in
      let held =
        get-check_gates_from ts now later seen (keep q w.table) w p listed at_ from own early
          (keep-IsKeyed q w.table keyed) (All-keep _ q w.table apart)
          (find_row-keep g.id q w.table g row (listed_candidate ts seen g listed at_)) in
      check_gates-away ts' now' later' seen' (seen / 1000) (dec.print (seen / 1000)) g'
        (keep q w'.table) w' p listed' at_' gone
        ((==_iff g'.id g.id).0 (find_row_id g.id w'.table g' row')) late (read (seen / 1000))
        (keep-IsKeyed q w'.table keyed') (All-keep _ q w'.table apart')
        (find_row-keep g.id q w'.table g' row' (listed_candidate ts' seen' g' listed' at_'))
        (untouched ∙ held) row'
