-- ===== src/Pin/Created.antt =====
-- What creating and deleting a code, internal/service/gate_pin.go, mean for those who enter it.
use gaty.Prelude.{
  ℕ, String, some, [], ◌∷◌, Bool, true, false, not, any, keep, ◌==◌, ==_iff, ◌≡◌, ◌≢◌, refl, ap,
  sym, zero, suc, any-keep_none, any-keep_of_false, arith, inl, inr, Bool-cases,
}
use gaty.Errors.{Result, ok, Result-cases}
use gaty.Redis.{Redis, UuidText, Fate, answered, lost_before, lost_after}
use gaty.Pin.Counters.{str_eq_refl}
use gaty.Pagination.{take, normalize, clamp_limit}
use gaty.Pin.Attempts.{list_pins-newest}
use gaty.Pin.{GatePin, find_match, list_pins, uses_key}
use gaty.Pin.Admin.{
  Pins, References, CreatePinParams, create, insert, delete, delete_row, is_row, drop_uses,
}

-- what is found is there
any-find_match :
    (m w : GatePin → Bool) (ps : Pins) (p : GatePin)
    → find_match m ps ≡ some p
    → w p ≡ true
    → any w ps ≡ true
unfolding find_match
any-find_match m w [] p h k = ground arith
any-find_match m w (q ∷ ps) p h k = ground (arith, any-find_match m w ps p, ap w)

any-take : (w : GatePin → Bool) (n : ℕ) (ps : Pins) → any w (take n ps) ≡ true → any w ps ≡ true
any-take w zero ps h = ground arith
any-take w (suc n) [] h = ground arith
any-take w (suc n) (p ∷ ps) h = ground (arith, any-take w n ps)

-- A code that is found at a gate has every property that the rows of the gate have.
found_at :
    (m w : GatePin → Bool) (gate_id : ℕ) (ps : Pins) (p : GatePin)
    → find_match m (list_pins ps gate_id) ≡ some p
    → any w (keep (λ q. q.gate_id == gate_id) ps) ≡ false
    → w p ≡ false
found_at m w gate_id ps p h k = elim (Bool-cases (w p)) [
  | inr e ↦ e
  | inl e ↦
      let listed = any-find_match m w (list_pins ps gate_id) p h e in
      absurd (
        ground (
          arith,
          k,
          any-take w 100 (keep (λ q. q.gate_id == gate_id) ps)
              (rw (sym (list_pins-newest ps gate_id)) listed),
        ))
]

-- A code that was just created is the one that its text finds at its gate, before all others, where
-- the text compares to the hash that was made of it.
pub find_match-create :
    (generate : String → Result String) (compare : String → String → Bool) (refs : References)
    (id now gate_id : ℕ) (params : CreatePinParams) (table table' : Pins) (p : GatePin)
    → create generate refs id now gate_id params table ≡ ok (table', p)
    → compare p.hashed_pin params.pin ≡ true
    → find_match (λ q. compare q.hashed_pin params.pin) (list_pins table' gate_id) ≡ some p
unfolding create insert find_match list_pins normalize clamp_limit
find_match-create generate compare refs id now gate_id params table table' p h k =
    elim (Result-cases (generate params.pin)) [
      | inr (e, q) ↦ ground arith
      | inl (hashed, q) ↦ ground (arith, ==_iff gate_id gate_id)
    ]

at_gate :
    (m : GatePin → Bool) (gate_id : ℕ) (ps : Pins) (p : GatePin)
    → find_match m (list_pins ps gate_id) ≡ some p
    → (p.gate_id == gate_id) ≡ true
at_gate m gate_id ps p h = ground (
  arith,
  found_at m (λ q. not (q.gate_id == gate_id)) gate_id ps p h
      (any-keep_none _ _ ps λ q e. ground arith),
)

-- no row of the code is left
gone :
    (pin_id gate_id : ℕ) (table table' : Pins)
    → delete_row pin_id gate_id table ≡ ok table'
    → any (is_row pin_id gate_id) (keep (λ q. q.gate_id == gate_id) table') ≡ false
unfolding delete_row
gone pin_id gate_id table table' h = any-keep_of_false _ _ table' (
    ground (
      arith,
      any-keep_none (is_row pin_id gate_id) (λ q. not (is_row pin_id gate_id q)) table
          λ q e. ground arith,
    ))

module _ (r : Redis) (u : UuidText) where
  count-drop_uses :
      (f : Fate) (pin_id : ℕ) (s : r.Store)
      → f ≢ lost_before
      → r.count (drop_uses r u f pin_id s) (uses_key u pin_id) ≡ 0
  unfolding drop_uses
  count-drop_uses lost_before pin_id s sent = absurd (sent refl)
  count-drop_uses lost_after pin_id s sent =
      rw (r.count-del (uses_key u pin_id) (uses_key u pin_id) s, str_eq_refl (uses_key u pin_id))
  count-drop_uses answered pin_id s sent =
      rw (r.count-del (uses_key u pin_id) (uses_key u pin_id) s, str_eq_refl (uses_key u pin_id))

  -- A deleted code is found by no text any more, and if the command reached Redis, a code of the
  -- same identifier has no use counted.
  pub find_match-delete :
      (matches : GatePin → Bool) (f : Fate) (pin_id gate_id : ℕ) (table table' : Pins)
      (s s' : r.Store) (p : GatePin)
      → delete r u f pin_id gate_id table s ≡ (table', s', ok tt)
      → f ≢ lost_before
      → find_match matches (list_pins table' gate_id) ≡ some p
      → (p.id ≢ pin_id) × (r.count s' (uses_key u pin_id) ≡ 0)
  unfolding delete delete_row drop_uses
  find_match-delete matches f pin_id gate_id table table' s s' p h sent k = (
    λ same. absurd (
        ground (
          arith,
          ==_iff p.id pin_id,
          at_gate matches gate_id table' p k,
          found_at matches (is_row pin_id gate_id) gate_id table' p k
              (gone pin_id gate_id table table' (ground arith)),
        )),
    let dropped = count-drop_uses f pin_id s sent in ground (arith, dropped),
  )
