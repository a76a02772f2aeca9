-- ===== src/Gate/Ticks.antt =====
-- What a tick of `checkTransitions`, internal/service/gate_ttl.go, does to a gate.
use gaty.Prelude.{
  ℕ, String, Option, none, some, List, [], ◌∷◌, Bool, true, false, not, ◌&&◌, keep, any,
  any-keep_of_false, All, ◌==◌, ==_iff, str_eq, ◌≡◌, refl, sym, ap, ◌∙◌, arith, inl, inr,
  Bool-cases, Option-cases, if◌then◌else◌,
}
use mathlib.Core.Path.{subst}
use gaty.Redis.{Redis, UuidText}
use gaty.Json.{Fields}
use gaty.Gate.{Gate, StatusTransition}
use gaty.Gate.Table.{Table, find_row, update_rows, with_status, update_status}
use gaty.Gate.Transitions.{
  Decimal, Tick, is_before, is_candidate, away, at_status, is_due, first_transition, check_gate,
  check_gates, check_transitions,
}
use gaty.Pin.Session.{seconds}

-- By the table alone: the target of the first transition from the gate's status whose time since
-- the gate was last seen is over.
unfoldable pub first_due : ℕ → ℕ → Gate → List StatusTransition → Option String
first_due now seen g [] = none
first_due now seen g (t ∷ ts) =
    let rest = first_due now seen g ts in
    if str_eq g.status t.from && not (is_before now seen (seconds t.after_seconds))
    then some t.to
    else rest

-- the row of a gate after a tick
unfoldable pub ticked : ℕ → ℕ → ℕ → Gate → Gate
unfolding first_due
ticked now later seen g = elim (first_due now seen g g.status_transitions) [
  | none ↦ g
  | some to ↦ with_status to (some later) g.status_metadata g
]

abbrev pub IsPlain : StatusTransition → Type 0
IsPlain t = t.persist_on_change ≡ false

-- the identifiers of a table are distinct
abbrev pub IsKeyed : Table → Type 0
IsKeyed [] = Unit
IsKeyed (g ∷ gs) = (any (λ h. h.id == g.id) gs ≡ false) × IsKeyed gs

find_row-map :
    (i j : ℕ) (f : Gate → Gate) (gates : Table)
    → ((g : Gate) → (f g).id ≡ g.id)
    → (j == i) ≡ false
    → find_row i (update_rows j f gates) ≡ find_row i gates
unfolding find_row update_rows
find_row-map i j f [] h k = refl
find_row-map i j f (g ∷ gates) h k = ground (arith, h g, find_row-map i j f gates h k)

pub find_row-update_status :
    (i later : ℕ) (status : String) (meta : Fields) (gates : Table) (g : Gate)
    → find_row i gates ≡ some g
    → find_row i (update_status later i status meta gates)
      ≡ some (with_status status (some later) meta g)
unfolding find_row update_status with_status update_rows
find_row-update_status i later status meta [] g h = ground arith
find_row-update_status i later status meta (h ∷ gates) g e =
    ground (arith, find_row-update_status i later status meta gates g)

-- a row of the identifier that was asked for
pub find_row_id :
    (i : ℕ) (gates : Table) (g : Gate) → find_row i gates ≡ some g → (g.id == i) ≡ true
unfolding find_row
find_row_id i [] g h = ground arith
find_row_id i (h ∷ gates) g e = ground (arith, find_row_id i gates g)

pub keep-IsKeyed : (q : Gate → Bool) (gs : Table) → IsKeyed gs → IsKeyed (keep q gs)
keep-IsKeyed q [] h = tt
keep-IsKeyed q (g ∷ gs) (new, h) =
    elim (q g) as (λ b. IsKeyed (if b then g ∷ keep q gs else keep q gs)) [
      | true ↦ (any-keep_of_false _ q gs new, keep-IsKeyed q gs h)
      | false ↦ keep-IsKeyed q gs h
    ]

-- a row that is not kept leaves none of its identifier behind
any-keep_row :
    (i : ℕ) (q : Gate → Bool) (gs : Table) (g : Gate)
    → IsKeyed gs
    → find_row i gs ≡ some g
    → q g ≡ false
    → any (λ h. h.id == i) (keep q gs) ≡ false
unfolding find_row
any-keep_row i q [] g s h k = ground arith
any-keep_row i q (h ∷ gs) g (new, s) e k = elim (Bool-cases (h.id == i)) [
  | inr other ↦ ground (arith, any-keep_row i q gs g s)
  | inl same ↦ ground (
    arith,
    any-keep_of_false (λ x. x.id == i) q gs
        (subst (λ j. any (λ x. x.id == j) gs ≡ false) ((==_iff h.id i).0 same) new),
    ap q,
  )
]

pub find_row-keep :
    (i : ℕ) (q : Gate → Bool) (gs : Table) (g : Gate)
    → find_row i gs ≡ some g
    → q g ≡ true
    → find_row i (keep q gs) ≡ some g
unfolding find_row
find_row-keep i q [] g h k = ground arith
find_row-keep i q (h ∷ gs) g e k = ground (arith, find_row-keep i q gs g, ap q)

module _ (r : Redis) (u : UuidText) (dec : Decimal) (has_redis : Bool) (now later : ℕ) where
  first_transition-plain :
      (seen : ℕ) (g : Gate) (ts : List StatusTransition) (s : r.Store)
      → All IsPlain ts
      → (first_transition r u dec has_redis now seen g ts s).1 ≡ first_due now seen g ts
  unfolding first_transition is_due away at_status first_due
  first_transition-plain seen g [] s h = refl
  first_transition-plain seen g (t ∷ ts) s (h, hs) =
      ground
        (arith, first_transition-plain seen g ts (is_due r u dec has_redis now seen g t s).0 hs)

  ticked-unlisted :
      (seen : ℕ) (g : Gate)
      → g.last_seen_at ≡ some seen
      → is_candidate g ≡ false
      → ticked now later seen g ≡ g
  unfolding ticked first_due
  ticked-unlisted seen g hs h = ground arith

  pub check_gate-other :
      (i : ℕ) (g : Gate) (w : Tick r u dec has_redis)
      → (g.id == i) ≡ false
      → find_row i (check_gate r u dec has_redis now later g w).table ≡ find_row i w.table
  unfolding check_gate update_status with_status
  check_gate-other i g w h = elim (Option-cases g.last_seen_at) [
    | inl e ↦ rw e refl
    | inr (seen, e) ↦
        let found = first_transition r u dec has_redis now seen g g.status_transitions w.store in
        elim (Option-cases found.1) [
          | inl e' ↦ ground arith
          | inr (to, e') ↦ ground (
            arith,
            find_row-map i g.id (with_status to (some later) g.status_metadata) w.table (λ _. refl)
                h,
          )
        ]
  ]

  pub check_gates-others :
      (i : ℕ) (gs : List Gate) (w : Tick r u dec has_redis)
      → any (λ h. h.id == i) gs ≡ false
      → find_row i (check_gates r u dec has_redis now later gs w).table ≡ find_row i w.table
  unfolding check_gates
  check_gates-others i [] w h = refl
  check_gates-others i (g ∷ gs) w h = ground (
    arith,
    check_gate-other i g w,
    check_gates-others i gs (check_gate r u dec has_redis now later g w),
  )

  check_gate-own :
      (seen : ℕ) (g : Gate) (w : Tick r u dec has_redis)
      → g.last_seen_at ≡ some seen
      → All IsPlain g.status_transitions
      → find_row g.id w.table ≡ some g
      → find_row g.id (check_gate r u dec has_redis now later g w).table
        ≡ some (ticked now later seen g)
  unfolding check_gate ticked
  check_gate-own seen g w hs hp h =
      let plain = first_transition-plain seen g g.status_transitions w.store hp in
      elim (Option-cases (first_due now seen g g.status_transitions)) [
        | inl e ↦ ground (arith, plain)
        | inr (to, e) ↦
            ground
              (arith, plain, find_row-update_status g.id later to g.status_metadata w.table g h)
      ]

  check_gates-own :
      (seen : ℕ) (g : Gate) (gs : List Gate) (w : Tick r u dec has_redis)
      → g.last_seen_at ≡ some seen
      → All IsPlain g.status_transitions
      → IsKeyed gs
      → find_row g.id gs ≡ some g
      → find_row g.id w.table ≡ some g
      → find_row g.id (check_gates r u dec has_redis now later gs w).table
        ≡ some (ticked now later seen g)
  unfolding check_gates find_row
  check_gates-own seen g [] w hs hp k e h = ground arith
  check_gates-own seen g (x ∷ gs) w hs hp (new, k) e h = elim (Bool-cases (x.id == g.id)) [
    | inr other ↦
        check_gates-own seen g gs (check_gate r u dec has_redis now later x w) hs hp k
          (ground arith) (check_gate-other g.id x w other ∙ h)
    | inl same ↦
        let is : x ≡ g = ground arith in
        check_gates-others g.id gs (check_gate r u dec has_redis now later x w)
          (subst (λ y. any (λ z. z.id == y.id) gs ≡ false) is new)
        ∙ subst
            (λ y.
              find_row g.id (check_gate r u dec has_redis now later y w).table
              ≡ some (ticked now later seen g))
            (sym is) (check_gate-own seen g w hs hp h)
  ]

  -- A tick moves every gate whose transitions do not outlast a change of status, whatever Redis
  -- holds: the first transition from the gate's status whose time since the gate was last seen is
  -- over gives its new status, in one tick; where there is none the row is as it was. The
  -- identifiers of the table are distinct.
  pub check_transitions-ticked :
      (seen : ℕ) (g : Gate) (w : Tick r u dec has_redis)
      → IsKeyed w.table
      → find_row g.id w.table ≡ some g
      → g.last_seen_at ≡ some seen
      → All IsPlain g.status_transitions
      → find_row g.id (check_transitions r u dec has_redis now later w).table
        ≡ some (ticked now later seen g)
  unfolding check_transitions
  check_transitions-ticked seen g w k h hs hp = elim (Bool-cases (is_candidate g)) [
    | inl listed ↦
        check_gates-own seen g (keep is_candidate w.table) w hs hp
          (keep-IsKeyed is_candidate w.table k) (find_row-keep g.id is_candidate w.table g h listed)
          h
    | inr unlisted ↦
        check_gates-others g.id (keep is_candidate w.table) w
          (any-keep_row g.id is_candidate w.table g k h unlisted)
        ∙ h
        ∙ ap some (sym (ticked-unlisted seen g hs unlisted))
  ]
