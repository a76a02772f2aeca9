-- ===== src/Pin/Counted.antt =====
-- What `Open` and `Unlock` of internal/service/gate_pin.go do to the counter of a code's uses.
use Prim.Native.Char.{code}
use gaty.Prelude.{
  ◌≢◌, sym, refl, ℕ, ◌+◌, ◌/◌, ◌-◌, ◌≤◌, ◌≡◌, ◌⊎◌, inl, inr, String, none, some, List, Bool, true,
  false, ◌&&◌, ◌==◌, ==_iff, leb, ℤ, pos, ltb_ℤ, pos_part, arith, Bool-cases, Option-cases, ap, ◌∙◌,
}
use gaty.Errors.{Result-cases, Result, ok}
use gaty.Gate.{Gate, second}
use gaty.Redis.{Redis, UuidText, ◌▹◌, Fate, answered, lost_before, lost_after}
use gaty.Pin.{
  GatePin, PinMetadata, Outside, Limits, Call, ip_key, gate_key, uses_key, count_attempt,
  validate_pin,
}
use gaty.Pin.Session.{
  Tokens, World, OpenResult, session_permissions, session_duration_of, run_script, consume,
  consume_use, store_session, issue_gate_pin_session, trigger_gate, unlock, open_session, open_pin,
}
use gaty.Pin.Counters.{
  count-incr_same, count-incr_ne, count-forget, str_eq_cases, str_eq_refl, str_eq-ne,
}

-- the answer of a script was lost
abbrev pub is_lost : Fate → Bool
is_lost answered = false
is_lost _ = true

-- a positive maximum of at most `max`
abbrev pub is_bounded : ℕ → PinMetadata → Bool
is_bounded max meta = elim meta.max_uses [
  | none ↦ false
  | some n ↦ ltb_ℤ (pos 0) n && leb (pos_part n) max
]

-- an `Open` that succeeds on the code `i` under such a maximum
abbrev pub is_granted : ℕ → ℕ → Result (GatePin × PinMetadata) → Result OpenResult → Bool
is_granted i max (ok (m, meta)) (ok _) = (m.id == i) && is_bounded max meta
is_granted i max _ _ = false

-- a text that starts with `r`
abbrev first : String → Bool
first String.[] = false
first (String.◌∷◌ c _) = code c == 114

ip_key-ne-uses_key : (u : UuidText) (g i : ℕ) (ip : String) → ip_key u g ip ≢ uses_key u i
unfolding ip_key uses_key
ip_key-ne-uses_key u g i ip same = let e : true ≡ false = ap first same in ground arith

gate_key-ne-uses_key : (u : UuidText) (g i : ℕ) → gate_key u g ≢ uses_key u i
unfolding gate_key uses_key
gate_key-ne-uses_key u g i same = let e : true ≡ false = ap first same in ground arith

refresh-ne-uses_key : (u : UuidText) (t : String) (i : ℕ) → ("refresh:" ▹ t) ≢ uses_key u i
unfolding uses_key
refresh-ne-uses_key u t i same = let e : true ≡ false = ap first same in ground arith

module _ (r : Redis) (u : UuidText) (limits : Limits) (load_gate : ℕ → Result Gate)
    (i max : ℕ) where
  count-count_attempt_ne :
      (f : Fate) (a g k : String) (s : r.Store)
      → a ≢ k
      → g ≢ k
      → r.count (count_attempt r f a g s) k ≡ r.count s k
  unfolding count_attempt
  count-count_attempt_ne lost_before a g k s ne ne' = refl
  count-count_attempt_ne answered a g k s ne ne' =
      count-incr_ne r g k (r.incr a s) ne' ∙ count-incr_ne r a k s ne
  count-count_attempt_ne lost_after a g k s ne ne' =
      count-incr_ne r g k (r.incr a s) ne' ∙ count-incr_ne r a k s ne

  count-validate_pin :
      (o : Outside) (c : Call) (gate_id : ℕ) (pin ip : String) (s : r.Store)
      → r.count (validate_pin r u o limits c gate_id pin ip s).0 (uses_key u i)
        ≡ r.count s (uses_key u i)
  unfolding validate_pin
  count-validate_pin o c gate_id pin ip s =
      let a = ip_key u gate_id ip in
      let g = gate_key u gate_id in
      let s' = count_attempt r c.pipeline_fate a g s in
      let ne = ip_key-ne-uses_key u gate_id i ip in
      let kept =
        count-count_attempt_ne c.pipeline_fate a g (uses_key u i) s ne
          (gate_key-ne-uses_key u gate_id i) in
      let kept' = count-forget r c.del_fate a (uses_key u i) s' ne in ground arith

  -- A script moves its own counter by one, up to the maximum, and no other.
  run_script_cases :
      (k : String) (n : ℤ) (s : r.Store)
      → ((r.count (run_script r k n s).0 k ≡ r.count s k + 1)
          × (ltb_ℤ n (pos (r.count s k + 1)) ≡ false))
        ⊎ ((r.count (run_script r k n s).0 k ≡ r.count s k) × ((run_script r k n s).1 ≡ 0))
  unfolding run_script
  run_script_cases k n s =
      let up = count-incr_same r k s in
      let down : r.count (r.decr k (r.incr k s)) k ≡ r.count (r.incr k s) k - 1 =
        rw (r.count-decr k k (r.incr k s), str_eq_refl k) refl in
      elim (Bool-cases (ltb_ℤ n (pos (r.count (r.incr k s) k)))) [
        | inl e ↦ ground arith
        | inr e ↦ ground arith
      ]

  run_script_ne :
      (k j : String) (n : ℤ) (s : r.Store) → k ≢ j → r.count (run_script r k n s).0 j ≡ r.count s j
  unfolding run_script
  run_script_ne k j n s ne =
      let up = count-incr_ne r k j s ne in
      let down : r.count (r.decr k (r.incr k s)) j ≡ r.count (r.incr k s) j =
        rw (r.count-decr k j (r.incr k s), str_eq-ne k j ne) refl in
      ground arith

  run_script-le :
      (k j : String) (n : ℤ) (s : r.Store) → r.count s j ≤ r.count (run_script r k n s).0 j
  run_script-le k j n s = elim (str_eq_cases k j) [
    | inr ne ↦ ground (arith, run_script_ne k j n s ne)
    | inl same ↦ rw (sym same) (ground (arith, run_script_cases k n s))
  ]

  consume_use-le :
      (f : Fate) (id : ℕ) (meta : PinMetadata) (s : r.Store)
      → r.count s (uses_key u i) ≤ r.count (consume_use r f u id meta s).0 (uses_key u i)
  unfolding consume_use consume
  consume_use-le f id meta s = elim (Option-cases meta.max_uses) [
    | inl e ↦ ground arith
    | inr (n, e) ↦
        let moved = run_script-le (uses_key u id) (uses_key u i) n s in
        elim f
          as (λ f.
            r.count s (uses_key u i) ≤ r.count (consume_use r f u id meta s).0 (uses_key u i)) [
              | answered ↦ ground arith
              | lost_before ↦ ground arith
              | lost_after ↦ ground arith
            ]
  ]

  -- A use of the code under a maximum of at most `max` is counted, below it, or its answer was lost.
  consume_use-counted :
      (f : Fate) (meta : PinMetadata) (s : r.Store)
      → is_bounded max meta ≡ true
      → (consume_use r f u i meta s).1 ≡ true
      → is_lost f ≡ false
      → (r.count s (uses_key u i) + 1 ≤ r.count (consume_use r f u i meta s).0 (uses_key u i))
        × (r.count s (uses_key u i) + 1 ≤ max)
  unfolding consume_use consume
  consume_use-counted answered meta s b used l = elim (Option-cases meta.max_uses) [
    | inl e ↦ ground arith
    | inr (n, e) ↦ let cases = run_script_cases (uses_key u i) n s in ground arith
  ]
  consume_use-counted lost_before meta s b used l = ground arith
  consume_use-counted lost_after meta s b used l = ground arith

  count-store_session :
      (f : Fate) (t v : String) (s : r.Store)
      → r.count (store_session r f ("refresh:" ▹ t) v s).0 (uses_key u i) ≡ r.count s (uses_key u i)
  unfolding store_session
  count-store_session answered t v s =
      r.count-set_ne ("refresh:" ▹ t) (uses_key u i) v s (refresh-ne-uses_key u t i)
  count-store_session lost_before t v s = refl
  count-store_session lost_after t v s =
      r.count-set_ne ("refresh:" ▹ t) (uses_key u i) v s (refresh-ne-uses_key u t i)

  count-issue_gate_pin_session :
      (t : Tokens) (f : Fate) (now pin_id gate_id : ℕ) (d : ℤ) (ps : List String) (s : r.Store)
      → r.count (issue_gate_pin_session r t f now pin_id gate_id d ps s).0 (uses_key u i)
        ≡ r.count s (uses_key u i)
  unfolding issue_gate_pin_session
  count-issue_gate_pin_session t f now pin_id gate_id d ps s = elim (Result-cases t.random) [
    | inr (e, q) ↦ ground arith
    | inl (token, q) ↦
        let value =
          t.encode
            (record { sub = pin_id; gate_id = gate_id; permissions = ps; session_duration = d }) in
        ground (arith, count-store_session f (t.sha256_hex token) value s)
  ]

  count-trigger_gate :
      (gate_id : ℕ) (w : World r.Store) → (trigger_gate r load_gate gate_id w).store ≡ w.store
  unfolding trigger_gate
  count-trigger_gate gate_id w = ground arith

  -- `Open` on an accepted code leaves the counter as the script left it.
  count-open_session :
      (o : Outside) (t : Tokens) (c : Call) (gate_id : ℕ) (m : GatePin) (meta : PinMetadata)
      (w : World r.Store)
      → r.count (open_session r u o limits load_gate t c gate_id m meta w).0.store (uses_key u i)
        ≡ r.count (consume_use r c.script_fate u m.id meta w.store).0 (uses_key u i)
  unfolding open_session
  count-open_session o t c gate_id m meta w =
      let used = (consume_use r c.script_fate u m.id meta w.store).0 in
      let kept =
        count-issue_gate_pin_session t c.set_fate (c.now.instant / second) m.id gate_id
          (session_duration_of meta) (session_permissions meta.permissions) used in
      ground (arith, count-trigger_gate gate_id)

  open_session-used :
      (o : Outside) (t : Tokens) (c : Call) (gate_id : ℕ) (m : GatePin) (meta : PinMetadata)
      (w : World r.Store) (res : OpenResult)
      → (open_session r u o limits load_gate t c gate_id m meta w).1 ≡ ok res
      → (consume_use r c.script_fate u m.id meta w.store).1 ≡ true
  unfolding open_session
  open_session-used o t c gate_id m meta w res h = ground arith

  pub open_pin-le :
      (o : Outside) (t : Tokens) (c : Call) (gate_id : ℕ) (pin ip : String) (w : World r.Store)
      → r.count w.store (uses_key u i)
        ≤ r.count (open_pin r u o limits load_gate t c gate_id pin ip w).0.store (uses_key u i)
  unfolding open_pin
  open_pin-le o t c gate_id pin ip w =
      let kept = count-validate_pin o c gate_id pin ip w.store in
      elim (Result-cases (validate_pin r u o limits c gate_id pin ip w.store).1) [
        | inr (e, q) ↦ ground arith
        | inl ((m, meta), q) ↦
            let w' : World r.Store = record {
              store = (validate_pin r u o limits c gate_id pin ip w.store).0;
              triggered = w.triggered;
            } in
            let session = count-open_session o t c gate_id m meta w' in
            let used = consume_use-le c.script_fate m.id meta w'.store in ground arith
      ]

  pub open_pin-counted :
      (o : Outside) (t : Tokens) (c : Call) (gate_id : ℕ) (pin ip : String) (w : World r.Store)
      → is_granted i max
          (validate_pin r u o limits c gate_id pin ip w.store).1
          (open_pin r u o limits load_gate t c gate_id pin ip w).1
        ≡ true
      → is_lost c.script_fate ≡ false
      → (r.count w.store (uses_key u i) + 1
          ≤ r.count (open_pin r u o limits load_gate t c gate_id pin ip w).0.store (uses_key u i))
        × (r.count w.store (uses_key u i) + 1 ≤ max)
  unfolding open_pin
  open_pin-counted o t c gate_id pin ip w h l =
      let kept = count-validate_pin o c gate_id pin ip w.store in
      elim (Result-cases (validate_pin r u o limits c gate_id pin ip w.store).1) [
        | inr (e, q) ↦ ground arith
        | inl ((m, meta), q) ↦
            let w' : World r.Store = record {
              store = (validate_pin r u o limits c gate_id pin ip w.store).0;
              triggered = w.triggered;
            } in
            let session = count-open_session o t c gate_id m meta w' in
            let counted = consume_use-counted c.script_fate meta w'.store in
            elim (Result-cases (open_session r u o limits load_gate t c gate_id m meta w').1) [
              | inr (e, q') ↦ ground arith
              | inl (res, q') ↦
                  let used = open_session-used o t c gate_id m meta w' res q' in
                  ground (arith, ==_iff m.id i, counted)
            ]
      ]

  pub unlock-le :
      (o : Outside) (c : Call) (gate_id : ℕ) (pin ip : String) (w : World r.Store)
      → r.count w.store (uses_key u i)
        ≤ r.count (unlock r u o limits load_gate c gate_id pin ip w).0.store (uses_key u i)
  unfolding unlock
  unlock-le o c gate_id pin ip w =
      let kept = count-validate_pin o c gate_id pin ip w.store in
      ground (arith, count-trigger_gate gate_id)
