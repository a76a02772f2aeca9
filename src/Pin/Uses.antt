-- ===== src/Pin/Uses.antt =====
-- `Open` and `Unlock` of internal/service/gate_pin.go: what the session of a code may do, and when
-- the gate moves.
use gaty.Prelude.{
  ap, sym, refl, ◌∙◌, ◌/◌, ◌*◌, ◌≢◌, ◌↔◌, eq_iff, some, keep, ℕ, ◌+◌, ◌≡◌, ◌⊎◌, inl, inr, String,
  List, [], ◌∷◌, true, false, not, any, str_eq, ℤ, if◌then◌else◌, arith, Bool-cases, any-keep_none,
  is_empty,
}
use gaty.Errors.{Result-cases, Result, ok}
use gaty.Gate.{Gate, second}
use gaty.Gate.Accepted.{Among}
use gaty.Redis.{◌▹◌, Redis, UuidText, Fate}
use gaty.Pin.{GatePin, PinMetadata, Outside, Limits, Call, validate_pin}
use gaty.Pin.Session.{
  Tokens, World, OpenResult, session_permissions, consume_use, trigger_gate, unlock, open_session,
  open_pin, TokenPair, issue_gate_pin_session, store_session, session_duration_of,
}
use gaty.Pin.Counters.{str_eq_refl}

-- A session never carries `gate:manage`, whatever the metadata of the code asks for.
pub session_permissions-never_manage :
    (perms : List String) → any (λ p. str_eq p "gate:manage") (session_permissions perms) ≡ false
unfolding session_permissions
session_permissions-never_manage perms =
    any-keep_none (λ p. str_eq p "gate:manage") (λ p. not (str_eq p "gate:manage"))
      (if is_empty perms then "gate:trigger_open" ∷ [] else perms) (λ p h. ground arith)

-- A permission of a session, by what the code asks for.
abbrev pub IsGranted : List String → String → Type 0
IsGranted perms p =
    (p ≢ "gate:manage") × (((perms ≡ []) × (p ≡ "gate:trigger_open")) ⊎ Among p perms)

Among-keep_iff :
    (p : String) (ps : List String)
    → Among p (keep (λ q. not (str_eq q "gate:manage")) ps) ↔ ((p ≢ "gate:manage") × Among p ps)
Among-keep_iff p [] = (λ h. ground arith, λ h. ground arith)
Among-keep_iff p (q ∷ ps) =
    let rest = Among-keep_iff p ps in
    let managed = eq_iff q "gate:manage" in
    elim (Bool-cases (str_eq q "gate:manage")) [
      | inl e ↦ rw e (
        λ h. ((rest.0 h).0, inr (rest.0 h).1),
        λ (n, k). elim k [ inl same ↦ absurd (n (same ∙ managed.0 e)) | inr k' ↦ rest.1 (n, k') ],
      )
      | inr e ↦ rw e (
        λ h. elim h [
          | inl same ↦ (λ m. ground (arith, managed.1 (sym same ∙ m)), inl same)
          | inr k ↦ let (n, k') = rest.0 k in (n, inr k')
        ],
        λ (n, k). elim k [ inl same ↦ inl same | inr k' ↦ inr (rest.1 (n, k')) ],
      )
    ]

opens_not_manages : ◌≢◌ {A = String} "gate:trigger_open" "gate:manage"
opens_not_manages same =
    let e : false ≡ true = ap (λ t. str_eq t "gate:manage") same in ground arith

session_permissions_iff :
    (perms : List String) (p : String) → Among p (session_permissions perms) ↔ IsGranted perms p
unfolding session_permissions
session_permissions_iff [] p = (
  λ h. elim h [
    | inl e ↦ (λ m. opens_not_manages (sym e ∙ m), inl (refl, e))
    | inr none_left ↦ absurd none_left
  ],
  λ (n, k). elim k [ inl (_, e) ↦ inl e | inr none_left ↦ absurd none_left ],
)
session_permissions_iff (q ∷ perms) p =
    let kept = Among-keep_iff p (q ∷ perms) in
    (
      λ h. ((kept.0 h).0, inr (kept.0 h).1),
      λ (n, k). elim k [ inl (e, _) ↦ absurd (ground arith) | inr k' ↦ kept.1 (n, k') ],
    )

-- A success moves a gate that loads once. Nothing else moves it.
abbrev pub moved :
    {A : Type 0} → Result Gate → Result A → List (Gate × String) → List (Gate × String)
moved (ok g) (ok _) before = (g, "open") ∷ before
moved _ _ before = before

module _ (r : Redis) (u : UuidText) (o : Outside) (limits : Limits)
    (load_gate : ℕ → Result Gate) where
  -- `Unlock` moves the gate once if it succeeds and the gate loads, and not at all if it fails.
  pub unlock-moved :
      (c : Call) (gate_id : ℕ) (pin ip : String) (w : World r.Store)
      → (unlock r u o limits load_gate c gate_id pin ip w).0.triggered
        ≡ moved (load_gate gate_id) (unlock r u o limits load_gate c gate_id pin ip w).1 w.triggered
  unfolding unlock trigger_gate
  unlock-moved c gate_id pin ip w = ground arith

  open_session-moved :
      (t : Tokens) (c : Call) (gate_id : ℕ) (m : GatePin) (meta : PinMetadata) (w : World r.Store)
      → (open_session r u o limits load_gate t c gate_id m meta w).0.triggered
        ≡ moved
            (load_gate gate_id)
            (open_session r u o limits load_gate t c gate_id m meta w).1
            w.triggered
  unfolding open_session trigger_gate
  open_session-moved t c gate_id m meta w = ground arith

  -- `Open` moves the gate once if it succeeds and the gate loads, and not at all if it fails.
  pub open_pin-moved :
      (t : Tokens) (c : Call) (gate_id : ℕ) (pin ip : String) (w : World r.Store)
      → (open_pin r u o limits load_gate t c gate_id pin ip w).0.triggered
        ≡ moved
            (load_gate gate_id)
            (open_pin r u o limits load_gate t c gate_id pin ip w).1
            w.triggered
  unfolding open_pin
  open_pin-moved t c gate_id pin ip w = ground (arith, open_session-moved t c gate_id)

  -- What a session carries: its access token was signed for exactly the result's permissions, and its
  -- refresh token stands for these in the store.
  abbrev pub IsCarried : Tokens → Call → ℕ → ℕ → ℤ → r.Store → OpenResult → Type 0
  IsCarried t c pin_id gate_id duration s res =
      (t.sign (record {
        sub = pin_id;
        gate_id = gate_id;
        permissions = res.permissions;
        iat = c.now.instant / second;
        exp = c.now.instant / second + 15 * 60;
      })
        ≡ ok res.tokens.access_token)
      × (r.get s ("refresh:" ▹ t.sha256_hex res.tokens.refresh_token)
          ≡ some (
              t.encode (record {
                sub = pin_id;
                gate_id = gate_id;
                permissions = res.permissions;
                session_duration = duration;
              })))

  issued :
      (t : Tokens) (f : Fate) (now pin_id gate_id : ℕ) (d : ℤ) (ps : List String) (s : r.Store)
      (pair : TokenPair)
      → (issue_gate_pin_session r t f now pin_id gate_id d ps s).1 ≡ ok pair
      → (t.sign (record {
        sub = pin_id;
        gate_id = gate_id;
        permissions = ps;
        iat = now;
        exp = now + 15 * 60;
      })
          ≡ ok pair.access_token)
        × (r.get
              (issue_gate_pin_session r t f now pin_id gate_id d ps s).0
              ("refresh:" ▹ t.sha256_hex pair.refresh_token)
            ≡ some (
                t.encode (record {
                  sub = pin_id;
                  gate_id = gate_id;
                  permissions = ps;
                  session_duration = d;
                })))
  unfolding issue_gate_pin_session store_session
  issued t f now pin_id gate_id d ps s pair h = elim (Result-cases t.random) [
    | inr (e, q) ↦ ground arith
    | inl (token, q) ↦
        let key = "refresh:" ▹ t.sha256_hex token in
        let value =
          t.encode
            (record { sub = pin_id; gate_id = gate_id; permissions = ps; session_duration = d }) in
        ground (arith, r.get-set key key value s, str_eq_refl key)
  ]

  open_session_sound :
      (t : Tokens) (c : Call) (gate_id : ℕ) (m : GatePin) (meta : PinMetadata) (w : World r.Store)
      (res : OpenResult)
      → (open_session r u o limits load_gate t c gate_id m meta w).1 ≡ ok res
      → ((consume_use r c.script_fate u m.id meta w.store).1 ≡ true)
        × (res.permissions ≡ session_permissions meta.permissions)
        × IsCarried t c m.id gate_id
            (session_duration_of meta)
            (open_session r u o limits load_gate t c gate_id m meta w).0.store
            res
  unfolding open_session trigger_gate
  open_session_sound t c gate_id m meta w res h =
      let used = (consume_use r c.script_fate u m.id meta w.store).0 in
      let result =
        issue_gate_pin_session r t c.set_fate (c.now.instant / second) m.id gate_id
          (session_duration_of meta) (session_permissions meta.permissions) used in
      elim (Result-cases result.1) [
        | inr (e, q) ↦ ground arith
        | inl (pair, q) ↦
            let carried =
              issued t c.set_fate (c.now.instant / second) m.id gate_id (session_duration_of meta)
                (session_permissions meta.permissions) used pair q in
            ground (arith, carried)
      ]

  -- `Open` succeeds only for an accepted code whose use is granted, as it also is without a positive
  -- maximum, or where the script's answer is lost. The session then has a permission
  -- exactly when it is not `gate:manage`, and the code asks for it, or asks for none and it is that
  -- to open; and its access token is signed for these permissions, and its refresh token stored with
  -- them, for that code and gate.
  pub open_pin_sound :
      (t : Tokens) (c : Call) (gate_id : ℕ) (pin ip : String) (w : World r.Store) (res : OpenResult)
      → (open_pin r u o limits load_gate t c gate_id pin ip w).1 ≡ ok res
      → (m : GatePin) × (meta : PinMetadata) × ((validate_pin r u o limits c gate_id pin ip
            w.store).1
          ≡ ok (m, meta))
        × ((consume_use r c.script_fate u m.id meta
              (validate_pin r u o limits c gate_id pin ip w.store).0).1
            ≡ true)
        × ((p : String) → Among p res.permissions ↔ IsGranted meta.permissions p)
        × IsCarried t c m.id gate_id
            (session_duration_of meta)
            (open_pin r u o limits load_gate t c gate_id pin ip w).0.store
            res
  unfolding open_pin
  open_pin_sound t c gate_id pin ip w res h =
      elim (Result-cases (validate_pin r u o limits c gate_id pin ip w.store).1) [
        | inl ((m, meta), found) ↦
            let w' : World r.Store = record {
              store = (validate_pin r u o limits c gate_id pin ip w.store).0;
              triggered = w.triggered;
            } in
            let (left, same, carried) =
              open_session_sound t c gate_id m meta w' res (ground arith) in
            (
              m,
              meta,
              found,
              left,
              λ p. rw same (session_permissions_iff meta.permissions p),
              rw (open_pin, found) carried,
            )
        | inr (e, failed) ↦ ground arith
      ]
