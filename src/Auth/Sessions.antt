-- ===== src/Auth/Sessions.antt =====
-- What the tokens of internal/service/auth.go are good for once they are issued.
use gaty.Prelude.{
  Bool-cases, sym, refl, ◌⊎◌, if◌then◌else◌, Option, some, none, inl, inr, Option-cases, eq_iff, ap,
  ℕ, ◌≡◌, String, List, ◌∷◌, true, false, str_eq, any, ◌↔◌, arith,
}
use mathlib.Core.Path.{subst}
use gaty.Json.{Json, Items, Fields, lookup}
use gaty.Errors.{invalid_session, Result-cases, Err, Result, ok, err, invalid_token}
use gaty.Gate.{Gate}
use gaty.Auth.Tokens.{
  Run, panicked, texts_of, assert_uuid, permissions_of, Readers, returned, SessionToken, text_field,
  or_empty, validate_access_token, validate_pin_session_token, trigger_with_session, required_perm,
}

-- no text is both types
one_type : (type : String) → str_eq type "member" ≡ true → str_eq type "pin_session" ≡ false
one_type type h = ap (λ t. str_eq t "pin_session") ((eq_iff type "member").0 h)

-- The permission of the action stands in an array.
abbrev pub Holds : String → Items → Type 0
Holds p Items.nil = ⊥
Holds p (Items.cons j js) = (j ≡ Json.str p) ⊎ Holds p js

abbrev pub needed : String → String
needed action = if str_eq action "close" then "gate:trigger_close" else "gate:trigger_open"

any-texts_of_iff :
    (p : String) (js : Items) → (any (λ q. str_eq q p) (texts_of js) ≡ true) ↔ Holds p js
unfolding texts_of
any-texts_of_iff p Items.nil = (λ h. ground arith, λ h. ground arith)
any-texts_of_iff p (Items.cons j js) =
    let rest = any-texts_of_iff p js in
    elim j
      as (λ j.
        (any (λ q. str_eq q p) (texts_of (Items.cons j js)) ≡ true)
        ↔ ((j ≡ Json.str p) ⊎ Holds p js)) [
          | Json.str s ↦
              let same = eq_iff s p in
              (
                λ h. elim (Bool-cases (str_eq s p)) [
                  | inl e ↦ inl (ap Json.str (same.0 e))
                  | inr e ↦ inr (rest.0 (ground arith))
                ],
                λ h. elim h [
                  | inl e ↦ let e' = same.1 (ground arith) in ground arith
                  | inr k ↦ let k' = rest.1 k in ground arith
                ],
              )
          | Json.null ↦ (λ h. inr (rest.0 h), λ h. ground arith)
          | Json.bool b ↦ (λ h. inr (rest.0 h), λ h. ground arith)
          | Json.num n ↦ (λ h. inr (rest.0 h), λ h. ground arith)
          | Json.arr is ↦ (λ h. inr (rest.0 h), λ h. ground arith)
          | Json.obj fs ↦ (λ h. inr (rest.0 h), λ h. ground arith)
        ]

module _ (x : Readers) where
  -- A token that is accepted as a member's access token is refused as one of a code's session.
  pub validate_pin_session_token-access :
      (token : String) {i : ℕ} {role : String}
      → validate_access_token x token ≡ ok (i, role)
      → validate_pin_session_token x token ≡ returned (err invalid_token)
  unfolding validate_access_token validate_pin_session_token
  validate_pin_session_token-access token h = elim (Option-cases (x.parse_jwt token)) [
    | inl e ↦ ground arith
    | inr (claims, e) ↦ ground (arith, one_type (or_empty (text_field "type" claims)))
  ]

is_session : (t : Option String) → or_empty t ≡ "pin_session" → t ≡ some "pin_session"
is_session none h =
    let e : false ≡ true = ap (λ t. str_eq t "pin_session") h in absurd (ground arith)
is_session (some s) h = ap some h

text_field-lookup :
    (key : String) (fs : Fields) (s : String)
    → text_field key fs ≡ some s
    → lookup key fs ≡ some (Json.str s)
unfolding text_field
text_field-lookup key fs s h = ground arith

-- an array of texts is there where a permission is
permissions_of-lookup :
    (fs : Fields) (p : String)
    → any (λ q. str_eq q p) (permissions_of fs) ≡ true
    → (js : Items) × (lookup "permissions" fs ≡ some (Json.arr js)) × Holds p js
unfolding permissions_of
permissions_of-lookup fs p h = elim (Option-cases (lookup "permissions" fs)) [
  | inl q ↦ absurd (ground arith)
  | inr (j, q) ↦ held j q
]
  where
    held :
        (j : Json)
        → lookup "permissions" fs ≡ some j
        → (js : Items) × (lookup "permissions" fs ≡ some (Json.arr js)) × Holds p js
    held (Json.arr js) q = (js, q, (any-texts_of_iff p js).0 (ground arith))
    held Json.null q = absurd (ground arith)
    held (Json.bool b) q = absurd (ground arith)
    held (Json.num n) q = absurd (ground arith)
    held (Json.str t) q = absurd (ground arith)
    held (Json.obj o) q = absurd (ground arith)

outcome :
    (v : Run (Result SessionToken))
    → (v ≡ panicked)
      ⊎ ((e : Err) × (v ≡ returned (err e)))
      ⊎ ((t : SessionToken) × (v ≡ returned (ok t)))
outcome panicked = inl refl
outcome (returned (err e)) = inr (inl (e, refl))
outcome (returned (ok t)) = inr (inr (t, refl))

module _ (x : Readers) (load_gate : ℕ → Result Gate) (token action : String) where
  -- What makes a request by a session's token act on a gate, in terms of the claims of the token and
  -- the gates that load.
  pub record IsAuthorized (g : Gate) : Type 0 where
    pub claims : Fields
    pub parsed : x.parse_jwt token ≡ some claims
    pub typed : lookup "type" claims ≡ some (Json.str "pin_session")
    pub sub : String
    pub has_sub : lookup "sub" claims ≡ some (Json.str sub)
    pub pin_id : ℕ
    pub parsed_sub : x.parse_uuid sub ≡ some pin_id
    pub gate_text : String
    pub has_gate : lookup "gate_id" claims ≡ some (Json.str gate_text)
    pub gate_id : ℕ
    pub parsed_gate : x.parse_uuid gate_text ≡ some gate_id
    pub items : Items
    pub has_items : lookup "permissions" claims ≡ some (Json.arr items)
    pub holds : Holds (needed action) items
    pub loads : load_gate gate_id ≡ ok g

  -- What a run leaves where it does not act: the gates that were moved before, and an error, unless
  -- it panics.
  abbrev pub IsRefused :
      List (Gate × String) → Run (List (Gate × String) × Result (Unit {0})) → Type 0
  IsRefused moved panicked = Unit
  IsRefused moved (returned (log, result)) = (log ≡ moved) × ((e : Err) × (result ≡ err e))

  -- what a valid token holds
  validated :
      (claims : Fields) (t : SessionToken)
      → x.parse_jwt token ≡ some claims
      → validate_pin_session_token x token ≡ returned (ok t)
      → (lookup "type" claims ≡ some (Json.str "pin_session"))
        × ((sub : String) × (lookup "sub" claims ≡ some (Json.str sub))
            × (x.parse_uuid sub ≡ some t.pin_id))
        × ((text : String) × (lookup "gate_id" claims ≡ some (Json.str text))
            × (x.parse_uuid text ≡ some t.gate_id))
        × (t.permissions ≡ permissions_of claims)
  unfolding validate_pin_session_token assert_uuid
  validated claims t parsed h =
      elim (Bool-cases (str_eq (or_empty (text_field "type" claims)) "pin_session")) [
        | inr q ↦ absurd (ground arith)
        | inl typed ↦ elim (Option-cases (text_field "sub" claims)) [
          | inl q ↦ absurd (ground arith)
          | inr (sub, q) ↦ elim (Option-cases (text_field "gate_id" claims)) [
            | inl q' ↦ absurd (ground arith)
            | inr (text, q') ↦ (
              text_field-lookup "type" claims "pin_session"
                  (is_session (text_field "type" claims) ((eq_iff _ "pin_session").0 typed)),
              (sub, text_field-lookup "sub" claims sub q, ground arith),
              (text, text_field-lookup "gate_id" claims text q', ground arith),
              ground arith,
            )
          ]
        ]
      ]

  trigger-authorized :
      (g : Gate) (moved : List (Gate × String))
      → IsAuthorized g
      → trigger_with_session x load_gate token action moved ≡ returned ((g, action) ∷ moved, ok tt)
  unfolding trigger_with_session validate_pin_session_token assert_uuid text_field permissions_of
  trigger-authorized g moved a =
      let held = (any-texts_of_iff (needed action) a.items).1 a.holds in
      rw
        (
          trigger_with_session, validate_pin_session_token, assert_uuid, text_field, permissions_of,
          a.parsed, a.typed, a.has_sub, a.parsed_sub, a.has_gate, a.parsed_gate, a.has_items, held,
          a.loads,
        )
        refl

  -- who is authorized is not refused
  refused :
      (moved : List (Gate × String))
      → IsRefused moved (trigger_with_session x load_gate token action moved)
      → ((g : Gate) → IsAuthorized g → ⊥)
        × IsRefused moved (trigger_with_session x load_gate token action moved)
  refused moved r = (
    λ g a.
        let (log, (e, failed)) = subst (IsRefused moved) (trigger-authorized g moved a) r in
        ground arith,
    r,
  )

  authorized :
      (t : SessionToken) (g : Gate)
      → validate_pin_session_token x token ≡ returned (ok t)
      → any (λ p. str_eq p (required_perm action)) t.permissions ≡ true
      → load_gate t.gate_id ≡ ok g
      → IsAuthorized g
  unfolding validate_pin_session_token
  authorized t g valid held loaded = elim (Option-cases (x.parse_jwt token)) [
    | inl q ↦ absurd (ground arith)
    | inr (claims, parsed) ↦
        let (typed, (sub, has_sub, parsed_sub), (text, has_gate, parsed_gate), same) =
          validated claims t parsed valid in
        let (js, has_items, holds) =
          permissions_of-lookup claims (needed action) (rw (sym same) held) in
        record {
          claims = claims;
          parsed = parsed;
          typed = typed;
          sub = sub;
          has_sub = has_sub;
          pin_id = t.pin_id;
          parsed_sub = parsed_sub;
          gate_text = text;
          has_gate = has_gate;
          gate_id = t.gate_id;
          parsed_gate = parsed_gate;
          items = js;
          has_items = has_items;
          holds = holds;
          loads = loaded;
        }
  ]

  -- A request by a session's token either is authorized, by a token that parses, is a session's, and
  -- names two UUIDs, the second a gate that loads, and the permission of the action, and then moves
  -- that gate once; or it is not authorized for any gate, and then it panics, or moves none and
  -- answers an error.
  pub trigger_with_session-cases :
      (moved : List (Gate × String))
      → ((g : Gate) × IsAuthorized g
          × (trigger_with_session x load_gate token action moved
              ≡ returned ((g, action) ∷ moved, ok tt)))
        ⊎ (((g : Gate) → IsAuthorized g → ⊥)
            × IsRefused moved (trigger_with_session x load_gate token action moved))
  unfolding trigger_with_session
  trigger_with_session-cases moved = elim (outcome (validate_pin_session_token x token)) [
    | inl invalid ↦ inr (refused moved (rw (trigger_with_session, invalid) tt))
    | inr (inl (e, invalid)) ↦
        inr (refused moved (rw (trigger_with_session, invalid) (refl, (invalid_session, refl))))
    | inr (inr (t, valid)) ↦
        elim (Bool-cases (any (λ p. str_eq p (required_perm action)) t.permissions)) [
          | inr missing ↦
              inr (refused moved (rw (trigger_with_session, valid, missing) (refl, (_, refl))))
          | inl held ↦ elim (Result-cases (load_gate t.gate_id)) [
            | inr (e, unloaded) ↦
                inr (
                  refused moved
                    (rw (trigger_with_session, valid, held, unloaded) (refl, (e, refl))))
            | inl (g, loaded) ↦ inl (
              g,
              authorized t g valid held loaded,
              rw (trigger_with_session, valid, held, loaded) refl,
            )
          ]
        ]
  ]
