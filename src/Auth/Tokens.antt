-- ===== src/Auth/Tokens.antt =====
-- The access tokens of internal/service/auth.go as its validators read them, and
-- `TriggerWithSession` of internal/service/gate_pin.go. `parse_jwt` is jwt.Parse with `keyFunc` and
-- a required expiry: none for a signature, a method or a time that it refuses.
use gaty.Prelude.{ℕ, String, Option, none, some, List, [], ◌∷◌, not, str_eq, any, if◌then◌else◌}
use gaty.Errors.{Result, ok, err, wrap, invalid_token, invalid_session, unauthorized}
use gaty.Json.{Json, Items, Fields, lookup}
use gaty.Gate.{Gate}

pub record Readers : Type 0 where
  pub parse_jwt : String → Option Fields
  pub parse_uuid : String → Option ℕ

-- `m[key].(string)`
unfoldable pub text_field : String → Fields → Option String
text_field key fs = elim (lookup key fs) [ some (Json.str s) ↦ some s | _ ↦ none ]

-- `v, _ := m[key].(string)`
abbrev pub or_empty : Option String → String
or_empty none = ""
or_empty (some s) = s

-- a field that is to hold a UUID
unfoldable pub uuid_field : Readers → String → Fields → Option ℕ
unfolding text_field
uuid_field x key fs = elim (text_field key fs) [ none ↦ none | some s ↦ x.parse_uuid s ]

-- the texts of an array
unfoldable pub texts_of : Items → List String
texts_of Items.nil = []
texts_of (Items.cons j js) = let rest = texts_of js in elim j [ Json.str s ↦ s ∷ rest | _ ↦ rest ]

-- the `permissions` of a payload: none unless they are an array
unfoldable pub permissions_of : Fields → List String
unfolding texts_of
permissions_of fs = elim (lookup "permissions" fs) [ some (Json.arr js) ↦ texts_of js | _ ↦ [] ]

-- `ValidateAccessToken`
unfoldable pub validate_access_token : Readers → String → Result (ℕ × String)
unfolding text_field
validate_access_token x token = elim (x.parse_jwt token) [
  | none ↦ err invalid_token
  | some claims ↦
      if not (str_eq (or_empty (text_field "type" claims)) "member")
      then err invalid_token
      else elim (x.parse_uuid (or_empty (text_field "sub" claims))) [
        | none ↦ err invalid_token
        | some member_id ↦
            let role = or_empty (text_field "role" claims) in
            if str_eq role "" then err invalid_token else ok (member_id, role)
      ]
]

-- A type assertion without `ok` panics.
pub data Run {ℓ} (Value : Type ℓ) : Type ℓ where
  panicked : Run Value
  returned : Value → Run Value

-- `uuid.Parse(claims[key].(string))`
unfoldable pub assert_uuid : Readers → String → Fields → Run (Result ℕ)
unfolding text_field
assert_uuid x key claims = elim (text_field key claims) [
  | none ↦ panicked
  | some s ↦ elim (x.parse_uuid s) [
    | none ↦ returned (err invalid_token)
    | some i ↦ returned (ok i)
  ]
]

pub record SessionToken : Type 0 where
  pub pin_id : ℕ
  pub gate_id : ℕ
  pub permissions : List String

-- `ValidatePinSessionToken`
unfoldable pub validate_pin_session_token : Readers → String → Run (Result SessionToken)
unfolding text_field assert_uuid permissions_of
validate_pin_session_token x token = elim (x.parse_jwt token) [
  | none ↦ returned (err invalid_token)
  | some claims ↦
      if not (str_eq (or_empty (text_field "type" claims)) "pin_session")
      then returned (err invalid_token)
      else elim (assert_uuid x "sub" claims) [
        | panicked ↦ panicked
        | returned (err e) ↦ returned (err e)
        | returned (ok pin_id) ↦ elim (assert_uuid x "gate_id" claims) [
          | panicked ↦ panicked
          | returned (err e) ↦ returned (err e)
          | returned (ok gate_id) ↦ returned (
              ok (record {
                pin_id = pin_id;
                gate_id = gate_id;
                permissions = permissions_of claims;
              }))
        ]
      ]
]

abbrev pub required_perm : String → String
required_perm action = if str_eq action "close" then "gate:trigger_close" else "gate:trigger_open"

-- `TriggerWithSession`: the gates that were moved, the newest first
unfoldable pub trigger_with_session :
    Readers
    → (ℕ → Result Gate)
    → String
    → String
    → List (Gate × String)
    → Run (List (Gate × String) × Result (Unit {0}))
unfolding validate_pin_session_token
trigger_with_session x load_gate token action moved = elim (validate_pin_session_token x token) [
  | panicked ↦ panicked
  | returned (err e) ↦ returned (moved, err invalid_session)
  | returned (ok t) ↦
      if not (any (λ p. str_eq p (required_perm action)) t.permissions)
      then returned (moved, err (wrap "missing permission" unauthorized))
      else elim (load_gate t.gate_id) [
        | err e ↦ returned (moved, err e)
        | ok g ↦ returned ((g, action) ∷ moved, ok tt)
      ]
]
