-- ===== src/Gate/Configured.antt =====
-- What the handlers of internal/handler/gate.go keep true of the configuration of the gates, and where
-- they do not.
use gaty.Prelude.{
  ℕ, String, Option, none, some, List, [], ◌∷◌, true, false, All, ◌==◌, ◌≡◌, ◌⊎◌, refl, sym, arith,
  inl, inr, Bool-cases, ℤ, str_eq, if◌then◌else◌,
}
use mathlib.Core.Path.{subst}
use gaty.Errors.{Result-cases}
use gaty.Http.{refused}
use gaty.Json.{Json}
use gaty.Gate.{Gate, StatusRule, StatusTransition}
use gaty.Gate.Status.{PayloadMapping}
use gaty.Gate.Table.{Table, update_rows, with_token, set_token}
use gaty.Gate.Validation.{
  Verdict, valid, invalid, invalid_at, validate_custom_statuses, validate_status_rules,
  validate_status_transitions,
}
use gaty.Gate.Accepted.{
  IsRule, IsTransition, IsCustom, IsFresh, validate_status_rules_iff, validate_custom_statuses_iff,
  validate_status_transitions_iff,
}
use gaty.Gate.Service.{UpdateGateParams, GateTokens}
use gaty.Gate.Creation.{CreateGateParams, create, insert, new_row, with_type}
use gaty.Gate.Handlers.{handle_create, handle_update, create_checks, accepts, is_valid}

-- The names of a gate are proper, and its rules and transitions use only these and the built-in ones.
pub record IsConfigured (g : Gate) : Type 0 where
  pub names : All IsCustom g.custom_statuses × IsFresh [] g.custom_statuses
  pub rules : All (IsRule g.custom_statuses) g.status_rules
  pub transitions : All (IsTransition g.custom_statuses) g.status_transitions

is_valid-fails : (v : Verdict) → (v ≡ valid → ⊥) → is_valid v ≡ false
is_valid-fails valid fails = absurd (fails refl)
is_valid-fails (invalid r) fails = refl
is_valid-fails (invalid_at i r) fails = refl

module _ (unmarshal : Json → Option PayloadMapping) (truncate : ℕ → ℤ) where
  checked :
      (p : CreateGateParams)
      → accepts (create_checks unmarshal truncate p) ≡ true
      → (validate_custom_statuses p.custom_statuses ≡ valid)
        × (validate_status_rules p.status_rules p.custom_statuses ≡ valid)
        × (validate_status_transitions p.status_transitions p.custom_statuses ≡ valid)
  checked p h = ground arith

  -- the row that a creation stores, or none
  create-cases :
      (t : GateTokens) (id now : ℕ) (token : String) (p : CreateGateParams) (gates : Table)
      → ((create t id now token p gates).0 ≡ gates)
        ⊎ ((create t id now token p gates).0 ≡ new_row id now token (with_type p) ∷ gates)
        ⊎ ((jwt : String) × ((create t id now token p gates).0
              ≡ (set_token id jwt (new_row id now token (with_type p) ∷ gates)).0))
  unfolding create insert
  create-cases t id now token p gates =
      elim (Result-cases (insert id now token (with_type p) gates)) [
        | inr (e, q) ↦ inl (ground arith)
        | inl ((gates', g), q) ↦ elim (Result-cases (t.issue g.id)) [
          | inr (e, q') ↦ inr (inl (ground arith))
          | inl (jwt, q') ↦ inr (inr (jwt, ground arith))
        ]
      ]

  update_rows-IsConfigured :
      (i : ℕ) (jwt : String) (gates : Table)
      → All IsConfigured gates
      → All IsConfigured (update_rows i (with_token jwt) gates)
  unfolding update_rows with_token
  update_rows-IsConfigured i jwt [] s = tt
  update_rows-IsConfigured i jwt (g ∷ gates) (c, s) = (
    elim (g.id == i) as (λ b. IsConfigured (if b then record g { gate_token = some jwt } else g)) [
      | true ↦ record { names = c.names; rules = c.rules; transitions = c.transitions }
      | false ↦ c
    ],
    update_rows-IsConfigured i jwt gates s,
  )

  new_row-IsConfigured :
      (id now : ℕ) (token : String) (p : CreateGateParams)
      → accepts (create_checks unmarshal truncate p) ≡ true
      → IsConfigured (new_row id now token (with_type p))
  new_row-IsConfigured id now token p h =
      let (names, rules, transitions) = checked p h in
      elim (str_eq p.integration_type "")
        as (λ b.
          IsConfigured
            (new_row id now token (if b then record p { integration_type = "MQTT" } else p))) [
              | true ↦ record {
                names = (validate_custom_statuses_iff p.custom_statuses).0 names;
                rules = (validate_status_rules_iff p.status_rules p.custom_statuses).0 rules;
                transitions =
                    (validate_status_transitions_iff p.status_transitions p.custom_statuses).0
                      transitions;
              }
              | false ↦ record {
                names = (validate_custom_statuses_iff p.custom_statuses).0 names;
                rules = (validate_status_rules_iff p.status_rules p.custom_statuses).0 rules;
                transitions =
                    (validate_status_transitions_iff p.status_transitions p.custom_statuses).0
                      transitions;
              }
            ]

  -- Where every stored gate has proper names of its own, and rules and transitions that use only
  -- these and the built-in ones, they all still do after a creation, the new gate included, whatever
  -- the request holds and however it fails.
  pub handle_create-IsConfigured :
      (t : GateTokens) (id now : ℕ) (token : String) (p : CreateGateParams) (gates : Table)
      → All IsConfigured gates
      → All IsConfigured (handle_create unmarshal truncate t id now token p gates).0
  unfolding handle_create set_token
  handle_create-IsConfigured t id now token p gates s =
      elim (Bool-cases (accepts (create_checks unmarshal truncate p))) [
        | inr bad ↦ rw bad s
        | inl good ↦
            let row = new_row-IsConfigured id now token p good in
            rw good (elim (create-cases t id now token p gates) [
              | inl e ↦ subst (All IsConfigured) (sym e) s
              | inr (inl e) ↦ subst (All IsConfigured) (sym e) (row, s)
              | inr (inr (jwt, e)) ↦ subst (All IsConfigured) (sym e) (
                  update_rows-IsConfigured id jwt (new_row id now token (with_type p) ∷ gates)
                    (row, s))
            ])
      ]

  -- An update that sends rules or transitions without names is refused, and changes nothing, unless
  -- they use the built-in names alone: the names that the gate has are not consulted.
  pub handle_update-names :
      (now i : ℕ) (p : UpdateGateParams) (gates : Table) (rules : List StatusRule)
      (ts : List StatusTransition)
      → p.custom_statuses ≡ none
      → ((p.status_rules ≡ some rules) × (All (IsRule []) rules → ⊥))
        ⊎ ((p.status_transitions ≡ some ts) × (All (IsTransition []) ts → ⊥))
      → handle_update unmarshal truncate now i p gates ≡ (gates, refused 400 "validation failed")
  unfolding handle_update
  handle_update-names now i p gates rules ts h bad = elim bad [
    | inl (e, fails) ↦ ground (
      arith,
      is_valid-fails (validate_status_rules rules [])
          λ k. fails ((validate_status_rules_iff rules []).0 k),
    )
    | inr (e, fails) ↦ ground (
      arith,
      is_valid-fails (validate_status_transitions ts [])
          λ k. fails ((validate_status_transitions_iff ts []).0 k),
    )
  ]
