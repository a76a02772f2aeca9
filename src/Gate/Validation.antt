-- ===== src/Gate/Validation.antt =====
-- internal/handler/gate_validation.go: what the handlers accept of a gate's configuration.
use gaty.Prelude.{
  ℕ, ◌+◌, String, Option, none, some, List, [], ◌∷◌, Bool, true, false, not, ◌||◌, ◌&&◌, any,
  is_empty, ◌==◌, str_eq, codes, leb, ℤ, pos, leb_ℤ, ltb_ℤ, if◌then◌else◌,
}
use gaty.Json.{Json, Items, Fields, nil, cons, lookup}
use gaty.Gate.{StatusRule, StatusTransition, ActionConfig}
use gaty.Gate.Status.{PayloadMapping, extract_payload_mapping}

-- the reasons of the errors
pub data Reason : Type 0 where
  same_status not_positive unknown_from unknown_to : Reason
  empty_name built_in duplicate : Reason
  empty_key bad_operator empty_status unknown_status : Reason
  ttl_out_of_range : Reason
  no_payload no_url bad_driver no_mapping no_values missing_targets : Reason
  not_integers reversed no_status_code not_an_object not_an_array : Reason

-- An error names the position of the entry that it is about, where there is one.
pub data Verdict : Type 0 where
  valid : Verdict
  invalid : Reason → Verdict
  invalid_at : ℕ → Reason → Verdict

-- `unicode.IsSpace`
abbrev is_space : ℕ → Bool
is_space c =
    (leb 9 c && leb c 13)
    || (c == 32)
    || (c == 133)
    || (c == 160)
    || (c == 5760)
    || (leb 8192 c && leb c 8202)
    || (c == 8232)
    || (c == 8233)
    || (c == 8239)
    || (c == 8287)
    || (c == 12288)

-- `strings.TrimSpace(s) == ""`
unfoldable pub is_blank : String → Bool
is_blank s = not (any (λ c. not (is_space c)) (codes s))

-- `DefaultGateStatuses`
abbrev pub default_gate_statuses : List String
default_gate_statuses = "open" ∷ "closed" ∷ "unavailable" ∷ []

-- the built-in and the custom statuses
abbrev pub is_known : List String → String → Bool
is_known custom s = any (str_eq s) default_gate_statuses || any (str_eq s) custom

-- `validateStatusTransitions` from an index on
unfoldable pub validate_transitions_from : ℕ → List StatusTransition → List String → Verdict
validate_transitions_from i [] custom = valid
validate_transitions_from i (t ∷ ts) custom =
    let rest = validate_transitions_from (i + 1) ts custom in
    if str_eq t.from t.to
    then invalid_at i same_status
    else if leb_ℤ t.after_seconds (pos 0)
    then invalid_at i not_positive
    else if not (is_known custom t.from)
    then invalid_at i unknown_from
    else if not (is_known custom t.to)
    then invalid_at i unknown_to
    else rest

abbrev pub validate_status_transitions : List StatusTransition → List String → Verdict
validate_status_transitions ts custom = validate_transitions_from 0 ts custom

-- `validateCustomStatuses` after the names that were seen
unfoldable pub validate_names : List String → List String → Verdict
unfolding is_blank
validate_names seen [] = valid
validate_names seen (s ∷ statuses) =
    let rest = validate_names (s ∷ seen) statuses in
    if is_blank s
    then invalid empty_name
    else if any (str_eq s) default_gate_statuses
    then invalid built_in
    else if any (str_eq s) seen
    then invalid duplicate
    else rest

abbrev pub validate_custom_statuses : List String → Verdict
validate_custom_statuses statuses = validate_names [] statuses

-- `validStatusRuleOps`
abbrev pub is_operator : String → Bool
is_operator op = any (str_eq op) ("eq" ∷ "ne" ∷ "gt" ∷ "gte" ∷ "lt" ∷ "lte" ∷ [])

-- `validateStatusRules` from an index on
unfoldable pub validate_rules_from : ℕ → List StatusRule → List String → Verdict
unfolding is_blank
validate_rules_from i [] custom = valid
validate_rules_from i (r ∷ rules) custom =
    let rest = validate_rules_from (i + 1) rules custom in
    if is_blank r.key
    then invalid_at i empty_key
    else if not (is_operator r.op)
    then invalid_at i bad_operator
    else if is_blank r.set_status
    then invalid_at i empty_status
    else if not (is_known custom r.set_status)
    then invalid_at i unknown_status
    else rest

abbrev pub validate_status_rules : List StatusRule → List String → Verdict
validate_status_rules rules custom = validate_rules_from 0 rules custom

unfoldable pub validate_ttl_seconds : Option ℤ → Verdict
validate_ttl_seconds none = valid
validate_ttl_seconds (some v) =
    if ltb_ℤ v (pos 1) || ltb_ℤ (pos 3600) v then invalid ttl_out_of_range else valid

-- `cfg.Config[key].(string)`, with "" for anything else
unfoldable pub text_of : String → Fields → String
text_of key config = elim (lookup key config) [ some (Json.str s) ↦ s | _ ↦ "" ]

-- an object at a key
unfoldable pub has_object : String → Fields → Bool
has_object key config = elim (lookup key config) [ some (Json.obj _) ↦ true | _ ↦ false ]

unfoldable pub validate_action_config : Option ActionConfig → Verdict
unfolding text_of has_object is_blank
validate_action_config none = valid
validate_action_config (some cfg) =
    if str_eq cfg.type "NONE"
    then valid
    else if str_eq cfg.type "MQTT_GATIE"
    then valid
    else if str_eq cfg.type "MQTT_CUSTOM"
    then (if has_object "payload" cfg.config then valid else invalid no_payload)
    else if str_eq cfg.type "HTTP"
    then (if is_blank (text_of "url" cfg.config) then invalid no_url else valid)
    else invalid bad_driver

-- the values of a mapping: "open" and "closed" are both reached
unfoldable pub validate_targets : List (String × String) → Verdict
validate_targets values =
    if is_empty values
    then invalid no_values
    else if any (λ (_, v). str_eq v "open") values && any (λ (_, v). str_eq v "closed") values
    then valid
    else invalid missing_targets

-- `ToInt` of a value that encoding/json read: a float64, converted by the parameter
unfoldable pub to_int : (ℕ → ℤ) → Option Json → Option ℤ
to_int truncate (some (Json.num f)) = some (truncate f)
to_int truncate _ = none

unfoldable pub validate_ranges_from : (ℕ → ℤ) → ℕ → Items → Verdict
unfolding to_int
validate_ranges_from truncate i nil = valid
validate_ranges_from truncate i (cons (Json.obj m) items) =
    let rest = validate_ranges_from truncate (i + 1) items in
    elim (to_int truncate (lookup "from" m)) [
      | none ↦ invalid_at i not_integers
      | some from ↦ elim (to_int truncate (lookup "to" m)) [
        | none ↦ invalid_at i not_integers
        | some to ↦
            if ltb_ℤ to from
            then invalid_at i reversed
            else if ltb_ℤ from (pos 100) || ltb_ℤ (pos 599) to
            then invalid_at i no_status_code
            else rest
      ]
    ]
validate_ranges_from truncate i (cons _ items) = invalid_at i not_an_object

unfoldable pub validate_success_status_codes : (ℕ → ℤ) → Fields → Verdict
unfolding validate_ranges_from
validate_success_status_codes truncate config = elim (lookup "success_status_codes" config) [
  | none ↦ valid
  | some (Json.arr items) ↦ validate_ranges_from truncate 0 items
  | some _ ↦ invalid not_an_array
]

unfoldable pub validate_status_action_config :
    (Json → Option PayloadMapping) → (ℕ → ℤ) → Option ActionConfig → Verdict
unfolding text_of is_blank validate_targets validate_success_status_codes extract_payload_mapping
validate_status_action_config unmarshal truncate none = valid
validate_status_action_config unmarshal truncate (some cfg) =
    let complete : Verdict = elim (extract_payload_mapping unmarshal cfg.config) [
      | none ↦ invalid no_mapping
      | some m ↦ validate_targets m.status.values
    ] in
    if str_eq cfg.type "NONE" || str_eq cfg.type "MQTT_GATIE"
    then valid
    else if str_eq cfg.type "MQTT_CUSTOM" || str_eq cfg.type "HTTP_INBOUND"
    then complete
    else if str_eq cfg.type "HTTP_WEBHOOK"
    then (if is_blank (text_of "url" cfg.config)
        then invalid no_url
        else elim (validate_success_status_codes truncate cfg.config) [
          | valid ↦ complete
          | bad ↦ bad
        ])
    else invalid bad_driver
