-- ===== src/Gate/Status.antt =====
-- The status of a gate from a device's payload: internal/model/gate.go, internal/model/payload_mapping.go.
use gaty.Prelude.{
  ℕ, ◌-◌, ◌*◌, ◌^◌, ◌%◌, String, Option, none, some, List, [], ◌∷◌, Bool, false, not, ◌&&◌, any,
  is_empty, ◌==◌, str_eq, codes, ltb, ℤ, pos, negsuc, leb_ℤ, ltb_ℤ, eqb_ℤ, if◌then◌else◌,
}
use Prim.Native.Char.{code}
use gaty.Json.{Json, Fields, field, end, lookup, null, num, str, obj}
use gaty.Gate.{StatusRule, MetaField}

-- What the code calls of strconv and fmt. A float64 is its bit pattern.
pub record Values : Type 0 where
  pub parse_float : String → Option ℕ
  -- `fmt.Sprintf("%v", v)`
  pub print : Json → String

-- the comparisons of float64 on bit patterns
unfoldable pub is_nan : ℕ → Bool
is_nan b = ltb (2047 * 2 ^ 52) (b % 2 ^ 63)

-- the place of a number that is not NaN: both zeros are at 0
unfoldable pub place : ℕ → ℤ
place b = if ltb b (2 ^ 63) then pos b else if b == 2 ^ 63 then pos 0 else negsuc (b - 2 ^ 63 - 1)

unfoldable pub compare_floats : String → ℕ → ℕ → Bool
unfolding is_nan place
compare_floats op a b =
    let ordered = not (is_nan a) && not (is_nan b) in
    if str_eq op "eq"
    then ordered && eqb_ℤ (place a) (place b)
    else if str_eq op "ne"
    then not (ordered && eqb_ℤ (place a) (place b))
    else if str_eq op "gt"
    then ordered && ltb_ℤ (place b) (place a)
    else if str_eq op "gte"
    then ordered && leb_ℤ (place b) (place a)
    else if str_eq op "lt"
    then ordered && ltb_ℤ (place a) (place b)
    else if str_eq op "lte"
    then ordered && leb_ℤ (place a) (place b)
    else false

-- texts under `eq` and `ne`, the operators that they have
unfoldable pub compare_texts : String → String → String → Bool
compare_texts op a b =
    if str_eq op "eq" then str_eq a b else if str_eq op "ne" then not (str_eq a b) else false

-- `strings.Split(key, ".")`: the first part, and the parts after it
unfoldable pub split_parts : String → String × List String
split_parts String.[] = ("", [])
split_parts (String.◌∷◌ c s) =
    let rest = split_parts s in
    if code c == 46 then ("", rest.0 ∷ rest.1) else (String.◌∷◌ c rest.0, rest.1)

-- the nested objects of a path
unfoldable pub traverse : List String → Json → Option Json
traverse [] current = some current
traverse (part ∷ parts) (obj o) = elim (lookup part o) [
  | none ↦ none
  | some next ↦ traverse parts next
]
traverse (part ∷ parts) _ = none

-- A key without a dot is not a path.
unfoldable pub get_nested_value : Fields → String → Option Json
unfolding split_parts traverse
get_nested_value m key = elim (lookup key m) [
  | some v ↦ some v
  | none ↦
      if any (λ c. c == 46) (codes key)
      then traverse ((split_parts key).0 ∷ (split_parts key).1) (obj m)
      else none
]

module _ (vs : Values) where
  unfoldable pub match_number : String → ℕ → String → Bool
  unfolding compare_floats
  match_number op actual threshold = elim (vs.parse_float threshold) [
    | none ↦ false
    | some t ↦ compare_floats op actual t
  ]

  unfoldable pub rule_matches : String → Json → String → Bool
  unfolding match_number compare_texts
  rule_matches op (num f) threshold = match_number op f threshold
  rule_matches op (str s) threshold = elim (vs.parse_float s) [
    | some f ↦ match_number op f threshold
    | none ↦ compare_texts op s threshold
  ]
  rule_matches op actual threshold = compare_texts op (vs.print actual) threshold

  -- whether a rule matches the metadata
  unfoldable pub applies : Fields → StatusRule → Bool
  unfolding get_nested_value rule_matches
  applies meta rule = elim (get_nested_value meta rule.key) [
    | none ↦ false
    | some v ↦ rule_matches rule.op v rule.value
  ]

  -- The first rule that matches sets the status.
  unfoldable pub evaluate_status_rules : List StatusRule → Fields → Option String
  unfolding applies
  evaluate_status_rules [] meta = none
  evaluate_status_rules (rule ∷ rules) meta =
      let rest = evaluate_status_rules rules meta in
      if applies meta rule then some rule.set_status else rest

-- The values of a mapping are pairs of a raw value and a status.
pub record StatusFieldMapping : Type 0 where
  pub path : String
  pub values : List (String × String)

pub record PayloadMapping : Type 0 where
  pub format : String
  pub status : StatusFieldMapping

-- `mapping.Status.Values[raw]`
unfoldable pub value_of : String → List (String × String) → Option String
value_of raw [] = none
value_of raw ((k, v) ∷ values) =
    let rest = value_of raw values in if str_eq k raw then some v else rest

-- `ExtractPayloadMapping`: json.Unmarshal into the mapping is a parameter.
unfoldable pub extract_payload_mapping :
    (Json → Option PayloadMapping) → Fields → Option PayloadMapping
extract_payload_mapping unmarshal config = elim (lookup "mapping" config) [
  | none ↦ none
  | some null ↦ none
  | some raw ↦ elim (unmarshal raw) [
    | none ↦ none
    | some m ↦ if str_eq m.status.path "" then none else some m
  ]
]

pub data MappingError : Type 0 where
  unsupported_format field_not_found no_value : MappingError

pub data Mapped : Type 0 where
  mapped : String → Mapped
  unmapped : MappingError → Mapped

unfoldable pub apply_mapping : Values → PayloadMapping → Fields → Mapped
unfolding get_nested_value value_of
apply_mapping vs m raw =
    if not (str_eq m.format "") && not (str_eq m.format "json")
    then unmapped unsupported_format
    else elim (get_nested_value raw m.status.path) [
      | none ↦ unmapped field_not_found
      | some v ↦
          if is_empty m.status.values
          then mapped (vs.print v)
          else elim (value_of (vs.print v) m.status.values) [
            | none ↦ unmapped no_value
            | some status ↦ mapped status
          ]
    ]

-- `m[key] = v`, a new key at the end
unfoldable pub put : String → Json → Fields → Fields
put key v end = field key v end
put key v (field k w fs) =
    let rest = put key v fs in if str_eq k key then field key v fs else field k w rest

-- `ExtractMeta`. No configuration gives nil, which reads as an empty map.
unfoldable pub extract_meta_into : Fields → List MetaField → Fields → Fields
unfolding get_nested_value put
extract_meta_into meta [] raw = meta
extract_meta_into meta (f ∷ config) raw = elim (get_nested_value raw f.key) [
  | none ↦ extract_meta_into meta config raw
  | some v ↦ extract_meta_into (put f.key v meta) config raw
]

abbrev pub extract_meta : List MetaField → Fields → Fields
extract_meta config raw = extract_meta_into end config raw

-- `IsSuccessStatus` over inclusive ranges
unfoldable pub is_success_status : ℤ → List (ℤ × ℤ) → Bool
is_success_status status ranges =
    if is_empty ranges
    then leb_ℤ (pos 200) status && ltb_ℤ status (pos 300)
    else any (λ (from, to). leb_ℤ from status && leb_ℤ status to) ranges
