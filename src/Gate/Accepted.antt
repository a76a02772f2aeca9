-- ===== src/Gate/Accepted.antt =====
-- What internal/handler/gate_validation.go accepts, as predicates.
use gaty.Prelude.{
  ℕ, ◌+◌, ◌≡◌, ◌≢◌, ◌↔◌, ◌⊎◌, inl, inr, refl, String, List, [], ◌∷◌, Bool, true, false, not, any,
  All, Any, str_eq, eq_iff, pos, ◌≤ℤ◌, leb_ℤ, if◌then◌else◌, arith, Bool-cases,
}
use gaty.Gate.{StatusRule, StatusTransition}
use gaty.Gate.Validation.{
  Reason, same_status, not_positive, unknown_from, unknown_to, empty_key, bad_operator,
  empty_status, unknown_status, empty_name, built_in, duplicate, Verdict, valid, invalid,
  invalid_at, validate_status_transitions, is_blank, is_known, is_operator, default_gate_statuses,
  validate_transitions_from, validate_names, validate_custom_statuses, validate_rules_from,
  validate_status_rules,
}

-- a name among others
abbrev pub Among : String → List String → Type 0
Among s names = Any (λ x. s ≡ x) names

pub any-str_eq_iff :
    (s : String) (names : List String) → (any (str_eq s) names ≡ true) ↔ Among s names
any-str_eq_iff s [] = (λ h. ground arith, λ h. ground arith)
any-str_eq_iff s (x ∷ names) =
    let e = eq_iff s x in
    let (there, back) = any-str_eq_iff s names in
    (
      λ h. elim (Bool-cases (str_eq s x)) [
        | inl same ↦ inl (e.0 same)
        | inr other ↦ inr (there (ground arith))
      ],
      λ h. elim h [
        | inl same ↦ let holds = e.1 same in ground arith
        | inr later ↦ let holds = back later in ground arith
      ],
    )

-- a built-in or a custom status
abbrev pub IsStatus : List String → String → Type 0
IsStatus custom s = Among s default_gate_statuses ⊎ Among s custom

is_known_iff : (custom : List String) (s : String) → (is_known custom s ≡ true) ↔ IsStatus custom s
is_known_iff custom s =
    let built_in = any-str_eq_iff s default_gate_statuses in
    let given = any-str_eq_iff s custom in
    (
      λ h. elim (Bool-cases (any (str_eq s) default_gate_statuses)) [
        | inl holds ↦ inl (built_in.0 holds)
        | inr fails ↦ inr (given.0 (ground arith))
      ],
      λ h. elim h [
        | inl holds ↦ let b = built_in.1 holds in ground arith
        | inr holds ↦ let b = given.1 holds in ground arith
      ],
    )

is_false_iff : {P : Type 0} (b : Bool) → (b ≡ true) ↔ P → (b ≡ false) ↔ (P → ⊥)
is_false_iff b iff = (
  λ h p. let holds = iff.1 p in cc,
  λ fails. elim (Bool-cases b) [ inl holds ↦ absurd (fails (iff.0 holds)) | inr e ↦ e ],
)

-- four guards before the rest
guards_iff :
    (a b c d : Bool) (i : ℕ) (w x y z : Reason) (rest : Verdict)
    → ((if a
          then invalid_at i w
          else if b
          then invalid_at i x
          else if not c
          then invalid_at i y
          else if not d
          then invalid_at i z
          else rest)
        ≡ valid)
      ↔ ((a ≡ false) × (b ≡ false) × (c ≡ true) × (d ≡ true) × (rest ≡ valid))
guards_iff a b c d i w x y z rest = (λ h. ground arith, λ h. ground arith)

abbrev pub IsTransition : List String → StatusTransition → Type 0
IsTransition custom t =
    (t.from ≢ t.to) × (pos 1 ≤ℤ t.after_seconds) × IsStatus custom t.from × IsStatus custom t.to

transitions_from_iff :
    (i : ℕ) (ts : List StatusTransition) (custom : List String)
    → (validate_transitions_from i ts custom ≡ valid) ↔ All (IsTransition custom) ts
unfolding validate_transitions_from
transitions_from_iff i [] custom = (λ h. tt, λ h. refl)
transitions_from_iff i (t ∷ ts) custom =
    let rest = transitions_from_iff (i + 1) ts custom in
    let differ = is_false_iff (str_eq t.from t.to) (eq_iff t.from t.to) in
    let from = is_known_iff custom t.from in
    let to = is_known_iff custom t.to in
    let guards =
      guards_iff (str_eq t.from t.to) (leb_ℤ t.after_seconds (pos 0)) (is_known custom t.from)
        (is_known custom t.to) i same_status not_positive unknown_from unknown_to
        (validate_transitions_from (i + 1) ts custom) in
    (
      λ h.
          let (a, b, c, d, r) = guards.0 h in
          ((differ.0 a, ground arith, from.0 c, to.0 d), rest.0 r),
      λ ((a, b, c, d), r). guards.1 (differ.1 a, ground arith, from.1 c, to.1 d, rest.1 r),
    )

-- The transitions of a gate are accepted exactly when each leads from one known status to another
-- after a positive number of seconds.
pub validate_status_transitions_iff :
    (ts : List StatusTransition) (custom : List String)
    → (validate_status_transitions ts custom ≡ valid) ↔ All (IsTransition custom) ts
validate_status_transitions_iff ts custom = transitions_from_iff 0 ts custom

abbrev pub IsRule : List String → StatusRule → Type 0
IsRule custom r =
    (is_blank r.key ≡ false)
    × (is_operator r.op ≡ true)
    × (is_blank r.set_status ≡ false)
    × IsStatus custom r.set_status

rule_guards_iff :
    (a b c d : Bool) (i : ℕ) (w x y z : Reason) (rest : Verdict)
    → ((if a
          then invalid_at i w
          else if not b
          then invalid_at i x
          else if c
          then invalid_at i y
          else if not d
          then invalid_at i z
          else rest)
        ≡ valid)
      ↔ ((a ≡ false) × (b ≡ true) × (c ≡ false) × (d ≡ true) × (rest ≡ valid))
rule_guards_iff a b c d i w x y z rest = (λ h. ground arith, λ h. ground arith)

rules_from_iff :
    (i : ℕ) (rules : List StatusRule) (custom : List String)
    → (validate_rules_from i rules custom ≡ valid) ↔ All (IsRule custom) rules
unfolding validate_rules_from
rules_from_iff i [] custom = (λ h. tt, λ h. refl)
rules_from_iff i (r ∷ rules) custom =
    let rest = rules_from_iff (i + 1) rules custom in
    let known = is_known_iff custom r.set_status in
    let guards =
      rule_guards_iff (is_blank r.key) (is_operator r.op) (is_blank r.set_status)
        (is_known custom r.set_status) i empty_key bad_operator empty_status unknown_status
        (validate_rules_from (i + 1) rules custom) in
    (
      λ h. let (a, b, c, d, v) = guards.0 h in ((a, b, c, known.0 d), rest.0 v),
      λ ((a, b, c, d), v). guards.1 (a, b, c, known.1 d, rest.1 v),
    )

-- The rules of a gate are accepted exactly when each has a key that is not blank, an operator, and
-- a known status that is not blank.
pub validate_status_rules_iff :
    (rules : List StatusRule) (custom : List String)
    → (validate_status_rules rules custom ≡ valid) ↔ All (IsRule custom) rules
validate_status_rules_iff rules custom = rules_from_iff 0 rules custom

-- Each name of a list differs from the names before it.
abbrev pub IsFresh : List String → List String → Type 0
IsFresh seen [] = Unit
IsFresh seen (s ∷ names) = (Among s seen → ⊥) × IsFresh (s ∷ seen) names

abbrev pub IsCustom : String → Type 0
IsCustom s = (is_blank s ≡ false) × (Among s default_gate_statuses → ⊥)

name_guards_iff :
    (a b c : Bool) (rest : Verdict)
    → ((if a
          then invalid empty_name
          else if b
          then invalid built_in
          else if c
          then invalid duplicate
          else rest)
        ≡ valid)
      ↔ ((a ≡ false) × (b ≡ false) × (c ≡ false) × (rest ≡ valid))
name_guards_iff a b c rest = (λ h. ground arith, λ h. ground arith)

names_iff :
    (seen names : List String)
    → (validate_names seen names ≡ valid) ↔ (All IsCustom names × IsFresh seen names)
unfolding validate_names
names_iff seen [] = (λ h. (tt, tt), λ h. refl)
names_iff seen (s ∷ names) =
    let rest = names_iff (s ∷ seen) names in
    let not_default =
      is_false_iff (any (str_eq s) default_gate_statuses)
        (any-str_eq_iff s default_gate_statuses) in
    let not_seen = is_false_iff (any (str_eq s) seen) (any-str_eq_iff s seen) in
    let guards =
      name_guards_iff (is_blank s) (any (str_eq s) default_gate_statuses) (any (str_eq s) seen)
        (validate_names (s ∷ seen) names) in
    (
      λ h.
          let (a, b, c, v) = guards.0 h in
          let (alls, fresh) = rest.0 v in (((a, not_default.0 b), alls), (not_seen.0 c, fresh)),
      λ (((a, b), alls), (c, fresh)).
          guards.1 (a, not_default.1 b, not_seen.1 c, rest.1 (alls, fresh)),
    )

-- The custom statuses of a gate are accepted exactly when none is blank or built in and none
-- repeats one before it.
pub validate_custom_statuses_iff :
    (names : List String)
    → (validate_custom_statuses names ≡ valid) ↔ (All IsCustom names × IsFresh [] names)
validate_custom_statuses_iff names = names_iff [] names
