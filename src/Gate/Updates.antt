-- ===== src/Gate/Updates.antt =====
-- The updates of a gate's status: internal/model/gate.go, internal/service/gate_status.go and
-- internal/service/gate_ttl.go.
use gaty.Prelude.{
  ℕ, ◌≡◌, ◌↔◌, inl, inr, refl, String, none, some, List, [], ◌∷◌, ◌++◌, map, Bool, true, false,
  ◌&&◌, All, keep, ℤ, if◌then◌else◌, arith, Bool-cases, Option-cases, sym, ap, ◌∙◌,
}
use mathlib.Core.Path.{subst}
use gaty.Json.{Fields}
use gaty.Gate.{Gate, StatusRule}
use gaty.Gate.Status.{Values, applies, evaluate_status_rules}
use gaty.Gate.Validation.{valid, validate_status_rules}
use gaty.Gate.Accepted.{IsStatus, IsRule, validate_status_rules_iff}
use gaty.Gate.Table.{
  with_status, is_expired, mark, mark_unresponsive, final_status, is_past, coalesce,
}

-- The rule is the first of the list that applies.
abbrev pub IsFirst : Values → Fields → List StatusRule → StatusRule → Type 0
IsFirst vs meta rules rule =
    (before : List StatusRule) × (after : List StatusRule) × (rules ≡ before ++ rule ∷ after)
    × All (λ r. applies vs meta r ≡ false) before
    × (applies vs meta rule ≡ true)

-- Rules before the first that applies are passed over.
evaluate-first :
    (vs : Values) (meta : Fields) (before after : List StatusRule) (rule : StatusRule)
    → All (λ r. applies vs meta r ≡ false) before
    → applies vs meta rule ≡ true
    → evaluate_status_rules vs (before ++ rule ∷ after) meta ≡ some rule.set_status
unfolding evaluate_status_rules
evaluate-first vs meta [] after rule none_before applied = rw applied
evaluate-first vs meta (r ∷ before) after rule (off, none_before) applied =
    let later = evaluate-first vs meta before after rule none_before applied in rw (off, later)

evaluate-IsFirst :
    (vs : Values) (meta : Fields) (rules : List StatusRule) (s : String)
    → evaluate_status_rules vs rules meta ≡ some s
    → (rule : StatusRule) × IsFirst vs meta rules rule × (rule.set_status ≡ s)
unfolding evaluate_status_rules
evaluate-IsFirst vs meta [] s h = absurd (cc)
evaluate-IsFirst vs meta (r ∷ rules) s h = elim (Bool-cases (applies vs meta r)) [
  | inl on ↦ (r, ([], rules, refl, tt, on), ground arith)
  | inr off ↦
      let (rule, (before, after, split, none_before, applied), same) =
        evaluate-IsFirst vs meta rules s (ground arith) in
      (rule, (r ∷ before, after, ap (λ rs. r ∷ rs) split, (off, none_before), applied), same)
]

-- The rules set a status exactly when it is that of the first rule that applies.
pub evaluate_status_rules_iff :
    (vs : Values) (meta : Fields) (rules : List StatusRule) (s : String)
    → (evaluate_status_rules vs rules meta ≡ some s)
      ↔ ((rule : StatusRule) × IsFirst vs meta rules rule × (rule.set_status ≡ s))
evaluate_status_rules_iff vs meta rules s = (
  evaluate-IsFirst vs meta rules s,
  λ (rule, (before, after, split, none_before, applied), same).
      let found = evaluate-first vs meta before after rule none_before applied in
      subst (λ rs. evaluate_status_rules vs rs meta ≡ some s) (sym split) (found ∙ ap some same),
)

evaluate-IsStatus :
    (vs : Values) (meta : Fields) (custom : List String) (rules : List StatusRule)
    → All (IsRule custom) rules
    → (s : String) → evaluate_status_rules vs rules meta ≡ some s
    → IsStatus custom s
unfolding evaluate_status_rules
evaluate-IsStatus vs meta custom [] rs s h = absurd (cc)
evaluate-IsStatus vs meta custom (r ∷ rules) ((_, _, _, known), rs) s h =
    elim (Bool-cases (applies vs meta r)) [
      | inl on ↦ let same : r.set_status ≡ s = ground arith in subst (IsStatus custom) same known
      | inr off ↦ evaluate-IsStatus vs meta custom rules rs s (ground arith)
    ]

-- Rules that were accepted never turn a known status into an unknown one.
pub final_status-IsStatus :
    (vs : Values) (gate : Gate) (raw : String) (meta : Fields)
    → validate_status_rules gate.status_rules gate.custom_statuses ≡ valid
    → IsStatus gate.custom_statuses raw
    → IsStatus gate.custom_statuses (final_status vs gate raw meta)
unfolding final_status
final_status-IsStatus vs gate raw meta accepted known =
    elim (Option-cases (evaluate_status_rules vs gate.status_rules meta)) [
      | inl unset ↦
          let same : final_status vs gate raw meta ≡ raw = ground arith in
          subst (IsStatus gate.custom_statuses) (sym same) known
      | inr (s, set) ↦
          let rules =
            (validate_status_rules_iff gate.status_rules gate.custom_statuses).0 accepted in
          let same : final_status vs gate raw meta ≡ s = ground arith in
          subst (IsStatus gate.custom_statuses) (sym same)
            (evaluate-IsStatus vs meta gate.custom_statuses gate.status_rules rules s set)
    ]

cleared :
    (now : ℕ) (default : ℤ) (g : Gate)
    → is_expired now default (with_status "unresponsive" g.last_seen_at g.status_metadata g) ≡ false
unfolding is_expired with_status
cleared now default g =
    elim g.last_seen_at
      as (λ seen.
        (elim seen as (λ _. Bool) [
          | none ↦ false
          | some t ↦ is_past t (coalesce g.ttl_seconds default) now && false
        ])
        ≡ false) [ none ↦ refl | some t ↦ ground arith ]

mark-fixed :
    (now : ℕ) (default : ℤ) (g : Gate) → is_expired now default g ≡ false → mark now default g ≡ g
unfolding mark
mark-fixed now default g early = rw early

marked-fresh :
    (now : ℕ) (default : ℤ) (g : Gate) → is_expired now default (mark now default g) ≡ false
unfolding mark
marked-fresh now default g = elim (Bool-cases (is_expired now default g)) [
  | inl late ↦
      let e : mark now default g ≡ with_status "unresponsive" g.last_seen_at g.status_metadata g =
        rw late in
      subst (λ h. is_expired now default h ≡ false) (sym e) (cleared now default g)
  | inr early ↦
      subst (λ h. is_expired now default h ≡ false) (sym (mark-fixed now default g early)) early
]

mark-again :
    (now : ℕ) (default : ℤ) (gates : List Gate)
    → (map (mark now default) (map (mark now default) gates) ≡ map (mark now default) gates)
      × (keep (is_expired now default) (map (mark now default) gates) ≡ [])
mark-again now default [] = (refl, refl)
mark-again now default (g ∷ gates) =
    let fresh = marked-fresh now default g in
    let (same, none_left) = mark-again now default gates in
    (
      rw (mark-fixed now default (mark now default g) fresh, same),
      ap
            (λ b.
              if b
              then mark now default g ∷ keep (is_expired now default) (map (mark now default) gates)
              else keep (is_expired now default) (map (mark now default) gates))
            fresh
          ∙ none_left,
    )

-- Marking again at the same instant changes nothing and names no gate.
pub mark_unresponsive-again :
    (now : ℕ) (default : ℤ) (gates : List Gate)
    → mark_unresponsive now default (mark_unresponsive now default gates).0
      ≡ ((mark_unresponsive now default gates).0, [])
unfolding mark_unresponsive
mark_unresponsive-again now default gates =
    let (same, none_left) = mark-again now default gates in rw (same, none_left)
