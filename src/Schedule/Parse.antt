-- ===== src/Schedule/Parse.antt =====
-- `parseHHMM` of internal/service/schedule.go: what it returns is a time of day, and it reads back
-- every time of day that is printed as "HH:MM".
use gaty.Prelude.{
  ℕ, ◌/◌, ◌<◌, ◌≡◌, String, some, List, [], ◌∷◌, arith, codes, str_eq, false, eq_iff, Bool-cases,
  inl, inr, ℤ, pos,
}
use gaty.Prelude.Options.{◌>>=◌, >>=-eq-some}
use gaty.Schedule.Clock.{
  digit, split_colon, atoi, hour_minute, parse_parts, parse_hhmm_codes, parse_hhmm,
}

abbrev pub IsTimeOfDay : ℕ × ℕ → Type 0
IsTimeOfDay t = (t.0 < 24) × (t.1 < 60)

hour_minute-IsTimeOfDay : (h m : ℤ) (t : ℕ × ℕ) → hour_minute h m ≡ some t → IsTimeOfDay t
unfolding hour_minute
hour_minute-IsTimeOfDay h m t e = ground arith

pub parse_hhmm_codes-IsTimeOfDay :
    (s : List ℕ) (t : ℕ × ℕ) → parse_hhmm_codes s ≡ some t → IsTimeOfDay t
unfolding parse_hhmm_codes
parse_hhmm_codes-IsTimeOfDay s t h =
    let (parts, _, k) = >>=-eq-some (split_colon s) parse_parts h in
    let (x, _, k') = >>=-eq-some (atoi parts.0) (λ h. atoi parts.1 >>= hour_minute h) k in
    let (y, _, k'') = >>=-eq-some (atoi parts.1) (hour_minute x) k' in
    hour_minute-IsTimeOfDay x y t k''

pub parse_hhmm-ne-empty : (s : String) (t : ℕ × ℕ) → parse_hhmm s ≡ some t → str_eq s "" ≡ false
unfolding parse_hhmm
parse_hhmm-ne-empty s t h = elim (Bool-cases (str_eq s "")) [
  | inl p ↦ cc (rw ((eq_iff s "").0 p) at h)
  | inr q ↦ q
]

-- Whatever text is read, the time that it gives is a time of day.
pub parse_hhmm-IsTimeOfDay : (s : String) (t : ℕ × ℕ) → parse_hhmm s ≡ some t → IsTimeOfDay t
unfolding parse_hhmm
parse_hhmm-IsTimeOfDay s t h = parse_hhmm_codes-IsTimeOfDay (codes s) t h

-- a clock reading printed as "HH:MM"
abbrev pub format_hhmm : ℕ × ℕ → List ℕ
format_hhmm t = digit (t.0 / 10) ∷ digit t.0 ∷ b':' ∷ digit (t.1 / 10) ∷ digit t.1 ∷ []

atoi-two_digits : (n : ℕ) → n < 100 → atoi (digit (n / 10) ∷ digit n ∷ []) ≡ some (pos n)
unfolding atoi
atoi-two_digits n h = ground arith

split_colon-format_hhmm :
    (t : ℕ × ℕ)
    → split_colon (format_hhmm t)
      ≡ some (digit (t.0 / 10) ∷ digit t.0 ∷ [], digit (t.1 / 10) ∷ digit t.1 ∷ [])
unfolding split_colon
split_colon-format_hhmm t = ground arith

-- A time of day printed as "HH:MM" reads back as itself.
pub parse-format_hhmm : (t : ℕ × ℕ) → IsTimeOfDay t → parse_hhmm_codes (format_hhmm t) ≡ some t
unfolding parse_hhmm_codes hour_minute
parse-format_hhmm t h =
    rw
      (
        split_colon-format_hhmm t,
        atoi-two_digits t.0 (omega arith),
        atoi-two_digits t.1 (omega arith),
      )
      (ground arith)
