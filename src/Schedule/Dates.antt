-- ===== src/Schedule/Dates.antt =====
-- The date windows of internal/service/schedule.go: comparing "YYYY-MM-DD" texts is comparing dates.
use gaty.Prelude.{
  ℕ, ◌/◌, ◌%◌, ◌<◌, ◌≤◌, ◌≡◌, refl, ap, ◌∙◌, Bool, ◌⊎◌, ◌↔◌, String, List, [], ◌∷◌, arith, codes,
  str_eq, true, false, eq_iff, Bool-cases, inl, inr, ltb, ◌==◌, ◌||◌, ◌&&◌,
}
use mathlib.Core.Path.{ap₂}
use gaty.Schedule.{ScheduleRule}
use gaty.Schedule.Clock.{Now, IsCivil, digit, format_date, lex_leb}
use gaty.Schedule.Rule.{matches_date_range}

pub record Date : Type 0 where
  pub year : ℕ
  pub month : ℕ
  pub day : ℕ

-- A date that prints as ten characters.
pub record IsPrintable (d : Date) : Type 0 where
  pub year_lt : d.year < 10000
  pub month_lt : d.month < 100
  pub day_lt : d.day < 100

abbrev pub print : Date → List ℕ
print d = format_date d.year d.month d.day

abbrev pub today : Now → Date
today now = record { year = now.year; month = now.month; day = now.day }

-- The order of the calendar.
infix 50 ◌≼◌
abbrev pub ◌≼◌ : Date → Date → Type 0
a ≼ b =
    (a.year < b.year)
    ⊎ ((a.year ≡ b.year) × ((a.month < b.month) ⊎ ((a.month ≡ b.month) × (a.day ≤ b.day))))

lex_two_digits :
    (a b : ℕ) (s t : List ℕ)
    → a < 100
    → b < 100
    → lex_leb (digit (a / 10) ∷ digit a ∷ s) (digit (b / 10) ∷ digit b ∷ t)
      ≡ (ltb a b || a == b && lex_leb s t)
unfolding lex_leb
lex_two_digits a b s t ha hb = ground arith

-- the two halves of a year
century-digits :
    (a : ℕ)
    → (digit (a / 1000) ≡ digit (a / 100 / 10))
      × (digit (a / 10) ≡ digit (a % 100 / 10))
      × (digit a ≡ digit (a % 100))
century-digits a = omega arith

split_century :
    (a b : ℕ) (rest : Bool)
    → (ltb (a / 100) (b / 100)
        || a / 100 == b / 100 && (ltb (a % 100) (b % 100) || a % 100 == b % 100 && rest))
      ≡ (ltb a b || a == b && rest)
split_century a b true = ground arith
split_century a b false = ground arith

lex_four_digits :
    (a b : ℕ) (s t : List ℕ)
    → a < 10000
    → b < 10000
    → lex_leb
        (digit (a / 1000) ∷ digit (a / 100) ∷ digit (a / 10) ∷ digit a ∷ s)
        (digit (b / 1000) ∷ digit (b / 100) ∷ digit (b / 10) ∷ digit b ∷ t)
      ≡ (ltb a b || a == b && lex_leb s t)
lex_four_digits a b s t ha hb =
    let (a1, a2, a3) = century-digits a in
    let (b1, b2, b3) = century-digits b in
    ap₂ lex_leb (λ i. a1 i ∷ digit (a / 100) ∷ a2 i ∷ a3 i ∷ s)
      (λ i. b1 i ∷ digit (b / 100) ∷ b2 i ∷ b3 i ∷ t)
    ∙ lex_two_digits (a / 100) (b / 100) _ _ (omega arith) (omega arith)
    ∙ ap (λ v. ltb (a / 100) (b / 100) || a / 100 == b / 100 && v)
        (lex_two_digits (a % 100) (b % 100) s t (omega arith) (omega arith))
    ∙ split_century a b (lex_leb s t)

lex_same : (c : ℕ) (s t : List ℕ) → lex_leb (c ∷ s) (c ∷ t) ≡ lex_leb s t
unfolding lex_leb
lex_same c s t = ground arith

lex_nil : lex_leb [] [] ≡ true
unfolding lex_leb
lex_nil = refl

lex-print :
    (a b : Date)
    → IsPrintable a
    → IsPrintable b
    → lex_leb (print a) (print b) ≡ (
        ltb a.year b.year
        || a.year == b.year
          && (ltb a.month b.month
              || a.month == b.month && (ltb a.day b.day || a.day == b.day && true)))
unfolding format_date
lex-print a b pa pb = rw (
  lex_four_digits a.year b.year _ _ pa.year_lt pb.year_lt,
  lex_same b'-' _ _,
  lex_two_digits a.month b.month _ _ pa.month_lt pb.month_lt,
  lex_same b'-' _ _,
  lex_two_digits a.day b.day _ _ pa.day_lt pb.day_lt,
  lex_nil,
)

-- Texts of dates compare as the dates do.
pub lex-print_iff :
    (a b : Date) → IsPrintable a → IsPrintable b → (lex_leb (print a) (print b) ≡ true) ↔ (a ≼ b)
lex-print_iff a b pa pb = rw (lex-print a b pa pb) (ground arith)

str-ne-empty_of_print : (s : String) (d : Date) → codes s ≡ print d → str_eq s "" ≡ false
unfolding format_date
str-ne-empty_of_print s d h = elim (Bool-cases (str_eq s "")) [
  | inl p ↦ cc (rw ((eq_iff s "").0 p) at h)
  | inr q ↦ q
]

-- A date window whose bounds are texts of the form "YYYY-MM-DD" holds exactly on the dates from the
-- first bound to the last, both included.
pub date_range_chronological :
    (r : ScheduleRule) (now : Now) (from until : Date)
    → IsCivil now
    → IsPrintable from
    → IsPrintable until
    → codes r.start_date ≡ print from
    → codes r.end_date ≡ print until
    → (matches_date_range r now ≡ true) ↔ (from ≼ today now) × (today now ≼ until)
unfolding matches_date_range
date_range_chronological r now from until c pf pu ef eu =
    rw
      (
        str-ne-empty_of_print r.start_date from ef,
        str-ne-empty_of_print r.end_date until eu,
        ef,
        eu,
      )
      (ground (
        arith,
        lex-print_iff from (today now) pf (omega arith),
        lex-print_iff (today now) until (omega arith) pu,
      ))
