-- ===== src/Schedule/Windows.antt =====
-- The recurring windows of internal/service/schedule.go, against walking forward round the clock,
-- the week, the month and the year.
use gaty.Prelude.{
  ℕ, ◌+◌, ◌-◌, ◌*◌, ◌%◌, ◌<◌, ◌≤◌, ◌≡◌, ◌↔◌, ◌⊎◌, some, List, [], ◌∷◌, true, Any, any, eqb_ℤ, ℤ,
  pos, ltb, leb, arith, if◌then◌else◌, Bool-cases, leb_iff, inl, inr,
}
use native.Mathlib.Nat.{mod-eq_of_lt, add-mod_right}
use gaty.Schedule.{ScheduleRule}
use gaty.Schedule.Clock.{Now, IsCivil, parse_hhmm}
use gaty.Schedule.Parse.{parse_hhmm-ne-empty, parse_hhmm-IsTimeOfDay}
use gaty.Schedule.Rule.{
  in_minutes, in_window, matches_time_range, matches_weekdays_range, matches_day_of_month_range,
  matches_month_range,
}

-- The steps from `a` forward to `b` on a circle of `n` places.
abbrev pub forward : ℕ → ℕ → ℕ → ℕ
forward n a b = (b + n - a) % n

-- the minutes of a clock reading
abbrev pub minutes : ℕ × ℕ → ℕ
minutes t = t.0 * 60 + t.1

-- `x` is one of the `n` places that start at `lo`.
abbrev Within : ℕ → ℕ → ℕ → Type 0
Within lo n x = (lo ≤ x) × (x < lo + n)

-- On places that lie within one turn, forward steps are a difference, with one turn more if the
-- walk passes the origin.
forward-eq_ite :
    (n lo a b : ℕ)
    → Within lo n a
    → Within lo n b
    → forward n a b ≡ (if leb a b then b - a else b + n - a)
forward-eq_ite n lo a b ha hb = elim (Bool-cases (leb a b)) [
  | inl p ↦
      let a-le-b : a ≤ b = (leb_iff a b).0 p in
      let turned : b + n - a ≡ (b - a) + n = omega arith in
      rw (p, turned, add-mod_right) (mod-eq_of_lt (omega arith))
  | inr p ↦ rw p (mod-eq_of_lt (ground arith))
]

in_minutes_cyclic :
    (s e x : ℕ)
    → s < 1440
    → e < 1440
    → x < 1440
    → in_minutes s e x ≡ ltb (forward 1440 s x) (forward 1440 s e)
unfolding in_minutes
in_minutes_cyclic s e x hs he hx =
    ground (arith, forward-eq_ite 1440 0 s x, forward-eq_ite 1440 0 s e)

in_window_cyclic :
    (n lo s e x : ℕ)
    → Within lo n s
    → Within lo n e
    → Within lo n x
    → in_window (pos s) (pos e) (pos x) ≡ leb (forward n s x) (forward n s e)
unfolding in_window
in_window_cyclic n lo s e x hs he hx =
    ground (arith, forward-eq_ite n lo s x, forward-eq_ite n lo s e)

-- No day filter, or today's weekday is among the days.
abbrev pub AllowsDay : List ℤ → ℕ → Type 0
AllowsDay days today = (days ≡ []) ⊎ Any (λ d. d ≡ pos today) days

any-eqb_iff : (days : List ℤ) (d : ℤ) → (any (λ x. eqb_ℤ x d) days ≡ true) ↔ Any (λ x. x ≡ d) days
any-eqb_iff [] d = (λ h. cc, λ h. absurd h)
any-eqb_iff (x ∷ xs) d = ground (arith, any-eqb_iff xs d)

-- A time window between two clock texts that parse holds exactly when the day filter allows today
-- and, walking forward round the clock from the start, the present minute comes before the end:
-- the end is left out, and a window over midnight wraps.
pub time_range_cyclic :
    (r : ScheduleRule) (now : Now) (s e : ℕ × ℕ)
    → IsCivil now
    → parse_hhmm r.start_time ≡ some s
    → parse_hhmm r.end_time ≡ some e
    → (matches_time_range r now ≡ true)
      ↔ AllowsDay r.days now.weekday
        × (forward 1440 (minutes s) (now.hour * 60 + now.minute)
            < forward 1440 (minutes s) (minutes e))
unfolding matches_time_range
time_range_cyclic r now s e c ps pe =
    rw (parse_hhmm-ne-empty r.start_time s ps, parse_hhmm-ne-empty r.end_time e pe, ps, pe)
      (ground (
        arith,
        any-eqb_iff r.days (pos now.weekday),
        parse_hhmm-IsTimeOfDay r.start_time s ps,
        parse_hhmm-IsTimeOfDay r.end_time e pe,
        in_minutes_cyclic (minutes s) (minutes e) (now.hour * 60 + now.minute),
      ))

cyclic :
    (n lo s e x : ℕ)
    → Within lo n s
    → Within lo n e
    → Within lo n x
    → (in_window (pos s) (pos e) (pos x) ≡ true) ↔ (forward n s x ≤ forward n s e)
cyclic n lo s e x hs he hx = rw (in_window_cyclic n lo s e x hs he hx) (leb_iff _ _)

-- A weekday window, with bounds in the range that validation asks for, holds what is reached from
-- its start no later than its end, round the week.
pub weekdays_range_cyclic :
    (r : ScheduleRule) (now : Now) (s e : ℕ)
    → IsCivil now
    → r.start_day ≡ some (pos s)
    → r.end_day ≡ some (pos e)
    → s < 7
    → e < 7
    → (matches_weekdays_range r now ≡ true) ↔ (forward 7 s now.weekday ≤ forward 7 s e)
unfolding matches_weekdays_range
weekdays_range_cyclic r now s e c ps pe hs he =
    rw (ps, pe) (cyclic 7 0 s e now.weekday (omega arith) (omega arith) (omega arith))

-- A day-of-month window, with bounds from 1 to 31, holds the days that are reached from its start no
-- later than its end, round thirty-one days.
pub day_of_month_range_cyclic :
    (r : ScheduleRule) (now : Now) (s e : ℕ)
    → IsCivil now
    → r.start_dom ≡ some (pos s)
    → r.end_dom ≡ some (pos e)
    → (1 ≤ s) × (s ≤ 31)
    → (1 ≤ e) × (e ≤ 31)
    → (matches_day_of_month_range r now ≡ true) ↔ (forward 31 s now.day ≤ forward 31 s e)
unfolding matches_day_of_month_range
day_of_month_range_cyclic r now s e c ps pe hs he =
    rw (ps, pe) (cyclic 31 1 s e now.day (omega arith) (omega arith) (omega arith))

-- A month window, with bounds from 1 to 12, holds the months that are reached from its start no later
-- than its end, round the year.
pub month_range_cyclic :
    (r : ScheduleRule) (now : Now) (s e : ℕ)
    → IsCivil now
    → r.start_month ≡ some (pos s)
    → r.end_month ≡ some (pos e)
    → (1 ≤ s) × (s ≤ 12)
    → (1 ≤ e) × (e ≤ 12)
    → (matches_month_range r now ≡ true) ↔ (forward 12 s now.month ≤ forward 12 s e)
unfolding matches_month_range
month_range_cyclic r now s e c ps pe hs he =
    rw (ps, pe) (cyclic 12 1 s e now.month (omega arith) (omega arith) (omega arith))
