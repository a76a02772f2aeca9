-- ===== src/Schedule/Rule.antt =====
-- internal/service/schedule.go: the single rules, validated and matched.
use gaty.Prelude.{
  ℕ, ◌+◌, ◌*◌, String, Option, none, some, List, [], ◌∷◌, Bool, true, false, not, ◌&&◌, ◌||◌, ℤ,
  pos, ltb_ℤ, leb_ℤ, eqb_ℤ, leb, ltb, str_eq, codes, any, is_empty, if◌then◌else◌,
}
use gaty.Schedule.{ScheduleRule}
use gaty.Schedule.Clock.{Now, parse_hhmm, format_date, lex_leb}

-- The errors of `validateRule`; the path is added by the caller.
pub data RuleError : Type 0 where
  invalid_start_time invalid_end_time : String → RuleError
  invalid_day : ℤ → RuleError
  weekdays_missing weekdays_range dates_missing dates_order : RuleError
  dom_missing dom_range months_missing months_range : RuleError
  unknown_type : String → RuleError

abbrev outside : ℤ → ℤ → ℤ → Bool
outside lo hi d = ltb_ℤ d lo || ltb_ℤ hi d

-- a clock text that is not empty must parse
validate_clock : String → RuleError → Option RuleError
validate_clock s e =
    if str_eq s "" then none else elim (parse_hhmm s) [ none ↦ some e | some _ ↦ none ]

validate_days : List ℤ → Option RuleError
validate_days [] = none
validate_days (d ∷ ds) =
    let rest = validate_days ds in if outside (pos 0) (pos 6) d then some (invalid_day d) else rest

-- the first error of a sequence of checks
abbrev pub orelse {ℓ} : {E : Type ℓ} → Option E → Option E → Option E
orelse none next = next
orelse (some e) next = some e

-- a pair of optional bounds that must both be given and lie in a range
validate_bounds : Option ℤ → Option ℤ → ℤ → ℤ → RuleError → RuleError → Option RuleError
validate_bounds none _ lo hi missing range = some missing
validate_bounds (some _) none lo hi missing range = some missing
validate_bounds (some s) (some e) lo hi missing range =
    if outside lo hi s || outside lo hi e then some range else none

validate_time_range : ScheduleRule → Option RuleError
unfolding validate_clock validate_days
validate_time_range r =
    orelse (validate_clock r.start_time (invalid_start_time r.start_time))
      (orelse (validate_clock r.end_time (invalid_end_time r.end_time)) (validate_days r.days))

validate_date_range : ScheduleRule → Option RuleError
validate_date_range r =
    if str_eq r.start_date "" || str_eq r.end_date ""
    then some dates_missing
    else if lex_leb (codes r.start_date) (codes r.end_date)
    then none
    else some dates_order

-- `validateRule`
unfoldable pub validate_rule : ScheduleRule → Option RuleError
unfolding validate_time_range validate_bounds validate_date_range
validate_rule r =
    if str_eq r.type "time_range"
    then validate_time_range r
    else if str_eq r.type "weekdays_range"
    then validate_bounds r.start_day r.end_day (pos 0) (pos 6) weekdays_missing weekdays_range
    else if str_eq r.type "date_range"
    then validate_date_range r
    else if str_eq r.type "day_of_month_range"
    then validate_bounds r.start_dom r.end_dom (pos 1) (pos 31) dom_missing dom_range
    else if str_eq r.type "month_range"
    then validate_bounds r.start_month r.end_month (pos 1) (pos 12) months_missing months_range
    else some (unknown_type r.type)

-- `nowMins >= startMins && nowMins < endMins`, or the window over midnight
unfoldable pub in_minutes : ℕ → ℕ → ℕ → Bool
in_minutes start_mins end_mins now_mins =
    if leb start_mins end_mins
    then leb start_mins now_mins && ltb now_mins end_mins
    else leb start_mins now_mins || ltb now_mins end_mins

clock_window : Option (ℕ × ℕ) → Option (ℕ × ℕ) → ℕ → Bool
unfolding in_minutes
clock_window none _ now_mins = false
clock_window (some _) none now_mins = false
clock_window (some s) (some e) now_mins = in_minutes (s.0 * 60 + s.1) (e.0 * 60 + e.1) now_mins

-- `matchesTimeRange`
unfoldable pub matches_time_range : ScheduleRule → Now → Bool
unfolding clock_window
matches_time_range r now =
    if not (is_empty r.days) && not (any (λ d. eqb_ℤ d (pos now.weekday)) r.days)
    then false
    else if str_eq r.start_time "" || str_eq r.end_time ""
    then true
    else clock_window (parse_hhmm r.start_time) (parse_hhmm r.end_time) (now.hour * 60 + now.minute)

-- the test that the weekday, day-of-month and month windows share
unfoldable pub in_window : ℤ → ℤ → ℤ → Bool
in_window start end x =
    if leb_ℤ start end then leb_ℤ start x && leb_ℤ x end else leb_ℤ start x || leb_ℤ x end

bounds_window : Option ℤ → Option ℤ → ℕ → Bool
unfolding in_window
bounds_window none _ x = false
bounds_window (some _) none x = false
bounds_window (some s) (some e) x = in_window s e (pos x)

-- `matchesWeekdaysRange`
unfoldable pub matches_weekdays_range : ScheduleRule → Now → Bool
unfolding bounds_window
matches_weekdays_range r now = bounds_window r.start_day r.end_day now.weekday

-- `matchesDateRange`
unfoldable pub matches_date_range : ScheduleRule → Now → Bool
matches_date_range r now =
    if str_eq r.start_date "" || str_eq r.end_date ""
    then false
    else let today = format_date now.year now.month now.day in
      lex_leb (codes r.start_date) today && lex_leb today (codes r.end_date)

-- `matchesDayOfMonthRange`
unfoldable pub matches_day_of_month_range : ScheduleRule → Now → Bool
unfolding bounds_window
matches_day_of_month_range r now = bounds_window r.start_dom r.end_dom now.day

-- `matchesMonthRange`
unfoldable pub matches_month_range : ScheduleRule → Now → Bool
unfolding bounds_window
matches_month_range r now = bounds_window r.start_month r.end_month now.month

-- `scheduleRuleMatches`
unfoldable pub schedule_rule_matches : ScheduleRule → Now → Bool
schedule_rule_matches r now =
    if str_eq r.type "time_range"
    then matches_time_range r now
    else if str_eq r.type "weekdays_range"
    then matches_weekdays_range r now
    else if str_eq r.type "date_range"
    then matches_date_range r now
    else if str_eq r.type "day_of_month_range"
    then matches_day_of_month_range r now
    else if str_eq r.type "month_range"
    then matches_month_range r now
    else false
