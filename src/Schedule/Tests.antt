-- ===== src/Schedule/Tests.antt =====
-- Runs of internal/service/schedule.go on concrete schedules, and the theorems on them.
use gaty.Prelude.{
  ◌≡◌, ◌↔◌, ◌<◌, ◌+◌, ◌*◌, refl, String, none, some, [], ◌∷◌, true, false, pos, arith, All,
}
use gaty.Schedule.{ScheduleRule, ExprNode, ExprNodes, node, cons, nil}
use gaty.Schedule.Clock.{Now, IsCivil, parse_hhmm}
use gaty.Schedule.Rule.{
  matches_time_range, matches_weekdays_range, schedule_rule_matches, validate_rule,
}
use gaty.Schedule.Expr.{eval_expr, validate_expr}
use gaty.Schedule.Windows.{forward, minutes, AllowsDay, time_range_cyclic}
use gaty.Schedule.Dates.{Date, IsPrintable}
use gaty.Schedule.Meaning.{IsWellFormed, Holds, validate_expr_iff}
use gaty.Schedule.Store.{Schedules, find_schedule}
use gaty.Schedule.Handlers as Handlers
use gaty.Schedule.Stored.{
  IsValid, here, after, creates_mine, deletes, Reach-IsValid, update_mine-others,
}
use gaty.Access.{Identity}
use gaty.Trigger.{member}
use gaty.Schedule.Truth.{validated_means, negate}

-- Saturday 3 January 2026, 23:30
abbrev late : Now
late = record { year = 2026; month = 1; day = 3; weekday = 6; hour = 23; minute = 30 }

late-IsCivil : IsCivil late
late-IsCivil = record {
  year_lt = omega arith;
  month_pos = omega arith;
  month_le = omega arith;
  day_pos = omega arith;
  day_le = omega arith;
  weekday_lt = omega arith;
  hour_lt = omega arith;
  minute_lt = omega arith;
}

-- windows over midnight, over the weekend, over the end of the month and over New Year
abbrev rule : String → ScheduleRule
rule type = record {
  type = type;
  days = pos 0 ∷ pos 6 ∷ [];
  start_time = "22:00";
  end_time = "06:00";
  start_day = some (pos 5);
  end_day = some (pos 1);
  start_date = "2025-12-24";
  end_date = "2026-01-06";
  start_dom = some (pos 28);
  end_dom = some (pos 5);
  start_month = some (pos 11);
  end_month = some (pos 2);
}

parse_hhmm_example : parse_hhmm "22:00" ≡ some (22, 0)
unfolding parse_hhmm
parse_hhmm_example = refl

loose_hhmm_example : parse_hhmm "+9:5" ≡ some (9, 5)
unfolding parse_hhmm
loose_hhmm_example = refl

early_hhmm_example : parse_hhmm "06:00" ≡ some (6, 0)
unfolding parse_hhmm
early_hhmm_example = refl

bad_hhmm_example : parse_hhmm "24:00" ≡ none
unfolding parse_hhmm
bad_hhmm_example = refl

time_range_cyclic_example :
    (matches_time_range (rule "time_range") late ≡ true)
    ↔ AllowsDay (rule "time_range").days late.weekday
      × (forward 1440 (minutes (22, 0)) (late.hour * 60 + late.minute)
          < forward 1440 (minutes (22, 0)) (minutes (6, 0)))
time_range_cyclic_example =
    time_range_cyclic (rule "time_range") late (22, 0) (6, 0) late-IsCivil parse_hhmm_example
      early_hhmm_example

abbrev christmas_eve : Date
christmas_eve = record { year = 2025; month = 12; day = 24 }

abbrev epiphany : Date
epiphany = record { year = 2026; month = 1; day = 6 }

christmas_eve-IsPrintable : IsPrintable christmas_eve
christmas_eve-IsPrintable = record {
  year_lt = omega arith;
  month_lt = omega arith;
  day_lt = omega arith;
}

epiphany-IsPrintable : IsPrintable epiphany
epiphany-IsPrintable = record {
  year_lt = omega arith;
  month_lt = omega arith;
  day_lt = omega arith;
}

abbrev leaf : String → ExprNode
leaf type = node "rule" nil (some (rule type))

-- by night, and not on a weekend
abbrev tree : ExprNode
tree = node "and" (cons (leaf "time_range") (cons (negate (leaf "weekdays_range")) nil)) none

tree_example : validate_expr tree [] ≡ none
unfolding validate_expr validate_rule parse_hhmm
tree_example = refl

eval_expr_example : eval_expr tree late ≡ false
unfolding eval_expr schedule_rule_matches matches_time_range parse_hhmm matches_weekdays_range
eval_expr_example = refl

validate_expr_iff_example : (validate_expr tree [] ≡ none) ↔ IsWellFormed tree
validate_expr_iff_example = validate_expr_iff tree []

validated_means_example :
    (w : IsWellFormed tree) × ((now : Now) → (eval_expr tree now ≡ true) ↔ Holds w now)
validated_means_example = validated_means tree tree_example

abbrev leaves : ExprNodes
leaves = cons (leaf "time_range") (cons (leaf "month_range") nil)

abbrev input : Handlers.ScheduleInput
input = record { name = "nights"; description = none; expr = some tree }

abbrev caller : Identity
caller = record { member_id = 7; role = some member; credential_id = 0 }

abbrev stored : Schedules
stored = Handlers.new_row 3 0 (some 8) input ∷ []

-- a schedule is created for the caller and one of the administrator's deleted
Reach-IsValid_example :
    All IsValid (Handlers.delete 3 (Handlers.create_mine (7 ∷ []) 4 0 caller input stored).0).0
Reach-IsValid_example =
    Reach-IsValid ((validate_expr_iff tree []).0 tree_example, tt)
      (after (after here (creates_mine (7 ∷ []) 4 0 caller input)) (deletes 3))

update_mine-others_example :
    (find_schedule 3 (Handlers.update_mine caller 3 input stored).0
      ≡ some (Handlers.new_row 3 0 (some 8) input))
    × (find_schedule 3 (Handlers.delete_mine caller 3 stored).0
        ≡ some (Handlers.new_row 3 0 (some 8) input))
unfolding find_schedule
update_mine-others_example =
    update_mine-others caller 3 3 input stored (Handlers.new_row 3 0 (some 8) input) refl refl
