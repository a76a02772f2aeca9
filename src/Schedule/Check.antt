-- ===== src/Schedule/Check.antt =====
-- `Check` of internal/service/schedule.go: a schedule with no expression never denies.
use gaty.Prelude.{String, Option, none, some, if◌then◌else◌}
use gaty.Errors.{Result, ok, err, wrap, schedule_denied}
use gaty.Schedule.{AccessSchedule, ExprNode}
use gaty.Schedule.Clock.{Now}
use gaty.Schedule.Expr.{eval_expr}

check_expr : Option ExprNode → String → Now → Result (Unit {0})
check_expr none name now = ok tt
check_expr (some e) name now = if eval_expr e now then ok tt else err (wrap name schedule_denied)

unfoldable pub check : AccessSchedule → Now → Result (Unit {0})
unfolding check_expr
check schedule now = check_expr schedule.expr schedule.name now
