-- ===== src/Schedule/Expr.antt =====
-- internal/service/schedule.go: expression trees, evaluated and validated. The loops over the
-- children run over the list of the children's results; evaluation and validation are pure, so
-- the early `return` of the loops is not observable.
use gaty.Prelude.{
  ℕ, suc, ◌+◌, String, Option, none, some, List, [], ◌∷◌, ◌++◌, Bool, true, false, not, ◌||◌, ltb,
  ◌==◌, str_eq, if◌then◌else◌,
}
use gaty.Schedule.{ScheduleRule, ExprNode, node, ExprNodes, nil, cons}
use gaty.Schedule.Clock.{Now}
use gaty.Schedule.Rule.{RuleError, orelse, validate_rule, schedule_rule_matches}

-- `for _, c := range children { if !evalExpr(c) { return false } } return true`
unfoldable pub all_true : List Bool → Bool
all_true [] = true
all_true (v ∷ vs) = if not v then false else all_true vs

-- `for _, c := range children { if evalExpr(c) { return true } } return false`
unfoldable pub any_true : List Bool → Bool
any_true [] = false
any_true (v ∷ vs) = if v then true else any_true vs

unfoldable pub eval_rule : Option ScheduleRule → Now → Bool
eval_rule none now = false
eval_rule (some r) now = schedule_rule_matches r now

unfoldable pub eval_not : List Bool → Bool
eval_not (v ∷ []) = not v
eval_not _ = false

-- the `switch` of `evalExpr`
unfoldable pub eval_op : String → List Bool → Bool → Bool
unfolding all_true any_true eval_not
eval_op op values rule =
    if str_eq op "rule"
    then rule
    else if str_eq op "not"
    then eval_not values
    else if str_eq op "and"
    then all_true values
    else if str_eq op "or"
    then any_true values
    else false

unfoldable mutual
  unfolding eval_op eval_rule

  pub eval_expr : ExprNode → Now → Bool
  eval_expr (node op children rule) now =
      eval_op op (eval_children children now) (eval_rule rule now)

  pub eval_children : ExprNodes → Now → List Bool
  eval_children nil now = []
  eval_children (cons c cs) now = eval_expr c now ∷ eval_children cs now

-- The errors of `validateExpr`. A path is the list of child indices below the root "expr".
pub data ExprError : Type 0 where
  missing_rule : List ℕ → ExprError
  bad_rule : List ℕ → RuleError → ExprError
  not_arity : List ℕ → ℕ → ExprError
  few_children : List ℕ → String → ℕ → ExprError
  unknown_op : List ℕ → String → ExprError

at_path : List ℕ → Option RuleError → Option ExprError
at_path path none = none
at_path path (some e) = some (bad_rule path e)

unfoldable pub check_rule : Option ScheduleRule → List ℕ → Option ExprError
unfolding at_path
check_rule none path = some (missing_rule path)
check_rule (some r) path = at_path path (validate_rule r)

abbrev pub children_count : ExprNodes → ℕ
children_count nil = 0
children_count (cons c cs) = suc (children_count cs)

-- the `switch` of `validateExpr`; `rest` is the first error among the children
unfoldable pub check_op :
    String → ℕ → Option ExprError → Option ExprError → List ℕ → Option ExprError
check_op op count rule rest path =
    if str_eq op "rule"
    then rule
    else if str_eq op "not"
    then (if count == 1 then rest else some (not_arity path count))
    else if str_eq op "and" || str_eq op "or"
    then (if ltb count 2 then some (few_children path op count) else rest)
    else some (unknown_op path op)

unfoldable mutual
  unfolding check_op check_rule

  pub validate_expr : ExprNode → List ℕ → Option ExprError
  validate_expr (node op children rule) path =
      check_op op (children_count children) (check_rule rule path)
        (validate_children children path 0) path

  pub validate_children : ExprNodes → List ℕ → ℕ → Option ExprError
  validate_children nil path i = none
  validate_children (cons c cs) path i =
      orelse (validate_expr c (path ++ i ∷ [])) (validate_children cs path (i + 1))
