-- ===== src/Schedule/Truth.antt =====
-- `evalExpr` of internal/service/schedule.go computes the meaning of the trees that validation
-- accepts, and obeys the laws of De Morgan.
use gaty.Prelude.{
  ◌≡◌, ◌↔◌, refl, String, Option, none, List, [], ◌∷◌, Bool, not, true, false, arith, ◌⊎◌, inl, inr,
}
use gaty.Schedule.{ScheduleRule, ExprNode, node, ExprNodes, nil, cons}
use gaty.Schedule.Clock.{Now}
use gaty.Schedule.Expr.{
  all_true, any_true, eval_not, eval_op, eval_expr, eval_children, validate_expr,
}
use gaty.Schedule.Meaning.{
  IsWellFormed, a_rule, a_not, an_and, an_or, AreWellFormed, done, more, Holds, HoldAll, HoldAny,
  validate_expr_iff,
}

module _ {op : String} (values : List Bool) (rule : Bool) where
  eval_op-rule : op ≡ "rule" → eval_op op values rule ≡ rule
  unfolding eval_op
  eval_op-rule e = rw e

  eval_op-not : op ≡ "not" → eval_op op values rule ≡ eval_not values
  unfolding eval_op
  eval_op-not e = rw e

  eval_op-and : op ≡ "and" → eval_op op values rule ≡ all_true values
  unfolding eval_op
  eval_op-and e = rw e

  eval_op-or : op ≡ "or" → eval_op op values rule ≡ any_true values
  unfolding eval_op
  eval_op-or e = rw e

module _ {P : Type 0} where
  not_iff : (b : Bool) → (b ≡ true) ↔ P → (eval_not (b ∷ []) ≡ true) ↔ (¬ P)
  unfolding eval_not
  not_iff true here = (λ h p. cc, λ h. absurd (h (here.0 refl)))
  not_iff false here = (λ h p. cc (here.1 p), λ h. refl)

module _ {P Q : Type 0} where
  all_true-cons :
      (b : Bool) (vs : List Bool)
      → (b ≡ true) ↔ P
      → (all_true vs ≡ true) ↔ Q
      → (all_true (b ∷ vs) ≡ true) ↔ P × Q
  unfolding all_true
  all_true-cons true vs here later = (λ h. (here.0 refl, later.0 h), λ both. later.1 both.1)
  all_true-cons false vs here later = (λ h. cc, λ both. here.1 both.0)

  any_true-cons :
      (b : Bool) (vs : List Bool)
      → (b ≡ true) ↔ P
      → (any_true vs ≡ true) ↔ Q
      → (any_true (b ∷ vs) ≡ true) ↔ P ⊎ Q
  unfolding any_true
  any_true-cons true vs here later = (λ h. inl (here.0 refl), λ h. refl)
  any_true-cons false vs here later =
      (λ h. inr (later.0 h), λ either. elim either [ inl p ↦ cc (here.1 p) | inr q ↦ later.1 q ])

mutual
  unfolding eval_expr Holds

  eval_expr-Holds :
      {n : ExprNode} (w : IsWellFormed n) (now : Now) → (eval_expr n now ≡ true) ↔ Holds w now
  eval_expr-Holds (a_rule {r} e v) now = rw (eval_op-rule _ _ e) (λ h. h, λ h. h)
  eval_expr-Holds (a_not {c} e w) now =
      rw (eval_op-not _ _ e) (not_iff (eval_expr c now) (eval_expr-Holds w now))
  eval_expr-Holds (an_and e n ws) now = rw (eval_op-and _ _ e) (all_true-HoldAll ws now)
  eval_expr-Holds (an_or e n ws) now = rw (eval_op-or _ _ e) (any_true-HoldAny ws now)

  all_true-HoldAll :
      {cs : ExprNodes} (ws : AreWellFormed cs) (now : Now)
      → (all_true (eval_children cs now) ≡ true) ↔ HoldAll ws now
  all_true-HoldAll done now = (λ h. tt, λ h. refl)
  all_true-HoldAll (more {c} {cs} w ws) now =
      all_true-cons (eval_expr c now) (eval_children cs now) (eval_expr-Holds w now)
        (all_true-HoldAll ws now)

  any_true-HoldAny :
      {cs : ExprNodes} (ws : AreWellFormed cs) (now : Now)
      → (any_true (eval_children cs now) ≡ true) ↔ HoldAny ws now
  any_true-HoldAny done now = (λ h. cc, λ h. absurd h)
  any_true-HoldAny (more {c} {cs} w ws) now =
      any_true-cons (eval_expr c now) (eval_children cs now) (eval_expr-Holds w now)
        (any_true-HoldAny ws now)

-- A tree that validation accepts is well formed, and evaluates to true exactly when its meaning
-- holds: a rule when it matches, "not" when its child does not hold, "and" when all children do,
-- "or" when some child does.
pub validated_means :
    (n : ExprNode)
    → validate_expr n [] ≡ none
    → (w : IsWellFormed n) × ((now : Now) → (eval_expr n now ≡ true) ↔ Holds w now)
validated_means n h = let w = (validate_expr_iff n []).0 h in (w, eval_expr-Holds w)

-- Each child under a "not" of its own.
abbrev pub negate : ExprNode → ExprNode
negate n = node "not" (cons n nil) none

abbrev pub negate_all : ExprNodes → ExprNodes
negate_all nil = nil
negate_all (cons c cs) = cons (negate c) (negate_all cs)

not-all_true :
    (cs : ExprNodes) (now : Now)
    → not (all_true (eval_children cs now)) ≡ any_true (eval_children (negate_all cs) now)
unfolding eval_expr all_true any_true
not-all_true nil now = refl
not-all_true (cons c cs) now = ground (arith, not-all_true cs now)

not-any_true :
    (cs : ExprNodes) (now : Now)
    → not (any_true (eval_children cs now)) ≡ all_true (eval_children (negate_all cs) now)
unfolding eval_expr all_true any_true
not-any_true nil now = refl
not-any_true (cons c cs) now = ground (arith, not-any_true cs now)

-- De Morgan, for any children at all, none included: refusing an "and" is an "or" of refusals, and
-- refusing an "or" is an "and" of refusals.
pub de_morgan :
    (cs : ExprNodes) (rule : Option ScheduleRule) (now : Now)
    → (eval_expr (negate (node "and" cs rule)) now ≡ eval_expr (node "or" (negate_all cs) rule) now)
      × (eval_expr (negate (node "or" cs rule)) now
          ≡ eval_expr (node "and" (negate_all cs) rule) now)
unfolding eval_expr
de_morgan cs rule now = (not-all_true cs now, not-any_true cs now)
