-- ===== src/Schedule/Meaning.antt =====
-- What `validateExpr` accepts, and what `evalExpr` computes on what it accepts
-- (internal/service/schedule.go).
use gaty.Prelude.{
  ℕ, ◌+◌, ◌≤◌, ◌≡◌, ◌⊎◌, ◌↔◌, refl, String, Option, none, some, List, [], ◌∷◌, ◌++◌, arith, true,
  eq_iff, inl, inr,
}
use gaty.Schedule.{ScheduleRule, ExprNode, node, ExprNodes, nil, cons}
use gaty.Schedule.Clock.{Now}
use gaty.Schedule.Rule.{validate_rule, schedule_rule_matches}
use gaty.Schedule.Expr.{
  ExprError, check_op, check_rule, children_count, validate_expr, validate_children,
}

-- The shape of a tree that may be stored: every rule is valid, "not" has one child, "and" and "or"
-- have two or more, and there is no other operator.
mutual
  pub data IsWellFormed : ExprNode → Type 0 where
    a_rule :
        {op : String} {cs : ExprNodes} {r : ScheduleRule}
        → op ≡ "rule"
        → validate_rule r ≡ none
        → IsWellFormed (node op cs (some r))
    a_not :
        {op : String} {c : ExprNode} {rule : Option ScheduleRule}
        → op ≡ "not"
        → IsWellFormed c
        → IsWellFormed (node op (cons c nil) rule)
    an_and :
        {op : String} {cs : ExprNodes} {rule : Option ScheduleRule}
        → op ≡ "and"
        → 2 ≤ children_count cs
        → AreWellFormed cs
        → IsWellFormed (node op cs rule)
    an_or :
        {op : String} {cs : ExprNodes} {rule : Option ScheduleRule}
        → op ≡ "or"
        → 2 ≤ children_count cs
        → AreWellFormed cs
        → IsWellFormed (node op cs rule)

  pub data AreWellFormed : ExprNodes → Type 0 where
    done : AreWellFormed nil
    more :
        {c : ExprNode} {cs : ExprNodes}
        → IsWellFormed c
        → AreWellFormed cs
        → AreWellFormed (cons c cs)

-- What a well-formed tree means, read off its shape.
unfoldable mutual
  pub Holds : {n : ExprNode} → IsWellFormed n → Now → Type 0
  Holds (a_rule {r} _ _) now = schedule_rule_matches r now ≡ true
  Holds (a_not _ w) now = ¬ (Holds w now)
  Holds (an_and _ _ ws) now = HoldAll ws now
  Holds (an_or _ _ ws) now = HoldAny ws now

  pub HoldAll : {cs : ExprNodes} → AreWellFormed cs → Now → Type 0
  HoldAll done now = Unit
  HoldAll (more w ws) now = Holds w now × HoldAll ws now

  pub HoldAny : {cs : ExprNodes} → AreWellFormed cs → Now → Type 0
  HoldAny done now = ⊥
  HoldAny (more w ws) now = Holds w now ⊎ HoldAny ws now

-- the one child of a "not"
only_child :
    {op : String} {cs : ExprNodes} {rule : Option ScheduleRule}
    → op ≡ "not"
    → children_count cs ≡ 1
    → AreWellFormed cs
    → IsWellFormed (node op cs rule)
only_child e n done = absurd (omega arith)
only_child e n (more w done) = a_not e w
only_child e n (more w (more _ _)) = absurd (omega arith)

-- the ways in which the `switch` of `validateExpr` can pass
abbrev Passes : String → ℕ → Option ExprError → Option ExprError → Type 0
Passes op count rule rest =
    ((op ≡ "rule") × (rule ≡ none))
    ⊎ ((op ≡ "not") × (count ≡ 1) × (rest ≡ none))
    ⊎ (((op ≡ "and") ⊎ (op ≡ "or")) × (2 ≤ count) × (rest ≡ none))

check_op_sound :
    (op : String) (count : ℕ) (rule rest : Option ExprError) (path : List ℕ)
    → check_op op count rule rest path ≡ none
    → Passes op count rule rest
unfolding check_op
check_op_sound op count rule rest path h =
    ground (arith, eq_iff op "rule", eq_iff op "not", eq_iff op "and", eq_iff op "or")

check_rule_sound :
    {op : String} (cs : ExprNodes) (rule : Option ScheduleRule) (path : List ℕ)
    → op ≡ "rule"
    → check_rule rule path ≡ none
    → IsWellFormed (node op cs rule)
unfolding check_rule
check_rule_sound cs none path e h = cc
check_rule_sound cs (some r) path e h = a_rule e (ground arith)

node_sound :
    {op : String} {cs : ExprNodes} {rule : Option ScheduleRule} (path : List ℕ)
    → (validate_children cs path 0 ≡ none → AreWellFormed cs)
    → Passes op (children_count cs) (check_rule rule path) (validate_children cs path 0)
    → IsWellFormed (node op cs rule)
node_sound {cs} {rule} path ws (inl (e, h)) = check_rule_sound cs rule path e h
node_sound path ws (inr (inl (e, n, h))) = only_child e n (ws h)
node_sound path ws (inr (inr (inl e, n, h))) = an_and e n (ws h)
node_sound path ws (inr (inr (inr e, n, h))) = an_or e n (ws h)

mutual
  unfolding validate_expr

  validate_expr_sound :
      (n : ExprNode) (path : List ℕ) → validate_expr n path ≡ none → IsWellFormed n
  validate_expr_sound (node op cs rule) path h =
      node_sound path (validate_children_sound cs path 0) (check_op_sound op _ _ _ path h)

  validate_children_sound :
      (cs : ExprNodes) (path : List ℕ) (i : ℕ)
      → validate_children cs path i ≡ none
      → AreWellFormed cs
  validate_children_sound nil path i h = done
  validate_children_sound (cons c cs) path i h =
      more (validate_expr_sound c (path ++ i ∷ []) (ground arith))
        (validate_children_sound cs path (i + 1) (ground arith))

check_op_complete :
    (op : String) (count : ℕ) (rule rest : Option ExprError) (path : List ℕ)
    → Passes op count rule rest
    → check_op op count rule rest path ≡ none
unfolding check_op
check_op_complete op count rule rest path (inl (e, h)) = rw e h
check_op_complete op count rule rest path (inr (inl (e, n, h))) = rw (e, n) h
check_op_complete op count rule rest path (inr (inr (inl e, n, h))) = rw e (ground arith)
check_op_complete op count rule rest path (inr (inr (inr e, n, h))) = rw e (ground arith)

mutual
  unfolding validate_expr check_rule

  validate_expr_complete :
      {n : ExprNode} (w : IsWellFormed n) (path : List ℕ) → validate_expr n path ≡ none
  validate_expr_complete (a_rule {op} {cs} {r} e v) path =
      check_op_complete op (children_count cs) _ (validate_children cs path 0) path
        (inl (e, ground arith))
  validate_expr_complete (a_not {op} {c} {rule} e w) path =
      check_op_complete op 1 (check_rule rule path) _ path
        (inr (inl (e, refl, rw (validate_expr_complete w (path ++ 0 ∷ [])))))
  validate_expr_complete (an_and {op} {cs} {rule} e n ws) path =
      check_op_complete op _ (check_rule rule path) _ path
        (inr (inr (inl e, n, validate_children_complete ws path 0)))
  validate_expr_complete (an_or {op} {cs} {rule} e n ws) path =
      check_op_complete op _ (check_rule rule path) _ path
        (inr (inr (inr e, n, validate_children_complete ws path 0)))

  validate_children_complete :
      {cs : ExprNodes} (ws : AreWellFormed cs) (path : List ℕ) (i : ℕ)
      → validate_children cs path i ≡ none
  validate_children_complete done path i = refl
  validate_children_complete (more w ws) path i =
      rw (validate_expr_complete w (path ++ i ∷ []), validate_children_complete ws path (i + 1))

-- `validateExpr` reports no error, whatever the path that it is to report, exactly on the trees of
-- the stated shape.
pub validate_expr_iff :
    (n : ExprNode) (path : List ℕ) → (validate_expr n path ≡ none) ↔ IsWellFormed n
validate_expr_iff n path = (validate_expr_sound n path, λ w. validate_expr_complete w path)
