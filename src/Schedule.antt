-- ===== src/Schedule.antt =====
-- internal/model/access_schedule.go: schedule rules and the expression trees over them. An
-- optional field (`*int`, a JSON `omitempty`) is an `Option`; the empty string stays a string.
pub mod Clock
pub mod Rule
pub mod Expr
pub mod Windows
pub mod Truth
pub mod Check
pub mod Meaning
pub mod Dates
pub mod Parse
pub mod Store
pub mod Handlers
pub mod Stored
mod Tests
use gaty.Prelude.{ℕ, String, Option, List, ℤ}

pub record ScheduleRule : Type 0 where
  pub type : String
  pub days : List ℤ
  pub start_time : String
  pub end_time : String
  pub start_day : Option ℤ
  pub end_day : Option ℤ
  pub start_date : String
  pub end_date : String
  pub start_dom : Option ℤ
  pub end_dom : Option ℤ
  pub start_month : Option ℤ
  pub end_month : Option ℤ

-- A node holds a slice of nodes, so the slice is declared with it.
mutual
  pub data ExprNode : Type 0 where
    node : (op : String) → (children : ExprNodes) → (rule : Option ScheduleRule) → ExprNode

  pub data ExprNodes : Type 0 where
    nil : ExprNodes
    cons : ExprNode → ExprNodes → ExprNodes

pub record AccessSchedule : Type 0 where
  pub id : ℕ
  pub member_id : Option ℕ
  pub name : String
  pub description : Option String
  pub expr : Option ExprNode
  pub created_at : ℕ
