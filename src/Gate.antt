-- ===== src/Gate.antt =====
-- internal/model/gate.go: gates, their configuration and their status. An instant is in nanoseconds
-- since 1970.
use gaty.Prelude.{ℕ, ◌+◌, ◌*◌, String, Option, none, some, List, Bool, ℤ, ltb, if◌then◌else◌}
use gaty.Json.{Fields}
pub mod Status
pub mod Validation
pub mod Accepted
pub mod Table
pub mod Updates
pub mod Service
pub mod Tokens
pub mod Transitions
pub mod Creation
pub mod Handlers
pub mod Configured
pub mod Ticks
pub mod Armed
pub mod Keys
mod Tests

pub record StatusRule : Type 0 where
  pub key : String
  pub op : String
  pub value : String
  pub set_status : String

pub record StatusTransition : Type 0 where
  pub from : String
  pub to : String
  pub after_seconds : ℤ
  pub persist_on_change : Bool

pub record ActionConfig : Type 0 where
  pub type : String
  pub config : Fields

pub record MetaField : Type 0 where
  pub key : String
  pub label : String
  pub unit : String

pub record Gate : Type 0 where
  pub id : ℕ
  pub name : String
  pub integration_type : String
  pub integration_config : Fields
  pub open_config : Option ActionConfig
  pub close_config : Option ActionConfig
  pub status_config : Option ActionConfig
  pub status : String
  pub last_seen_at : Option ℕ
  pub created_at : ℕ
  pub status_metadata : Fields
  pub meta_config : List MetaField
  pub status_rules : List StatusRule
  pub custom_statuses : List String
  pub ttl_seconds : Option ℤ
  pub status_transitions : List StatusTransition
  pub gate_token : Option String

abbrev pub second : ℕ
second = 1000000000

-- `OfflineThreshold`: five minutes
abbrev pub offline_threshold : ℕ
offline_threshold = 300 * second

-- `EffectiveStatus` at an instant
unfoldable pub effective_status : Gate → ℕ → String
effective_status g now = elim g.last_seen_at [
  | none ↦ "unknown"
  | some seen ↦ if ltb (seen + offline_threshold) now then "offline" else g.status
]
