-- ===== src/Gate/Creation.antt =====
-- `Create` of internal/service/gate.go and of internal/repository/postgres/gate.go. The identifier, the
-- time and the first token of a new row are the database's. A failure to tell the broker is ignored.
use gaty.Prelude.{
  ℕ, String, Option, none, some, List, [], ◌∷◌, Bool, not, ◌||◌, any, str_eq, ℤ, if◌then◌else◌,
}
use gaty.Errors.{Result, ok, err, wrap, message, not_found}
use gaty.Json.{Fields, end}
use gaty.Gate.{Gate, ActionConfig, MetaField, StatusRule, StatusTransition}
use gaty.Gate.Table.{Table, find_row, has_token, with_token, set_token}
use gaty.Gate.Service.{GateTokens, shown}

-- `nil` for the configuration of the integration is no field
pub record CreateGateParams : Type 0 where
  pub name : String
  pub integration_type : String
  pub integration_config : Fields
  pub open_config : Option ActionConfig
  pub close_config : Option ActionConfig
  pub status_config : Option ActionConfig
  pub meta_config : List MetaField
  pub status_rules : List StatusRule
  pub custom_statuses : List String
  pub ttl_seconds : Option ℤ
  pub status_transitions : List StatusTransition

-- the enum `integration_type`
abbrev pub is_integration_type : String → Bool
is_integration_type t = any (str_eq t) ("MQTT" ∷ "POLLING" ∷ "WEBHOOK" ∷ [])

abbrev pub new_row : ℕ → ℕ → String → CreateGateParams → Gate
new_row id now token p = record {
  id = id;
  name = p.name;
  integration_type = p.integration_type;
  integration_config = p.integration_config;
  open_config = p.open_config;
  close_config = p.close_config;
  status_config = p.status_config;
  status = "unknown";
  last_seen_at = none;
  created_at = now;
  status_metadata = end;
  meta_config = p.meta_config;
  status_rules = p.status_rules;
  custom_statuses = p.custom_statuses;
  ttl_seconds = p.ttl_seconds;
  status_transitions = p.status_transitions;
  gate_token = some token;
}

-- `Create` of the repository
unfoldable pub insert : ℕ → ℕ → String → CreateGateParams → Table → Result (Table × Gate)
insert id now token p gates =
    if not (is_integration_type p.integration_type) || any (has_token token) gates
    then err (wrap "create gate" (message "constraint violation"))
    else ok (new_row id now token p ∷ gates, new_row id now token p)

abbrev pub with_type : CreateGateParams → CreateGateParams
with_type p = if str_eq p.integration_type "" then record p { integration_type = "MQTT" } else p

-- `Create` of the service: a gate whose token was not issued or not stored stays
unfoldable pub create : GateTokens → ℕ → ℕ → String → CreateGateParams → Table → Table × Result Gate
unfolding insert set_token shown with_token
create t id now token p gates = elim (insert id now token (with_type p) gates) [
  | err e ↦ (gates, err (wrap "create gate" e))
  | ok (gates', g) ↦ elim (t.issue g.id) [
    | err e ↦ (gates', err (wrap "issue gate token" e))
    | ok jwt ↦ (
      (set_token g.id jwt gates').0,
      elim (set_token g.id jwt gates').1 [
        | err e ↦ err (wrap "set gate token" e)
        | ok _ ↦ ok (shown now (with_token jwt g))
      ],
    )
  ]
]

-- `GetToken`; the column is never NULL
unfoldable pub get_token : ℕ → Table → Result String
unfolding find_row
get_token i gates = elim (find_row i gates) [
  | none ↦ err not_found
  | some g ↦ elim g.gate_token [ none ↦ err (message "get gate token") | some token ↦ ok token ]
]
