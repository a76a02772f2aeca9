-- ===== src/Gate/Table.antt =====
-- The table of gates, internal/repository/postgres/gate.go, and the updates of a status,
-- internal/service/gate_status.go and `markExpired` of internal/service/gate_ttl.go.
use gaty.Prelude.{
  ℕ, ◌+◌, ◌*◌, String, Option, none, some, List, [], ◌∷◌, map, Bool, false, not, ◌||◌, ◌&&◌, any,
  keep, ◌==◌, str_eq, ltb, ℤ, pos, negsuc, if◌then◌else◌,
}
use gaty.Errors.{Result, ok, err, not_found, unauthorized}
use gaty.Json.{Fields}
use gaty.Gate.{Gate, second}
use gaty.Gate.Status.{Values, evaluate_status_rules}

abbrev pub Table : Type 0
Table = List Gate

-- A read leaves out the token.
unfoldable pub scan_gate : Gate → Gate
scan_gate g = record g { gate_token = none }

unfoldable pub find_row : ℕ → Table → Option Gate
find_row i [] = none
find_row i (g ∷ gates) = let rest = find_row i gates in if g.id == i then some g else rest

-- `WHERE id = $1`, on every row
unfoldable pub update_rows : ℕ → (Gate → Gate) → Table → Table
update_rows i f gates = map (λ g. if g.id == i then f g else g) gates

-- `GetByID`, and `GetByIDPublic`
unfoldable pub get_by_id : Table → ℕ → Result Gate
unfolding find_row scan_gate
get_by_id gates i = elim (find_row i gates) [ none ↦ err not_found | some g ↦ ok (scan_gate g) ]

abbrev pub has_token : String → Gate → Bool
has_token token g = elim g.gate_token [ none ↦ false | some t ↦ str_eq t token ]

unfoldable pub get_by_token : Table → ℕ → String → Result Gate
unfolding find_row scan_gate
get_by_token gates i token = elim (find_row i (keep (has_token token) gates)) [
  | none ↦ err unauthorized
  | some g ↦ ok (scan_gate g)
]

unfoldable pub with_token : String → Gate → Gate
with_token token g = record g { gate_token = some token }

-- the affected rows
abbrev pub has_row : ℕ → Table → Bool
has_row i gates = any (λ g. g.id == i) gates

unfoldable pub set_token : ℕ → String → Table → Table × Result (Unit {0})
unfolding update_rows with_token
set_token i token gates =
    (update_rows i (with_token token) gates, if has_row i gates then ok tt else err not_found)

unfoldable pub delete : ℕ → Table → Table × Result (Unit {0})
delete i gates =
    (keep (λ g. not (g.id == i)) gates, if has_row i gates then ok tt else err not_found)

unfoldable pub with_status : String → Option ℕ → Fields → Gate → Gate
with_status status seen meta g = record g {
  status = status;
  last_seen_at = seen;
  status_metadata = meta;
}

-- `UpdateStatus`: a gate that is missing is no error.
unfoldable pub update_status : ℕ → ℕ → String → Fields → Table → Table
unfolding update_rows with_status
update_status now i status meta gates = update_rows i (with_status status (some now) meta) gates

-- `last_seen_at < NOW() - INTERVAL '1 second' * ttl`
abbrev pub is_past : ℕ → ℤ → ℕ → Bool
is_past seen (pos n) now = ltb (seen + n * second) now
is_past seen (negsuc n) now = ltb seen (now + (n + 1) * second)

-- `COALESCE(ttl_seconds, $2)`
abbrev pub coalesce : Option ℤ → ℤ → ℤ
coalesce none default = default
coalesce (some v) default = v

unfoldable pub is_expired : ℕ → ℤ → Gate → Bool
is_expired now default g = elim g.last_seen_at [
  | none ↦ false
  | some seen ↦
      is_past seen (coalesce g.ttl_seconds default) now
      && not (
          str_eq g.status "unresponsive"
          || (str_eq g.status "unknown" || str_eq g.status "offline"))
]

-- a row after `MarkUnresponsiveWithIDs`
unfoldable pub mark : ℕ → ℤ → Gate → Gate
unfolding is_expired with_status
mark now default g =
    if is_expired now default g
    then with_status "unresponsive" g.last_seen_at g.status_metadata g
    else g

-- `MarkUnresponsiveWithIDs`: the table, and the gates that it changed
unfoldable pub mark_unresponsive : ℕ → ℤ → Table → Table × List ℕ
unfolding mark
mark_unresponsive now default gates =
    (map (mark now default) gates, map (λ g. g.id) (keep (is_expired now default) gates))

-- a status event
pub record GateStatusEvent : Type 0 where
  pub gate_id : ℕ
  pub status : String
  pub status_metadata : Option Fields

-- `markExpired`, with the events that it publishes
unfoldable pub mark_expired : ℕ → ℤ → Table → Table × List GateStatusEvent
unfolding mark_unresponsive
mark_expired now default gates =
    let (gates', affected) = mark_unresponsive now default gates in
    (
      gates',
      map (λ i. record { gate_id = i; status = "unresponsive"; status_metadata = none }) affected,
    )

-- the status that `ProcessGateStatus` stores: the rules override the reported one
unfoldable pub final_status : Values → Gate → String → Fields → String
unfolding evaluate_status_rules
final_status vs gate raw meta = elim (evaluate_status_rules vs gate.status_rules meta) [
  | some override ↦ override
  | none ↦ raw
]

-- `ProcessGateStatus`, where the update succeeds, and the event that it publishes
unfoldable pub process_gate_status :
    Values → ℕ → Gate → String → Fields → Table → Table × GateStatusEvent
unfolding final_status update_status
process_gate_status vs now gate raw meta gates = (
  update_status now gate.id (final_status vs gate raw meta) meta gates,
  record { gate_id = gate.id; status = final_status vs gate raw meta; status_metadata = some meta },
)
