-- ===== src/Domains.antt =====
-- Custom domains of gates: internal/model/custom_domain.go and
-- internal/repository/postgres/custom_domain.go over the table `custom_domains` of migrations/. The
-- identifier, the challenge and the time of a new row are the database's.
pub mod Handlers
pub mod Tenant
pub mod Verified
pub mod Served
mod Tests
use gaty.Prelude.{
  ℕ, String, Option, none, some, List, [], ◌∷◌, Bool, true, false, not, ◌||◌, ◌&&◌, ◌==◌, str_eq,
  any, keep, length, if◌then◌else◌,
}
use gaty.Errors.{Result, ok, err, wrap, message, not_found, already_exists}
use gaty.Json.{Fields}
use gaty.Pagination.{PaginationParams, page}
use gaty.Gate.{Gate, ActionConfig, MetaField}
use gaty.Gate.Table.{Table, find_row, has_row}

pub record CustomDomain : Type 0 where
  pub id : ℕ
  pub gate_id : ℕ
  pub domain : String
  pub dns_challenge_token : String
  pub verified_at : Option ℕ
  pub created_at : ℕ

-- `IsVerified`
abbrev pub is_verified : CustomDomain → Bool
is_verified d = elim d.verified_at [ none ↦ false | some t ↦ true ]

-- a row with the primary key or the unique domain of a new one
abbrev pub clashes : CustomDomain → CustomDomain → Bool
clashes new d = d.id == new.id || str_eq d.domain new.domain

-- `Create`: the new row is not verified
unfoldable pub create :
    ℕ
    → ℕ
    → String
    → ℕ
    → String
    → Table
    → List CustomDomain
    → Result (List CustomDomain × CustomDomain)
create id now token gate_id domain gates rows =
    let new : CustomDomain = record {
      id = id;
      gate_id = gate_id;
      domain = domain;
      dns_challenge_token = token;
      verified_at = none;
      created_at = now;
    } in
    if any (clashes new) rows
    then err already_exists
    else if not (has_row gate_id gates)
    then err (wrap "create custom domain" (message "foreign key violation"))
    else ok (new ∷ rows, new)

unfoldable pub find_domain : (CustomDomain → Bool) → List CustomDomain → Option CustomDomain
find_domain p [] = none
find_domain p (d ∷ ds) = let rest = find_domain p ds in if p d then some d else rest

abbrev pub found_or : Option CustomDomain → Result CustomDomain
found_or none = err not_found
found_or (some d) = ok d

abbrev pub is_row : ℕ → ℕ → CustomDomain → Bool
is_row id gate_id d = d.id == id && d.gate_id == gate_id

unfoldable pub get_by_id : ℕ → ℕ → List CustomDomain → Result CustomDomain
unfolding find_domain
get_by_id id gate_id rows = found_or (find_domain (is_row id gate_id) rows)

abbrev pub has_name : String → CustomDomain → Bool
has_name domain d = str_eq d.domain domain

unfoldable pub get_by_domain : String → List CustomDomain → Result CustomDomain
unfolding find_domain
get_by_domain domain rows = found_or (find_domain (has_name domain) rows)

-- `ListByGate`: a page of the rows, which stand newest first, and their number
unfoldable pub list_by_gate : ℕ → PaginationParams → List CustomDomain → List CustomDomain × ℕ
list_by_gate gate_id p rows =
    let mine = keep (λ d. d.gate_id == gate_id) rows in (page p mine, length mine)

-- `ListAllVerified`; `order` is ORDER BY domain
unfoldable pub list_all_verified :
    (List CustomDomain → List CustomDomain) → List CustomDomain → List CustomDomain
list_all_verified order rows = order (keep is_verified rows)

abbrev pub verify_row : ℕ → ℕ → List CustomDomain → List CustomDomain
verify_row id at_ [] = []
verify_row id at_ (d ∷ ds) =
    let rest = verify_row id at_ ds in
    (if d.id == id then record d { verified_at = some at_ } else d) ∷ rest

-- `SetVerified`
unfoldable pub set_verified : ℕ → ℕ → List CustomDomain → Result (List CustomDomain)
set_verified id at_ rows =
    if any (λ d. d.id == id) rows then ok (verify_row id at_ rows) else err not_found

-- what the public may know of a gate: `DomainResolveResult` and `GatePublicInfo`
pub record DomainResolveResult : Type 0 where
  pub gate_id : ℕ
  pub gate_name : String
  pub has_open_action : Bool
  pub has_close_action : Bool
  pub status : String
  pub meta_config : List MetaField
  pub status_metadata : Fields

-- `COALESCE(config->>'type', 'NONE') <> 'NONE'`
abbrev pub has_action : Option ActionConfig → Bool
has_action none = false
has_action (some c) = not (str_eq c.type "NONE")

abbrev pub public_of : Gate → DomainResolveResult
public_of g = record {
  gate_id = g.id;
  gate_name = g.name;
  has_open_action = has_action g.open_config;
  has_close_action = has_action g.close_config;
  status = g.status;
  meta_config = g.meta_config;
  status_metadata = g.status_metadata;
}

-- `GetPublicInfo` of internal/repository/postgres/gate.go
unfoldable pub get_public_info : ℕ → Table → Result DomainResolveResult
unfolding find_row
get_public_info gate_id gates = elim (find_row gate_id gates) [
  | none ↦ err not_found
  | some g ↦ ok (public_of g)
]

-- `ResolveByDomain`: the join of a verified row with its gate
unfoldable pub resolve_by_domain : String → Table → List CustomDomain → Result DomainResolveResult
unfolding find_row
resolve_by_domain domain gates [] = err not_found
resolve_by_domain domain gates (d ∷ ds) =
    let rest = resolve_by_domain domain gates ds in
    if has_name domain d && is_verified d
    then elim (find_row d.gate_id gates) [ none ↦ rest | some g ↦ ok (public_of g) ]
    else rest

-- `Delete`
unfoldable pub delete : ℕ → ℕ → List CustomDomain → Result (List CustomDomain)
delete id gate_id rows =
    if any (is_row id gate_id) rows
    then ok (keep (λ d. not (is_row id gate_id d)) rows)
    else err not_found
