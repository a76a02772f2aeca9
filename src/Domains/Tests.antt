-- ===== src/Domains/Tests.antt =====
-- Custom domains on a table of one gate: internal/handler/custom_domain.go and
-- internal/middleware/tenant.go.
use Prim.Native.Char.{code}
use gaty.Prelude.{
  Bool-cases, inl, inr, ℕ, String, Option, none, some, List, [], ◌∷◌, true, false, ◌≡◌, refl, ap,
  eq_iff, str_eq, ◌↔◌, any, arith,
}
use gaty.Errors.{Result}
use gaty.Http.{done}
use gaty.Json.{end}
use gaty.Redis.{◌▹◌, answered}
use gaty.Redis.InMemory.{in_memory, empty, uuids}
use gaty.Gate.{Gate}
use gaty.Gate.Table.{Table}
use gaty.Domains as Domains
use gaty.Domains.{CustomDomain, DomainResolveResult, find_domain}
use gaty.Domains.Handlers.{add_domain, verify_domain, verify_domain_public, resolve_domain}
use gaty.Domains.Tenant.{tenant_cache_not_found, resolve_tenant}
use gaty.Domains.Verified.{IsDomains, here, after, adds, verifies, Reach-IsDomains}
use gaty.Domains.Served.{current, IsFresh, verify_domain_public_iff, resolve_tenant-current}

abbrev gate : Gate
gate = record {
  id = 1;
  name = "north";
  integration_type = "MQTT";
  integration_config = end;
  open_config = none;
  close_config = none;
  status_config = none;
  status = "closed";
  last_seen_at = none;
  created_at = 0;
  status_metadata = end;
  meta_config = [];
  status_rules = [];
  custom_statuses = [];
  ttl_seconds = none;
  status_transitions = [];
  gate_token = none;
}

abbrev gates : Table
gates = gate ∷ []

-- the challenge of the only domain
abbrev IsShown : String → String → Type 0
IsShown name token = token ≡ "c"

-- every name has the challenge in its records
abbrev look_up : String → Option (List String)
look_up name = some ("c" ∷ [])

only_challenge :
    (name token : String) (records : List String)
    → look_up ("_gatie." ▹ name) ≡ some records
    → any (λ t. str_eq t token) records ≡ true
    → IsShown name token
only_challenge name token records h k = ground (arith, h, k, eq_iff "c" token)

abbrev added : List CustomDomain
added = (add_domain (λ t. t) 5 0 "c" 1 "gate.example" gates []).0

abbrev verified : List CustomDomain
verified = (verify_domain look_up 9 1 5 added).0

verified-IsDomains : IsDomains IsShown gates verified
unfolding verify_domain add_domain
verified-IsDomains = (refl, refl, λ _. refl, tt)

Reach-IsDomains_example : IsDomains IsShown gates verified
Reach-IsDomains_example = Reach-IsDomains IsShown gates tt (
    after (after here (adds (λ t. t) 5 0 "c" 1 "gate.example"))
      (verifies look_up 9 1 5 only_challenge))

verify_domain_public_iff_example :
    (verify_domain_public (λ t. t) "gate.example" verified ≡ done tt)
    ↔ ((x : DomainResolveResult) × (resolve_domain (λ t. t) "gate.example" gates verified ≡ done x))
verify_domain_public_iff_example =
    verify_domain_public_iff IsShown gates (λ t. t) "gate.example" verified verified-IsDomains

abbrev look : String → Result CustomDomain
look host = Domains.get_by_domain host verified

abbrev first_code : String → ℕ
first_code String.[] = 0
first_code (String.◌∷◌ c s) = code c

nowhere : (i : ℕ) → str_eq (uuids.text i) tenant_cache_not_found ≡ false
nowhere i = elim (Bool-cases (str_eq (uuids.text i) tenant_cache_not_found)) [
  | inr e ↦ e
  | inl e ↦
      absurd (ground (arith, ap first_code ((eq_iff (uuids.text i) tenant_cache_not_found).0 e)))
]

resolve_tenant-current_example :
    ((resolve_tenant in_memory uuids answered answered look "gate.example" empty).1
      ≡ current in_memory uuids look "gate.example")
    × IsFresh in_memory uuids look
        (resolve_tenant in_memory uuids answered answered look "gate.example" empty).0
resolve_tenant-current_example =
    resolve_tenant-current in_memory uuids look answered answered "gate.example" empty nowhere
      λ host val h. ground arith
