-- ===== src/Domains/Handlers.antt =====
-- internal/handler/custom_domain.go. `canonical` is ToLower of TrimSpace of package strings, and
-- `lookup_txt` the TXT records of a name, none where the look-up fails.
use gaty.Prelude.{
  ℕ, String, Option, none, some, List, Bool, true, false, not, any, map, str_eq, if◌then◌else◌,
}
use gaty.Errors.{ok, err, root, not_found, already_exists}
use gaty.Http.{Reply, refused, done}
use gaty.Redis.{◌▹◌}
use gaty.Pagination.{PaginationParams}
use gaty.Gate.Table.{Table}
use gaty.Domains as Domains
use gaty.Domains.{CustomDomain, DomainResolveResult, is_verified}

-- `addDomain`
unfoldable pub add_domain :
    (String → String)
    → ℕ
    → ℕ
    → String
    → ℕ
    → String
    → Table
    → List CustomDomain
    → List CustomDomain × Reply CustomDomain
unfolding Domains.create
add_domain canonical id now token gate_id domain gates rows =
    if str_eq (canonical domain) ""
    then (rows, refused 400 "domain is required")
    else elim (Domains.create id now token gate_id (canonical domain) gates rows) [
      | ok (rows', d) ↦ (rows', done d)
      | err e ↦ elim (root e) [
        | already_exists ↦ (rows, refused 409 "domain already registered")
        | _ ↦ (rows, refused 500 "internal error")
      ]
    ]

-- `listDomains`
unfoldable pub list_domains :
    ℕ → PaginationParams → List CustomDomain → Reply (List CustomDomain × ℕ)
unfolding Domains.list_by_gate
list_domains gate_id p rows = done (Domains.list_by_gate gate_id p rows)

-- `deleteDomain`
unfoldable pub delete_domain : ℕ → ℕ → List CustomDomain → List CustomDomain × Reply (Unit {0})
unfolding Domains.delete
delete_domain gate_id domain_id rows = elim (Domains.delete domain_id gate_id rows) [
  | ok rows' ↦ (rows', done tt)
  | err e ↦ elim (root e) [
    | not_found ↦ (rows, refused 404 "domain not found")
    | _ ↦ (rows, refused 500 "internal error")
  ]
]

-- whether a domain was verified, and what to do if not
pub record Verification : Type 0 where
  pub verified : Bool
  pub message : String

-- `verifyDomain`
unfoldable pub verify_domain :
    (String → Option (List String))
    → ℕ
    → ℕ
    → ℕ
    → List CustomDomain
    → List CustomDomain × Reply Verification
unfolding Domains.get_by_id Domains.set_verified
verify_domain lookup_txt now gate_id domain_id rows =
    elim (Domains.get_by_id domain_id gate_id rows) [
      | err e ↦ elim (root e) [
        | not_found ↦ (rows, refused 404 "domain not found")
        | _ ↦ (rows, refused 500 "internal error")
      ]
      | ok d ↦ elim (lookup_txt ("_gatie." ▹ d.domain)) [
        | none ↦ (
          rows,
          done (record {
            verified = false;
            message = "DNS lookup failed — ensure _gatie." ▹ d.domain ▹ " TXT record is set";
          }),
        )
        | some records ↦
            if not (any (λ t. str_eq t d.dns_challenge_token) records)
            then (
              rows,
              done
                  (record { verified = false; message = "TXT record not found or token mismatch" }),
            )
            else elim (Domains.set_verified d.id now rows) [
              | err e ↦ (rows, refused 500 "internal error")
              | ok rows' ↦ (rows', done (record { verified = true; message = "" }))
            ]
      ]
    ]

-- `verifyDomainPublic`, which a proxy asks before it orders a certificate
unfoldable pub verify_domain_public :
    (String → String) → String → List CustomDomain → Reply (Unit {0})
unfolding Domains.get_by_domain
verify_domain_public canonical domain rows = elim (Domains.get_by_domain (canonical domain) rows) [
  | err e ↦ refused 403 "domain not allowed"
  | ok d ↦ if not (is_verified d) then refused 403 "domain not verified" else done tt
]

-- `resolveDomain`
unfoldable pub resolve_domain :
    (String → String) → String → Table → List CustomDomain → Reply DomainResolveResult
unfolding Domains.resolve_by_domain
resolve_domain canonical domain gates rows =
    elim (Domains.resolve_by_domain (canonical domain) gates rows) [
      | ok x ↦ done x
      | err e ↦ elim (root e) [
        | not_found ↦ refused 404 "domain not found or not verified"
        | _ ↦ refused 500 "internal error"
      ]
    ]

-- `publicDomainsList`
unfoldable pub public_domains_list :
    (List CustomDomain → List CustomDomain) → List CustomDomain → Reply (List String)
unfolding Domains.list_all_verified
public_domains_list order rows = done (map (λ d. d.domain) (Domains.list_all_verified order rows))

-- `resolveGate`
unfoldable pub resolve_gate : ℕ → Table → Reply DomainResolveResult
unfolding Domains.get_public_info
resolve_gate gate_id gates = elim (Domains.get_public_info gate_id gates) [
  | ok x ↦ done x
  | err e ↦ elim (root e) [
    | not_found ↦ refused 404 "gate not found"
    | _ ↦ refused 500 "internal error"
  ]
]
