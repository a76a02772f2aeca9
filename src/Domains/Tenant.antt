-- ===== src/Domains/Tenant.antt =====
-- `TenantResolver` of internal/middleware/tenant.go: the gate of the host that a request names, by
-- way of a cache. `host` is `normalizeHost` of the Host header.
use gaty.Prelude.{String, Option, none, some, not, str_eq, if◌then◌else◌}
use gaty.Errors.{Result, ok, err, root, not_found}
use gaty.Redis.{Redis, UuidText, ◌▹◌, Fate, answered, lost_before}
use gaty.Domains.{CustomDomain, is_verified}

-- the value that stands for "no gate"
abbrev pub tenant_cache_not_found : String
tenant_cache_not_found = "\0"

abbrev pub cache_key : String → String
cache_key host = "tenant:domain:" ▹ host

-- the tenant that a cached value names
abbrev pub tenant_of : String → Option String
tenant_of val = if not (str_eq val tenant_cache_not_found) then some val else none

module _ (r : Redis) where
  -- SET, whose failure is ignored
  unfoldable pub remember : Fate → String → String → r.Store → r.Store
  remember lost_before k v s = s
  remember _ k v s = r.set k v s

  -- GET: a failure reads as no value
  unfoldable pub recall : Fate → String → r.Store → Option String
  recall answered k s = r.get s k
  recall _ k s = none

  -- the query of the database, and what is cached of its answer
  unfoldable pub query_tenant :
      UuidText → Fate → String → Result CustomDomain → r.Store → r.Store × Option String
  unfolding remember
  query_tenant u f host answer s = elim answer [
    | ok d ↦
        if is_verified d
        then (remember f (cache_key host) (u.text d.gate_id) s, some (u.text d.gate_id))
        else (remember f (cache_key host) tenant_cache_not_found s, none)
    | err e ↦ elim (root e) [
      | not_found ↦ (remember f (cache_key host) tenant_cache_not_found s, none)
      | _ ↦ (s, none)
    ]
  ]

  -- `TenantResolver`, with the fates of its GET and its SET
  unfoldable pub resolve_tenant :
      UuidText
      → Fate
      → Fate
      → (String → Result CustomDomain)
      → String
      → r.Store
      → r.Store × Option String
  unfolding query_tenant recall
  resolve_tenant u g f get_by_domain host s =
      if str_eq host "" then (s, none) else elim (recall g (cache_key host) s) [
        | some val ↦ (s, tenant_of val)
        | none ↦ query_tenant u f host (get_by_domain host) s
      ]
