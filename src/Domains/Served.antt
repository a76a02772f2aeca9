-- ===== src/Domains/Served.antt =====
-- Which hosts are served: the public routes of internal/handler/custom_domain.go agree with each
-- other, and the cached resolver of internal/middleware/tenant.go with the table.
use gaty.Prelude.{
  zero, suc, ℕ, String, Option, none, some, List, [], ◌∷◌, Bool, true, false, ◌==◌, str_eq, eq_iff,
  any, ◌≡◌, refl, ap, sym, ◌∙◌, ◌↔◌, arith, ◌⊎◌, inl, inr, Bool-cases, Option-cases, if◌then◌else◌,
}
use mathlib.Core.Path.{subst}
use gaty.Errors.{Result, ok, err, not_found, Result-cases}
use gaty.Http.{done}
use gaty.Redis.{Redis, UuidText, Fate, answered, lost_before, lost_after}
use gaty.Gate.{Gate}
use gaty.Gate.Table.{Table, find_row, has_row}
use gaty.Domains as Domains
use gaty.Domains.{
  CustomDomain, DomainResolveResult, is_verified, clashes, find_domain, has_name, resolve_by_domain,
}
use gaty.Domains.Handlers.{verify_domain_public, resolve_domain}
use gaty.Domains.Tenant.{
  tenant_cache_not_found, cache_key, tenant_of, remember, recall, query_tenant, resolve_tenant,
}
use gaty.Domains.Verified.{IsDomains}

-- what follows the prefix of a key
drop_prefix : ℕ → String → String
drop_prefix zero t = t
drop_prefix (suc n) String.[] = String.[]
drop_prefix (suc n) (String.◌∷◌ c t) = drop_prefix n t

find_row-has_row :
    (i : ℕ) (gates : Table) → has_row i gates ≡ true → (g : Gate) × (find_row i gates ≡ some g)
unfolding find_row
find_row-has_row i [] h = ground arith
find_row-has_row i (g ∷ gates) h = elim (Bool-cases (g.id == i)) [
  | inl e ↦ (g, ground arith)
  | inr e ↦ let (g', e') = find_row-has_row i gates (ground arith) in (g', ground arith)
]

module _ (P : String → String → Type 0) (gates : Table) (name : String) where
  resolve_by_domain-unknown :
      (ds : List CustomDomain)
      → any (has_name name) ds ≡ false
      → resolve_by_domain name gates ds ≡ err not_found
  unfolding resolve_by_domain
  resolve_by_domain-unknown [] h = refl
  resolve_by_domain-unknown (d ∷ ds) h = ground (arith, resolve_by_domain-unknown ds)

  -- a row that has the name is the only one
  unknown_after :
      (d : CustomDomain) (ds : List CustomDomain)
      → has_name name d ≡ true
      → any (clashes d) ds ≡ false
      → any (has_name name) ds ≡ false
  unknown_after d [] h k = refl
  unknown_after d (e ∷ ds) h k = ground (arith, unknown_after d ds, (eq_iff d.domain name).0 h)

  -- the first row with the name decides
  served : (rows : List CustomDomain) → Bool
  served rows = elim (find_domain (has_name name) rows) [ none ↦ false | some d ↦ is_verified d ]

  resolve_by_domain-served :
      (rows : List CustomDomain)
      → IsDomains P gates rows
      → ((served rows ≡ true)
          × ((x : DomainResolveResult) × (resolve_by_domain name gates rows ≡ ok x)))
        ⊎ ((served rows ≡ false) × (resolve_by_domain name gates rows ≡ err not_found))
  unfolding find_domain resolve_by_domain served
  resolve_by_domain-served [] s = inr (refl, refl)
  resolve_by_domain-served (d ∷ ds) (new, gate, proved, s) = elim (Bool-cases (has_name name d)) [
    | inr other ↦ rw (served, other) (resolve_by_domain-served ds s)
    | inl same ↦ elim (Bool-cases (is_verified d)) [
      | inr not_yet ↦
          inr (
            ground arith,
            ground (arith, resolve_by_domain-unknown ds (unknown_after d ds same new)),
          )
      | inl verified ↦
          let (g, found) = find_row-has_row d.gate_id gates gate in
          inl (ground arith, (Domains.public_of g, ground arith))
    ]
  ]

  verify_domain_public-served :
      (canonical : String → String) (domain : String) (rows : List CustomDomain)
      → canonical domain ≡ name
      → (verify_domain_public canonical domain rows ≡ done tt) ↔ (served rows ≡ true)
  unfolding verify_domain_public Domains.get_by_domain served
  verify_domain_public-served canonical domain rows e = ground arith

module _ (P : String → String → Type 0) (gates : Table) where
  -- On rows as the handlers keep them, a certificate may be ordered for a domain exactly when the
  -- domain resolves to a gate.
  pub verify_domain_public_iff :
      (canonical : String → String) (domain : String) (rows : List CustomDomain)
      → IsDomains P gates rows
      → (verify_domain_public canonical domain rows ≡ done tt)
        ↔ ((x : DomainResolveResult) × (resolve_domain canonical domain gates rows ≡ done x))
  unfolding resolve_domain
  verify_domain_public_iff canonical domain rows s =
      let asked =
        verify_domain_public-served P gates (canonical domain) canonical domain rows refl in
      elim (resolve_by_domain-served P gates (canonical domain) rows s) [
        | inl (sure, (x, e)) ↦ (λ _. (x, ground arith), λ _. asked.1 sure)
        | inr (never, e) ↦ (λ h. absurd (ground (arith, asked.0 h)), λ (x, h). ground arith)
      ]

module _ (r : Redis) (u : UuidText) (get_by_domain : String → Result CustomDomain) where
  -- the gate of a host that is not empty, by the table alone
  abbrev pub registered : String → Option String
  registered host = elim (get_by_domain host) [
    | err e ↦ none
    | ok d ↦ if is_verified d then some (u.text d.gate_id) else none
  ]

  abbrev pub current : String → Option String
  current host = if str_eq host "" then none else registered host

  -- what the cache may hold for a host
  abbrev pub cached : String → String
  cached host = elim (get_by_domain host) [
    | err e ↦ tenant_cache_not_found
    | ok d ↦ if is_verified d then u.text d.gate_id else tenant_cache_not_found
  ]

  abbrev pub IsFresh : r.Store → Type 0
  IsFresh s = (host val : String) → r.get s (cache_key host) ≡ some val → val ≡ cached host

  set-IsFresh :
      (host : String) (s : r.Store) → IsFresh s → IsFresh (r.set (cache_key host) (cached host) s)
  unfolding drop_prefix
  set-IsFresh host s h host' val k = elim (Bool-cases (str_eq (cache_key host) (cache_key host'))) [
    | inl same ↦
        let e : host ≡ host' =
          ap (drop_prefix 14) ((eq_iff (cache_key host) (cache_key host')).0 same) in
        let stored : val ≡ cached host =
          ground (arith, r.get-set (cache_key host) (cache_key host') (cached host) s) in
        stored ∙ ap cached e
    | inr other ↦
        h host' val (ground (arith, r.get-set (cache_key host) (cache_key host') (cached host) s))
  ]

  remember-IsFresh :
      (f : Fate) (host : String) (s : r.Store)
      → IsFresh s
      → IsFresh (remember r f (cache_key host) (cached host) s)
  unfolding remember
  remember-IsFresh lost_before host s h host' val k = h host' val k
  remember-IsFresh lost_after host s h host' val k = set-IsFresh host s h host' val k
  remember-IsFresh answered host s h host' val k = set-IsFresh host s h host' val k

  tenant_of-cached :
      (host : String)
      → ((i : ℕ) → str_eq (u.text i) tenant_cache_not_found ≡ false)
      → tenant_of (cached host) ≡ registered host
  tenant_of-cached host proper = elim (Result-cases (get_by_domain host)) [
    | inr (e, q) ↦ rw (cached, registered, q)
    | inl (d, q) ↦ elim (Bool-cases (is_verified d)) [
      | inl v ↦ rw (cached, registered, q, v, proper d.gate_id)
      | inr v ↦ rw (cached, registered, q, v)
    ]
  ]

  -- the query answers from the table, and caches what it may
  query_tenant-cases :
      (f : Fate) (host : String) (s : r.Store)
      → ((query_tenant r u f host (get_by_domain host) s).1 ≡ registered host)
        × (((query_tenant r u f host (get_by_domain host) s).0 ≡ s)
            ⊎ ((query_tenant r u f host (get_by_domain host) s).0
                ≡ remember r f (cache_key host) (cached host) s))
  unfolding query_tenant
  query_tenant-cases f host s = ground arith

  -- With a cache that is up to date, whatever its commands meet, a request gets the gate of its host
  -- by the table, and the cache stays up to date.
  pub resolve_tenant-current :
      (g f : Fate) (host : String) (s : r.Store)
      → ((i : ℕ) → str_eq (u.text i) tenant_cache_not_found ≡ false)
      → IsFresh s
      → ((resolve_tenant r u g f get_by_domain host s).1 ≡ current host)
        × IsFresh (resolve_tenant r u g f get_by_domain host s).0
  unfolding resolve_tenant recall
  resolve_tenant-current g f host s proper h = elim (Bool-cases (str_eq host "")) [
    | inl unnamed ↦ rw unnamed (refl, h)
    | inr named ↦ elim (Option-cases (recall r g (cache_key host) s)) [
      | inr (val, e) ↦
          rw (named, e)
            (ap tenant_of (h host val (ground (arith, e))) ∙ tenant_of-cached host proper, h)
      | inl e ↦
          let (same, left) = query_tenant-cases f host s in
          rw (named, e)
            (
              same,
              elim left [
                | inl kept ↦ subst IsFresh (sym kept) h
                | inr written ↦ subst IsFresh (sym written) (remember-IsFresh f host s h)
              ],
            )
    ]
  ]
