-- ===== src/Access/Guards.antt =====
-- What the guards of internal/middleware/rbac.go let through, and whom internal/middleware/auth.go
-- takes for an API token.
use gaty.Prelude.{
  str_eq, eq_iff, ◌&&◌, Any, Option-cases, inl, inr, Bool-cases, ℕ, ◌≡◌, ◌≢◌, ◌↔◌, ◌⊎◌, String,
  Option, some, List, [], ◌∷◌, true, arith,
}
use mathlib.Core.Path.{subst}
use gaty.Errors.{ok}
use gaty.Json.{Fields}
use gaty.Policy.{Tables}
use gaty.Policy.Member.{has_permission}
use gaty.Trigger.{Role, admin}
use gaty.Access.{
  is_current, has_prefix, Member, Credential, Identity, find_member, find_by_hashed_api_token,
  auth_extractor, next, require_admin, is_privileged_member, gate_manager,
}

-- A session of an admin.
abbrev pub IsAdminSession : Identity → Type 0
IsAdminSession i = (i.role ≡ some admin) × (i.credential_id ≡ 0)

-- The routes of admins are open to the sessions of admins alone, which are the privileged members.
pub require_admin_iff :
    (i : Identity)
    → ((require_admin i ≡ next) ↔ IsAdminSession i)
      × ((is_privileged_member i ≡ true) ↔ IsAdminSession i)
unfolding require_admin is_privileged_member
require_admin_iff i =
    ((λ h. ground arith, λ h. ground arith), (λ h. ground arith, λ h. ground arith))

-- Over the tables, the routes of a gate's managers are open to the sessions of admins, and to every
-- request, by session or by token, of a member who holds gate:manage on the gate.
pub gate_manager_iff :
    (db : Tables) (gate : ℕ) (i : Identity)
    → (gate_manager (λ m g p. ok (has_permission m g p db)) (some gate) i ≡ next) ↔ (
        IsAdminSession i
        ⊎ ((i.member_id ≢ 0) × (has_permission i.member_id gate "gate:manage" db ≡ true)))
unfolding gate_manager
gate_manager_iff db gate i = (λ h. ground arith, λ h. ground arith)

-- A stored API token that is not expired, by its hash.
abbrev pub IsToken : ℕ → String → ℕ → Credential → Type 0
IsToken now hash i c =
    (c.id ≡ i)
    × (str_eq c.hashed_value hash ≡ true)
    × (str_eq c.type "API_TOKEN" ≡ true)
    × (is_current c.expires_at now ≡ true)

found-IsToken :
    (creds : List Credential) (members : List Member) (now : ℕ) (hash : String) (c : Credential)
    (m : Member)
    → find_by_hashed_api_token creds members now hash ≡ some (c, m)
    → Any (IsToken now hash c.id) creds
unfolding find_by_hashed_api_token
found-IsToken [] members now hash c m h = absurd (cc)
found-IsToken (d ∷ creds) members now hash c m h =
    elim (Bool-cases
      (str_eq d.hashed_value hash && str_eq d.type "API_TOKEN" && is_current d.expires_at now)) [
        | inr other ↦ inr (found-IsToken creds members now hash c m (ground arith))
        | inl match ↦ elim (Option-cases (find_member d.member_id members)) [
          | inl missing ↦ inr (found-IsToken creds members now hash c m (ground arith))
          | inr (n, found) ↦
              let same : d.id ≡ c.id = ground arith in
              inl (same, ground arith, ground arith, ground arith)
        ]
      ]

-- A request counts as made by an API token only without an access cookie, by a bearer token that
-- begins with "gatie_" and whose hash is that of a stored API token that is not expired.
pub auth_extractor-IsToken :
    (validate : String → Option (ℕ × Role)) (hash : String → String) (auth_config : Member → Fields)
    (creds : List Credential) (members : List Member) (now : ℕ) (cookie bearer : String)
    → (auth_extractor validate hash auth_config creds members now cookie bearer).credential_id ≢ 0
    → (cookie ≡ "")
      × (has_prefix bearer "gatie_" ≡ true)
      × Any
          (IsToken now
            (hash bearer)
            (auth_extractor validate hash auth_config creds members now cookie
              bearer).credential_id)
          creds
unfolding auth_extractor
auth_extractor-IsToken validate hash auth_config creds members now cookie bearer token =
    elim (Option-cases (find_by_hashed_api_token creds members now (hash bearer))) [
      | inl missing ↦ ground arith
      | inr ((c, m), found) ↦
          let stored = found-IsToken creds members now (hash bearer) c m found in
          let no_cookie : str_eq cookie "" ≡ true = ground arith in
          let named : c.id
              ≡ (auth_extractor validate hash auth_config creds members now cookie
                  bearer).credential_id =
            ground arith in
          (
            (eq_iff cookie "").0 no_cookie,
            ground arith,
            subst (λ i. Any (IsToken now (hash bearer) i) creds) named stored,
          )
    ]
