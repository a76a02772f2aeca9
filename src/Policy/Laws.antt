-- ===== src/Policy/Laws.antt =====
-- What the permission tables answer after each change.
use gaty.Prelude.{
  List, keep, ℕ, String, ◌≡◌, Bool, true, false, any, any-keep, any-keep_none, not, ◌&&◌, ◌==◌,
  str_eq, eq_iff, arith, if◌then◌else◌, Bool-cases, inl, inr,
}
use gaty.Errors.{ok}
use gaty.Policy.{
  AccessPolicy, SubjectType, membership, credential, same_type, Tables, of_subject, on_gate,
  is_policy, insert_policy,
}
use gaty.Policy.Member
use gaty.Policy.Credential

-- the permission that a row gives
abbrev pub holds : SubjectType → ℕ → ℕ → String → Tables → Bool
holds t i g c db = any (is_policy t i g c) db.policies

-- An insertion adds its own permission and no other.
pub holds-insert :
    (t u : SubjectType) (i j g h : ℕ) (c d : String) (db db' : Tables)
    → insert_policy t i g c db ≡ ok db'
    → holds u j h d db'
      ≡ (if same_type t u && i == j && g == h && str_eq c d then true else holds u j h d db)
unfolding insert_policy
holds-insert membership membership i j g h c d db db' e = ground (arith, eq_iff c d)
holds-insert credential credential i j g h c d db db' e = ground (arith, eq_iff c d)
holds-insert _ _ i j g h c d db db' e = ground (arith, eq_iff c d)

-- Member permissions after a grant: the granted one is there, every other answer is as before, and
-- no API token's permission has changed.
pub has_permission-grant :
    (member gate member' gate' : ℕ) (code code' : String) (db db' : Tables)
    → Member.grant member gate code db ≡ ok db'
    → (Member.has_permission member' gate' code' db' ≡ (
        if member == member' && gate == gate' && str_eq code code'
        then true
        else Member.has_permission member' gate' code' db))
      × (Credential.has_permission member' gate' code' db'
          ≡ Credential.has_permission member' gate' code' db)
unfolding Member.grant Member.has_permission Credential.has_permission
has_permission-grant m g m' g' c c' db db' e = (
  holds-insert membership membership m m' g g' c c' db db' e,
  holds-insert membership credential m m' g g' c c' db db' e,
)

module _ {ℓ} {A : Type ℓ} (p w : A → Bool) (same : Bool) where
  -- A search after a deletion, where `same` says whether what is searched is what is deleted.
  any-delete :
      (xs : List A)
      → ((x : A) → p x ≡ true → w x ≡ same)
      → any p (keep (λ x. not (w x)) xs) ≡ (if same then false else any p xs)
  any-delete xs h = elim (Bool-cases same) [
    | inl e ↦ rw e (any-keep_none p _ xs λ x k. rw (h x k, e))
    | inr e ↦ rw e (any-keep p _ xs λ x k. rw (h x k, e))
  ]

module _ (t : SubjectType) (i g j h : ℕ) (c d : String) (ps : List AccessPolicy) where
  -- what is left of a subject type when all rows of a subject on a gate are deleted
  pub holds-delete_gate :
      any (is_policy t j h d) (keep (λ p. not (on_gate t i g p)) ps)
      ≡ (if i == j && g == h then false else any (is_policy t j h d) ps)
  holds-delete_gate = any-delete _ _ _ ps λ p k. ground arith

  -- what is left when one row is deleted
  pub holds-delete_one :
      any (is_policy t j h d) (keep (λ p. not (is_policy t i g c p)) ps)
      ≡ (if i == j && g == h && str_eq c d then false else any (is_policy t j h d) ps)
  holds-delete_one =
      any-delete _ _ _ ps
        λ p k. ground (arith, eq_iff c d, eq_iff p.permission_code c, eq_iff p.permission_code d)

  -- what is left when all rows of a subject are deleted
  pub holds-delete_subject :
      any (is_policy t j h d) (keep (λ p. not (of_subject t i p)) ps)
      ≡ (if i == j then false else any (is_policy t j h d) ps)
  holds-delete_subject = any-delete _ _ _ ps λ p k. ground arith

-- Rows of the other subject type are not touched.
module _ (w : AccessPolicy → Bool) (j h : ℕ) (d : String) where
  pub holds-delete_member :
      (ps : List AccessPolicy)
      → ((p : AccessPolicy) → w p ≡ true → same_type p.subject_type membership ≡ true)
      → any (is_policy credential j h d) (keep (λ p. not (w p)) ps)
        ≡ any (is_policy credential j h d) ps
  holds-delete_member ps only = any-keep _ _ ps λ p k. ground (arith, only p)

-- Member permissions after a revocation of a whole gate: none is left on that gate, every other
-- answer is as before, and no API token's permission has changed.
pub has_permission-revoke :
    (member gate member' gate' : ℕ) (code : String) (db db' : Tables)
    → Member.revoke member gate db ≡ ok db'
    → (Member.has_permission member' gate' code db' ≡ (
        if member == member' && gate == gate'
        then false
        else Member.has_permission member' gate' code db))
      × (Credential.has_permission member' gate' code db'
          ≡ Credential.has_permission member' gate' code db)
unfolding Member.revoke Member.has_permission Credential.has_permission
has_permission-revoke m g m' g' c db db' e = (
  ground (arith, holds-delete_gate membership m g m' g' c c db.policies),
  ground
      (arith, holds-delete_member (on_gate membership m g) m' g' c db.policies λ p k. ground arith),
)

-- Revoking one permission takes away that permission alone; where it was not granted the answer is
-- `ErrNotFound` and, there being no new state, nothing changes.
pub has_permission-revoke_permission :
    (member gate member' gate' : ℕ) (code code' : String) (db db' : Tables)
    → Member.revoke_permission member gate code db ≡ ok db'
    → (Member.has_permission member gate code db ≡ true)
      × (Member.has_permission member' gate' code' db' ≡ (
          if member == member' && gate == gate' && str_eq code code'
          then false
          else Member.has_permission member' gate' code' db))
unfolding Member.revoke_permission Member.has_permission
has_permission-revoke_permission m g m' g' c c' db db' e =
    (ground arith, ground (arith, holds-delete_one membership m g m' g' c c' db.policies))

-- A token's permissions after all of them are revoked: it has none, other tokens have theirs, and
-- no member's permission has changed.
pub has_permission-revoke_all :
    (cred cred' gate : ℕ) (code : String) (db db' : Tables)
    → Credential.revoke_all cred db ≡ ok db'
    → (Credential.has_permission cred' gate code db'
        ≡ (if cred == cred' then false else Credential.has_permission cred' gate code db))
      × (Member.has_permission cred' gate code db' ≡ Member.has_permission cred' gate code db)
unfolding Credential.revoke_all Member.has_permission Credential.has_permission
has_permission-revoke_all i j g c db db' e = (
  ground (arith, holds-delete_subject credential i g j g c c db.policies),
  ground (
    arith,
    any-keep (is_policy membership j g c) (λ p. not (of_subject credential i p)) db.policies
        λ p k. ground arith,
  ),
)
