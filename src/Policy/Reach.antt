-- ===== src/Policy/Reach.antt =====
-- Every table that the two repositories can bring about, from empty tables.
use gaty.Prelude.{ℕ, String, ◌≡◌, some, none, any, Bool-cases, inl, inr}
use mathlib.Core.Path.{subst}
use gaty.Errors.{ok}
use gaty.Policy.{Tables, membership, credential, is_policy}
use gaty.Policy.Member
use gaty.Policy.Credential
use gaty.Policy.Integrity.{
  IsConsistent, ok-injective, insert_policy-IsConsistent, delete_policies-IsConsistent,
  delete_links-IsConsistent, upsert_link-IsConsistent,
}

-- One call that succeeds; a call that fails leaves the tables as they are.
pub data Change (db db' : Tables) : Type 0 where
  grants : (m g : ℕ) (c : String) → Member.grant m g c db ≡ ok db' → Change db db'
  revokes : (m g : ℕ) → Member.revoke m g db ≡ ok db' → Change db db'
  revokes_permission :
      (m g : ℕ) (c : String) → Member.revoke_permission m g c db ≡ ok db' → Change db db'
  sets_schedule : (m g s : ℕ) → Member.set_schedule m g s db ≡ ok db' → Change db db'
  removes_schedule : (m g : ℕ) → Member.remove_schedule m g db ≡ ok db' → Change db db'
  grants_token : (i g : ℕ) (c : String) → Credential.grant i g c db ≡ ok db' → Change db db'
  revokes_token : (i : ℕ) → Credential.revoke_all i db ≡ ok db' → Change db db'
  sets_token_schedule : (i s : ℕ) → Credential.set_schedule i s db ≡ ok db' → Change db db'
  removes_token_schedule : (i : ℕ) → Credential.remove_schedule i db ≡ ok db' → Change db db'

pub data Reach (db : Tables) : Tables → Type 0 where
  here : Reach db db
  then : {mid db' : Tables} → Reach db mid → Change mid db' → Reach db db'

deleted : {db' : Tables} (new : Tables) → ok new ≡ ok db' → IsConsistent new → IsConsistent db'
deleted new e k = subst IsConsistent (ok-injective e) k

Change-IsConsistent : {db db' : Tables} → Change db db' → IsConsistent db → IsConsistent db'
unfolding Member.grant Member.revoke Member.revoke_permission Member.set_schedule
    Member.remove_schedule Credential.grant Credential.revoke_all Credential.set_schedule
    Credential.remove_schedule
Change-IsConsistent {db} {db'} (grants m g c e) k =
    insert_policy-IsConsistent membership m g c db db' e k
Change-IsConsistent {db} (revokes m g e) k = deleted _ e (delete_policies-IsConsistent _ db k)
Change-IsConsistent {db} {db'} (revokes_permission m g c e) k =
    elim (Bool-cases (any (is_policy membership m g c) db.policies)) [
      | inl found ↦ deleted _ (rw found at e) (delete_policies-IsConsistent _ db k)
      | inr missing ↦ cc (rw missing at e)
    ]
Change-IsConsistent {db} {db'} (sets_schedule m g s e) k =
    upsert_link-IsConsistent membership m (some g) s db db' e k
Change-IsConsistent {db} (removes_schedule m g e) k = deleted _ e (delete_links-IsConsistent _ db k)
Change-IsConsistent {db} {db'} (grants_token i g c e) k =
    insert_policy-IsConsistent credential i g c db db' e k
Change-IsConsistent {db} (revokes_token i e) k = deleted _ e (delete_policies-IsConsistent _ db k)
Change-IsConsistent {db} {db'} (sets_token_schedule i s e) k =
    upsert_link-IsConsistent credential i none s db db' e k
Change-IsConsistent {db} (removes_token_schedule i e) k =
    deleted _ e (delete_links-IsConsistent _ db k)

-- Whatever calls are made, from consistent tables the tables stay consistent: no permission is
-- stored twice, a member has at most one schedule for a gate and a token at most one, and every row
-- names a gate, a permission and a schedule that exist.
pub Reach-IsConsistent : {db db' : Tables} → IsConsistent db → Reach db db' → IsConsistent db'
Reach-IsConsistent k here = k
Reach-IsConsistent k (then r c) = Change-IsConsistent c (Reach-IsConsistent k r)
