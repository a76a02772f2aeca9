-- ===== src/Policy/Member.antt =====
-- internal/repository/postgres/policy.go: the permissions and schedules of members.
use gaty.Prelude.{ℕ, String, some, Bool, any, ◌&&◌, str_eq, if◌then◌else◌}
use gaty.Errors.{Result, ok, err, not_found}
use gaty.Policy.{
  Tables, membership, of_subject, on_gate, is_policy, is_link, insert_policy, delete_policies,
  upsert_link, find_link, delete_links,
}

unfoldable pub grant : ℕ → ℕ → String → Tables → Result Tables
unfolding insert_policy
grant member gate perm_code db = insert_policy membership member gate perm_code db

unfoldable pub revoke : ℕ → ℕ → Tables → Result Tables
unfolding delete_policies
revoke member gate db = ok (delete_policies (on_gate membership member gate) db)

-- `RowsAffected() == 0` is `ErrNotFound`
unfoldable pub revoke_permission : ℕ → ℕ → String → Tables → Result Tables
unfolding delete_policies
revoke_permission member gate perm_code db =
    if any (is_policy membership member gate perm_code) db.policies
    then ok (delete_policies (is_policy membership member gate perm_code) db)
    else err not_found

unfoldable pub has_permission : ℕ → ℕ → String → Tables → Bool
has_permission member gate perm_code db =
    any (is_policy membership member gate perm_code) db.policies

unfoldable pub has_any_permission : ℕ → ℕ → Tables → Bool
has_any_permission member gate db = any (on_gate membership member gate) db.policies

unfoldable pub has_permission_on_any_gate : ℕ → String → Tables → Bool
has_permission_on_any_gate member perm_code db =
    any (λ p. of_subject membership member p && str_eq p.permission_code perm_code) db.policies

unfoldable pub get_schedule_id : ℕ → ℕ → Tables → Result ℕ
unfolding find_link
get_schedule_id member gate db = find_link membership member (some gate) db.links

unfoldable pub set_schedule : ℕ → ℕ → ℕ → Tables → Result Tables
unfolding upsert_link
set_schedule member gate schedule db = upsert_link membership member (some gate) schedule db

unfoldable pub remove_schedule : ℕ → ℕ → Tables → Result Tables
unfolding delete_links
remove_schedule member gate db = ok (delete_links (is_link membership member (some gate)) db)
