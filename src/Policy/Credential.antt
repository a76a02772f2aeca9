-- ===== src/Policy/Credential.antt =====
-- internal/repository/postgres/credential_policy.go: the permissions and the schedule of an API
-- token. A token's schedule holds for every gate.
use gaty.Prelude.{ℕ, String, none, Bool, any}
use gaty.Errors.{Result, ok}
use gaty.Policy.{
  Tables, credential, of_subject, is_policy, is_link, insert_policy, delete_policies, upsert_link,
  find_link, delete_links,
}

unfoldable pub has_any : ℕ → Tables → Bool
has_any cred db = any (of_subject credential cred) db.policies

unfoldable pub has_permission : ℕ → ℕ → String → Tables → Bool
has_permission cred gate perm_code db = any (is_policy credential cred gate perm_code) db.policies

unfoldable pub grant : ℕ → ℕ → String → Tables → Result Tables
unfolding insert_policy
grant cred gate perm_code db = insert_policy credential cred gate perm_code db

unfoldable pub revoke_all : ℕ → Tables → Result Tables
unfolding delete_policies
revoke_all cred db = ok (delete_policies (of_subject credential cred) db)

unfoldable pub get_schedule_id : ℕ → Tables → Result ℕ
unfolding find_link
get_schedule_id cred db = find_link credential cred none db.links

unfoldable pub set_schedule : ℕ → ℕ → Tables → Result Tables
unfolding upsert_link
set_schedule cred schedule db = upsert_link credential cred none schedule db

unfoldable pub remove_schedule : ℕ → Tables → Result Tables
unfolding delete_links
remove_schedule cred db = ok (delete_links (is_link credential cred none) db)
