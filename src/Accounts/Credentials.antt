-- ===== src/Accounts/Credentials.antt =====
-- internal/repository/postgres/credential.go: passwords, identities of single sign-on and API tokens.
use gaty.Prelude.{
  ℕ, String, Option, List, [], ◌∷◌, Bool, not, ◌||◌, ◌&&◌, ◌==◌, str_eq, any, keep, length,
  if◌then◌else◌,
}
use gaty.Errors.{Result, ok, err, wrap, message, not_found, already_exists}
use gaty.Json.{Fields}
use gaty.Pagination.{PaginationParams, page}
use gaty.Access.{Credential}
use gaty.Accounts.{Accounts}

-- the CHECK of the column `type`
abbrev pub is_type : String → Bool
is_type t = str_eq t "PASSWORD" || str_eq t "SSO_IDENTITY" || str_eq t "API_TOKEN"

-- `member_id = $1 AND type = $2`
abbrev pub of_member : ℕ → String → Credential → Bool
of_member member_id type c = c.member_id == member_id && str_eq c.type type

-- the primary key, and one password for a member
abbrev pub conflicts : Credential → Credential → Bool
conflicts new c =
    c.id == new.id || (str_eq new.type "PASSWORD" && of_member new.member_id "PASSWORD" c)

-- INSERT INTO credentials, with its constraints
unfoldable pub insert : Credential → Accounts → Result (Accounts × Credential)
insert c db =
    if not (is_type c.type)
    then err (wrap "create credential" (message "check violation"))
    else if any (conflicts c) db.credentials
    then err already_exists
    else if not (any (λ m. m.id == c.member_id) db.members)
    then err (wrap "create credential" (message "foreign key violation"))
    else ok (record db { credentials = c ∷ db.credentials }, c)

-- `Create`
unfoldable pub create :
    ℕ
    → ℕ
    → ℕ
    → String
    → String
    → Option String
    → Option ℕ
    → Fields
    → Accounts
    → Result (Accounts × Credential)
unfolding insert
create id now member_id type hashed_value label expires_at metadata db =
    insert
      (record {
        id = id;
        member_id = member_id;
        type = type;
        hashed_value = hashed_value;
        label = label;
        expires_at = expires_at;
        metadata = metadata;
        created_at = now;
      })
      db

unfoldable pub find_credential : (Credential → Bool) → List Credential → Result Credential
find_credential p [] = err not_found
find_credential p (c ∷ cs) = let rest = find_credential p cs in if p c then ok c else rest

unfoldable pub get_by_member_and_type : ℕ → String → Accounts → Result Credential
unfolding find_credential
get_by_member_and_type member_id type db = find_credential (of_member member_id type) db.credentials

abbrev pub is_row : ℕ → ℕ → Credential → Bool
is_row cred_id member_id c = c.id == cred_id && c.member_id == member_id

unfoldable pub get_by_id : ℕ → ℕ → Accounts → Result Credential
unfolding find_credential
get_by_id cred_id member_id db = find_credential (is_row cred_id member_id) db.credentials

unfoldable pub list_by_member_and_type :
    ℕ → String → PaginationParams → Accounts → List Credential × ℕ
list_by_member_and_type member_id type p db =
    let rows = keep (of_member member_id type) db.credentials in (page p rows, length rows)

unfoldable pub find_by_sso_identity : String → Accounts → Result Credential
unfolding find_credential
find_by_sso_identity provider_sub db =
    find_credential (λ c. str_eq c.type "SSO_IDENTITY" && str_eq c.hashed_value provider_sub)
      db.credentials

abbrev pub set_hash : ℕ → String → String → List Credential → List Credential
set_hash member_id type hash [] = []
set_hash member_id type hash (c ∷ cs) =
    let rest = set_hash member_id type hash cs in
    (if of_member member_id type c then record c { hashed_value = hash } else c) ∷ rest

unfoldable pub update_hashed_value : ℕ → String → String → Accounts → Result Accounts
update_hashed_value member_id type hash db =
    if any (of_member member_id type) db.credentials
    then ok (record db { credentials = set_hash member_id type hash db.credentials })
    else err not_found

unfoldable pub delete : ℕ → ℕ → Accounts → Result Accounts
delete cred_id member_id db =
    if any (is_row cred_id member_id) db.credentials
    then ok
        (record db { credentials = keep (λ c. not (is_row cred_id member_id c)) db.credentials })
    else err not_found
