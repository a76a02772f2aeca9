-- ===== src/Accounts.antt =====
-- Members and their credentials: the tables `members` and `credentials` of migrations/, and the
-- statements of internal/repository/postgres/member.go over them. The identifier and the time of a
-- new row are the database's, and arguments here. A lost connection is not modelled.
pub mod Credentials
pub mod Service
pub mod Handlers
pub mod Administration
use gaty.Prelude.{
  ℕ, String, Option, none, some, List, [], ◌∷◌, Bool, true, false, not, ◌||◌, ◌&&◌, ◌==◌, str_eq,
  any, keep, is_empty, length, if◌then◌else◌,
}
use gaty.Errors.{Result, ok, err, wrap, not_found, already_exists}
use gaty.Pagination.{PaginationParams, page}
use gaty.Trigger.{Role}
use gaty.Access.{Member, Credential, find_member}

pub record Accounts : Type 0 where
  pub members : List Member
  pub credentials : List Credential

-- `SELECT … WHERE id = $1`
unfoldable pub get_by_id : ℕ → Accounts → Result Member
unfolding find_member
get_by_id i db = elim (find_member i db.members) [ none ↦ err not_found | some m ↦ ok m ]

unfoldable pub find_username : String → List Member → Option Member
find_username name [] = none
find_username name (m ∷ ms) =
    let rest = find_username name ms in if str_eq m.username name then some m else rest

unfoldable pub get_by_username : String → Accounts → Result Member
unfolding find_username
get_by_username name db = elim (find_username name db.members) [
  | none ↦ err not_found
  | some m ↦ ok m
]

-- a new row that the primary key or the unique username refuses
abbrev pub clashes : ℕ → String → Member → Bool
clashes i name m = m.id == i || str_eq m.username name

-- `Create`; rows stand newest first
unfoldable pub create :
    ℕ → ℕ → String → Option String → Role → Accounts → Result (Accounts × Member)
create id now username display_name role db =
    if any (clashes id username) db.members
    then err already_exists
    else let m : Member = record {
      id = id;
      username = username;
      display_name = display_name;
      role = role;
      created_at = now;
    } in
      ok (record db { members = m ∷ db.members }, m)

-- `HasAny`
unfoldable pub has_any : Accounts → Bool
has_any db = not (is_empty db.members)

-- `List`: a page of the rows, and their number
unfoldable pub list : PaginationParams → Accounts → List Member × ℕ
list p db = (page p db.members, length db.members)

abbrev pub or_keep {ℓ} : {A : Type ℓ} → Option A → A → A
or_keep none a = a
or_keep (some b) a = b

-- the columns that are given
unfoldable pub set_columns : Option String → Option String → Option Role → Member → Member
set_columns display_name username role m = record m {
  display_name = elim display_name [ none ↦ m.display_name | some d ↦ some d ];
  username = or_keep username m.username;
  role = or_keep role m.role;
}

-- another row that has the username
abbrev pub holds_name : ℕ → Option String → Member → Bool
holds_name i none m = false
holds_name i (some name) m = not (m.id == i) && str_eq m.username name

abbrev pub replace : ℕ → Member → List Member → List Member
replace i new [] = []
replace i new (m ∷ ms) = let rest = replace i new ms in (if m.id == i then new else m) ∷ rest

-- `Update`; without a column it is `GetByID`
unfoldable pub update :
    ℕ → Option String → Option String → Option Role → Accounts → Result (Accounts × Member)
unfolding find_member set_columns
update i display_name username role db = elim (find_member i db.members) [
  | none ↦ err not_found
  | some m ↦
      if any (holds_name i username) db.members
      then err already_exists
      else let m' = set_columns display_name username role m in
        ok (record db { members = replace i m' db.members }, m')
]

-- `Delete`; the foreign key deletes the member's credentials
unfoldable pub delete : ℕ → Accounts → Result Accounts
delete i db =
    if any (λ m. m.id == i) db.members
    then ok (record db {
      members = keep (λ m. not (m.id == i)) db.members;
      credentials = keep (λ c. not (c.member_id == i)) db.credentials;
    })
    else err not_found
