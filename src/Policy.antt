-- ===== src/Policy.antt =====
-- internal/repository/postgres/policy.go and credential_policy.go over the tables
-- `access_policies` and `schedule_links` of migrations/: the rows, and the statements of which the
-- repositories' methods are made. A statement that the database refuses for a missing reference is
-- an error; a lost connection is not modelled here.
pub mod Member
pub mod Credential
pub mod Laws
pub mod Links
pub mod Integrity
pub mod Reach
pub mod Refinement
pub mod Handlers
mod Tests
use gaty.Prelude.{
  ℕ, String, Option, none, some, List, [], ◌∷◌, Bool, true, false, not, ◌&&◌, ◌==◌, str_eq, any,
  keep, is_empty, if◌then◌else◌,
}
use gaty.Errors.{Result, ok, err, message, not_found}

-- the column `subject_type`
pub data SubjectType : Type 0 where
  membership credential : SubjectType

abbrev pub same_type : SubjectType → SubjectType → Bool
same_type membership membership = true
same_type credential credential = true
same_type _ _ = false

-- a row of `access_policies`; all four columns are its primary key
pub record AccessPolicy : Type 0 where
  pub subject_type : SubjectType
  pub subject_id : ℕ
  pub gate_id : ℕ
  pub permission_code : String

-- a row of `schedule_links`; no gate means every gate
pub record ScheduleLink : Type 0 where
  pub subject_type : SubjectType
  pub subject_id : ℕ
  pub gate_id : Option ℕ
  pub schedule_id : ℕ

-- the tables, with the keys that the rows refer to
pub record Tables : Type 0 where
  pub gates : List ℕ
  pub permissions : List String
  pub schedules : List ℕ
  pub policies : List AccessPolicy
  pub links : List ScheduleLink

abbrev pub known_id : ℕ → List ℕ → Bool
known_id i ids = any (λ j. j == i) ids

abbrev pub known_code : String → List String → Bool
known_code c cs = any (λ d. str_eq d c) cs

abbrev pub of_subject : SubjectType → ℕ → AccessPolicy → Bool
of_subject t i p = same_type p.subject_type t && p.subject_id == i

abbrev pub on_gate : SubjectType → ℕ → ℕ → AccessPolicy → Bool
on_gate t i g p = of_subject t i p && p.gate_id == g

abbrev pub is_policy : SubjectType → ℕ → ℕ → String → AccessPolicy → Bool
is_policy t i g c p = on_gate t i g p && str_eq p.permission_code c

-- INSERT INTO access_policies … ON CONFLICT DO NOTHING
unfoldable pub insert_policy : SubjectType → ℕ → ℕ → String → Tables → Result Tables
insert_policy t i g c db =
    if not (known_id g db.gates && known_code c db.permissions)
    then err (message "foreign key violation")
    else if any (is_policy t i g c) db.policies
    then ok db
    else ok (record db {
      policies =
          record { subject_type = t; subject_id = i; gate_id = g; permission_code = c }
          ∷ db.policies;
    })

-- DELETE FROM access_policies WHERE …
unfoldable pub delete_policies : (AccessPolicy → Bool) → Tables → Tables
delete_policies where_ db = record db { policies = keep (λ p. not (where_ p)) db.policies }

abbrev pub same_gate : Option ℕ → Option ℕ → Bool
same_gate none none = true
same_gate (some g) (some h) = g == h
same_gate _ _ = false

abbrev pub is_link : SubjectType → ℕ → Option ℕ → ScheduleLink → Bool
is_link t i g l = same_type l.subject_type t && l.subject_id == i && same_gate l.gate_id g

unfoldable pub set_links : SubjectType → ℕ → Option ℕ → ℕ → List ScheduleLink → List ScheduleLink
set_links t i g s [] =
    record { subject_type = t; subject_id = i; gate_id = g; schedule_id = s } ∷ []
set_links t i g s (l ∷ ls) =
    let rest = set_links t i g s ls in
    if is_link t i g l then record l { schedule_id = s } ∷ ls else l ∷ rest

-- a gate that is not given needs no row to refer to
abbrev pub known_gate : Option ℕ → List ℕ → Bool
known_gate none gates = true
known_gate (some g) gates = known_id g gates

-- INSERT INTO schedule_links … ON CONFLICT … DO UPDATE SET schedule_id = EXCLUDED.schedule_id
unfoldable pub upsert_link : SubjectType → ℕ → Option ℕ → ℕ → Tables → Result Tables
unfolding set_links
upsert_link t i g s db =
    if not (known_gate g db.gates && known_id s db.schedules)
    then err (message "foreign key violation")
    else ok (record db { links = set_links t i g s db.links })

-- SELECT schedule_id FROM schedule_links WHERE …: the first row, or `ErrNotFound`
unfoldable pub find_link : SubjectType → ℕ → Option ℕ → List ScheduleLink → Result ℕ
find_link t i g [] = err not_found
find_link t i g (l ∷ ls) = if is_link t i g l then ok l.schedule_id else find_link t i g ls

-- DELETE FROM schedule_links WHERE …
unfoldable pub delete_links : (ScheduleLink → Bool) → Tables → Tables
delete_links where_ db = record db { links = keep (λ l. not (where_ l)) db.links }
