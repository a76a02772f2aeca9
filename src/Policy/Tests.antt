-- ===== src/Policy/Tests.antt =====
-- The permission tables of internal/repository/postgres on concrete rows.
use gaty.Prelude.{ℕ, ◌≡◌, refl, some, List, String, Bool, ◌&&◌, [], ◌∷◌, false}
use gaty.Errors.{ok}
use gaty.Policy.{known_id, known_code, Tables, AccessPolicy, membership, credential}
use gaty.Policy.Member
use gaty.Policy.Credential
use gaty.Policy.Refinement.{answers, set_answers, Represents, answers-set_answers}
use gaty.Policy.Refinement as Refinement
use gaty.Policy.Integrity.{IsConsistent}
use gaty.Policy.Reach.{here, then, grants, sets_schedule, revokes, Reach-IsConsistent}

-- two gates, two permissions and one schedule
abbrev empty : Tables
empty = record {
  gates = 1 ∷ 2 ∷ [];
  permissions = "gate:trigger_open" ∷ "gate:manage" ∷ [];
  schedules = 5 ∷ [];
  policies = [];
  links = [];
}

abbrev opening : ℕ → AccessPolicy
opening gate = record {
  subject_type = membership;
  subject_id = 7;
  gate_id = gate;
  permission_code = "gate:trigger_open";
}

abbrev granted : Tables
granted = record empty { policies = opening 1 ∷ [] }

abbrev scheduled : Tables
scheduled = record granted {
  links =
      record { subject_type = membership; subject_id = 7; gate_id = some 1; schedule_id = 5 } ∷ [];
}

abbrev revoked : Tables
revoked = record scheduled { policies = [] }

abbrev tokens : Tables
tokens = record granted {
  policies =
      record {
        subject_type = credential;
        subject_id = 9;
        gate_id = 2;
        permission_code = "gate:manage";
      }
      ∷ opening 1
      ∷ [];
}

grant_example : Member.grant 7 1 "gate:trigger_open" empty ≡ ok granted
unfolding Member.grant
grant_example = refl

set_schedule_example : Member.set_schedule 7 1 5 granted ≡ ok scheduled
unfolding Member.set_schedule
set_schedule_example = refl

remove_schedule_example : Member.remove_schedule 7 1 scheduled ≡ ok granted
unfolding Member.remove_schedule
remove_schedule_example = refl

revoke_example : Member.revoke 7 1 scheduled ≡ ok revoked
unfolding Member.revoke
revoke_example = refl

revoke_permission_example : Member.revoke_permission 7 1 "gate:trigger_open" scheduled ≡ ok revoked
unfolding Member.revoke_permission
revoke_permission_example = refl

revoke_all_example : Credential.revoke_all 9 tokens ≡ ok granted
unfolding Credential.revoke_all
revoke_all_example = refl

empty-IsConsistent : IsConsistent empty
empty-IsConsistent = record { keyed = tt; unique = tt; policies_refer = tt; links_refer = tt }

Reach-IsConsistent_example : IsConsistent revoked
Reach-IsConsistent_example = Reach-IsConsistent empty-IsConsistent (
    then
      (then (then here (grants 7 1 "gate:trigger_open" grant_example))
        (sets_schedule 7 1 5 set_schedule_example))
      (revokes 7 1 revoke_example))

abbrev is_known : ℕ → String → Bool
is_known g c = known_id g (1 ∷ 2 ∷ []) && known_code c ("gate:trigger_open" ∷ "gate:manage" ∷ [])

no_rows : Represents is_known empty (λ u j h d. false)
no_rows = record { knows = λ g c. refl; agrees = λ u j h d. refl }

abbrev calls : List Refinement.Op
calls =
    Refinement.has 7 1 "gate:manage"
    ∷ Refinement.grants 7 1 "gate:manage"
    ∷ Refinement.has 7 1 "gate:manage"
    ∷ Refinement.revokes 7 1
    ∷ Refinement.has 7 1 "gate:manage"
    ∷ []

answers-set_answers_example : answers calls empty ≡ set_answers is_known calls (λ u j h d. false)
answers-set_answers_example = answers-set_answers is_known calls empty (λ u j h d. false) no_rows
