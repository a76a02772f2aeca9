-- ===== src/Access/Tests.antt =====
-- The guards of internal/middleware on concrete requests.
use gaty.Redis.{answered, lost_after}
use gaty.Redis.InMemory.{in_memory, empty}
use gaty.Access.RateLimit.{rate_limit, Attempt, key_of, admitted, admitted-le}
use gaty.Prelude.{
  ◌+◌, ◌≤ℤ◌, pos, List, ap, String, Any, arith, ◌≡◌, ◌≢◌, ◌↔◌, ◌⊎◌, refl, none, some, [], ◌∷◌, true,
  false,
}
use gaty.Errors.{ok}
use gaty.Json.{Fields, field, end, bool, lookup}
use gaty.Policy.{Tables, membership}
use gaty.Policy.Member.{has_permission}
use gaty.Trigger.{admin, member}
use gaty.Access.{has_prefix, Member, Credential, Identity, auth_extractor, next, gate_manager}
use gaty.Access.Guards.{IsAdminSession, gate_manager_iff, auth_extractor-IsToken, IsToken}

-- a token of an admin
abbrev token : Identity
token = record { member_id = 7; role = some admin; credential_id = 9 }

abbrev db : Tables
db = record {
  gates = 1 ∷ [];
  permissions = "gate:manage" ∷ [];
  schedules = [];
  policies =
      record {
        subject_type = membership;
        subject_id = 7;
        gate_id = 1;
        permission_code = "gate:manage";
      }
      ∷ [];
  links = [];
}

gate_manager_iff_example :
    (gate_manager (λ m g p. ok (has_permission m g p db)) (some 1) token ≡ next) ↔ (
      IsAdminSession token
      ⊎ ((token.member_id ≢ 0) × (has_permission token.member_id 1 "gate:manage" db ≡ true)))
gate_manager_iff_example = gate_manager_iff db 1 token

-- the token of the member passes, though it has no policy of its own
gate_manager_example : gate_manager (λ m g p. ok (has_permission m g p db)) (some 1) token ≡ next
unfolding gate_manager has_permission
gate_manager_example = refl

abbrev owner : Member
owner = record { id = 7; username = "ada"; display_name = none; role = member; created_at = 0 }

abbrev api_token : Credential
api_token = record {
  id = 9;
  member_id = 7;
  type = "API_TOKEN";
  hashed_value = "gatie_x";
  label = none;
  metadata = end;
  created_at = 0;
  expires_at = none;
}

abbrev enabled : Member → Fields
enabled m = end

extracted_example :
    auth_extractor (λ _. none) (λ s. s) enabled (api_token ∷ []) (owner ∷ []) 0 "" "gatie_x"
    ≡ record { member_id = 7; role = some member; credential_id = 9 }
unfolding auth_extractor lookup
extracted_example = refl

carries_token :
    (auth_extractor
      (λ _. none)
      (λ s. s)
      enabled
      (api_token ∷ [])
      (owner ∷ [])
      0
      ""
      "gatie_x").credential_id
    ≢ 0
carries_token h =
    let made : (auth_extractor (λ _. none) (λ s. s) enabled (api_token ∷ []) (owner ∷ []) 0 ""
          "gatie_x").credential_id
        ≡ 9 =
      ap (λ (i : Identity). i.credential_id) extracted_example in
    omega arith

auth_extractor-IsToken_example :
    (◌≡◌ {A = String} "" "")
    × (has_prefix "gatie_x" "gatie_" ≡ true)
    × Any
        (IsToken 0 "gatie_x"
          (auth_extractor
            (λ _. none)
            (λ s. s)
            enabled
            (api_token ∷ [])
            (owner ∷ [])
            0
            ""
            "gatie_x").credential_id)
        (api_token ∷ [])
auth_extractor-IsToken_example =
    auth_extractor-IsToken (λ _. none) (λ s. s) enabled (api_token ∷ []) (owner ∷ []) 0 "" "gatie_x"
      carries_token

-- switched off
disabled_example :
    auth_extractor
      (λ _. none)
      (λ s. s)
      (λ _. field "api_token" (bool false) end)
      (api_token ∷ [])
      (owner ∷ [])
      0
      ""
      "gatie_x"
    ≡ record { member_id = 0; role = none; credential_id = 0 }
unfolding auth_extractor lookup
disabled_example = refl

abbrev attempts : List Attempt
attempts =
    record { prefix = "login"; ip = "::1"; fate = answered }
    ∷ record { prefix = "login"; ip = "::1"; fate = lost_after }
    ∷ record { prefix = "login"; ip = "::2"; fate = answered }
    ∷ record { prefix = "login"; ip = "::1"; fate = answered }
    ∷ []

one_passes : admitted in_memory (pos 2) (key_of "login" "::1") attempts empty ≡ 1
unfolding admitted rate_limit
one_passes = refl

admitted-le_example :
    (admitted in_memory (pos 2) (key_of "login" "::1") attempts empty ≡ 0)
    ⊎ (pos (
          in_memory.count empty (key_of "login" "::1")
          + admitted in_memory (pos 2) (key_of "login" "::1") attempts empty)
        ≤ℤ pos 2)
admitted-le_example = admitted-le in_memory (pos 2) (key_of "login" "::1") attempts empty
