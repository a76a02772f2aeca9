-- ===== src/Auth/Tests.antt =====
-- internal/service/auth.go on a member, a session and a store in memory.
use gaty.Prelude.{
  ◌⊎◌, arith, if◌then◌else◌, ℕ, zero, suc, ◌+◌, ◌*◌, ◌/◌, ◌≤◌, ◌≡◌, refl, ap, String, Option, none,
  some, List, [], ◌∷◌, true, false, not, ◌==◌, leb, str_eq, any, codes, ℤ, pos, pos_part, ◌≤ℤ◌, ◌↔◌,
}
use gaty.Errors.{ok, err, wrap, unauthorized}
use gaty.Http.{done}
use gaty.Json.{Json, Fields, field, end, lookup}
use gaty.Trigger.{member}
use gaty.Access.{Member, Credential, find_member}
use gaty.Redis.{◌▹◌, answered, lost_before}
use gaty.Redis.InMemory.{Memory, in_memory, empty}
use gaty.Gate.{Gate, second}
use gaty.Pin.Session as Session
use gaty.Pin.Session.{seconds, to_int64, TokenPair, PinSession, issue_gate_pin_session}
use gaty.Accounts as Members
use gaty.Accounts.{Accounts, find_username}
use gaty.Accounts.Credentials as Credentials
use gaty.Accounts.Service.{Secrets, New, create_password}
use gaty.Accounts.Handlers.{change_password}
use gaty.Auth.{
  State, Unicode, PasswordPolicy, MemberTokens, MemberSession, refresh_key, issue_token_pair,
  store_refresh, login, admit, register, scan, see, byte_length, validate_password, enrol,
  authenticate,
}
use gaty.Auth.Tokens.{
  Readers, returned, validate_pin_session_token, trigger_with_session, assert_uuid, permissions_of,
  texts_of, text_field, uuid_field,
}
use gaty.Auth.Refresh.{
  get_del, redeem, refresh_member, refresh_pin_session, items_of, duration_of, Kit, Floats, refresh,
  pin_payload, member_payload, pin_result, member_result,
}
use gaty.Auth.Passwords.{validate_password_iff}
use gaty.Auth.Sessions.{IsAuthorized, IsRefused, trigger_with_session-cases}
use gaty.Auth.Rounds.{Coding, refresh-issue_gate_pin_session, refresh-issue_token_pair}
use gaty.Auth.Redeemed.{Request, logging_in, refreshing, redeemed, drawn, present, redeemed-le}
use gaty.Auth.Logins.{judged, authenticate-enrol, authenticate-change_password}
use gaty.Auth.Handlers.{setup_init, setup_status, set_auth_cookies, AuthOutput}
use gaty.Auth.Setup.{has_admin, setup_init-no_admin}

abbrev secrets : Secrets
secrets = record {
  generate = λ p. ok ("#" ▹ p);
  compare = λ h p. str_eq h ("#" ▹ p);
  random_hex = ok "ab";
  sha256_hex = λ t. t;
}

-- three letters, for the classes
abbrev unicode : Unicode
unicode = record {
  is_upper = λ r. leb r 90;
  is_lower = λ r. not (leb r 90);
  is_digit = λ r. false;
  lower-is_upper = λ r h. ground arith;
  digit-is_upper = λ r h. ground arith;
  digit-is_lower = λ r h. ground arith;
}

abbrev policy : PasswordPolicy
policy = record {
  min_length = pos 4;
  require_upper = true;
  require_lower = true;
  require_digit = false;
}

validate_password_iff_example : (validate_password unicode policy "Gate" ≡ ok tt) ↔ (
    (policy.min_length ≤ℤ pos (byte_length (codes "Gate")))
    × (policy.require_upper ≡ true → any unicode.is_upper (codes "Gate") ≡ true)
    × (policy.require_lower ≡ true → any unicode.is_lower (codes "Gate") ≡ true)
    × (policy.require_digit ≡ true → any unicode.is_digit (codes "Gate") ≡ true))
validate_password_iff_example = validate_password_iff unicode policy "Gate"

-- unary texts for identifiers
abbrev tally : ℕ → String
tally zero = ""
tally (suc n) = String.◌∷◌ "a" (tally n)

abbrev count : String → ℕ
count String.[] = 0
count (String.◌∷◌ c s) = suc (count s)

count-tally : (i : ℕ) → count (tally i) ≡ i
count-tally zero = refl
count-tally (suc i) = ap suc (count-tally i)

abbrev session : PinSession
session = record {
  sub = 4;
  gate_id = 1;
  permissions = "gate:trigger_open" ∷ [];
  session_duration = pos (60 * second);
}

abbrev member_session : MemberSession
member_session = record { sub = 7; role = member; session_duration = pos (60 * second) }

abbrev to_seconds : ℤ → ℕ
to_seconds d = pos_part d / second

-- the two kinds of token, and a token that is none
abbrev claims : String → Option Fields
claims token =
    if str_eq token "member"
    then some (
        field "role" (Json.str "MEMBER")
          (field "sub" (Json.str (tally 7)) (field "type" (Json.str "member") end)))
    else if str_eq token "session"
    then some (pin_payload tally to_seconds session)
    else none

abbrev readers : Readers
readers = record { parse_jwt = claims; parse_uuid = λ s. some (count s) }

abbrev sessions : Session.Tokens
sessions = record {
  sign = λ c. ok "session";
  random = ok "r";
  sha256_hex = λ t. t;
  encode = λ p. "session";
}

abbrev tokens : MemberTokens
tokens = record { sign = λ c. ok "member"; encode = λ p. "member"; sessions = sessions }

abbrev floats : Floats
floats = record { is_zero = λ x. x == 0; is_positive = λ x. not (x == 0); truncate = λ x. pos x }

abbrev kit : Kit
kit = record {
  members = tokens;
  readers = readers;
  floats = floats;
  unmarshal = λ v.
      if str_eq v "session"
      then some (pin_payload tally to_seconds session)
      else some (member_payload tally to_seconds member_session);
}

abbrev coding : Coding kit
coding = record { uuid = tally; float = to_seconds; parse-uuid = λ i. ap some (count-tally i) }

abbrev ann : Member
ann = record { id = 7; username = "ann"; display_name = none; role = member; created_at = 1 }

abbrev password_of_ann : Credential
password_of_ann = record {
  id = 3;
  member_id = 7;
  type = "PASSWORD";
  hashed_value = "#Gate";
  label = none;
  expires_at = none;
  metadata = end;
  created_at = 1;
}

abbrev accounts : Accounts
accounts = record { members = ann ∷ []; credentials = password_of_ann ∷ [] }

abbrev issued : Memory
issued =
    (issue_gate_pin_session in_memory sessions answered 0 4 1 (pos (60 * second))
      ("gate:trigger_open" ∷ []) empty).0

abbrev pair : TokenPair
pair = record {
  access_token = "session";
  refresh_token = "r";
  session_duration = pos 0;
  access_token_ttl = pos (15 * 60 * second);
}

abbrev state : State in_memory
state = record { accounts = accounts; store = issued }

abbrev refreshed : State in_memory
refreshed = record {
  accounts = accounts;
  store = in_memory.del (refresh_key sessions.sha256_hex "r") issued;
}

refresh-issue_gate_pin_session_example :
    refresh in_memory kit answered answered 60 "r" state
    ≡ pin_result in_memory 1 ("gate:trigger_open" ∷ []) refreshed (
        issue_gate_pin_session in_memory sessions answered 60 4 1
          (pos (60 * second))
          ("gate:trigger_open" ∷ [])
          refreshed.store)
unfolding issue_gate_pin_session Session.store_session duration_of seconds to_int64
refresh-issue_gate_pin_session_example =
    refresh-issue_gate_pin_session in_memory kit coding answered answered 0 60 session empty state
      pair refl refl refl

abbrev issued_member : Memory
issued_member = (issue_token_pair in_memory tokens answered 0 7 member (pos (60 * second)) empty).0

abbrev member_pair : TokenPair
member_pair = record {
  access_token = "member";
  refresh_token = "r";
  session_duration = pos (60 * second);
  access_token_ttl = pos (15 * 60 * second);
}

abbrev member_state : State in_memory
member_state = record { accounts = accounts; store = issued_member }

abbrev member_refreshed : State in_memory
member_refreshed = record {
  accounts = accounts;
  store = in_memory.del (refresh_key sessions.sha256_hex "r") issued_member;
}

refresh-issue_token_pair_example :
    refresh in_memory kit answered answered 60 "r" member_state
    ≡ member_result in_memory ann member_refreshed (
        issue_token_pair in_memory tokens answered 60 7 member
          (pos (60 * second))
          member_refreshed.store)
unfolding issue_token_pair store_refresh duration_of seconds to_int64 Members.get_by_id find_member
refresh-issue_token_pair_example =
    refresh-issue_token_pair in_memory kit coding answered answered 0 60 member_session ann empty
      member_state member_pair refl refl refl refl

abbrev gate : Gate
gate = record {
  id = 1;
  name = "north";
  integration_type = "MQTT";
  integration_config = end;
  open_config = none;
  close_config = none;
  status_config = none;
  status = "closed";
  last_seen_at = none;
  created_at = 0;
  status_metadata = end;
  meta_config = [];
  status_rules = [];
  custom_statuses = [];
  ttl_seconds = none;
  status_transitions = [];
  gate_token = none;
}

trigger_with_session-cases_example :
    ((g : Gate) × IsAuthorized readers (λ i. ok gate) "session" "open" g
      × (trigger_with_session readers (λ i. ok gate) "session" "open" []
          ≡ returned ((g, "open") ∷ [], ok tt)))
    ⊎ (((g : Gate) → IsAuthorized readers (λ i. ok gate) "session" "open" g → ⊥)
        × IsRefused readers
            (λ i. ok gate)
            "session"
            "open"
            []
            (trigger_with_session readers (λ i. ok gate) "session" "open" []))
trigger_with_session-cases_example =
    trigger_with_session-cases readers (λ i. ok gate) "session" "open" []

-- the session opens the gate, and does not close it
trigger_with_session_runs :
    (trigger_with_session readers (λ i. ok gate) "session" "open" []
      ≡ returned ((gate, "open") ∷ [], ok tt))
    × (trigger_with_session readers (λ i. ok gate) "session" "close" []
        ≡ returned ([], err (wrap "missing permission" unauthorized)))
unfolding trigger_with_session validate_pin_session_token assert_uuid permissions_of texts_of
    text_field lookup pin_payload items_of
trigger_with_session_runs = (refl, refl)

-- a login, and the token presented twice
abbrev requests : List (Request in_memory)
requests =
    logging_in secrets tokens answered 0 (pos (60 * second)) "ann" "Gate"
    ∷ refreshing kit answered lost_before 1 "r"
    ∷ refreshing kit answered answered 2 "r"
    ∷ []

abbrev fresh : State in_memory
fresh = record { accounts = accounts; store = empty }

redeemed-le_example :
    redeemed in_memory "refresh:r" requests fresh
    ≤ present in_memory (in_memory.get empty "refresh:r") + drawn in_memory "refresh:r" requests
redeemed-le_example = redeemed-le in_memory "refresh:r" requests fresh

redeemed_run : redeemed in_memory "refresh:r" requests fresh ≡ 1
unfolding redeemed login authenticate admit issue_token_pair store_refresh refresh get_del redeem
    refresh_member refresh_pin_session member_result text_field uuid_field lookup member_payload
    Members.get_by_username Members.get_by_id find_member find_username
    Credentials.get_by_member_and_type Credentials.find_credential
redeemed_run = refl

abbrev new : New
new = record { member_id = 8; credential_id = 9; now = 2 }

abbrev bob : Member
bob = record { id = 8; username = "bob"; display_name = none; role = member; created_at = 2 }

abbrev with_bob : Accounts
with_bob = (enrol secrets new "bob" "Pass" none accounts).0

authenticate-enrol_example :
    authenticate secrets "bob" "Pass" with_bob ≡ judged secrets "#Pass" "Pass" bob
unfolding enrol Members.create create_password Credentials.create Credentials.insert
authenticate-enrol_example =
    authenticate-enrol secrets new "bob" "Pass" "#Pass" "Pass" none accounts with_bob bob refl refl

abbrev changed : Accounts
changed = (change_password secrets 7 "Gate" "Door" accounts).0

authenticate-change_password_example :
    (authenticate secrets "ann" "Gate" accounts ≡ ok ann)
    × (authenticate secrets "ann" "Gate" changed ≡ judged secrets "#Door" "Gate" ann)
unfolding change_password Members.get_by_username find_username Credentials.get_by_member_and_type
    Credentials.find_credential Credentials.update_hashed_value
authenticate-change_password_example =
    authenticate-change_password secrets ann "ann" "Gate" "Door" "#Door" "Gate" accounts changed
      refl refl refl

abbrev blank : State in_memory
blank = record { accounts = record { members = []; credentials = [] }; store = empty }

abbrev set_up : State in_memory
set_up =
    (setup_init in_memory (λ d. "0") false unicode policy secrets tokens answered new
      (pos (60 * second)) "bob" "Pass" none blank).0

abbrev output : AuthOutput
output = record {
  cookies = set_auth_cookies (λ d. "0") member_pair false;
  type = "member";
  member = bob;
}

setup_init-no_admin_example :
    (has_admin set_up.accounts ≡ false)
    × (setup_status in_memory (λ d. "0") false set_up ≡ done false)
unfolding setup_init setup_status Members.has_any register validate_password scan see byte_length
    Members.get_by_username find_username enrol Members.create create_password Credentials.create
    Credentials.insert admit issue_token_pair store_refresh
setup_init-no_admin_example =
    setup_init-no_admin in_memory (λ d. "0") false unicode policy secrets tokens answered new
      (pos (60 * second)) "bob" "Pass" none blank set_up output refl refl
