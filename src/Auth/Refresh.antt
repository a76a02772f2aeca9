-- ===== src/Auth/Refresh.antt =====
-- `Refresh` and `RevokeRefreshToken` of internal/service/auth.go.
use gaty.Prelude.{
  ℕ, ◌*◌, String, Option, none, some, List, [], ◌∷◌, Bool, str_eq, ℤ, pos, if◌then◌else◌,
}
use gaty.Errors.{Result, ok, err, invalid_token}
use gaty.Json.{Json, Items, Fields, field, end, lookup}
use gaty.Trigger.{Role, admin, member}
use gaty.Access.{Member}
use gaty.Redis.{Redis, Fate, answered, lost_before, lost_after}
use gaty.Gate.{second}
use gaty.Pin.Session.{PinSession, TokenPair, seconds, issue_gate_pin_session}
use gaty.Accounts as Members
use gaty.Auth.{State, MemberSession, MemberTokens, refresh_key, issue_token_pair}
use gaty.Auth.Tokens.{Readers, text_field, or_empty, uuid_field, permissions_of}

-- What the code reads of a float64: its sign, and its whole part as an `int64`.
pub record Floats : Type 0 where
  pub is_zero : ℕ → Bool
  pub is_positive : ℕ → Bool
  pub truncate : ℕ → ℤ

abbrev pub default_session_ttl : ℤ
default_session_ttl = pos (7 * 24 * 3600 * second)

-- a number of seconds that was read
unfoldable pub duration_of : Floats → ℕ → ℤ
unfolding seconds
duration_of fl secs =
    if fl.is_zero secs
    then pos 0
    else if fl.is_positive secs
    then seconds (fl.truncate secs)
    else default_session_ttl

-- `payloadSessionDuration`
unfoldable pub payload_session_duration : Floats → Fields → ℤ
unfolding duration_of
payload_session_duration fl payload = elim (lookup "session_duration" payload) [
  | some (Json.num secs) ↦ duration_of fl secs
  | _ ↦ default_session_ttl
]

unfoldable pub items_of : List String → Items
items_of [] = Items.nil
items_of (p ∷ ps) = Items.cons (Json.str p) (items_of ps)

-- The object that `IssueGatePinSession` stores, with its keys in the order of json.Marshal. An empty
-- list stands for Go's empty slice and its nil slice.
unfoldable pub pin_payload : (ℕ → String) → (ℤ → ℕ) → PinSession → Fields
unfolding items_of
pin_payload uuid float p = field "gate_id" (Json.str (uuid p.gate_id)) (
    field "permissions" (Json.arr (items_of p.permissions)) (
      field "session_duration" (Json.num (float p.session_duration))
        (field "sub" (Json.str (uuid p.sub)) (field "type" (Json.str "pin_session") end))))

abbrev pub role_text : Role → String
role_text admin = "ADMIN"
role_text member = "MEMBER"

-- the object that `issueTokenPair` stores
unfoldable pub member_payload : (ℕ → String) → (ℤ → ℕ) → MemberSession → Fields
member_payload uuid float p = field "role" (Json.str (role_text p.role)) (
    field "session_duration" (Json.num (float p.session_duration))
      (field "sub" (Json.str (uuid p.sub)) (field "type" (Json.str "member") end)))

pub record RefreshResult : Type 0 where
  pub tokens : TokenPair
  pub type : String
  pub member : Option Member
  pub gate_id : ℕ
  pub permissions : List String

-- The libraries: what signs and encodes, and what reads.
pub record Kit : Type 0 where
  pub members : MemberTokens
  pub readers : Readers
  pub floats : Floats
  pub unmarshal : String → Option Fields

module _ (r : Redis) where
  -- GETDEL; an error reads as no value
  unfoldable pub get_del : Fate → String → r.Store → r.Store × Option String
  get_del answered k s = (r.del k s, r.get s k)
  get_del lost_before k s = (s, none)
  get_del lost_after k s = (r.del k s, none)

  -- what follows the tokens of a member
  unfoldable pub member_result :
      Member → State r → r.Store × Result TokenPair → State r × Result RefreshResult
  member_result m st issued = (
    record { accounts = st.accounts; store = issued.0 },
    elim issued.1 [
      | err e ↦ err e
      | ok tokens ↦ ok (record {
        tokens = tokens;
        type = "member";
        member = some m;
        gate_id = 0;
        permissions = [];
      })
    ],
  )

  -- what follows those of a session
  unfoldable pub pin_result :
      ℕ → List String → State r → r.Store × Result TokenPair → State r × Result RefreshResult
  pin_result gate_id permissions st issued = (
    record { accounts = st.accounts; store = issued.0 },
    elim issued.1 [
      | err e ↦ err e
      | ok tokens ↦ ok (record {
        tokens = tokens;
        type = "pin_session";
        member = none;
        gate_id = gate_id;
        permissions = permissions;
      })
    ],
  )

  -- the case "member" of `Refresh`
  unfoldable pub refresh_member : Kit → Fate → ℕ → Fields → State r → State r × Result RefreshResult
  refresh_member k f now payload st = elim (uuid_field k.readers "sub" payload) [
    | none ↦ (st, err invalid_token)
    | some member_id ↦ elim (Members.get_by_id member_id st.accounts) [
      | err e ↦ (st, err invalid_token)
      | ok m ↦ member_result m st (
          issue_token_pair r k.members f now member_id m.role
            (payload_session_duration k.floats payload) st.store)
    ]
  ]

  -- the case "pin_session"
  unfoldable pub refresh_pin_session :
      Kit → Fate → ℕ → Fields → State r → State r × Result RefreshResult
  refresh_pin_session k f now payload st = elim (uuid_field k.readers "sub" payload) [
    | none ↦ (st, err invalid_token)
    | some pin_id ↦ elim (uuid_field k.readers "gate_id" payload) [
      | none ↦ (st, err invalid_token)
      | some gate_id ↦ pin_result gate_id (permissions_of payload) st (
          issue_gate_pin_session r k.members.sessions f now pin_id gate_id
            (payload_session_duration k.floats payload) (permissions_of payload) st.store)
    ]
  ]

  -- what a stored payload is worth
  unfoldable pub redeem : Kit → Fate → ℕ → String → State r → State r × Result RefreshResult
  redeem k f now val st = elim (k.unmarshal val) [
    | none ↦ (st, err invalid_token)
    | some payload ↦
        let type = or_empty (text_field "type" payload) in
        if str_eq type "member"
        then refresh_member k f now payload st
        else if str_eq type "pin_session"
        then refresh_pin_session k f now payload st
        else (st, err invalid_token)
  ]

  -- `Refresh`, with the fates of its GETDEL and its SET
  unfoldable pub refresh : Kit → Fate → Fate → ℕ → String → State r → State r × Result RefreshResult
  refresh k f g now token st =
      let taken = get_del f (refresh_key k.members.sessions.sha256_hex token) st.store in
      let st' : State r = record { accounts = st.accounts; store = taken.0 } in
      elim taken.1 [ none ↦ (st', err invalid_token) | some val ↦ redeem k g now val st' ]

  -- `RevokeRefreshToken`, whose error is ignored
  unfoldable pub revoke_refresh_token : Kit → Fate → String → State r → State r
  revoke_refresh_token k lost_before token st = st
  revoke_refresh_token k _ token st = record {
    accounts = st.accounts;
    store = r.del (refresh_key k.members.sessions.sha256_hex token) st.store;
  }
