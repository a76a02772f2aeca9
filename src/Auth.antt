-- ===== src/Auth.antt =====
-- internal/service/auth.go: registration, login, and the tokens of members and of sessions that an
-- access code opened. A refresh token is stored in Redis under its hash and redeemed by GETDEL.
pub mod Tokens
pub mod Refresh
pub mod Passwords
pub mod Sessions
pub mod Rounds
pub mod Redeemed
pub mod Logins
pub mod Handlers
pub mod Setup
mod Tests
use Prim.Native.Char.{code}
use gaty.Prelude.{
  ℕ, ◌+◌, ◌*◌, ◌/◌, ◌≡◌, String, Option, none, some, List, [], ◌∷◌, Bool, true, false, not, ◌||◌,
  ◌&&◌, ◌==◌, str_eq, ltb, codes, ℤ, pos, ltb_ℤ, if◌then◌else◌,
}
use gaty.Errors.{
  Err, Result, ok, err, wrap, message, not_found, weak_password, username_taken,
  invalid_credentials, root,
}
use gaty.Json.{Fields, end}
use gaty.Trigger.{Role, member}
use gaty.Access.{Member}
use gaty.Redis.{Redis, ◌▹◌, Fate, answered, lost_before, lost_after}
use gaty.Gate.{second}
use gaty.Pin.Session as Session
use gaty.Pin.Session.{TokenPair}
use gaty.Accounts as Members
use gaty.Accounts.{Accounts}
use gaty.Accounts.Credentials as Credentials
use gaty.Accounts.Service.{Secrets, New, create_password}

pub record PasswordPolicy : Type 0 where
  pub min_length : ℤ
  pub require_upper : Bool
  pub require_lower : Bool
  pub require_digit : Bool

-- package unicode: the classes of code points, which do not meet
pub record Unicode : Type 0 where
  pub is_upper : ℕ → Bool
  pub is_lower : ℕ → Bool
  pub is_digit : ℕ → Bool
  pub lower-is_upper : (r : ℕ) → is_lower r ≡ true → is_upper r ≡ false
  pub digit-is_upper : (r : ℕ) → is_digit r ≡ true → is_upper r ≡ false
  pub digit-is_lower : (r : ℕ) → is_digit r ≡ true → is_lower r ≡ false

-- the bytes of a code point in UTF-8
abbrev pub utf8_width : ℕ → ℕ
utf8_width r = if ltb r 128 then 1 else if ltb r 2048 then 2 else if ltb r 65536 then 3 else 4

-- `len` of a text
unfoldable pub byte_length : List ℕ → ℕ
byte_length [] = 0
byte_length (r ∷ rs) = utf8_width r + byte_length rs

pub record Seen : Type 0 where
  pub upper : Bool
  pub lower : Bool
  pub digit : Bool

-- the switch of the loop over the runes
unfoldable pub see : Unicode → ℕ → Seen → Seen
see u r seen =
    if u.is_upper r
    then record seen { upper = true }
    else if u.is_lower r
    then record seen { lower = true }
    else if u.is_digit r
    then record seen { digit = true }
    else seen

unfoldable pub scan : Unicode → List ℕ → Seen → Seen
unfolding see
scan u [] seen = seen
scan u (r ∷ rs) seen = scan u rs (see u r seen)

-- `validatePassword`
unfoldable pub validate_password : Unicode → PasswordPolicy → String → Result (Unit {0})
unfolding byte_length scan
validate_password u p password =
    let seen = scan u (codes password) (record { upper = false; lower = false; digit = false }) in
    if ltb_ℤ (pos (byte_length (codes password))) p.min_length
    then err (wrap "minimum characters" weak_password)
    else if p.require_upper && not seen.upper
    then err (wrap "must contain an uppercase letter" weak_password)
    else if p.require_lower && not seen.lower
    then err (wrap "must contain a lowercase letter" weak_password)
    else if p.require_digit && not seen.digit
    then err (wrap "must contain a digit" weak_password)
    else ok tt

-- the claims of a member's access token
pub record MemberClaims : Type 0 where
  pub sub : ℕ
  pub role : Role
  pub iat : ℕ
  pub exp : ℕ

-- what a member's refresh token stands for
pub record MemberSession : Type 0 where
  pub sub : ℕ
  pub role : Role
  pub session_duration : ℤ

-- The libraries for a member's tokens: signing and JSON. The random token and SHA-256 are those of
-- the sessions of access codes.
pub record MemberTokens : Type 0 where
  pub sign : MemberClaims → Result String
  pub encode : MemberSession → String
  pub sessions : Session.Tokens

-- `refreshKey`
abbrev pub refresh_key : (String → String) → String → String
refresh_key sha256_hex token = "refresh:" ▹ sha256_hex token

-- the rows that `Register` writes
unfoldable pub enrol :
    Secrets → New → String → String → Option String → Accounts → Accounts × Result Member
unfolding Members.create create_password
enrol x new username password display_name db = elim (x.generate password) [
  | err e ↦ (db, err (wrap "hash password" e))
  | ok hashed ↦ elim (Members.create new.member_id new.now username display_name member db) [
    | err e ↦ (db, err (wrap "create member" e))
    | ok (db', m) ↦ elim (create_password new m.id hashed db') [
      | err e ↦ (db', err (wrap "create credential" e))
      | ok (db'', _) ↦ (db'', ok m)
    ]
  ]
]

-- the check of a username and a password
unfoldable pub authenticate : Secrets → String → String → Accounts → Result Member
unfolding Members.get_by_username Credentials.get_by_member_and_type
authenticate x username password db = elim (Members.get_by_username username db) [
  | err e ↦ elim (root e) [ not_found ↦ err invalid_credentials | _ ↦ err (wrap "get member" e) ]
  | ok m ↦ elim (Credentials.get_by_member_and_type m.id "PASSWORD" db) [
    | err e ↦ elim (root e) [
      | not_found ↦ err invalid_credentials
      | _ ↦ err (wrap "get credential" e)
    ]
    | ok cred ↦ if x.compare cred.hashed_value password then ok m else err invalid_credentials
  ]
]

module _ (r : Redis) where
  -- the accounts and the refresh tokens
  pub record State : Type 0 where
    pub accounts : Accounts
    pub store : r.Store

  unfoldable pub store_refresh : Fate → String → String → r.Store → r.Store × Result (Unit {0})
  store_refresh answered k v s = (r.set k v s, ok tt)
  store_refresh lost_before k v s = (s, err (wrap "store refresh token" (message "redis")))
  store_refresh lost_after k v s = (r.set k v s, err (wrap "store refresh token" (message "redis")))

  -- `issueTokenPair`, at a time in seconds
  unfoldable pub issue_token_pair :
      MemberTokens → Fate → ℕ → ℕ → Role → ℤ → r.Store → r.Store × Result TokenPair
  unfolding store_refresh
  issue_token_pair t f now member_id role duration s =
      elim (t.sign (record { sub = member_id; role = role; iat = now; exp = now + 15 * 60 })) [
        | err e ↦ (s, err (wrap "sign access token" e))
        | ok access ↦ elim t.sessions.random [
          | err e ↦ (s, err (wrap "generate refresh token" e))
          | ok refresh ↦
              let stored =
                store_refresh f (refresh_key t.sessions.sha256_hex refresh)
                  (t.encode (record { sub = member_id; role = role; session_duration = duration }))
                  s in
              (
                stored.0,
                elim stored.1 [
                  | err e ↦ err e
                  | ok _ ↦ ok (record {
                    access_token = access;
                    refresh_token = refresh;
                    session_duration = duration;
                    access_token_ttl = pos (15 * 60 * second);
                  })
                ],
              )
        ]
      ]

  -- the pair for a member who is known, with the member
  unfoldable pub admit :
      MemberTokens → Fate → ℕ → ℤ → Member → State → State × Result (TokenPair × Member)
  unfolding issue_token_pair
  admit t f now duration m st =
      let issued = issue_token_pair t f now m.id m.role duration st.store in
      (
        record { accounts = st.accounts; store = issued.0 },
        elim issued.1 [ err e ↦ err e | ok tokens ↦ ok (tokens, m) ],
      )

  -- `Register`
  unfoldable pub register :
      Unicode
      → PasswordPolicy
      → Secrets
      → MemberTokens
      → Fate
      → New
      → ℤ
      → String
      → String
      → Option String
      → State
      → State × Result (TokenPair × Member)
  register u p x t f new duration username password display_name st =
      elim (validate_password u p password) [
        | err e ↦ (st, err e)
        | ok _ ↦ elim (Members.get_by_username username st.accounts) [
          | ok _ ↦ (st, err username_taken)
          | err e ↦ elim (root e) [
            | not_found ↦
                let enrolled = enrol x new username password display_name st.accounts in
                let st' : State = record { accounts = enrolled.0; store = st.store } in
                elim enrolled.1 [ err e' ↦ (st', err e') | ok m ↦ admit t f new.now duration m st' ]
            | _ ↦ (st, err (wrap "check username" e))
          ]
        ]
      ]

  -- `Login`
  unfoldable pub login :
      Secrets
      → MemberTokens
      → Fate
      → ℕ
      → ℤ
      → String
      → String
      → State
      → State × Result (TokenPair × Member)
  login x t f now duration username password st =
      elim (authenticate x username password st.accounts) [
        | err e ↦ (st, err e)
        | ok m ↦ admit t f now duration m st
      ]
