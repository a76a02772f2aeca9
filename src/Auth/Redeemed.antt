-- ===== src/Auth/Redeemed.antt =====
-- How often a refresh token is redeemed over a run of requests: internal/service/auth.go.
use gaty.Prelude.{
  ℕ, ◌+◌, ◌≤◌, String, Option, none, some, List, [], ◌∷◌, Bool, str_eq, ℤ, arith, if◌then◌else◌,
  inl, inr, Bool-cases, Option-cases, ap, eq_iff,
}
use gaty.Errors.{ok, err, Result-cases}
use gaty.Trigger.{Role}
use gaty.Json.{Fields}
use gaty.Access.{Member}
use gaty.Redis.{Redis, Fate, answered, lost_before, lost_after}
use gaty.Pin.Session as Session
use gaty.Pin.Session.{TokenPair, issue_gate_pin_session, store_session}
use gaty.Accounts.Service.{Secrets, New}
use gaty.Auth.{
  State, MemberTokens, Unicode, PasswordPolicy, refresh_key, issue_token_pair, store_refresh, admit,
  authenticate, enrol, login, register,
}
use gaty.Accounts as Members
use gaty.Auth.Tokens.{uuid_field, permissions_of}
use gaty.Auth.Refresh.{
  Kit, refresh, payload_session_duration, redeem, get_del, refresh_member, refresh_pin_session,
  pin_result, member_result, revoke_refresh_token,
}

module _ (r : Redis) where
  -- A request that touches refresh tokens. The libraries come with the request: the random token
  -- differs from one to the next.
  pub data Request : Type 0 where
    logging_in : Secrets → MemberTokens → Fate → ℕ → ℤ → String → String → Request
    registering :
        Unicode
        → PasswordPolicy
        → Secrets
        → MemberTokens
        → Fate
        → New
        → ℤ
        → String
        → String
        → Option String
        → Request
    opening : Session.Tokens → Fate → ℕ → ℕ → ℕ → ℤ → List String → Request
    refreshing : Kit → Fate → Fate → ℕ → String → Request
    revoking : Kit → Fate → String → Request

  abbrev pub serve : Request → State r → State r
  serve (logging_in x t f now d u p) st = (login r x t f now d u p st).0
  serve (registering u p x t f n d name pw disp) st = (register r u p x t f n d name pw disp st).0
  serve (opening t f now pin gate d ps) st = record st {
    store = (issue_gate_pin_session r t f now pin gate d ps st.store).0;
  }
  serve (refreshing k f g now token) st = (refresh r k f g now token st).0
  serve (revoking k f token) st = revoke_refresh_token r k f token st

  -- 1 where a key holds a value
  abbrev pub present : Option String → ℕ
  present none = 0
  present (some v) = 1

  abbrev pub one_if : Bool → ℕ
  one_if b = if b then 1 else 0

  module _ (key : String) where
    -- the tokens with this key that a request draws
    abbrev pub drawn_by : Session.Tokens → ℕ
    drawn_by t = elim t.random [
      | err e ↦ 0
      | ok token ↦ one_if (str_eq (refresh_key t.sha256_hex token) key)
    ]

    abbrev pub drawn_in : Request → ℕ
    drawn_in (logging_in x t f now d u p) = drawn_by t.sessions
    drawn_in (registering u p x t f n d name pw disp) = drawn_by t.sessions
    drawn_in (opening t f now pin gate d ps) = drawn_by t
    drawn_in (refreshing k f g now token) = drawn_by k.members.sessions
    drawn_in (revoking k f token) = 0

    -- whether a request reads a value for this key
    abbrev pub redeemed_in : Request → State r → ℕ
    redeemed_in (refreshing k f g now token) st =
        if str_eq (refresh_key k.members.sessions.sha256_hex token) key
        then present (get_del r f (refresh_key k.members.sessions.sha256_hex token) st.store).1
        else 0
    redeemed_in _ st = 0

    abbrev pub drawn : List Request → ℕ
    drawn [] = 0
    drawn (q ∷ qs) = drawn_in q + drawn qs

    unfoldable pub redeemed : List Request → State r → ℕ
    redeemed [] st = 0
    redeemed (q ∷ qs) st = redeemed_in q st + redeemed qs (serve q st)

    abbrev held : r.Store → ℕ
    held s = present (r.get s key)

    held-set : (k v : String) (s : r.Store) → held (r.set k v s) ≤ held s + one_if (str_eq k key)
    held-set k v s = ground (arith, r.get-set k key v s)

    held-del : (k : String) (s : r.Store) → held (r.del k s) ≤ held s
    held-del k s = ground (arith, r.get-del k key s)

    held-issue_token_pair :
        (t : MemberTokens) (f : Fate) (now i : ℕ) (role : Role) (d : ℤ) (s : r.Store)
        → held (issue_token_pair r t f now i role d s).0 ≤ held s + drawn_by t.sessions
    unfolding issue_token_pair store_refresh
    held-issue_token_pair t f now i role d s = elim (Result-cases t.sessions.random) [
      | inr (e, q) ↦ ground arith
      | inl (token, q) ↦ ground (
        arith,
        held-set (refresh_key t.sessions.sha256_hex token)
            (t.encode (record { sub = i; role = role; session_duration = d })) s,
      )
    ]

    held-issue_gate_pin_session :
        (t : Session.Tokens) (f : Fate) (now i gate : ℕ) (d : ℤ) (ps : List String) (s : r.Store)
        → held (issue_gate_pin_session r t f now i gate d ps s).0 ≤ held s + drawn_by t
    unfolding issue_gate_pin_session store_session
    held-issue_gate_pin_session t f now i gate d ps s = elim (Result-cases t.random) [
      | inr (e, q) ↦ ground arith
      | inl (token, q) ↦ ground (
        arith,
        held-set (refresh_key t.sha256_hex token)
            (t.encode (record { sub = i; gate_id = gate; permissions = ps; session_duration = d }))
            s,
      )
    ]

    held-admit :
        (t : MemberTokens) (f : Fate) (now : ℕ) (d : ℤ) (m : Member) (st : State r)
        → held (admit r t f now d m st).0.store ≤ held st.store + drawn_by t.sessions
    unfolding admit
    held-admit t f now d m st = held-issue_token_pair t f now m.id m.role d st.store

    held-login :
        (x : Secrets) (t : MemberTokens) (f : Fate) (now : ℕ) (d : ℤ) (u p : String) (st : State r)
        → held (login r x t f now d u p st).0.store ≤ held st.store + drawn_by t.sessions
    unfolding login
    held-login x t f now d u p st = elim (Result-cases (authenticate x u p st.accounts)) [
      | inr (e, q) ↦ rw (login, q) (ground arith)
      | inl (m, q) ↦ rw (login, q) (held-admit t f now d m st)
    ]

    held-register :
        (u : Unicode) (p : PasswordPolicy) (x : Secrets) (t : MemberTokens) (f : Fate) (n : New)
        (d : ℤ) (name pw : String) (disp : Option String) (st : State r)
        → held (register r u p x t f n d name pw disp st).0.store
          ≤ held st.store + drawn_by t.sessions
    unfolding register
    held-register u p x t f n d name pw disp st =
        elim (Result-cases (enrol x n name pw disp st.accounts).1) [
          | inr (e, q) ↦ ground arith
          | inl (m, q) ↦ ground (
            arith,
            held-admit t f n.now d m
                (record { accounts = (enrol x n name pw disp st.accounts).0; store = st.store }),
          )
        ]

    held-refresh_member :
        (k : Kit) (f : Fate) (now : ℕ) (payload : Fields) (st : State r)
        → held (refresh_member r k f now payload st).0.store
          ≤ held st.store + drawn_by k.members.sessions
    unfolding refresh_member member_result
    held-refresh_member k f now payload st =
        elim (Option-cases (uuid_field k.readers "sub" payload)) [
          | inl q ↦ ground arith
          | inr (i, q) ↦ elim (Result-cases (Members.get_by_id i st.accounts)) [
            | inr (e, q') ↦ ground arith
            | inl (m, q') ↦
                rw (refresh_member, q, q')
                  (held-issue_token_pair k.members f now i m.role
                    (payload_session_duration k.floats payload) st.store)
          ]
        ]

    held-refresh_pin_session :
        (k : Kit) (f : Fate) (now : ℕ) (payload : Fields) (st : State r)
        → held (refresh_pin_session r k f now payload st).0.store
          ≤ held st.store + drawn_by k.members.sessions
    unfolding refresh_pin_session pin_result
    held-refresh_pin_session k f now payload st =
        elim (Option-cases (uuid_field k.readers "sub" payload)) [
          | inl q ↦ ground arith
          | inr (i, q) ↦ elim (Option-cases (uuid_field k.readers "gate_id" payload)) [
            | inl q' ↦ ground arith
            | inr (gate, q') ↦
                rw (refresh_pin_session, q, q')
                  (held-issue_gate_pin_session k.members.sessions f now i gate
                    (payload_session_duration k.floats payload) (permissions_of payload) st.store)
          ]
        ]

    held-redeem :
        (k : Kit) (f : Fate) (now : ℕ) (v : String) (st : State r)
        → held (redeem r k f now v st).0.store ≤ held st.store + drawn_by k.members.sessions
    unfolding redeem
    held-redeem k f now v st = elim (Option-cases (k.unmarshal v)) [
      | inl q ↦ ground arith
      | inr (payload, q) ↦ ground (
        arith,
        held-refresh_member k f now payload st,
        held-refresh_pin_session k f now payload st,
      )
    ]

    -- What GETDEL reads is gone from the store.
    held-get_del :
        (f : Fate) (k : String) (s : r.Store)
        → (if str_eq k key then present (get_del r f k s).1 else 0) + held (get_del r f k s).0
          ≤ held s
    unfolding get_del
    held-get_del lost_before k s = ground arith
    held-get_del lost_after k s = ground (arith, held-del k s)
    held-get_del answered k s = elim (Bool-cases (str_eq k key)) [
      | inl q ↦
          ground (arith, r.get-del k key s, ap (λ j. present (r.get s j)) ((eq_iff k key).0 q))
      | inr q ↦ ground (arith, held-del k s)
    ]

    held-refresh :
        (k : Kit) (f g : Fate) (now : ℕ) (token : String) (st : State r)
        → redeemed_in (refreshing k f g now token) st + held (refresh r k f g now token st).0.store
          ≤ held st.store + drawn_by k.members.sessions
    unfolding refresh
    held-refresh k f g now token st =
        let hash : String = refresh_key k.members.sessions.sha256_hex token in
        elim (Option-cases (get_del r f hash st.store).1) [
          | inl q ↦ ground (arith, held-get_del f hash st.store)
          | inr (v, q) ↦ ground (
            arith,
            held-get_del f hash st.store,
            held-redeem k g now v
                (record { accounts = st.accounts; store = (get_del r f hash st.store).0 }),
          )
        ]

    held-serve :
        (q : Request) (st : State r)
        → redeemed_in q st + held (serve q st).store ≤ held st.store + drawn_in q
    unfolding revoke_refresh_token
    held-serve (logging_in x t f now d u p) st = ground (arith, held-login x t f now d u p st)
    held-serve (registering u p x t f n d name pw disp) st =
        ground (arith, held-register u p x t f n d name pw disp st)
    held-serve (opening t f now pin gate d ps) st =
        ground (arith, held-issue_gate_pin_session t f now pin gate d ps st.store)
    held-serve (refreshing k f g now token) st = held-refresh k f g now token st
    held-serve (revoking k f token) st =
        ground (arith, held-del (refresh_key k.members.sessions.sha256_hex token) st.store)

    -- Over a run of logins, registrations, sessions, refreshes and revocations, a key is redeemed at
    -- most as often as a token with its hash was drawn, and once more if it was there before, also
    -- where commands are lost.
    pub redeemed-le :
        (qs : List Request) (st : State r)
        → redeemed qs st ≤ present (r.get st.store key) + drawn qs
    unfolding redeemed
    redeemed-le [] st = ground arith
    redeemed-le (q ∷ qs) st = ground (arith, held-serve q st, redeemed-le qs (serve q st))
