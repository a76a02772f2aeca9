-- ===== src/Auth/Setup.antt =====
-- What the first set-up of internal/handler/setup.go leaves behind.
use gaty.Prelude.{ℕ, ◌≡◌, String, Option, some, Bool, true, false, any, ℤ, arith, inl, inr}
use gaty.Errors.{ok, Result-cases}
use gaty.Http.{done}
use gaty.Trigger.{member}
use gaty.Access.{Member, Credential, is_admin}
use gaty.Redis.{Redis, Fate}
use gaty.Accounts as Members
use gaty.Accounts.{Accounts}
use gaty.Accounts.Credentials as Credentials
use gaty.Accounts.Service.{Secrets, New, create_password}
use gaty.Auth.{State, MemberTokens, Unicode, PasswordPolicy, register, enrol, admit}
use gaty.Auth.Handlers.{setup_init, setup_status, AuthOutput}

abbrev pub has_admin : Accounts → Bool
has_admin db = any (λ m. is_admin (some m.role)) db.members

create_password_members :
    (new : New) (i : ℕ) (hashed : String) (db db' : Accounts) (c : Credential)
    → create_password new i hashed db ≡ ok (db', c)
    → db'.members ≡ db.members
unfolding create_password Credentials.create Credentials.insert
create_password_members new i hashed db db' c h = ground arith

enrol_role :
    (x : Secrets) (new : New) (username password : String) (disp : Option String)
    (db db' : Accounts) (m : Member)
    → enrol x new username password disp db ≡ (db', ok m)
    → (has_admin db' ≡ has_admin db) × (Members.has_any db' ≡ true)
unfolding enrol Members.create Members.has_any
enrol_role x new username password disp db db' m h = elim (Result-cases (x.generate password)) [
  | inr (e, q) ↦ ground arith
  | inl (hashed, q) ↦
      elim (Result-cases (Members.create new.member_id new.now username disp member db)) [
        | inr (e, q') ↦ ground arith
        | inl ((db1, m1), q') ↦ elim (Result-cases (create_password new m1.id hashed db1)) [
          | inr (e, q'') ↦ ground arith
          | inl ((db2, c), q'') ↦
              ground (arith, create_password_members new m1.id hashed db1 db2 c q'')
        ]
      ]
]

module _ (r : Redis) (decimal : ℤ → String) (secure : Bool) where
  -- The set-up that runs once, on a database without members, makes a member that is no
  -- administrator: afterwards the set-up counts as done and there is no administrator.
  pub setup_init-no_admin :
      (u : Unicode) (p : PasswordPolicy) (x : Secrets) (t : MemberTokens) (f : Fate) (new : New)
      (duration : ℤ) (username password : String) (disp : Option String) (st st' : State r)
      (out : AuthOutput)
      → setup_status r decimal secure st ≡ done true
      → setup_init r decimal secure u p x t f new duration username password disp st
        ≡ (st', done out)
      → (has_admin st'.accounts ≡ false) × (setup_status r decimal secure st' ≡ done false)
  unfolding setup_init setup_status register admit Members.has_any
  setup_init-no_admin u p x t f new duration username password disp st st' out h h' =
      elim (Result-cases (enrol x new username password disp st.accounts).1) [
        | inr (e, q) ↦ ground arith
        | inl (m, q) ↦ ground (
          arith,
          enrol_role x new username password disp st.accounts
              (enrol x new username password disp st.accounts).0 m,
        )
      ]
