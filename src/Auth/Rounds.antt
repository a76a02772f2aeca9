-- ===== src/Auth/Rounds.antt =====
-- A token that is issued and then refreshed: internal/service/auth.go.
use gaty.Prelude.{inl, inr, ℕ, ◌≡◌, refl, ap, String, some, List, [], ◌∷◌, eq_iff, ℤ, arith}
use gaty.Errors.{Result-cases, ok}
use gaty.Json.{lookup}
use gaty.Trigger.{Role}
use gaty.Access.{Member}
use gaty.Redis.{Redis, Fate, answered}
use gaty.Pin.Session as Session
use gaty.Pin.Session.{TokenPair, PinSession, issue_gate_pin_session, store_session}
use gaty.Accounts as Members
use gaty.Auth.{State, MemberSession, MemberTokens, refresh_key, issue_token_pair, store_refresh}
use gaty.Auth.Tokens.{texts_of, permissions_of, text_field, uuid_field}
use gaty.Auth.Refresh.{
  Kit, refresh, redeem, get_del, pin_payload, member_payload, items_of, duration_of,
  payload_session_duration, pin_result, member_result, refresh_pin_session, refresh_member,
}

-- The texts of UUIDs, which parse to them, and the bits of a number of seconds.
pub record Coding (k : Kit) : Type 0 where
  pub uuid : ℕ → String
  pub float : ℤ → ℕ
  pub parse-uuid : (i : ℕ) → k.readers.parse_uuid (uuid i) ≡ some i

texts_of-items_of : (ps : List String) → texts_of (items_of ps) ≡ ps
unfolding texts_of items_of
texts_of-items_of [] = refl
texts_of-items_of (p ∷ ps) = ap (λ qs. p ∷ qs) (texts_of-items_of ps)

module _ (r : Redis) where
  get-set_same : (k v : String) (s : r.Store) → r.get (r.set k v s) k ≡ some v
  get-set_same k v s = ground (arith, r.get-set k k v s, (eq_iff k k).1 refl)

  -- A pair that was issued has its session in the store.
  pub get-issue_gate_pin_session :
      (t : Session.Tokens) (f : Fate) (now pin_id gate_id : ℕ) (d : ℤ) (ps : List String)
      (s s' : r.Store) (pair : TokenPair)
      → issue_gate_pin_session r t f now pin_id gate_id d ps s ≡ (s', ok pair)
      → r.get s' (refresh_key t.sha256_hex pair.refresh_token)
        ≡ some (
            t.encode
              (record { sub = pin_id; gate_id = gate_id; permissions = ps; session_duration = d }))
  unfolding issue_gate_pin_session store_session
  get-issue_gate_pin_session t f now pin_id gate_id d ps s s' pair h =
      elim (Result-cases t.random) [
        | inr (e, q) ↦ ground arith
        | inl (token, q) ↦ ground (
          arith,
          get-set_same (refresh_key t.sha256_hex token)
              (t.encode (record {
                sub = pin_id;
                gate_id = gate_id;
                permissions = ps;
                session_duration = d;
              }))
              s,
        )
      ]

  pub get-issue_token_pair :
      (t : MemberTokens) (f : Fate) (now member_id : ℕ) (role : Role) (d : ℤ) (s s' : r.Store)
      (pair : TokenPair)
      → issue_token_pair r t f now member_id role d s ≡ (s', ok pair)
      → r.get s' (refresh_key t.sessions.sha256_hex pair.refresh_token)
        ≡ some (t.encode (record { sub = member_id; role = role; session_duration = d }))
  unfolding issue_token_pair store_refresh
  get-issue_token_pair t f now member_id role d s s' pair h =
      elim (Result-cases t.sessions.random) [
        | inr (e, q) ↦ ground arith
        | inl (token, q) ↦ ground (
          arith,
          get-set_same (refresh_key t.sessions.sha256_hex token)
              (t.encode (record { sub = member_id; role = role; session_duration = d })) s,
        )
      ]

  module _ (k : Kit) (c : Coding k) where
    -- what a stored session reads as
    permissions_of-pin_payload :
        (p : PinSession) → permissions_of (pin_payload c.uuid c.float p) ≡ p.permissions
    unfolding permissions_of pin_payload lookup
    permissions_of-pin_payload p = texts_of-items_of p.permissions

    duration-pin_payload :
        (p : PinSession)
        → payload_session_duration k.floats (pin_payload c.uuid c.float p)
          ≡ duration_of k.floats (c.float p.session_duration)
    unfolding payload_session_duration pin_payload lookup
    duration-pin_payload p = refl

    duration-member_payload :
        (p : MemberSession)
        → payload_session_duration k.floats (member_payload c.uuid c.float p)
          ≡ duration_of k.floats (c.float p.session_duration)
    unfolding payload_session_duration member_payload lookup
    duration-member_payload p = refl

    uuid_field-sub :
        (p : PinSession) → uuid_field k.readers "sub" (pin_payload c.uuid c.float p) ≡ some p.sub
    unfolding uuid_field text_field pin_payload lookup
    uuid_field-sub p = c.parse-uuid p.sub

    uuid_field-gate_id :
        (p : PinSession)
        → uuid_field k.readers "gate_id" (pin_payload c.uuid c.float p) ≡ some p.gate_id
    unfolding uuid_field text_field pin_payload lookup
    uuid_field-gate_id p = c.parse-uuid p.gate_id

    uuid_field-sub_member :
        (p : MemberSession)
        → uuid_field k.readers "sub" (member_payload c.uuid c.float p) ≡ some p.sub
    unfolding uuid_field text_field member_payload lookup
    uuid_field-sub_member p = c.parse-uuid p.sub

    refresh_pin_session_lem :
        (p : PinSession) (g : Fate) (now : ℕ) (st : State r)
        → duration_of k.floats (c.float p.session_duration) ≡ p.session_duration
        → refresh_pin_session r k g now (pin_payload c.uuid c.float p) st
          ≡ pin_result r p.gate_id p.permissions st (
              issue_gate_pin_session r k.members.sessions g now p.sub p.gate_id p.session_duration
                p.permissions st.store)
    unfolding refresh_pin_session
    refresh_pin_session_lem p g now st hd = rw (
      refresh_pin_session,
      uuid_field-sub p,
      uuid_field-gate_id p,
      permissions_of-pin_payload p,
      duration-pin_payload p,
      hd,
    )

    refresh_member_lem :
        (p : MemberSession) (m : Member) (g : Fate) (now : ℕ) (st : State r)
        → duration_of k.floats (c.float p.session_duration) ≡ p.session_duration
        → Members.get_by_id p.sub st.accounts ≡ ok m
        → refresh_member r k g now (member_payload c.uuid c.float p) st
          ≡ member_result r m st
              (issue_token_pair r k.members g now p.sub m.role p.session_duration st.store)
    unfolding refresh_member
    refresh_member_lem p m g now st hd hm =
        rw (refresh_member, uuid_field-sub_member p, hm, duration-member_payload p, hd)

    refresh-stored_pin :
        (p : PinSession) (g : Fate) (now : ℕ) (token : String) (st : State r)
        → k.unmarshal (k.members.sessions.encode p) ≡ some (pin_payload c.uuid c.float p)
        → duration_of k.floats (c.float p.session_duration) ≡ p.session_duration
        → r.get st.store (refresh_key k.members.sessions.sha256_hex token)
          ≡ some (k.members.sessions.encode p)
        → refresh r k answered g now token st ≡ (
            let emptied : State r = record {
              accounts = st.accounts;
              store = r.del (refresh_key k.members.sessions.sha256_hex token) st.store;
            } in
            pin_result r p.gate_id p.permissions emptied (
              issue_gate_pin_session r k.members.sessions g now p.sub p.gate_id p.session_duration
                p.permissions emptied.store))
    unfolding refresh get_del redeem text_field pin_payload lookup
    refresh-stored_pin p g now token st hu hd h =
        rw (h, redeem, hu) (refresh_pin_session_lem p g now _ hd)

    refresh-stored_member :
        (p : MemberSession) (m : Member) (g : Fate) (now : ℕ) (token : String) (st : State r)
        → k.unmarshal (k.members.encode p) ≡ some (member_payload c.uuid c.float p)
        → duration_of k.floats (c.float p.session_duration) ≡ p.session_duration
        → Members.get_by_id p.sub st.accounts ≡ ok m
        → r.get st.store (refresh_key k.members.sessions.sha256_hex token)
          ≡ some (k.members.encode p)
        → refresh r k answered g now token st ≡ (
            let emptied : State r = record {
              accounts = st.accounts;
              store = r.del (refresh_key k.members.sessions.sha256_hex token) st.store;
            } in
            member_result r m emptied
              (issue_token_pair r k.members g now p.sub m.role p.session_duration emptied.store))
    unfolding refresh get_del redeem text_field member_payload lookup
    refresh-stored_member p m g now token st hu hd hm h =
        rw (h, redeem, hu) (refresh_member_lem p m g now _ hd hm)

    -- A refresh token that was issued for a session of an access code, whose payload json.Unmarshal
    -- reads back and whose duration a float64 carries, stands for that session: refreshing empties
    -- its key and issues the next pair for the same code, gate, permissions and duration.
    pub refresh-issue_gate_pin_session :
        (f g : Fate) (now later : ℕ) (p : PinSession) (s : r.Store) (st : State r)
        (pair : TokenPair)
        → k.unmarshal (k.members.sessions.encode p) ≡ some (pin_payload c.uuid c.float p)
        → duration_of k.floats (c.float p.session_duration) ≡ p.session_duration
        → issue_gate_pin_session r k.members.sessions f now p.sub p.gate_id p.session_duration
            p.permissions s
          ≡ (st.store, ok pair)
        → refresh r k answered g later pair.refresh_token st ≡ (
            let emptied : State r = record {
              accounts = st.accounts;
              store = r.del (refresh_key k.members.sessions.sha256_hex pair.refresh_token) st.store;
            } in
            pin_result r p.gate_id p.permissions emptied (
              issue_gate_pin_session r k.members.sessions g later p.sub p.gate_id p.session_duration
                p.permissions emptied.store))
    refresh-issue_gate_pin_session f g now later p s st pair hu hd h =
        refresh-stored_pin p g later pair.refresh_token st hu hd (
          get-issue_gate_pin_session k.members.sessions f now p.sub p.gate_id p.session_duration
            p.permissions s st.store pair h)

    -- A refresh token that was issued for a member, whose payload json.Unmarshal reads back and
    -- whose duration a float64 carries, issues the next pair for the same member, with the role and
    -- the row that the table has by then.
    pub refresh-issue_token_pair :
        (f g : Fate) (now later : ℕ) (p : MemberSession) (m : Member) (s : r.Store) (st : State r)
        (pair : TokenPair)
        → k.unmarshal (k.members.encode p) ≡ some (member_payload c.uuid c.float p)
        → duration_of k.floats (c.float p.session_duration) ≡ p.session_duration
        → Members.get_by_id p.sub st.accounts ≡ ok m
        → issue_token_pair r k.members f now p.sub p.role p.session_duration s ≡ (st.store, ok pair)
        → refresh r k answered g later pair.refresh_token st ≡ (
            let emptied : State r = record {
              accounts = st.accounts;
              store = r.del (refresh_key k.members.sessions.sha256_hex pair.refresh_token) st.store;
            } in
            member_result r m emptied
              (issue_token_pair r k.members g later p.sub m.role p.session_duration emptied.store))
    refresh-issue_token_pair f g now later p m s st pair hu hd hm h =
        refresh-stored_member p m g later pair.refresh_token st hu hd hm
          (get-issue_token_pair k.members f now p.sub p.role p.session_duration s st.store pair h)
