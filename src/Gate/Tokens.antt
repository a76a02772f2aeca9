-- ===== src/Gate/Tokens.antt =====
-- The tokens of gates after a rotation, and the gates that a member sees: internal/service/gate.go.
use gaty.Prelude.{
  ℕ, ◌≡◌, ◌≢◌, inl, inr, refl, sym, ◌∙◌, String, none, some, [], ◌∷◌, Bool, true, false, keep, ◌==◌,
  ==_iff, str_eq, eq_iff, if◌then◌else◌, arith, Bool-cases, Option-cases,
}
use mathlib.Core.Path.{subst}
use gaty.Errors.{Result, ok, err, unauthorized}
use gaty.Gate.{Gate}
use gaty.Gate.Table.{
  Table, find_row, scan_gate, update_rows, has_token, get_by_id, get_by_token, with_token,
  set_token,
}
use gaty.Gate.Service.{GateTokens, parse_gate_token, authenticate_token, rotate_token}

-- A row of another gate is passed over.
other_row :
    (i : ℕ) (g : Gate) (rows : Table) (b : Bool)
    → (g.id == i) ≡ false
    → find_row i (if b then g ∷ rows else rows) ≡ find_row i rows
unfolding find_row
other_row i g rows true there = rw there
other_row i g rows false there = refl

-- After the token of a gate is set, no row of the gate has another one.
no_old_row :
    (i : ℕ) (new old : String) (gates : Table)
    → old ≢ new
    → find_row i (keep (has_token old) (update_rows i (with_token new) gates)) ≡ none
unfolding find_row update_rows with_token
no_old_row i new old [] ne = refl
no_old_row i new old (g ∷ gates) ne =
    let rest = no_old_row i new old gates ne in
    let differ : str_eq new old ≡ false = elim (Bool-cases (str_eq new old)) [
      | inl e ↦ absurd (ne (sym ((eq_iff new old).0 e)))
      | inr e ↦ e
    ] in
    elim (Bool-cases (g.id == i)) [
      | inl here ↦ rw (here, differ) rest
      | inr there ↦ rw there (
          other_row i g (keep (has_token old) (update_rows i (with_token new) gates))
            (has_token old g) there
          ∙ rest)
    ]

-- The row of a gate is found by the token that was set.
new_row :
    (i : ℕ) (new : String) (gates : Table) (g : Gate)
    → find_row i gates ≡ some g
    → (h : Gate) × (find_row i (keep (has_token new) (update_rows i (with_token new) gates))
        ≡ some h)
      × (h.id ≡ i)
unfolding find_row update_rows with_token
new_row i new [] g found = absurd (cc)
new_row i new (x ∷ gates) g found = elim (Bool-cases (x.id == i)) [
  | inl here ↦ (with_token new x, rw (here, (eq_iff new new).1 refl, here), (==_iff x.id i).0 here)
  | inr there ↦
      let later : find_row i gates ≡ some g = ground arith in
      let (h, kept, same) = new_row i new gates g later in
      (
        h,
        rw there (
            other_row i x (keep (has_token new) (update_rows i (with_token new) gates))
              (has_token new x) there
            ∙ kept),
        same,
      )
]

rotate_token_sound :
    (t : GateTokens) (i : ℕ) (gates gates' : Table) (token : String)
    → rotate_token t i gates ≡ (gates', ok token)
    → (g : Gate) × (find_row i gates ≡ some g) × (gates' ≡ update_rows i (with_token token) gates)
unfolding rotate_token get_by_id set_token
rotate_token_sound t i gates gates' token rotated = elim (Option-cases (find_row i gates)) [
  | inl missing ↦ ground arith
  | inr (g, found) ↦ (g, found, ground arith)
]

authenticate_token-none :
    (t : GateTokens) (i : ℕ) (token : String) (gates : Table)
    → parse_gate_token t token ≡ some i
    → find_row i (keep (has_token token) gates) ≡ none
    → authenticate_token t token gates ≡ err unauthorized
unfolding authenticate_token get_by_token
authenticate_token-none t i token gates named missing = ground arith

authenticate_token-some :
    (t : GateTokens) (i : ℕ) (token : String) (gates : Table) (g : Gate)
    → parse_gate_token t token ≡ some i
    → find_row i (keep (has_token token) gates) ≡ some g
    → authenticate_token t token gates ≡ ok (scan_gate g)
unfolding authenticate_token get_by_token
authenticate_token-some t i token gates g named found = ground arith

-- After a rotation that succeeds, the new token authenticates the gate, and no other token that
-- names the gate does.
pub authenticate_token-rotate_token :
    (t : GateTokens) (i : ℕ) (gates gates' : Table) (token old : String)
    → rotate_token t i gates ≡ (gates', ok token)
    → parse_gate_token t token ≡ some i
    → parse_gate_token t old ≡ some i
    → old ≢ token
    → (authenticate_token t old gates' ≡ err unauthorized)
      × ((g : Gate) × (authenticate_token t token gates' ≡ ok g) × (g.id ≡ i))
unfolding scan_gate
authenticate_token-rotate_token t i gates gates' token old rotated named old_named ne =
    let (g, found, after) = rotate_token_sound t i gates gates' token rotated in
    let gone = no_old_row i token old gates ne in
    let (h, kept, same) = new_row i token gates g found in
    (
      subst (λ rows. authenticate_token t old rows ≡ err unauthorized) (sym after)
          (authenticate_token-none t i old (update_rows i (with_token token) gates) old_named gone),
      (
        scan_gate h,
        subst (λ rows. authenticate_token t token rows ≡ ok (scan_gate h)) (sym after)
            (authenticate_token-some t i token (update_rows i (with_token token) gates) h named
              kept),
        same,
      ),
    )

abbrev pub is_ok {ℓ} : {A : Type ℓ} → Result A → Bool
is_ok (ok _) = true
is_ok (err _) = false
