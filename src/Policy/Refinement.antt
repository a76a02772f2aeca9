-- ===== src/Policy/Refinement.antt =====
-- The two repositories of permissions against a set: internal/repository/postgres/policy.go and
-- credential_policy.go answer as a set of permissions does, with no rows and no order.
use gaty.Prelude.{
  ℕ, String, ◌≡◌, refl, sym, ◌∙◌, List, [], ◌∷◌, Bool, true, false, not, any-keep, ◌&&◌, ◌||◌, ◌==◌,
  str_eq, eq_iff, arith, if◌then◌else◌, inl, inr, Bool-cases,
}
use gaty.Errors.{Result, ok, err, Result-cases}
use gaty.Policy.{
  AccessPolicy, SubjectType, membership, credential, same_type, Tables, known_id, known_code,
  insert_policy, delete_policies, of_subject, on_gate, is_policy,
}
use gaty.Policy.Member
use gaty.Policy.Credential
use gaty.Policy.Laws.{
  holds, holds-insert, holds-delete_gate, holds-delete_one, holds-delete_member,
  holds-delete_subject,
}

-- a call of the repositories
pub data Op : Type 0 where
  grants revokes_permission has : ℕ → ℕ → String → Op
  grants_token has_token : ℕ → ℕ → String → Op
  revokes : ℕ → ℕ → Op
  revokes_token : ℕ → Op

-- what a call leaves, and whether it succeeds
abbrev settled : Tables → Result Tables → Tables × Bool
settled db (err e) = (db, false)
settled db (ok db') = (db', true)

abbrev pub step : Op → Tables → Tables × Bool
step (grants m g c) db = settled db (Member.grant m g c db)
step (revokes_permission m g c) db = settled db (Member.revoke_permission m g c db)
step (has m g c) db = (db, Member.has_permission m g c db)
step (grants_token i g c) db = settled db (Credential.grant i g c db)
step (has_token i g c) db = (db, Credential.has_permission i g c db)
step (revokes m g) db = settled db (Member.revoke m g db)
step (revokes_token i) db = settled db (Credential.revoke_all i db)

-- the answers of a run of calls
abbrev pub answers : List Op → Tables → List Bool
answers [] db = []
answers (o ∷ os) db = (step o db).1 ∷ answers os (step o db).0

-- a set of permissions
abbrev pub Permissions : Type 0
Permissions = SubjectType → ℕ → ℕ → String → Bool

-- The same calls on a set. `known` says which gates and codes exist.
module _ (known : ℕ → String → Bool) where
  abbrev add : SubjectType → ℕ → ℕ → String → Permissions → Permissions
  add t i g c set u j h d =
      (known g c && same_type t u && i == j && g == h && str_eq c d) || set u j h d

  abbrev pub set_step : Op → Permissions → Permissions × Bool
  set_step (grants m g c) set = (add membership m g c set, known g c)
  set_step (revokes_permission m g c) set = (
    λ u j h d. not (same_type membership u && m == j && g == h && str_eq c d) && set u j h d,
    set membership m g c,
  )
  set_step (has m g c) set = (set, set membership m g c)
  set_step (grants_token i g c) set = (add credential i g c set, known g c)
  set_step (has_token i g c) set = (set, set credential i g c)
  set_step (revokes m g) set =
      (λ u j h d. not (same_type membership u && m == j && g == h) && set u j h d, true)
  set_step (revokes_token i) set =
      (λ u j h d. not (same_type credential u && i == j) && set u j h d, true)

  abbrev pub set_answers : List Op → Permissions → List Bool
  set_answers [] set = []
  set_answers (o ∷ os) set = (set_step o set).1 ∷ set_answers os (set_step o set).0

  -- the tables stand for the set
  pub record Represents (db : Tables) (set : Permissions) : Type 0 where
    pub knows :
        (g : ℕ) (c : String) → (known_id g db.gates && known_code c db.permissions) ≡ known g c
    pub agrees : (u : SubjectType) (j h : ℕ) (d : String) → holds u j h d db ≡ set u j h d

  insert-Represents :
      (t : SubjectType) (i g : ℕ) (c : String) (db : Tables) (set : Permissions)
      → Represents db set
      → ((settled db (insert_policy t i g c db)).1 ≡ known g c)
        × Represents (settled db (insert_policy t i g c db)).0 (add t i g c set)
  unfolding insert_policy
  insert-Represents t i g c db set k = elim (Result-cases (insert_policy t i g c db)) [
    | inr (e, q) ↦ rw q (
      ground (arith, k.knows g c),
      record { knows = k.knows; agrees = λ u j h d. ground (arith, k.knows g c, k.agrees u j h d) },
    )
    | inl (db', q) ↦ rw q (
      ground (arith, k.knows g c),
      record {
        knows = λ h d. ground (arith, k.knows h d);
        agrees = λ u j h d.
            ground (arith, k.knows g c, k.agrees u j h d, holds-insert t u i j g h c d db db' q);
      },
    )
  ]

  -- a deletion of the rows with `w`, where `gone` says which permissions they are
  delete-Represents :
      (w : AccessPolicy → Bool) (gone : Permissions) (db : Tables) (set : Permissions)
      → ((u : SubjectType) (j h : ℕ) (d : String)
          → holds u j h d (delete_policies w db)
            ≡ (if gone u j h d then false else holds u j h d db))
      → Represents db set
      → Represents (delete_policies w db) (λ u j h d. not (gone u j h d) && set u j h d)
  unfolding delete_policies
  delete-Represents w gone db set left k = record {
    knows = k.knows;
    agrees = λ u j h d. ground (arith, left u j h d, k.agrees u j h d);
  }

  -- what each deletion leaves
  left_on_gate :
      (m g : ℕ) (db : Tables) (u : SubjectType) (j h : ℕ) (d : String)
      → holds u j h d (delete_policies (on_gate membership m g) db)
        ≡ (if same_type membership u && m == j && g == h then false else holds u j h d db)
  unfolding delete_policies
  left_on_gate m g db membership j h d = holds-delete_gate membership m g j h "" d db.policies
  left_on_gate m g db credential j h d =
      holds-delete_member (on_gate membership m g) j h d db.policies λ p e. ground arith

  left_of_row :
      (m g : ℕ) (c : String) (db : Tables) (u : SubjectType) (j h : ℕ) (d : String)
      → holds u j h d (delete_policies (is_policy membership m g c) db) ≡ (
          if same_type membership u && m == j && g == h && str_eq c d
          then false
          else holds u j h d db)
  unfolding delete_policies
  left_of_row m g c db membership j h d = holds-delete_one membership m g j h c d db.policies
  left_of_row m g c db credential j h d =
      holds-delete_member (is_policy membership m g c) j h d db.policies λ p e. ground arith

  left_of_token :
      (i : ℕ) (db : Tables) (u : SubjectType) (j h : ℕ) (d : String)
      → holds u j h d (delete_policies (of_subject credential i) db)
        ≡ (if same_type credential u && i == j then false else holds u j h d db)
  unfolding delete_policies
  left_of_token i db credential j h d = holds-delete_subject credential i 0 j h "" d db.policies
  left_of_token i db membership j h d = any-keep _ _ db.policies λ p k. ground arith

  -- without the permission there is nothing to remove
  without_row :
      (m g : ℕ) (c : String) (db : Tables) (set : Permissions) (u : SubjectType) (j h : ℕ)
      (d : String)
      → holds membership m g c db ≡ false
      → holds u j h d db ≡ set u j h d
      → holds u j h d db
        ≡ (not (same_type membership u && m == j && g == h && str_eq c d) && set u j h d)
  without_row m g c db set credential j h d q e = ground arith
  without_row m g c db set membership j h d q e = elim (Bool-cases (str_eq c d)) [
    | inr n ↦ ground arith
    | inl s ↦ ground (arith, sym ((eq_iff c d).0 s))
  ]

  step-Represents :
      (o : Op) (db : Tables) (set : Permissions)
      → Represents db set
      → ((step o db).1 ≡ (set_step o set).1) × Represents (step o db).0 (set_step o set).0
  unfolding Member.grant Member.revoke Member.revoke_permission Member.has_permission
      Credential.grant Credential.revoke_all Credential.has_permission
  step-Represents (grants m g c) db set k = insert-Represents membership m g c db set k
  step-Represents (grants_token i g c) db set k = insert-Represents credential i g c db set k
  step-Represents (has m g c) db set k = (k.agrees membership m g c, k)
  step-Represents (has_token i g c) db set k = (k.agrees credential i g c, k)
  step-Represents (revokes m g) db set k =
      (refl, delete-Represents _ _ db set (left_on_gate m g db) k)
  step-Represents (revokes_token i) db set k =
      (refl, delete-Represents _ _ db set (left_of_token i db) k)
  step-Represents (revokes_permission m g c) db set k =
      elim (Bool-cases (holds membership m g c db)) [
        | inl q ↦ rw q (
          sym q ∙ k.agrees membership m g c,
          delete-Represents _ _ db set (left_of_row m g c db) k,
        )
        | inr q ↦ rw q (
          sym q ∙ k.agrees membership m g c,
          record {
            knows = k.knows;
            agrees = λ u j h d. without_row m g c db set u j h d q (k.agrees u j h d);
          },
        )
      ]

  -- Whatever calls are made, in any order, the answers are those of a set of permissions: a grant
  -- adds one where the gate and the code exist and fails otherwise, a revocation removes exactly
  -- its own, and a test says whether the permission is in the set.
  pub answers-set_answers :
      (os : List Op) (db : Tables) (set : Permissions)
      → Represents db set
      → answers os db ≡ set_answers os set
  answers-set_answers [] db set k = refl
  answers-set_answers (o ∷ os) db set k =
      let next = step-Represents o db set k in
      ground (arith, next.0, answers-set_answers os (step o db).0 (set_step o set).0 next.1)
