-- ===== src/Policy/Integrity.antt =====
-- The constraints of migrations/ on the two tables, kept by every statement of the repositories.
use gaty.Prelude.{
  ℕ, String, Option, List, [], ◌∷◌, ◌≡◌, refl, Bool, true, false, All, All-keep, any,
  any-keep_of_false, keep, ◌&&◌, arith, if◌then◌else◌, Bool-cases, inl, inr, ◌==◌,
}
use mathlib.Core.Path.{subst}
use mathlib.Core.Bool.{and-eq-true_iff}
use gaty.Errors.{ok}
use gaty.Policy.{
  AccessPolicy, ScheduleLink, SubjectType, same_type, same_gate, Tables, known_id, known_code,
  known_gate, is_policy, is_link, set_links, insert_policy, delete_policies, upsert_link,
  delete_links,
}
use gaty.Policy.Links.{same_type_comm, same_gate_comm}

-- No two rows are equal: the primary key of `access_policies`.
abbrev pub IsKeyed : List AccessPolicy → Type 0
IsKeyed [] = Unit
IsKeyed (p ∷ ps) =
    (any (is_policy p.subject_type p.subject_id p.gate_id p.permission_code) ps ≡ false)
    × IsKeyed ps

-- One link for a subject and gate: the two unique indexes of `schedule_links`.
abbrev pub IsUnique : List ScheduleLink → Type 0
IsUnique [] = Unit
IsUnique (l ∷ ls) = (any (is_link l.subject_type l.subject_id l.gate_id) ls ≡ false) × IsUnique ls

abbrev pub PolicyRefers : Tables → AccessPolicy → Type 0
PolicyRefers db p =
    (known_id p.gate_id db.gates ≡ true) × (known_code p.permission_code db.permissions ≡ true)

abbrev pub LinkRefers : Tables → ScheduleLink → Type 0
LinkRefers db l =
    (known_gate l.gate_id db.gates ≡ true) × (known_id l.schedule_id db.schedules ≡ true)

pub record IsConsistent (db : Tables) : Type 0 where
  pub keyed : IsKeyed db.policies
  pub unique : IsUnique db.links
  pub policies_refer : All (PolicyRefers db) db.policies
  pub links_refer : All (LinkRefers db) db.links

keep-IsKeyed : (q : AccessPolicy → Bool) (ps : List AccessPolicy) → IsKeyed ps → IsKeyed (keep q ps)
keep-IsKeyed q [] h = tt
keep-IsKeyed q (p ∷ ps) (new, h) =
    elim (q p) as (λ b. IsKeyed (if b then p ∷ keep q ps else keep q ps)) [
      | true ↦ (any-keep_of_false _ q ps new, keep-IsKeyed q ps h)
      | false ↦ keep-IsKeyed q ps h
    ]

keep-IsUnique :
    (q : ScheduleLink → Bool) (ls : List ScheduleLink) → IsUnique ls → IsUnique (keep q ls)
keep-IsUnique q [] h = tt
keep-IsUnique q (l ∷ ls) (new, h) =
    elim (q l) as (λ b. IsUnique (if b then l ∷ keep q ls else keep q ls)) [
      | true ↦ (any-keep_of_false _ q ls new, keep-IsUnique q ls h)
      | false ↦ keep-IsUnique q ls h
    ]

pub ok-injective {ℓ} : {A : Type ℓ} {a b : A} → ok a ≡ ok b → a ≡ b
ok-injective h = cc

-- A grant, to a member or to a token, keeps the tables consistent.
pub insert_policy-IsConsistent :
    (t : SubjectType) (i g : ℕ) (c : String) (db db' : Tables)
    → insert_policy t i g c db ≡ ok db'
    → IsConsistent db
    → IsConsistent db'
unfolding insert_policy
insert_policy-IsConsistent t i g c db db' e k =
    elim (Bool-cases (known_id g db.gates && known_code c db.permissions)) [
      | inr unknown ↦ cc (rw unknown at e)
      | inl known ↦ elim (Bool-cases (any (is_policy t i g c) db.policies)) [
        | inl old ↦ subst IsConsistent (ok-injective (rw (known, old) at e)) k
        | inr new ↦ subst IsConsistent (ok-injective (rw (known, new) at e)) (record {
          keyed = (new, k.keyed);
          unique = k.unique;
          policies_refer = ((and-eq-true_iff _ _).0 known, k.policies_refer);
          links_refer = k.links_refer;
        })
      ]
    ]

-- A revocation of any rows keeps them consistent.
pub delete_policies-IsConsistent :
    (w : AccessPolicy → Bool) (db : Tables) → IsConsistent db → IsConsistent (delete_policies w db)
unfolding delete_policies
delete_policies-IsConsistent w db k = record {
  keyed = keep-IsKeyed _ db.policies k.keyed;
  unique = k.unique;
  policies_refer = All-keep _ _ db.policies k.policies_refer;
  links_refer = k.links_refer;
}

pub delete_links-IsConsistent :
    (w : ScheduleLink → Bool) (db : Tables) → IsConsistent db → IsConsistent (delete_links w db)
unfolding delete_links
delete_links-IsConsistent w db k = record {
  keyed = k.keyed;
  unique = keep-IsUnique _ db.links k.unique;
  policies_refer = k.policies_refer;
  links_refer = All-keep _ _ db.links k.links_refer;
}

module _ (t : SubjectType) (i : ℕ) (g : Option ℕ) (s : ℕ) where
  -- setting a link changes only schedules, and adds at most the link that is set
  any-set_links :
      (u : SubjectType) (j : ℕ) (h : Option ℕ) (ls : List ScheduleLink)
      → any (is_link u j h) ls ≡ false
      → (same_type t u && i == j && same_gate g h) ≡ false
      → any (is_link u j h) (set_links t i g s ls) ≡ false
  unfolding set_links
  any-set_links u j h [] e d = rw d
  any-set_links u j h (l ∷ ls) e d = elim (Bool-cases (is_link t i g l)) [
    | inl p ↦ rw p (ground arith)
    | inr p ↦ rw p (ground (arith, any-set_links u j h ls))
  ]

  set_links-IsUnique : (ls : List ScheduleLink) → IsUnique ls → IsUnique (set_links t i g s ls)
  unfolding set_links
  set_links-IsUnique [] h = (refl, tt)
  set_links-IsUnique (l ∷ ls) (new, h) = elim (Bool-cases (is_link t i g l)) [
    | inl p ↦ rw p (new, h)
    | inr p ↦ rw p (
      any-set_links _ _ _ ls new
          (ground (arith, p, same_type_comm t l.subject_type, same_gate_comm g l.gate_id)),
      set_links-IsUnique ls h,
    )
  ]

  set_links-All :
      {P : ScheduleLink → Type 0} (ls : List ScheduleLink)
      → ((l : ScheduleLink) → P l → P (record l { schedule_id = s }))
      → P (record { subject_type = t; subject_id = i; gate_id = g; schedule_id = s })
      → All P ls
      → All P (set_links t i g s ls)
  unfolding set_links
  set_links-All [] change new h = (new, tt)
  set_links-All {P} (l ∷ ls) change new (hl, h) =
      elim (is_link t i g l)
        as (λ b.
          All P (if b then record l { schedule_id = s } ∷ ls else l ∷ set_links t i g s ls)) [
            | true ↦ (change l hl, h)
            | false ↦ (hl, set_links-All ls change new h)
          ]

-- Setting a schedule, for a member or for a token, keeps them consistent.
pub upsert_link-IsConsistent :
    (t : SubjectType) (i : ℕ) (g : Option ℕ) (s : ℕ) (db db' : Tables)
    → upsert_link t i g s db ≡ ok db'
    → IsConsistent db
    → IsConsistent db'
unfolding upsert_link
upsert_link-IsConsistent t i g s db db' e k =
    elim (Bool-cases (known_gate g db.gates && known_id s db.schedules)) [
      | inr unknown ↦ cc (rw unknown at e)
      | inl known ↦
          let (gate, schedule) = (and-eq-true_iff _ _).0 known in
          subst IsConsistent (ok-injective (rw known at e)) (record {
            keyed = k.keyed;
            unique = set_links-IsUnique t i g s db.links k.unique;
            policies_refer = k.policies_refer;
            links_refer =
                set_links-All t i g s db.links (λ l refers. (refers.0, schedule)) (gate, schedule)
                  k.links_refer;
          })
    ]
