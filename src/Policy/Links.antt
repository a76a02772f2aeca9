-- ===== src/Policy/Links.antt =====
-- What the schedule links answer after each change.
use gaty.Prelude.{
  ℕ, Option, none, some, List, [], ◌∷◌, ◌≡◌, refl, Bool, true, false, keep, not, ◌&&◌, ◌==◌, arith,
  Bool-cases, inl, inr, if◌then◌else◌,
}
use gaty.Errors.{ok, err, not_found}
use gaty.Policy.{
  SubjectType, membership, credential, same_type, same_gate, ScheduleLink, Tables, is_link,
  set_links, upsert_link, find_link, delete_links,
}
use gaty.Policy.Member
use gaty.Policy.Credential

same_type_trans : (a t u : SubjectType) → same_type a t ≡ true → same_type a u ≡ same_type t u
same_type_trans membership membership u h = refl
same_type_trans credential credential u h = refl
same_type_trans membership credential u h = cc
same_type_trans credential membership u h = cc

same_gate_trans : (a g h : Option ℕ) → same_gate a g ≡ true → same_gate a h ≡ same_gate g h
same_gate_trans none none h e = refl
same_gate_trans (some a) (some b) none e = refl
same_gate_trans (some a) (some b) (some c) e = ground arith
same_gate_trans none (some b) h e = cc
same_gate_trans (some a) none h e = cc

module _ {ℓ} {A : Type ℓ} where
  if-same : (b : Bool) (x : A) → x ≡ (if b then x else x)
  if-same true x = refl
  if-same false x = refl

  if-twice : (b : Bool) (x y z : A) → (if b then x else y) ≡ (if b then x else if b then z else y)
  if-twice true x y z = refl
  if-twice false x y z = refl

  if-swap :
      {b c : Bool} (x y z : A)
      → (b ≡ true → c ≡ false)
      → (if b then x else if c then y else z) ≡ (if c then y else if b then x else z)
  if-swap {b = true} {c = true} x y z h = cc (h refl)
  if-swap {b = true} {c = false} x y z h = refl
  if-swap {b = false} {c = true} x y z h = refl
  if-swap {b = false} {c = false} x y z h = refl

-- two names of a link are the same name
abbrev same_link : SubjectType → ℕ → Option ℕ → SubjectType → ℕ → Option ℕ → Bool
same_link t i g u j h = same_type t u && i == j && same_gate g h

is_link-same :
    (t : SubjectType) (i : ℕ) (g : Option ℕ) (u : SubjectType) (j : ℕ) (h : Option ℕ)
    (l : ScheduleLink)
    → is_link t i g l ≡ true
    → is_link u j h l ≡ same_link t i g u j h
is_link-same t i g u j h l e =
    ground (arith, same_type_trans l.subject_type t u, same_gate_trans l.gate_id g h)

pub same_type_comm : (t u : SubjectType) → same_type t u ≡ same_type u t
same_type_comm membership membership = refl
same_type_comm credential credential = refl
same_type_comm membership credential = refl
same_type_comm credential membership = refl

pub same_gate_comm : (g h : Option ℕ) → same_gate g h ≡ same_gate h g
same_gate_comm none none = refl
same_gate_comm (some a) (some b) = ground arith
same_gate_comm none (some b) = refl
same_gate_comm (some a) none = refl

-- A link that is not the one named first is named second only if the names differ.
is_link-differs :
    (t : SubjectType) (i : ℕ) (g : Option ℕ) (u : SubjectType) (j : ℕ) (h : Option ℕ)
    (l : ScheduleLink)
    → is_link t i g l ≡ false
    → is_link u j h l ≡ true
    → same_link t i g u j h ≡ false
is_link-differs t i g u j h l e k =
    ground (arith, is_link-same u j h t i g l k, same_type_comm t u, same_gate_comm g h)

module _ (t : SubjectType) (i : ℕ) (g : Option ℕ) (u : SubjectType) (j : ℕ) (h : Option ℕ) where
  find-set_links :
      (s : ℕ) (ls : List ScheduleLink)
      → find_link u j h (set_links t i g s ls)
        ≡ (if same_link t i g u j h then ok s else find_link u j h ls)
  unfolding find_link set_links
  find-set_links s [] = refl
  find-set_links s (l ∷ ls) = elim (Bool-cases (is_link t i g l)) [
    | inl e ↦ rw (e, is_link-same t i g u j h l e) (if-twice (same_link t i g u j h) _ _ _)
    | inr e ↦ rw (e, find-set_links s ls) (if-swap _ _ _ (is_link-differs t i g u j h l e))
  ]

  find-delete_links :
      (ls : List ScheduleLink)
      → find_link u j h (keep (λ l. not (is_link t i g l)) ls)
        ≡ (if same_link t i g u j h then err not_found else find_link u j h ls)
  unfolding find_link
  find-delete_links [] = if-same (same_link t i g u j h) (err not_found)
  find-delete_links (l ∷ ls) = elim (Bool-cases (is_link t i g l)) [
    | inl e ↦
        rw (e, is_link-same t i g u j h l e, find-delete_links ls)
          (if-twice (same_link t i g u j h) _ _ _)
    | inr e ↦ rw (e, find-delete_links ls) (if-swap _ _ _ (is_link-differs t i g u j h l e))
  ]

-- A member's schedule for a gate after one is set: the one set, for that member and gate, and the
-- same as before elsewhere; a token's schedule is not touched.
pub get_schedule_id-set_schedule :
    (member gate schedule member' gate' : ℕ) (db db' : Tables)
    → Member.set_schedule member gate schedule db ≡ ok db'
    → (Member.get_schedule_id member' gate' db' ≡ (
        if member == member' && gate == gate'
        then ok schedule
        else Member.get_schedule_id member' gate' db))
      × (Credential.get_schedule_id member' db' ≡ Credential.get_schedule_id member' db)
unfolding Member.set_schedule Member.get_schedule_id Credential.get_schedule_id upsert_link
get_schedule_id-set_schedule m g s m' g' db db' e = (
  ground (arith, find-set_links membership m (some g) membership m' (some g') s db.links),
  ground (arith, find-set_links membership m (some g) credential m' none s db.links),
)

-- A member's schedule for a gate after it is removed: none for that member and gate, and the same as
-- before elsewhere; a token's schedule is not touched.
pub get_schedule_id-remove_schedule :
    (member gate member' gate' : ℕ) (db db' : Tables)
    → Member.remove_schedule member gate db ≡ ok db'
    → (Member.get_schedule_id member' gate' db' ≡ (
        if member == member' && gate == gate'
        then err not_found
        else Member.get_schedule_id member' gate' db))
      × (Credential.get_schedule_id member' db' ≡ Credential.get_schedule_id member' db)
unfolding Member.remove_schedule Member.get_schedule_id Credential.get_schedule_id delete_links
get_schedule_id-remove_schedule m g m' g' db db' e = (
  ground (arith, find-delete_links membership m (some g) membership m' (some g') db.links),
  ground (arith, find-delete_links membership m (some g) credential m' none db.links),
)
