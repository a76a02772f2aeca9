-- ===== src/Prelude/Lists.antt =====
-- Lists measured by native numbers, and Boolean searches through them.
use Prim.Native.Nat.{ℕ, suc}
use mathlib.Core.Path.{◌≡◌, refl}
use mathlib.Core.Logic.{◌⊎◌}
use mathlib.Core.Bool.{Bool, true, false, ◌||◌}
use mathlib.Core.List.{List, [], ◌∷◌}
use native.Mathlib.Omega.{arith}
use gaty.Prelude.Tests.{if◌then◌else◌}

module _ {ℓ} {A : Type ℓ} where
  abbrev pub length : List A → ℕ
  length [] = 0
  length (x ∷ xs) = suc (length xs)

  abbrev pub is_empty : List A → Bool
  is_empty [] = true
  is_empty (_ ∷ _) = false

  abbrev pub any : (A → Bool) → List A → Bool
  any p [] = false
  any p (x ∷ xs) = p x || any p xs

  -- `filter` of the library takes a decision; this one takes a Boolean test.
  abbrev pub keep : (A → Bool) → List A → List A
  keep p [] = []
  keep p (x ∷ xs) = let rest = keep p xs in if p x then x ∷ rest else rest

  abbrev pub All {κ} : (A → Type κ) → List A → Type κ
  All P [] = Unit
  All P (x ∷ xs) = P x × All P xs

  abbrev pub Any : (A → Type 0) → List A → Type 0
  Any P [] = ⊥
  Any P (x ∷ xs) = P x ⊎ Any P xs

module _ {ℓ} {A : Type ℓ} (p q : A → Bool) where
  -- A search does not see what a filter drops.
  pub any-keep : (xs : List A) → ((x : A) → p x ≡ true → q x ≡ true) → any p (keep q xs) ≡ any p xs
  any-keep [] h = refl
  any-keep (x ∷ xs) h = ground (arith, h x, any-keep xs h)

  pub any-keep_none :
      (xs : List A) → ((x : A) → p x ≡ true → q x ≡ false) → any p (keep q xs) ≡ false
  any-keep_none [] h = refl
  any-keep_none (x ∷ xs) h = ground (arith, h x, any-keep_none xs h)

  -- What no element satisfies, no element of a filtered list satisfies.
  pub any-keep_of_false : (xs : List A) → any p xs ≡ false → any p (keep q xs) ≡ false
  any-keep_of_false [] h = refl
  any-keep_of_false (x ∷ xs) h = ground (arith, any-keep_of_false xs)

module _ {ℓ κ} {A : Type ℓ} (P : A → Type κ) (q : A → Bool) where
  pub All-keep : (xs : List A) → All P xs → All P (keep q xs)
  All-keep [] h = tt
  All-keep (x ∷ xs) (hx, h) = elim (q x) as (λ b. All P (if b then x ∷ keep q xs else keep q xs)) [
    | true ↦ (hx, All-keep xs h)
    | false ↦ All-keep xs h
  ]
