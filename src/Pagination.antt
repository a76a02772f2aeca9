-- ===== src/Pagination.antt =====
-- internal/model/pagination.go
mod Tests
use gaty.Prelude.{
  ℕ, zero, suc, ◌≤◌, ◌≡◌, refl, List, [], ◌∷◌, ℤ, pos, ◌≤ℤ◌, leb_ℤ, ltb_ℤ, pos_part, arith,
  if◌then◌else◌,
}

pub record PaginationParams : Type 0 where
  pub limit : ℤ
  pub offset : ℤ

abbrev pub default_page_limit : ℤ
default_page_limit = pos 50

abbrev pub max_page_limit : ℤ
max_page_limit = pos 100

unfoldable pub clamp_limit : ℤ → ℤ
clamp_limit limit =
    let given = if leb_ℤ limit (pos 0) then default_page_limit else limit in
    if ltb_ℤ max_page_limit given then max_page_limit else given

-- `Normalize`
unfoldable pub normalize : PaginationParams → PaginationParams
unfolding clamp_limit
normalize p = record {
  limit = clamp_limit p.limit;
  offset = if ltb_ℤ p.offset (pos 0) then pos 0 else p.offset;
}

abbrev pub take {ℓ} : {A : Type ℓ} → ℕ → List A → List A
take zero xs = []
take (suc n) [] = []
take (suc n) (x ∷ xs) = x ∷ take n xs

abbrev pub drop {ℓ} : {A : Type ℓ} → ℕ → List A → List A
drop zero xs = xs
drop (suc n) [] = []
drop (suc n) (x ∷ xs) = drop n xs

-- `LIMIT limit OFFSET offset` of normalised parameters
abbrev pub page {ℓ} : {A : Type ℓ} → PaginationParams → List A → List A
page p xs = take (pos_part (normalize p).limit) (drop (pos_part (normalize p).offset) xs)

-- Normalised parameters ask for 1 to 100 rows from an offset that is not negative, and normalising
-- them again changes nothing.
pub normalize_bounds :
    (p : PaginationParams)
    → (pos 1 ≤ℤ (normalize p).limit)
      × ((normalize p).limit ≤ℤ max_page_limit)
      × (pos 0 ≤ℤ (normalize p).offset)
      × (normalize (normalize p) ≡ normalize p)
unfolding normalize
normalize_bounds p = ground arith
