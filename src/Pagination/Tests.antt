-- ===== src/Pagination/Tests.antt =====
-- internal/model/pagination.go on concrete parameters.
use gaty.Prelude.{◌≡◌, refl, pos, negsuc}
use gaty.Pagination.{PaginationParams, normalize}

abbrev wide : PaginationParams
wide = record { limit = pos 10000; offset = negsuc 4 }

normalize_example : normalize wide ≡ record { limit = pos 100; offset = pos 0 }
unfolding normalize
normalize_example = refl
