-- ===== src/Json.antt =====
-- Go's `any` as encoding/json fills it: a tree, with a list of its own for arrays and objects. A
-- number is the bit pattern of its float64. An object has its keys in increasing order, as Go
-- prints and marshals a map; `lookup` is `m[key]`.
use gaty.Prelude.{ℕ, String, Option, none, some, Bool, str_eq, if◌then◌else◌}

mutual
  pub data Json : Type 0 where
    null : Json
    bool : Bool → Json
    num : ℕ → Json
    str : String → Json
    arr : Items → Json
    obj : Fields → Json

  pub data Items : Type 0 where
    nil : Items
    cons : Json → Items → Items

  pub data Fields : Type 0 where
    end : Fields
    field : String → Json → Fields → Fields

unfoldable pub lookup : String → Fields → Option Json
lookup key end = none
lookup key (field k v fs) = let rest = lookup key fs in if str_eq k key then some v else rest
