-- ===== src/Redis.antt =====
-- The Redis commands that the server uses, as an interface with the documented behaviour of INCR,
-- DECR, GET, DEL and SET, and the texts that name keys. Expiry is left to the environment: a store may
-- change between two calls.
pub mod InMemory
use Prim.Native.Char.{Char, code}
use gaty.Prelude.{ℕ, ◌+◌, ◌-◌, String, Option, none, some, ◌≡◌, ◌≢◌, str_eq, if◌then◌else◌}

-- `fmt.Sprintf` of a text in front of a text
infixr 65 ◌▹◌
abbrev pub ◌▹◌ : String → String → String
String.[] ▹ t = t
(String.◌∷◌ c s) ▹ t = String.◌∷◌ c (s ▹ t)

-- `uuid.String()`: 36 hexadecimal digits and dashes
pub record UuidText : Type 0 where
  pub text : ℕ → String
  pub head : ℕ → Char
  pub tail : ℕ → String
  pub text_lem : (i : ℕ) → text i ≡ String.◌∷◌ (head i) (tail i)
  pub head_hex : (i : ℕ) → code (head i) ≢ b'g'

pub record Redis : Type 1 where
  pub Store : Type 0
  -- the counter at a key, 0 if there is none
  pub count : Store → String → ℕ
  -- the text at a key
  pub get : Store → String → Option String
  pub incr : String → Store → Store
  pub decr : String → Store → Store
  pub del : String → Store → Store
  pub set : String → String → Store → Store
  pub count-incr :
      (k j : String) (s : Store)
      → count (incr k s) j ≡ (if str_eq k j then count s k + 1 else count s j)
  pub count-decr :
      (k j : String) (s : Store)
      → count (decr k s) j ≡ (if str_eq k j then count s k - 1 else count s j)
  pub count-del :
      (k j : String) (s : Store) → count (del k s) j ≡ (if str_eq k j then 0 else count s j)
  pub count-set_ne :
      (k j : String) (v : String) (s : Store) → k ≢ j → count (set k v s) j ≡ count s j
  pub get-set :
      (k j : String) (v : String) (s : Store)
      → get (set k v s) j ≡ (if str_eq k j then some v else get s j)
  pub get-del :
      (k j : String) (s : Store) → get (del k s) j ≡ (if str_eq k j then none else get s j)

-- What becomes of a command: it is carried out and answered, or the connection is lost before or
-- after it is carried out.
pub data Fate : Type 0 where
  answered lost_before lost_after : Fate
