-- ===== src/Auth/Passwords.antt =====
-- Which passwords `validatePassword` accepts, and which a member can log in with.
use gaty.Prelude.{
  ℕ, ◌≡◌, String, List, [], ◌∷◌, true, false, ◌||◌, any, codes, pos, ◌≤ℤ◌, ◌↔◌, arith,
}
use gaty.Errors.{ok}
use gaty.Auth.{Unicode, PasswordPolicy, Seen, see, scan, byte_length, validate_password}

module _ (u : Unicode) where
  -- each flag after the loop
  scan_upper :
      (rs : List ℕ) (seen : Seen) → (scan u rs seen).upper ≡ (seen.upper || any u.is_upper rs)
  unfolding scan see
  scan_upper [] seen = ground arith
  scan_upper (r ∷ rs) seen = ground (arith, scan_upper rs (see u r seen))

  scan_lower :
      (rs : List ℕ) (seen : Seen) → (scan u rs seen).lower ≡ (seen.lower || any u.is_lower rs)
  unfolding scan see
  scan_lower [] seen = ground arith
  scan_lower (r ∷ rs) seen = ground (arith, scan_lower rs (see u r seen), u.lower-is_upper r)

  scan_digit :
      (rs : List ℕ) (seen : Seen) → (scan u rs seen).digit ≡ (seen.digit || any u.is_digit rs)
  unfolding scan see
  scan_digit [] seen = ground arith
  scan_digit (r ∷ rs) seen =
      ground (arith, scan_digit rs (see u r seen), u.digit-is_upper r, u.digit-is_lower r)

  -- A password is accepted exactly when it has the policy's number of bytes and, for each class of
  -- characters that the policy requires, a character of the class.
  pub validate_password_iff :
      (p : PasswordPolicy) (password : String)
      → (validate_password u p password ≡ ok tt) ↔ (
          (p.min_length ≤ℤ pos (byte_length (codes password)))
          × (p.require_upper ≡ true → any u.is_upper (codes password) ≡ true)
          × (p.require_lower ≡ true → any u.is_lower (codes password) ≡ true)
          × (p.require_digit ≡ true → any u.is_digit (codes password) ≡ true))
  unfolding validate_password
  validate_password_iff p password = ground (
    arith,
    scan_upper (codes password) (record { upper = false; lower = false; digit = false }),
    scan_lower (codes password) (record { upper = false; lower = false; digit = false }),
    scan_digit (codes password) (record { upper = false; lower = false; digit = false }),
  )
