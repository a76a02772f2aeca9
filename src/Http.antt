-- ===== src/Http.antt =====
-- What a handler of internal/handler returns: an output, or an error of the HTTP library with its
-- status code and message. Validation of a request's shape by the library comes before.
use gaty.Prelude.{ℕ, String}

pub data Reply {ℓ} (Body : Type ℓ) : Type ℓ where
  refused : ℕ → String → Reply Body
  done : Body → Reply Body
