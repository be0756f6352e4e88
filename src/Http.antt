-- ===== src/Http.antt =====
-- What a route of backend/app/api/routes answers: a response, the status code and detail of an
-- HTTPException, or an exception that no handler turns into one.
use the_vc_brain.Prelude.{ℕ, String}

pub data Reply (A : Type 0) : Type 0 where
  responded : A → Reply A
  refused : ℕ → String → Reply A
  unhandled : Reply A
