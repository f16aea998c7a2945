-- ===== src/Auth/Password.antt =====
-- backend/app/auth/password.py. The verification of argon2-cffi is a parameter: whether a stored hash
-- and a plain text match, or another exception than `VerifyMismatchError` is raised, as for a stored
-- text that is no hash.
use tacacs_web.Prelude.{Bool, true, false, ◌||◌, Str, is_empty, if◌then◌else◌}
use tacacs_web.Result.{Result, ok, err, argon2_error}

pub data Verification : Type 0 where
  matched mismatched raised : Verification

unfoldable pub verified : Verification → Result Bool
verified matched = ok true
verified mismatched = ok false
verified raised = err argon2_error

unfoldable pub verify_password : (Str → Str → Verification) → Str → Str → Result Bool
unfolding verified
verify_password verify stored_hash plain =
    if is_empty plain || is_empty stored_hash then ok false else verified (verify stored_hash plain)
