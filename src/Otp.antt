-- ===== src/Otp.antt =====
-- internal/otp/store.go: one-time passwords kept in Redis. `hash` is `hashCode`, a SHA-256; what
-- `GenerateOTP` drew is an argument, an error of it included; Otp.Digits is that function.
pub mod Attempts
pub mod Issued
pub mod Abstract
pub mod Refinement
pub mod Digits
use digital_wallet.Prelude.{
  ℕ, String, Bool, true, false, not, ◌==◌, ltb, Option, none, some, str_eq, if◌then◌else◌,
}
use digital_wallet.Shared.{Error, otp_not_found, otp_mismatch, too_many_tries}
use digital_wallet.Exec.{Result, ok, err, Exec, pure, raise, attempt, ◌>>=◌, ◌>>◌}
use digital_wallet.External.Redis.{Redis}

module _ (R : Redis) (hash : String → String) where
  unfoldable pub generate : Result String → String → Exec R.State String
  generate (err e) identifier = raise e
  generate (ok code) identifier = do R.set_code identifier (hash code); pure code

  -- A command whose error the source does not look at.
  abbrev pub unchecked : Exec R.State Unit → Exec R.State Unit
  unchecked m = attempt m (λ r. pure tt)

  abbrev pub compare : String → String → Option String → Exec R.State Unit
  compare identifier code none = raise otp_not_found
  compare identifier code (some stored) =
      if not (str_eq stored (hash code))
      then raise otp_mismatch
      else unchecked (R.delete_both identifier)

  abbrev pub lock_out : String → Exec R.State Unit
  lock_out identifier = do unchecked (R.delete_both identifier); raise too_many_tries

  -- `Verify`, once the attempt has been counted
  abbrev pub check : ℕ → String → String → ℕ → Exec R.State Unit
  check max_attempts identifier code attempts = do
    if attempts == 1 then unchecked (R.expire_tries identifier) else pure tt
    if ltb max_attempts attempts
        then lock_out identifier
        else do stored ← R.get_code identifier; compare identifier code stored

  unfoldable pub verify : ℕ → String → String → Exec R.State Unit
  verify max_attempts identifier code = do
    attempts ← R.incr_tries identifier
    check max_attempts identifier code attempts
