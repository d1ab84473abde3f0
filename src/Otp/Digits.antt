-- ===== src/Otp/Digits.antt =====
-- shared/otp.go: drawing the digits of a one-time password.
use Prim.Native.String.{◌++◌ as append}
use digital_wallet.Prelude.{ℕ, zero, suc, String, ◌==◌, if◌then◌else◌}
use digital_wallet.Prelude.Int.{ℤ, pos, negsuc}
use digital_wallet.Shared.Money.{digit}
use digital_wallet.Exec.{Exec, pure, ◌>>=◌}

abbrev pub default_otp_length : ℕ
default_otp_length = 6

abbrev pub digits_of : ℤ → ℕ
digits_of (negsuc n) = default_otp_length
digits_of (pos n) = if n == 0 then default_otp_length else n

-- `rand.Int(rand.Reader, big.NewInt(bound))`
module _ {R : Type 0} (rand_int : ℕ → Exec R ℕ) where
  abbrev pub draw_digits : ℕ → Exec R String
  draw_digits zero = pure ""
  draw_digits (suc n) = do d ← rand_int 10; rest ← draw_digits n; pure (append (digit d) rest)

  unfoldable pub generate_otp : ℤ → Exec R String
  generate_otp length = draw_digits (digits_of length)
