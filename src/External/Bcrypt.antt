-- ===== src/External/Bcrypt.antt =====
-- golang.org/x/crypto/bcrypt, at a cost.
use digital_wallet.Prelude.{ℕ, String, ◌≡◌}
use digital_wallet.Exec.{Result, ok}

pub record Bcrypt : Type 0 where
  -- `GenerateFromPassword(password, cost)`, with the salt that it draws
  pub generate_from_password : ℕ → String → ℕ → Result String
  -- `CompareHashAndPassword(hash, password)`
  pub compare_hash_and_password : String → String → Result (Unit {0})

-- A hash is accepted with the password that it was made from.
pub record BcryptLaws (B : Bcrypt) : Type 0 where
  pub compare-generate :
      (salt : ℕ) (password : String) (cost : ℕ) (hash : String)
      → B.generate_from_password salt password cost ≡ ok hash
      → B.compare_hash_and_password hash password ≡ ok tt
