-- ===== src/External/Jwt.antt =====
-- github.com/go-chi/jwtauth with the service's key: signing claims, and reading them back.
use digital_wallet.Prelude.{ℕ, ◌<◌, String, Bool, ◌≡◌, Option}
use digital_wallet.Exec.{Result, ok}

-- The claims that the program reads or writes; one that is missing, or of another type, is `none`. A time
-- is a number of seconds.
pub record Claims : Type 0 where
  pub sub : Option String
  pub email : Option String
  pub first_name : Option String
  pub last_name : Option String
  pub is_verified : Option Bool
  pub token_type : Option String
  pub exp : ℕ

pub record Jwt : Type 0 where
  -- `JWTAuth.Encode`
  pub encode : Claims → Result String
  -- `VerifyToken`, at a time: the signature and the expiry
  pub verify_token : ℕ → String → Result Claims

-- What it has signed, it reads back until it expires.
pub record JwtLaws (J : Jwt) : Type 0 where
  pub verify-encode :
      (claims : Claims) (token : String) (now : ℕ)
      → J.encode claims ≡ ok token
      → now < claims.exp
      → J.verify_token now token ≡ ok claims
