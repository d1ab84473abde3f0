-- ===== src/Api/Accounts/Types.antt =====
-- internal/api/services/types.go and internal/api/events/types.go: requests, answers and events of
-- accounts.
use digital_wallet.Prelude.{ℕ, String, Bool, Option, ltb, if◌then◌else◌}
use digital_wallet.Shared.{Error}
use digital_wallet.Exec.{Result}

pub record UserInputParam : Type 0 where
  pub first_name : String
  pub last_name : String
  pub email : String
  pub password : String
  pub phone_number : Option String
  pub date_of_birth : Option String
  pub profile_photo_url : Option String
  pub gender : Option String

pub record UpdateUserParam : Type 0 where
  pub first_name : Option String
  pub last_name : Option String
  pub phone_number : Option String
  pub profile_photo_url : Option String
  pub gender : Option String

-- services.User
pub record Profile : Type 0 where
  pub id : String
  pub first_name : String
  pub last_name : String
  pub email : String
  pub phone_number : Option String
  pub date_of_birth : Option ℕ
  pub profile_photo_url : Option String
  pub gender : String
  pub is_verified : Bool

pub record LoginSuccessful : Type 0 where
  pub access_token : String
  pub refresh_token : String
  pub user : Profile

pub record ClaimsPayload : Type 0 where
  pub id : String
  pub email : String
  pub first_name : String
  pub last_name : String
  pub is_verified : Bool

pub record UserCreatedPayload : Type 0 where
  pub user_id : String
  pub email : String
  pub first_name : String
  pub last_name : String

pub record UserLoggedInPayload : Type 0 where
  pub first_name : String
  pub last_name : String
  pub email : String
  pub user_id : String

-- what the service is configured with, and the two texts that the libraries read or print
pub record AccountService : Type 0 where
  pub access_token_expiry : ℕ
  pub refresh_token_expiry : ℕ
  pub max_attempts : ℕ
  -- `hashCode` of internal/otp/store.go, a SHA-256
  pub hash_code : String → String
  -- `time.Parse` with the layout of `CreateUser`
  pub parse_time : String → Result ℕ
  -- `err.Error()`
  pub error_text : Error → String

-- the defaults that `NewService` fills in, in hours
abbrev pub access_hours : AccountService → ℕ
access_hours c = if ltb c.access_token_expiry 1 then 1 else c.access_token_expiry

abbrev pub refresh_hours : AccountService → ℕ
refresh_hours c = if ltb c.refresh_token_expiry 1 then 24 else c.refresh_token_expiry
