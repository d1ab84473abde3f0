-- ===== src/Api/Accounts.antt =====
-- internal/api/services/user-service.go: what its operations share. The operations are in the children.
pub mod Types
pub mod Tokens
pub mod Events
pub mod Registration
pub mod Sessions
pub mod Owners
pub mod Separation
pub mod Login
pub mod Ownership
pub mod Deleted
pub mod Verified
pub mod Registered
use digital_wallet.Prelude.{
  ℕ, String, Bool, true, not, Option, none, some, [], ◌∷◌, str_eq, if◌then◌else◌,
}
use digital_wallet.Shared.{Error, is_not_found, is_already_exists, is_nothing_to_update, app_error}
use digital_wallet.Exec.{
  from_result, Result, ok, err, Exec, pure, raise, attempt, wrap, ◌>>=◌, ◌>>◌,
}
use digital_wallet.External.Uuids.{Uuid}
use digital_wallet.External.Jwt.{Jwt}
use digital_wallet.External.Bcrypt.{Bcrypt}
use digital_wallet.Otp
use digital_wallet.Repository.Types as Rows
use digital_wallet.Repository.Users as Users
use digital_wallet.Queues.Services.{Services, World, on_users, on_redis}
use digital_wallet.Api.Events.{publish}
use digital_wallet.Api.Transfers.{server_error}
use digital_wallet.Api.Accounts.Types.{
  UserInputParam, UpdateUserParam, Profile, LoginSuccessful, ClaimsPayload, UserCreatedPayload,
  AccountService,
}
use digital_wallet.Api.Accounts.Tokens.{
  generate_access_token, generate_refresh_token, parse_refresh_token,
}
use digital_wallet.Api.Accounts.Events.{user_created_listeners, user_logged_in_listeners}

abbrev pub map_user_to_service_domain : Rows.User → Profile
map_user_to_service_domain user = record {
  id = user.id;
  first_name = user.first_name;
  last_name = user.last_name;
  email = user.email;
  phone_number = user.phone_number;
  date_of_birth = user.date_of_birth;
  profile_photo_url = user.profile_photo_url;
  gender = user.gender;
  is_verified = user.is_verified;
}

abbrev pub claims_payload : Rows.User → ClaimsPayload
claims_payload user = record {
  id = user.id;
  email = user.email;
  first_name = user.first_name;
  last_name = user.last_name;
  is_verified = user.is_verified;
}

module _ (S : Services) (J : Jwt) (c : AccountService) where
  -- the two tokens that `CreateUser`, `LoginUser` and `RefreshUserToken` answer with
  abbrev pub issue_tokens : ℕ → Rows.User → Exec (World S) (String × String)
  issue_tokens now user = do
    access ← from_result (generate_access_token J c now (claims_payload user))
    refresh ← from_result (generate_refresh_token J c now (claims_payload user))
    pure (access, refresh)

  abbrev pub logged_in : Rows.User → String × String → LoginSuccessful
  logged_in user (access, refresh) = record {
    access_token = access;
    refresh_token = refresh;
    user = map_user_to_service_domain user;
  }
