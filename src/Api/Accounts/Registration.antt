-- ===== src/Api/Accounts/Registration.antt =====
-- internal/api/services/user-service.go: registering an account, and verifying its address.
use digital_wallet.Prelude.{ℕ, String, true, not, Option, none, some, if◌then◌else◌}
use digital_wallet.Shared.{app_error}
use digital_wallet.Exec.{from_result, Result, ok, Exec, pure, raise, attempt, wrap, ◌>>=◌, ◌>>◌}
use digital_wallet.External.Uuids.{Uuid}
use digital_wallet.External.Jwt.{Jwt}
use digital_wallet.External.Bcrypt.{Bcrypt}
use digital_wallet.Otp
use digital_wallet.Repository.Types as Rows
use digital_wallet.Repository.Users as Users
use digital_wallet.Queues.Services.{Services, World, on_users, on_redis}
use digital_wallet.Api.Events.{publish}
use digital_wallet.Api.Transfers.{server_error}
use digital_wallet.Api.Accounts.Types.{
  UserInputParam, LoginSuccessful, UserCreatedPayload, AccountService,
}
use digital_wallet.Api.Accounts.Events.{user_created_listeners}
use digital_wallet.Api.Accounts.{issue_tokens, logged_in}

abbrev pub created_event : Rows.User → UserCreatedPayload
created_event user = record {
  user_id = user.id;
  email = user.email;
  first_name = user.first_name;
  last_name = user.last_name;
}

-- the zero `time.Time`, which is stored for a date of birth that is not given
abbrev pub zero_time : ℕ
zero_time = 0

abbrev pub birth_date : AccountService → Option String → Result ℕ
birth_date c none = ok zero_time
birth_date c (some text) = c.parse_time text

abbrev pub bcrypt_cost : ℕ
bcrypt_cost = 11

abbrev pub otp_resent : String
otp_resent = "Otp Resent You Should Recieve it If Your Account Exists"

module _ (S : Services) (J : Jwt) (B : Bcrypt) (c : AccountService) where
  abbrev pub row_of : UserInputParam → ℕ → String → Rows.UserInputParam
  row_of input born hash = record {
    id = none;
    first_name = some input.first_name;
    last_name = some input.last_name;
    email = some input.email;
    passwordhash = some hash;
    phone_number = input.phone_number;
    date_of_birth = some born;
    profile_photo_url = input.profile_photo_url;
    gender = input.gender;
    is_verified = none;
  }

  -- `CreateUser`, once the account is stored
  unfoldable pub welcome : ℕ → Result String → Rows.User → Exec (World S) LoginSuccessful
  welcome now drawn user = do
    tokens ← issue_tokens S J c now user
    publish S (user_created_listeners S c.hash_code drawn) (created_event user)
    pure (logged_in S J c user tokens)

  -- `CreateUser`, once the address is known to be free
  unfoldable pub register :
      Uuid → ℕ → ℕ → Result String → UserInputParam → Exec (World S) LoginSuccessful
  unfolding welcome
  register fresh salt now drawn input = do
    hash ←
        wrap (server_error "Error Registering User")
          (from_result (B.generate_from_password salt input.password bcrypt_cost))
    born ←
        wrap (server_error "Error Registering User")
          (from_result (birth_date c input.date_of_birth))
    user ←
        wrap (server_error "Error Registering User")
          (on_users S (Users.create_user S.uuids S.users fresh (row_of input born hash)))
    welcome now drawn user

  unfoldable pub create_user :
      Uuid → ℕ → ℕ → Result String → UserInputParam → Exec (World S) LoginSuccessful
  unfolding register
  create_user fresh salt now drawn input = do
    exists ←
        wrap (λ e. app_error 500 (c.error_text e))
          (on_users S (Users.user_email_exists S.uuids S.users input.email))
    if exists
        then raise (app_error 409 "User With This Email Already Exists")
        else register fresh salt now drawn input

  unfoldable pub resend_user_otp : Result String → String → Exec (World S) String
  resend_user_otp drawn address = do
    exists ←
        wrap (server_error "Couldnt Verify User")
          (on_users S (Users.user_email_exists S.uuids S.users address))
    if not exists then pure otp_resent else (do
      user ←
          wrap (server_error "Couldnt Verify User")
            (on_users S (Users.get_user_by_email S.uuids S.users address))
      publish S (user_created_listeners S c.hash_code drawn) (created_event user)
      pure otp_resent)

  abbrev pub verified_by_email : String → Rows.UserInputParam
  verified_by_email address = record {
    id = none;
    first_name = none;
    last_name = none;
    email = some address;
    passwordhash = none;
    phone_number = none;
    date_of_birth = none;
    profile_photo_url = none;
    gender = none;
    is_verified = some true;
  }

  -- `VerifyOtp`, for an address with an account. The error of the update is not looked at.
  unfoldable pub accept_otp : String → String → Exec (World S) String
  accept_otp address code = do
    wrap (λ e. app_error 400 "Couldnt Verify User")
        (on_redis S (Otp.verify S.redis c.hash_code c.max_attempts address code))
    attempt (on_users S (Users.update_user S.uuids S.users (verified_by_email address)))
        (λ r. pure "Account Verified Successfully")

  unfoldable pub verify_otp : String → String → Exec (World S) String
  unfolding accept_otp
  verify_otp address code = do
    exists ←
        wrap (server_error "Couldnt Verify User")
          (on_users S (Users.user_email_exists S.uuids S.users address))
    if not exists then raise (app_error 400 "Couldnt Verify User") else accept_otp address code
