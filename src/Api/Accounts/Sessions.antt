-- ===== src/Api/Accounts/Sessions.antt =====
-- internal/api/services/user-service.go: logging in, and refreshing tokens.
use digital_wallet.Prelude.{ℕ, String, not, if◌then◌else◌}
use digital_wallet.Shared.{Error, is_not_found, app_error}
use digital_wallet.Exec.{from_result, Exec, pure, raise, wrap, ◌>>=◌, ◌>>◌}
use digital_wallet.External.Jwt.{Jwt}
use digital_wallet.External.Bcrypt.{Bcrypt}
use digital_wallet.Repository.Types as Rows
use digital_wallet.Repository.Users as Users
use digital_wallet.Queues.Services.{Services, World, on_users}
use digital_wallet.Api.Events.{publish}
use digital_wallet.Api.Accounts.Types.{LoginSuccessful, AccountService}
use digital_wallet.Api.Accounts.Tokens.{parse_refresh_token}
use digital_wallet.Api.Accounts.Events.{user_logged_in_listeners}
use digital_wallet.Api.Accounts.{issue_tokens, logged_in}

-- the same answer for an address without an account and for a wrong password
abbrev pub login_failure : Error → Error
login_failure e =
    if is_not_found e
    then app_error 401 "Invalid Email Or Password"
    else app_error 500 "Could Not Log User In"

abbrev pub refresh_failure : Error → Error
refresh_failure e =
    if is_not_found e
    then app_error 401 "Invalid Or Expired Refresh Token"
    else app_error 500 "Could Not Refresh Token"

module _ (S : Services) (J : Jwt) (B : Bcrypt) (c : AccountService) where
  -- `LoginUser`, with the account and the hash of its password
  unfoldable pub log_in : ℕ → String → Rows.User × String → Exec (World S) LoginSuccessful
  log_in now password (user, hash) = do
    wrap (λ e. app_error 401 "Invalid Email Or Password")
        (from_result (B.compare_hash_and_password hash password))
    if not user.is_active then raise (app_error 403 "Account Was Deleted") else (do
      tokens ← issue_tokens S J c now user
      publish S (user_logged_in_listeners S) (record {
        first_name = user.first_name;
        last_name = user.last_name;
        email = user.email;
        user_id = user.id;
      })
      pure (logged_in S J c user tokens))

  unfoldable pub login_user : ℕ → String → String → Exec (World S) LoginSuccessful
  unfolding log_in
  login_user now address password = do
    found ←
        wrap login_failure
          (on_users S (Users.get_user_credentials_by_email S.uuids S.users address))
    log_in now password found

  unfoldable pub refresh_user_token : ℕ → String → Exec (World S) LoginSuccessful
  refresh_user_token now token = do
    user_id ← from_result (parse_refresh_token J c now token)
    user ← wrap refresh_failure (on_users S (Users.get_user_by_id S.uuids S.users user_id))
    tokens ← issue_tokens S J c now user
    pure (logged_in S J c user tokens)
