-- ===== src/Api/Accounts/Owners.antt =====
-- internal/api/services/user-service.go and utils.go: what an account's owner may change.
use digital_wallet.Prelude.{String, not, none, some, str_eq, if◌then◌else◌}
use digital_wallet.Shared.{Error, is_not_found, is_already_exists, is_nothing_to_update, app_error}
use digital_wallet.Exec.{Exec, pure, raise, wrap, ◌>>=◌}
use digital_wallet.Repository.Types as Rows
use digital_wallet.Repository.Users as Users
use digital_wallet.Queues.Services.{Services, World, on_users}
use digital_wallet.Api.Accounts.Types.{UpdateUserParam, Profile}
use digital_wallet.Api.Accounts.{map_user_to_service_domain}

abbrev pub update_failure : Error → Error
update_failure e =
    if is_not_found e
    then app_error 404 "User Not Found"
    else if is_nothing_to_update e
    then app_error 400 "No Fields To Update"
    else if is_already_exists e
    then app_error 409 "Phone Number Already In Use"
    else app_error 500 "Could Not Update User"

abbrev pub delete_failure : Error → Error
delete_failure e =
    if is_not_found e then app_error 404 "User Not Found" else app_error 500 "Could Not Delete User"

module _ (S : Services) where
  unfoldable pub validat_owner : String → String → Exec (World S) Profile
  validat_owner account_id user_id =
      if not (str_eq account_id user_id)
      then raise (app_error 403 "User cant delete another account")
      else do
        user ←
            wrap (λ e. app_error 403 "Account Doesnt Exist")
              (on_users S (Users.get_user_by_id S.uuids S.users account_id))
        pure (map_user_to_service_domain user)

  abbrev pub columns_of : String → UpdateUserParam → Rows.UserInputParam
  columns_of id input = record {
    id = some id;
    first_name = input.first_name;
    last_name = input.last_name;
    email = none;
    passwordhash = none;
    phone_number = input.phone_number;
    date_of_birth = none;
    profile_photo_url = input.profile_photo_url;
    gender = input.gender;
    is_verified = none;
  }

  unfoldable pub update_user : String → String → UpdateUserParam → Exec (World S) Profile
  unfolding validat_owner
  update_user caller id input = do
    owner ← validat_owner id caller
    user ←
        wrap update_failure
          (on_users S (Users.update_user S.uuids S.users (columns_of owner.id input)))
    pure (map_user_to_service_domain user)

  unfoldable pub delete_user : String → String → Exec (World S) Unit
  unfolding validat_owner
  delete_user caller id = do
    owner ← validat_owner id caller
    wrap delete_failure (on_users S (Users.delete_user S.uuids S.users owner.id))
