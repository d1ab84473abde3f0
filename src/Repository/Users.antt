-- ===== src/Repository/Users.antt =====
-- internal/repository/user_repository.go: user accounts.
use digital_wallet.Prelude.{
  String, Bool, true, false, not, ◌&&◌, Option, none, some, ◌==◌, str_eq, if◌then◌else◌, List, map,
}
use digital_wallet.Shared.{not_found, nothing_to_update, no_identifier}
use digital_wallet.Exec.{Exec, pure, raise, wrap, ◌>>=◌, ◌>>◌}
use digital_wallet.External.Uuids.{Uuid, Uuids, nil}
use digital_wallet.External.Table.{Table, unordered}
use digital_wallet.Repository.Types.{UserRow, User, UserInputParam, UserFilters}
use digital_wallet.Repository.Errors.{wrap_gorm_error, parse_uuid, before_create, affected_row}

-- a pointer that the callers have set; the source would panic on nil
abbrev pub or_empty : Option String → String
or_empty none = ""
or_empty (some s) = s

abbrev pub set_if {ℓ} : {A : Type ℓ} → A → Option A → A
set_if old none = old
set_if old (some new) = new

abbrev pub set_if_some {ℓ} : {A : Type ℓ} → Option A → Option A → Option A
set_if_some old none = old
set_if_some old (some new) = some new

abbrev pub is_none {ℓ} : {A : Type ℓ} → Option A → Bool
is_none none = true
is_none (some x) = false

-- The map of `UpdateFields`, as what it does to a row: neither the password nor the activity is in it.
unfoldable pub apply_fields : UserInputParam → UserRow → UserRow
apply_fields user r = record r {
  first_name = set_if r.first_name user.first_name;
  last_name = set_if r.last_name user.last_name;
  email = set_if r.email user.email;
  phone_number = set_if_some r.phone_number user.phone_number;
  date_of_birth = set_if_some r.date_of_birth user.date_of_birth;
  profile_photo_url = set_if_some r.profile_photo_url user.profile_photo_url;
  gender = set_if r.gender user.gender;
  is_verified = set_if r.is_verified user.is_verified;
}

-- `len(fields) == 0`
unfoldable pub has_no_fields : UserInputParam → Bool
has_no_fields user =
    is_none user.first_name
    && is_none user.last_name
    && is_none user.email
    && is_none user.phone_number
    && is_none user.date_of_birth
    && is_none user.profile_photo_url
    && is_none user.gender
    && is_none user.is_verified

-- a condition of the WHERE clause, when the filter is given
abbrev pub meets : Option String → String → Bool
meets none value = true
meets (some wanted) value = str_eq value wanted

unfoldable pub matches_filters : UserFilters → UserRow → Bool
matches_filters filters r =
    meets filters.first_name r.first_name
    && meets filters.last_name r.last_name
    && meets filters.email r.email
    && meets filters.gender r.gender

module _ (U : Uuids) where
  unfoldable pub map_user : UserRow → User
  map_user r = record {
    id = U.to_string r.id;
    first_name = r.first_name;
    last_name = r.last_name;
    email = r.email;
    phone_number = r.phone_number;
    date_of_birth = r.date_of_birth;
    profile_photo_url = r.profile_photo_url;
    gender = r.gender;
    is_verified = r.is_verified;
    is_active = r.is_active;
  }

  module _ (T : Table UserRow) where
    unfoldable pub get_user_by_email : String → Exec T.State User
    unfolding map_user
    get_user_by_email email = do
      user ← wrap wrap_gorm_error (T.first (λ r. str_eq r.email email))
      pure (map_user user)

    -- the user and the password hash, of an active account
    unfoldable pub get_user_credentials_by_email : String → Exec T.State (User × String)
    unfolding map_user
    get_user_credentials_by_email email = do
      user ← wrap wrap_gorm_error (T.first (λ r. str_eq r.email email && r.is_active))
      pure (map_user user, elim user.passwordhash [ none ↦ "" | some hash ↦ hash ])

    unfoldable pub get_user_by_id : String → Exec T.State User
    unfolding map_user parse_uuid
    get_user_by_id id = do
      user_id ← parse_uuid U id
      user ← wrap wrap_gorm_error (T.first (λ r. r.id == user_id))
      pure (map_user user)

    -- whether any user has the address
    unfoldable pub user_email_exists : String → Exec T.State Bool
    user_email_exists email = do
      total ← wrap wrap_gorm_error (T.count (λ r. str_eq r.email email))
      pure (not (total == 0))

    -- The columns of an unset gender and flags are the database's defaults.
    unfoldable pub create_user : Uuid → UserInputParam → Exec T.State User
    unfolding map_user
    create_user fresh user = do
      model ← wrap wrap_gorm_error (
          T.create (record {
            id = before_create fresh nil;
            first_name = or_empty user.first_name;
            last_name = or_empty user.last_name;
            email = or_empty user.email;
            passwordhash = user.passwordhash;
            phone_number = user.phone_number;
            date_of_birth = user.date_of_birth;
            profile_photo_url = user.profile_photo_url;
            gender = "OTHER";
            is_active = true;
            is_verified = false;
          }))
      pure (map_user model)

    abbrev pub update_rows : (UserRow → Bool) → UserInputParam → Exec T.State User
    update_rows matches user = if has_no_fields user then raise nothing_to_update else do
      updated ← wrap wrap_gorm_error (T.update matches (apply_fields user))
      model ← affected_row not_found updated
      pure (map_user model)

    -- By id, or else by e-mail, which is then not among the columns that change.
    unfoldable pub update_user_by :
        Option String → Option String → UserInputParam → Exec T.State User
    unfolding map_user parse_uuid apply_fields has_no_fields
    update_user_by (some id) email user = do
      user_id ← parse_uuid U id
      update_rows (λ r. r.id == user_id) user
    update_user_by none (some email) user =
        update_rows (λ r. str_eq r.email email) (record user { email = none })
    update_user_by none none user = raise no_identifier

    unfoldable pub update_user : UserInputParam → Exec T.State User
    unfolding update_user_by
    update_user user = update_user_by user.id user.email user

    -- `Save` writes every column of the row with that id.
    unfoldable pub delete_user : String → Exec T.State Unit
    unfolding parse_uuid
    delete_user id = do
      user_id ← parse_uuid U id
      model ← wrap wrap_gorm_error (T.first (λ r. r.id == user_id))
      wrap wrap_gorm_error
          (T.update (λ r. r.id == model.id) (λ r. record model { is_active = false }))
      pure tt

    unfoldable pub get_all_users : UserFilters → Exec T.State (List User)
    unfolding map_user
    get_all_users filters = do
      models ← wrap wrap_gorm_error (T.find (matches_filters filters) unordered none 0)
      pure (map map_user models)
