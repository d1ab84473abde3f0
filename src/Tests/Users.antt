-- ===== src/Tests/Users.antt =====
-- The theorem on the users' repository, at a table in memory.
use digital_wallet.Prelude.{◌≡◌, refl, some, none, true, false, [], ◌∷◌, map}
use digital_wallet.Exec.{pure, wrap, attempt}
use digital_wallet.External.Table.{TableLaws}
use digital_wallet.Repository.Types.{UserRow, UserInputParam}
use digital_wallet.Repository.Users.{apply_fields, has_no_fields, update_user}
use digital_wallet.Repository.Profiles.{credentials, update_user-SameCredentials}
use digital_wallet.Tests.Memory.{print_uuid}
use digital_wallet.Tests.MemoryTable.{memory_laws}
use digital_wallet.Tests.Fixtures.{services}

abbrev user_laws : TableLaws services.users
user_laws = memory_laws (λ (r : UserRow). r.id)

abbrev ada : UserRow
ada = record {
  id = 1;
  first_name = "Ada";
  last_name = "Obi";
  email = "ada@example.com";
  passwordhash = some "hash";
  phone_number = none;
  date_of_birth = none;
  profile_photo_url = none;
  gender = "OTHER";
  is_active = true;
  is_verified = false;
}

abbrev verified : UserInputParam
verified = record {
  id = some (print_uuid 1);
  first_name = none;
  last_name = none;
  email = none;
  passwordhash = some "other";
  phone_number = none;
  date_of_birth = none;
  profile_photo_url = none;
  gender = none;
  is_verified = some true;
}

verified_row :
    map
      (λ r. r.is_verified)
      (user_laws.rows (update_user services.uuids services.users verified (ada ∷ [], refl)).1)
    ≡ true ∷ []
unfolding update_user apply_fields has_no_fields attempt pure wrap
verified_row = refl

update_user-SameCredentials_example :
    map credentials
      (user_laws.rows (update_user services.uuids services.users verified (ada ∷ [], refl)).1)
    ≡ map credentials (ada ∷ [])
update_user-SameCredentials_example =
    update_user-SameCredentials services.uuids services.users user_laws verified (ada ∷ [], refl)
