-- ===== src/Tests/Registrations.antt =====
-- The theorems on registering and verifying an account, at a world in memory.
use digital_wallet.Prelude.{◌≡◌, refl, some, none, true, [], ◌∷◌, map, if◌then◌else◌, str_eq}
use digital_wallet.Shared.{Error}
use digital_wallet.Exec.{ok, err, pure, raise, attempt, wrap}
use digital_wallet.External.Jwt.{Jwt}
use digital_wallet.Repository.Types.{UserRow}
use digital_wallet.Repository.Users as Users
use digital_wallet.Repository.Users.{map_user, get_user_by_id}
use digital_wallet.Queues.Services.{World}
use digital_wallet.Api.Accounts.Types.{UserInputParam}
use digital_wallet.Api.Accounts.Tokens.{generate_access_token}
use digital_wallet.Api.Accounts.Registration.{
  accept_otp, create_user, register, verify_otp, welcome,
}
use digital_wallet.Api.Accounts.Verified.{VerifiesBy, verify_otp-VerifiesBy_lem}
use digital_wallet.Api.Accounts.Registered.{Registers, create_user-Registers_lem}
use digital_wallet.Otp
use digital_wallet.Tests.MemoryRedis.{memory_redis_laws}
use digital_wallet.Tests.MemoryTokens.{memory_bcrypt, memory-BcryptLaws}
use digital_wallet.Tests.Fixtures.{services}
use digital_wallet.Tests.Accounts.{configured, jwt, user_laws, user_inserts, ada, with_ada}

-- the code 4711 was drawn for the address
abbrev with_code : World services
with_code = record with_ada {
  redis =
      ((λ address. if str_eq address "ada@example.com" then some "4711" else none), (λ address. 0));
}

verify_otp-VerifiesBy_lem_example :
    VerifiesBy services memory_redis_laws user_laws configured
      (ada ∷ [])
      with_code.redis
      "ada@example.com"
      "4711"
      (verify_otp services jwt memory_bcrypt configured "ada@example.com" "4711" with_code).0
      (verify_otp services jwt memory_bcrypt configured "ada@example.com" "4711" with_code).1
verify_otp-VerifiesBy_lem_example =
    verify_otp-VerifiesBy_lem services memory_redis_laws user_laws jwt memory_bcrypt configured
      "ada@example.com" "4711" with_code

verified_ada :
    map
      (λ (r : UserRow). r.is_verified)
      (user_laws.rows
        (verify_otp services jwt memory_bcrypt configured "ada@example.com" "4711"
          with_code).1.users)
    ≡ true ∷ []
unfolding verify_otp accept_otp Otp.verify Users.user_email_exists Users.update_user attempt pure
    wrap
verified_ada = refl

abbrev bola : UserInputParam
bola = record {
  first_name = "Bola";
  last_name = "Ade";
  email = "bola@example.com";
  password = "pass";
  phone_number = none;
  date_of_birth = none;
  profile_photo_url = none;
  gender = some "FEMALE";
}

create_user-Registers_lem_example :
    Registers services jwt memory_bcrypt memory-BcryptLaws configured user_inserts
      (ada ∷ [])
      4
      0
      10
      (ok "4711")
      bola
      (create_user services jwt memory_bcrypt configured 4 0 10 (ok "4711") bola with_ada).0
      (create_user services jwt memory_bcrypt configured 4 0 10 (ok "4711") bola with_ada).1
create_user-Registers_lem_example =
    create_user-Registers_lem services jwt memory_bcrypt memory-BcryptLaws configured user_inserts 4
      0 10 (ok "4711") bola with_ada

-- a signer that always fails
abbrev no_jwt : Jwt
no_jwt = record {
  encode = λ c. err Error.record_not_found;
  verify_token = λ now token. err Error.record_not_found;
}

stored_bola :
    map
      (λ (r : UserRow). r.email)
      (user_laws.rows
        (create_user services no_jwt memory_bcrypt configured 4 0 10
          (ok "4711")
          bola
          with_ada).1.users)
    ≡ "ada@example.com" ∷ "bola@example.com" ∷ []
unfolding create_user register welcome generate_access_token Users.create_user
    Users.user_email_exists attempt pure wrap raise
stored_bola = refl
