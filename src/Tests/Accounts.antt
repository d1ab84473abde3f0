-- ===== src/Tests/Accounts.antt =====
-- The theorems on accounts and their tokens, at a signer and a world in memory.
use digital_wallet.Prelude.{◌≡◌, refl, ap, some, none, true, false, List, [], ◌∷◌, Memᴰ, arith}
use digital_wallet.Shared.{app_error}
use digital_wallet.Exec.{ok, err, pure, attempt, wrap}
use digital_wallet.External.Table.{TableLaws}
use digital_wallet.External.Jwt.{Claims, Jwt}
use digital_wallet.Repository.Types.{TransactionStatus, WalletStatus, UserRow, User}
use digital_wallet.Repository.Insertion.{InsertLaws}
use digital_wallet.Repository.Users as Users
use digital_wallet.Repository.Users.{map_user, get_user_by_id}
use digital_wallet.Queues.Services.{World}
use digital_wallet.Api.Accounts.Types.{AccountService, ClaimsPayload, LoginSuccessful}
use digital_wallet.Api.Accounts.Tokens.{
  or_server_error, claims_of, token_type_access, token_type_refresh, generate_access_token,
  generate_refresh_token, parse_refresh_token, authenticate,
}
use digital_wallet.Api.Accounts.Separation.{authenticate-generate}
use digital_wallet.Api.Accounts.{logged_in}
use digital_wallet.Api.Accounts.Sessions.{log_in, login_user, refresh_user_token}
use digital_wallet.Api.Accounts.Owners.{delete_user, validat_owner}
use digital_wallet.Api.Accounts.Login.{LetIn, login_user-LetIn}
use digital_wallet.Api.Accounts.Ownership.{AccountOp, AccountRequest, run_requests, others_stay}
use digital_wallet.Api.Accounts.Deleted.{refresh-delete}
use digital_wallet.Tests.Memory.{memory_uuids, memory-UuidLaws, print_uuid}
use digital_wallet.Tests.MemoryTable.{memory_laws, memory_insert}
use digital_wallet.Tests.MemoryTokens.{
  token_a, token_r, memory_jwt, encode_first, encode_second, memory-JwtLaws, memory_bcrypt,
}
use digital_wallet.Tests.Fixtures.{services, world}

abbrev pub configured : AccountService
configured = record {
  access_token_expiry = 0;
  refresh_token_expiry = 0;
  max_attempts = 5;
  hash_code = λ code. code;
  parse_time = λ text. ok 7;
  error_text = λ e. "error";
}

abbrev ada_claims : ClaimsPayload
ada_claims = record {
  id = print_uuid 1;
  email = "ada@example.com";
  first_name = "Ada";
  last_name = "Obi";
  is_verified = false;
}

abbrev ada_access : Claims
ada_access = claims_of ada_claims token_type_access 3610

abbrev ada_refresh : Claims
ada_refresh = claims_of ada_claims token_type_refresh 86410

abbrev pub jwt : Jwt
jwt = memory_jwt ada_access ada_refresh

access_made : generate_access_token jwt configured 10 ada_claims ≡ ok token_a
unfolding generate_access_token
access_made =
    ap (or_server_error "Failed To generate Access token") (encode_first ada_access ada_refresh)

refresh_made : generate_refresh_token jwt configured 10 ada_claims ≡ ok token_r
unfolding generate_refresh_token
refresh_made = ap (or_server_error "Failed To generate Refresh token") (
    encode_second ada_access ada_refresh
      (λ same. (let late = ap (λ (z : Claims). z.exp) same in omega arith)))

authenticate-generate_example :
    (authenticate jwt configured 20 (some token_a) ≡ ok (print_uuid 1))
    × (parse_refresh_token jwt configured 20 token_a
        ≡ err (app_error 401 "Invalid Or Expired Refresh Token"))
    × (parse_refresh_token jwt configured 20 token_r ≡ ok (print_uuid 1))
    × (authenticate jwt configured 20 (some token_r)
        ≡ err (app_error 401 "Unauhorized, An Access Token Is Required"))
authenticate-generate_example =
    authenticate-generate jwt (memory-JwtLaws ada_access ada_refresh) configured 10 20 ada_claims
      token_a token_r refl access_made refresh_made (omega arith) (omega arith)

abbrev pub user_laws : TableLaws services.users
user_laws = memory_laws (λ (r : UserRow). r.id)

abbrev pub user_inserts : InsertLaws services.users
user_inserts = memory_insert (λ (r : UserRow). r.id)

-- an account whose password is `secret`
abbrev pub ada : UserRow
ada = record {
  id = 1;
  first_name = "Ada";
  last_name = "Obi";
  email = "ada@example.com";
  passwordhash = some "secret";
  phone_number = none;
  date_of_birth = none;
  profile_photo_url = none;
  gender = "OTHER";
  is_active = true;
  is_verified = false;
}

abbrev closed : UserRow
closed = record ada { is_active = false }

abbrev pub with_ada : World services
with_ada = record (world WalletStatus.active TransactionStatus.pending []) {
  users = (ada ∷ [], refl);
}

abbrev ada_user : User
ada_user = map_user memory_uuids ada

abbrev ada_tokens : LoginSuccessful
ada_tokens = logged_in services jwt configured ada_user (token_a, token_r)

logged_in_ada :
    (login_user services jwt memory_bcrypt configured 10 "ada@example.com" "secret" with_ada).0
    ≡ ok ada_tokens
unfolding login_user log_in Users.get_user_credentials_by_email attempt pure wrap
logged_in_ada = rw (access_made, refresh_made) refl

login_user-LetIn_example :
    LetIn services jwt memory_bcrypt configured (ada ∷ []) 10 "ada@example.com" "secret" ada_tokens
login_user-LetIn_example =
    login_user-LetIn services jwt memory_bcrypt configured user_laws 10 "ada@example.com" "secret"
      with_ada ada_tokens logged_in_ada

-- others ask to delete and to rename the account of `ada`
abbrev by_others : List AccountRequest
by_others =
    record { caller = print_uuid 2; id = print_uuid 1; op = AccountOp.delete }
    ∷ record {
      caller = print_uuid 3;
      id = print_uuid 3;
      op = AccountOp.update (record {
        first_name = some "Eve";
        last_name = none;
        phone_number = none;
        profile_photo_url = none;
        gender = none;
      });
    }
    ∷ []

others_stay_example : Memᴰ ada (user_laws.rows (run_requests services by_others with_ada).users)
others_stay_example =
    others_stay services memory-UuidLaws user_laws ada by_others with_ada
      ((λ e. cc), ((λ e. cc), tt)) (Memᴰ.head refl)

abbrev closed_user : User
closed_user = map_user memory_uuids closed

abbrev without_ada : World services
without_ada = (delete_user services (print_uuid 1) (print_uuid 1) with_ada).1

deleted_ada : (delete_user services (print_uuid 1) (print_uuid 1) with_ada).0 ≡ ok tt
unfolding delete_user validat_owner Users.delete_user Users.get_user_by_id attempt pure wrap
deleted_ada = refl

read_closed :
    (get_user_by_id memory_uuids services.users (print_uuid 1) without_ada.users).0 ≡ ok closed_user
unfolding delete_user validat_owner Users.delete_user Users.get_user_by_id attempt pure wrap
read_closed = refl

parsed_refresh : parse_refresh_token jwt configured 10 token_r ≡ ok (print_uuid 1)
unfolding parse_refresh_token
parsed_refresh = refl

refresh-delete_example :
    (closed_user.is_active ≡ false)
    × ((refresh_user_token services jwt memory_bcrypt configured 10 token_r without_ada).0
        ≡ ok (logged_in services jwt configured closed_user (token_a, token_r)))
unfolding map_user
refresh-delete_example =
    refresh-delete services memory-UuidLaws user_laws jwt memory_bcrypt configured 10 (print_uuid 1)
      (print_uuid 1) token_r token_a token_r with_ada closed_user deleted_ada parsed_refresh
      read_closed access_made refresh_made
