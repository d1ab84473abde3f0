-- ===== src/Api/Routes/Users.antt =====
-- internal/api/routes/user-route.go, activity-route.go and wallet-route.go: the handlers.
use digital_wallet.Prelude.{String, some, str_eq, if◌then◌else◌}
use digital_wallet.Shared.{app_error}
use digital_wallet.Exec.{Result, ok, err}
use digital_wallet.Queues.Services.{Services, World}
use digital_wallet.Api.History.{ActivityPageParam}
use digital_wallet.Api.Activities.{get_my_activities}
use digital_wallet.Api.Wallets as Wallets
use digital_wallet.Api.Accounts.Types.{UserInputParam, UpdateUserParam}
use digital_wallet.Api.Accounts.Registration as Registration
use digital_wallet.Api.Accounts.Sessions as Sessions
use digital_wallet.Api.Accounts.Owners as Owners
use digital_wallet.Api.Routes.{
  Answer, Payload, no_body, message_response, user_response, activity_list_response,
  wallet_response, wallet_list_response, map_login, decode_and_validate, query_int, answer, given,
}
use digital_wallet.Api.Routes.Table.{Setup, Draws}

-- `QueryInt` of one parameter, and the answer to a bad one
abbrev pub or_bad_request : {A : Type 0} → String → Result A → Result A
or_bad_request message (ok a) = ok a
or_bad_request message (err e) = err (app_error 400 message)

abbrev pub page_from : Setup → String → String → Result ActivityPageParam
page_from c limit offset = elim (or_bad_request "Invalid limit" (query_int c.web.atoi limit)) [
  | err e ↦ err e
  | ok l ↦ (elim (or_bad_request "Invalid offset" (query_int c.web.atoi offset)) [
    | err e ↦ err e
    | ok o ↦ ok (record { limit = l; offset = o })
  ])
]

-- `chi.URLParam(r, "id")`, which may not be empty
abbrev pub user_id_of : String → Result String
user_id_of id = if str_eq id "" then err (app_error 400 "Missing user id") else ok id

module _ (S : Services) (c : Setup) (d : Draws) where
  abbrev read_body : {A : Type 0} → Payload A → Result A
  read_body payload = decode_and_validate c.web.error_text payload

  unfoldable pub create_user_route : Payload UserInputParam → World S → Answer × World S
  create_user_route payload = given c.web (read_body payload) (λ body.
      answer c.web
        (Registration.create_user S c.jwt c.bcrypt c.accounts d.fresh d.salt d.now d.code body) 201
        map_login)

  unfoldable pub update_user_route :
      String → String → Payload UpdateUserParam → World S → Answer × World S
  update_user_route caller param payload = given c.web (user_id_of param) (λ id.
      given c.web (read_body payload)
        (λ body. answer c.web (Owners.update_user S caller id body) 200 user_response))

  unfoldable pub delete_user_route : String → String → World S → Answer × World S
  delete_user_route caller param =
      given c.web (user_id_of param)
        (λ id. answer c.web (Owners.delete_user S caller id) 204 (λ done. no_body))

  unfoldable pub login_route : Payload (String × String) → World S → Answer × World S
  login_route payload = given c.web (read_body payload) (λ body.
      answer c.web (Sessions.login_user S c.jwt c.bcrypt c.accounts d.now body.0 body.1) 200
        map_login)

  unfoldable pub refresh_token_route : Payload String → World S → Answer × World S
  refresh_token_route payload = given c.web (read_body payload) (λ token.
      answer c.web (Sessions.refresh_user_token S c.jwt c.bcrypt c.accounts d.now token) 200
        map_login)

  unfoldable pub resend_otp_route : Payload String → World S → Answer × World S
  resend_otp_route payload = given c.web (read_body payload) (λ address.
      answer c.web (Registration.resend_user_otp S c.jwt c.bcrypt c.accounts d.code address) 200
        message_response)

  unfoldable pub verify_otp_route : Payload (String × String) → World S → Answer × World S
  verify_otp_route payload = given c.web (read_body payload) (λ body.
      answer c.web (Registration.verify_otp S c.jwt c.bcrypt c.accounts body.0 body.1) 200
        message_response)

  unfoldable pub get_my_activities_route : String → String → String → World S → Answer × World S
  get_my_activities_route caller limit offset =
      given c.web (page_from c limit offset)
        (λ page. answer c.web (get_my_activities S (some caller) page) 200 activity_list_response)

  unfoldable pub create_wallet_route : String → Payload String → World S → Answer × World S
  create_wallet_route caller payload = given c.web (read_body payload) (λ currency.
      answer c.web
        (Wallets.create_wallet S c.has_ledger c.format_int d.wallets (some caller) currency) 201
        wallet_response)

  unfoldable pub list_my_wallets_route : String → World S → Answer × World S
  list_my_wallets_route caller =
      answer c.web (Wallets.list_my_wallets S c.has_ledger (some caller)) 200 wallet_list_response

  unfoldable pub get_wallet_route : String → String → World S → Answer × World S
  get_wallet_route caller id =
      answer c.web (Wallets.get_wallet S c.has_ledger (some caller) id) 200 wallet_response
