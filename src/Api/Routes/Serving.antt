-- ===== src/Api/Routes/Serving.antt =====
-- internal/api/routes/route.go, `SetupRoutes`: which handler serves a request, and the token that the
-- routes of the group ask for.
use digital_wallet.Prelude.{String, Option}
use digital_wallet.Queues.Services.{Services, World}
use digital_wallet.Api.Accounts.Tokens.{authenticate}
use digital_wallet.Api.Routes.{Answer, health_response, given}
use digital_wallet.Api.Routes.Table.{PublicCall, ProtectedCall, Setup, Draws}
use digital_wallet.Api.Routes.Users as Users
use digital_wallet.Api.Routes.Payments as Payments

module _ (S : Services) (c : Setup) (d : Draws) where
  unfoldable pub serve_public : PublicCall → World S → Answer × World S
  serve_public PublicCall.get_healthz w = (record { status = 200; body = health_response "ok" }, w)
  serve_public (PublicCall.post_users payload) w = Users.create_user_route S c d payload w
  serve_public (PublicCall.post_users_otp_resend payload) w = Users.resend_otp_route S c d payload w
  serve_public (PublicCall.post_users_otp_verify payload) w = Users.verify_otp_route S c d payload w
  serve_public (PublicCall.post_users_login payload) w = Users.login_route S c d payload w
  serve_public (PublicCall.post_users_token_refresh payload) w =
      Users.refresh_token_route S c d payload w
  serve_public (PublicCall.post_payments_webhook signature body) w =
      Payments.payment_webhook_route S c d signature body w

  -- a route of the group, for the caller that the middleware put on the request
  unfoldable pub handle : String → ProtectedCall → World S → Answer × World S
  handle caller (ProtectedCall.patch_users_id id payload) w =
      Users.update_user_route S c d caller id payload w
  handle caller (ProtectedCall.delete_users_id id) w = Users.delete_user_route S c d caller id w
  handle caller (ProtectedCall.get_me_activity limit offset) w =
      Users.get_my_activities_route S c d caller limit offset w
  handle caller (ProtectedCall.post_wallets payload) w =
      Users.create_wallet_route S c d caller payload w
  handle caller ProtectedCall.get_me_wallets w = Users.list_my_wallets_route S c d caller w
  handle caller (ProtectedCall.get_wallets_id id) w = Users.get_wallet_route S c d caller id w
  handle caller (ProtectedCall.post_payments_deposits payload) w =
      Payments.initialize_deposit_route S c d caller payload w
  handle caller (ProtectedCall.post_transfers payload) w =
      Payments.initiate_transfer_route S c d caller payload w
  handle caller (ProtectedCall.get_transfers_id id) w =
      Payments.get_transfer_route S c d caller id w
  handle caller (ProtectedCall.get_me_transactions limit offset) w =
      Payments.list_my_transactions_route S c d caller limit offset w
  handle caller (ProtectedCall.get_transactions_reference reference) w =
      Payments.get_transaction_route S c d caller reference w

  unfoldable pub serve_protected : Option String → ProtectedCall → World S → Answer × World S
  serve_protected token call =
      given c.web (authenticate c.jwt c.accounts d.now token) (λ caller. handle caller call)
