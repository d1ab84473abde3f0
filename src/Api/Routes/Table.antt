-- ===== src/Api/Routes/Table.antt =====
-- internal/api/routes/route.go, the table of `SetupRoutes`: the requests by route, each with what its
-- handler reads of the request. chi matches a request's method and path with the table.
use digital_wallet.Prelude.{ℕ, String, Bool}
use digital_wallet.Exec.{Result}
use digital_wallet.External.Uuids.{Uuid}
use digital_wallet.Api.Accounts.Types.{UserInputParam, UpdateUserParam, AccountService}
use digital_wallet.Api.Payments.Types.{InitializeDepositParam, PaymentService}
use digital_wallet.Api.Transfers.{InitiateTransferParam}
use digital_wallet.External.Jwt.{Jwt}
use digital_wallet.External.Bcrypt.{Bcrypt}
use digital_wallet.Api.Routes.{Payload, Web}

pub data PublicCall : Type 0 where
  get_healthz : PublicCall
  post_users : Payload UserInputParam → PublicCall
  -- the address
  post_users_otp_resend : Payload String → PublicCall
  -- the address and the code
  post_users_otp_verify : Payload (String × String) → PublicCall
  -- the address and the password
  post_users_login : Payload (String × String) → PublicCall
  post_users_token_refresh : Payload String → PublicCall
  -- the signature's header, and the first MaxWebhookBodyBytes of the body
  post_payments_webhook : String → Result String → PublicCall

-- The group behind the token. A page is the two query parameters `limit` and `offset`.
pub data ProtectedCall : Type 0 where
  patch_users_id : String → Payload UpdateUserParam → ProtectedCall
  delete_users_id : String → ProtectedCall
  get_me_activity : String → String → ProtectedCall
  -- the currency
  post_wallets : Payload String → ProtectedCall
  get_me_wallets : ProtectedCall
  get_wallets_id : String → ProtectedCall
  post_payments_deposits : Payload InitializeDepositParam → ProtectedCall
  post_transfers : Payload InitiateTransferParam → ProtectedCall
  get_transfers_id : String → ProtectedCall
  get_me_transactions : String → String → ProtectedCall
  get_transactions_reference : String → ProtectedCall

-- what the routes are set up with
pub record Setup : Type 0 where
  pub web : Web
  pub jwt : Jwt
  pub bcrypt : Bcrypt
  pub accounts : AccountService
  pub payments : PaymentService
  pub has_ledger : Bool
  pub format_int : ℕ → String

-- what a request draws: the time, a new row's id, a salt, a password of one time and account numbers
pub record Draws : Type 0 where
  pub now : ℕ
  pub fresh : Uuid
  pub salt : ℕ
  pub code : Result String
  pub wallets : ℕ → Result ℕ × Uuid × ℕ
