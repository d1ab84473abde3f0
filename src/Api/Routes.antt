-- ===== src/Api/Routes.antt =====
-- internal/api/routes/helpers.go, types.go and the mapping functions of the routes: answers, reading a
-- body and a query, and what an answer shows of what a service returned. An amount is in minor units:
-- `Major()` is a float64. A log line and a span are left out, as is the server's error log.
pub mod Table
pub mod Users
pub mod Payments
pub mod Serving
pub mod Admitted
pub mod Owners
use digital_wallet.Prelude.{
  ℕ, String, Bool, Option, none, some, List, map, str_eq, ◌==◌, if◌then◌else◌,
}
use digital_wallet.Prelude.Int.{ℤ}
use digital_wallet.Shared.{Error, app_error}
use digital_wallet.Shared.Money.{Money}
use digital_wallet.Exec.{Result, ok, err, Exec}
use digital_wallet.Ledger.Accounting.{Direction}
use digital_wallet.Repository.Types.{TransactionStatus, Transfer}
use digital_wallet.Api.Payments.Types.{Transaction, TransactionKind, DepositInitialized}
use digital_wallet.Api.History.{TransactionList}
use digital_wallet.Api.Activities.{ActivityList}
use digital_wallet.Api.Wallets.{WalletView}
use digital_wallet.Api.Accounts.Types.{Profile, LoginSuccessful}

pub record LoginResponse : Type 0 where
  pub access_token : String
  pub refresh_token : String
  pub token_type : String
  pub user : Profile

pub record TransferResponse : Type 0 where
  pub id : String
  pub sender_wallet_id : String
  pub recipient_wallet_id : String
  pub amount : Money
  pub currency : String
  pub status : TransactionStatus
  pub failure_reason : String
  pub created_at : ℕ

pub record TransactionResponse : Type 0 where
  pub reference : String
  pub wallet_id : String
  pub amount : Money
  pub status : TransactionStatus
  pub provider : String
  pub kind : TransactionKind
  pub direction : Direction
  pub created_at : ℕ

pub record TransactionListResponse : Type 0 where
  pub transactions : List TransactionResponse
  pub total : ℕ
  pub limit : ℕ
  pub offset : ℕ

-- The body of an answer. `no_body` is `nil`. A user, an activity, a wallet and a started deposit have the
-- same fields in an answer as in the service.
pub data Body : Type 0 where
  no_body : Body
  error_response : String → ℕ → Body
  message_response : String → Body
  health_response : String → Body
  login_response : LoginResponse → Body
  user_response : Profile → Body
  activity_list_response : ActivityList → Body
  wallet_response : WalletView → Body
  wallet_list_response : List WalletView → Body
  deposit_response : DepositInitialized → Body
  transfer_response : TransferResponse → Body
  transaction_response : TransactionResponse → Body
  transaction_list_response : TransactionListResponse → Body

pub record Answer : Type 0 where
  pub status : ℕ
  pub body : Body

abbrev pub map_login : LoginSuccessful → Body
map_login result = login_response (record {
  access_token = result.access_token;
  refresh_token = result.refresh_token;
  token_type = "Bearer";
  user = result.user;
})

abbrev pub map_transfer : Transfer → TransferResponse
map_transfer transfer = record {
  id = transfer.id;
  sender_wallet_id = transfer.sender_wallet_id;
  recipient_wallet_id = transfer.recipient_wallet_id;
  amount = transfer.amount;
  currency = transfer.currency;
  status = transfer.status;
  failure_reason = transfer.failure_reason;
  created_at = transfer.created_at;
}

abbrev pub map_transaction : Transaction → TransactionResponse
map_transaction transaction = record {
  reference = transaction.reference;
  wallet_id = transaction.wallet_id;
  amount = transaction.amount;
  status = transaction.status;
  provider = transaction.provider;
  kind = transaction.kind;
  direction = transaction.direction;
  created_at = transaction.created_at;
}

abbrev pub map_transactions : TransactionList → TransactionListResponse
map_transactions result = record {
  transactions = map map_transaction result.transactions;
  total = result.total;
  limit = result.limit;
  offset = result.offset;
}

abbrev internal_server_error : ℕ
internal_server_error = 500

-- A zero code becomes 500, and an empty message the text of the status, which `status_text` gives.
unfoldable pub write_app_error : (ℕ → String) → Error → Answer
write_app_error status_text (app_error code message) =
    let sent = if code == 0 then internal_server_error else code in
    record {
      status = sent;
      body = error_response (if str_eq message "" then status_text sent else message) sent;
    }
-- A service returns a `*AppError`, whose code and message are zero if it sets neither.
write_app_error status_text _ = record {
  status = internal_server_error;
  body = error_response (status_text internal_server_error) internal_server_error;
}

-- The body of a request: what json.Decode reads from it, and what the validator says of that.
pub record Payload (A : Type 0) : Type 0 where
  pub decoded : Result A
  pub validated : A → Result (Unit {0})

abbrev pub after_validation : {A : Type 0} → (Error → String) → A → Result (Unit {0}) → Result A
after_validation error_text body (ok _) = ok body
after_validation error_text body (err e) = err (app_error 422 (error_text e))

abbrev pub after_decoding : {A : Type 0} → (Error → String) → Payload A → Result A → Result A
after_decoding error_text payload (ok body) =
    after_validation error_text body (payload.validated body)
after_decoding error_text payload (err e) = err (app_error 400 "Invalid request body")

unfoldable pub decode_and_validate : {A : Type 0} → (Error → String) → Payload A → Result A
decode_and_validate error_text payload = after_decoding error_text payload payload.decoded

-- An absent query parameter, an empty text, is not an error.
unfoldable pub query_int : (String → Result ℤ) → String → Result (Option ℤ)
query_int atoi raw =
    if str_eq raw ""
    then ok none
    else elim (atoi raw) [ ok value ↦ ok (some value) | err e ↦ err e ]

-- net/http's StatusText, strconv's Atoi, and `err.Error()` of the validator
pub record Web : Type 0 where
  pub status_text : ℕ → String
  pub atoi : String → Result ℤ
  pub error_text : Error → String

module _ (H : Web) where
  -- `if appErr != nil { WriteAppError; return }`, and otherwise `WriteJSON`
  abbrev pub written : {A : Type 0} → ℕ → (A → Body) → Result A → Answer
  written code body (ok a) = record { status = code; body = body a }
  written code body (err e) = write_app_error H.status_text e

  unfoldable pub answer : {W A : Type 0} → Exec W A → ℕ → (A → Body) → W → Answer × W
  answer m code body w = let (r, w') = m w in (written code body r, w')

  -- what must be there before the handler goes on; an error is the answer
  abbrev pub given : {W A : Type 0} → Result A → (A → W → Answer × W) → W → Answer × W
  given (ok a) next w = next a w
  given (err e) next w = (write_app_error H.status_text e, w)
