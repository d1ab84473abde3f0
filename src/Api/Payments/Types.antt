-- ===== src/Api/Payments/Types.antt =====
-- internal/api/services/payment-service.go and types.go: requests, answers and events of payments.
use digital_wallet.Prelude.{ℕ, String, Bool, true, false, str_eq, if◌then◌else◌}
use digital_wallet.Prelude.Int.{pos}
use digital_wallet.Shared.{Error, provider_unavailable}
use digital_wallet.Shared.Money.{Money}
use digital_wallet.Ledger.Accounting.{Direction, credit, debit}
use digital_wallet.Repository.Types.{TransactionStatus, Transfer, TransactionIntent}

abbrev pub min_deposit_minor : Money
min_deposit_minor = pos 100

abbrev pub max_deposit_minor : Money
max_deposit_minor = pos 100_000_000

-- `amount` is what `param.Money()` rounds the request to.
pub record InitializeDepositParam : Type 0 where
  pub wallet_id : String
  pub amount : Money

pub record DepositInitialized : Type 0 where
  pub reference : String
  pub authorization_url : String
  pub access_code : String
  pub amount : Money
  pub currency : String
  pub status : TransactionStatus

pub record PaymentInitializedPayload : Type 0 where
  pub user_id : String
  pub reference : String
  pub provider : String
  pub amount_minor : Money
  pub currency : String

-- what the service is configured with
pub record PaymentService : Type 0 where
  pub has_provider : Bool
  pub callback_url : String
  pub poll_max_retry : ℕ
  pub poll_interval : ℕ

abbrev pub is_provider_unavailable : Error → Bool
is_provider_unavailable provider_unavailable = true
is_provider_unavailable _ = false

pub data TransactionKind : Type 0 where
  deposit transfer : TransactionKind

-- The time, which is printed, is kept as it is.
pub record Transaction : Type 0 where
  pub reference : String
  pub user_id : String
  pub wallet_id : String
  pub amount : Money
  pub status : TransactionStatus
  pub provider : String
  pub kind : TransactionKind
  pub direction : Direction
  pub created_at : ℕ

abbrev pub provider_internal : String
provider_internal = "wallet"

abbrev pub intent_to_transaction : TransactionIntent → Transaction
intent_to_transaction intent = record {
  reference = intent.id;
  user_id = intent.user_id;
  wallet_id = intent.wallet_id;
  amount = intent.amount;
  status = intent.status;
  provider = intent.provider;
  kind = deposit;
  direction = credit;
  created_at = intent.created_at;
}

-- A caller who is on both sides is shown the receiving one.
abbrev pub transfer_to_transaction : String → Transfer → Transaction
transfer_to_transaction user_id t =
    let receives = str_eq t.recipient_user_id user_id in
    record {
      reference = t.id;
      user_id = user_id;
      wallet_id = if receives then t.recipient_wallet_id else t.sender_wallet_id;
      amount = t.amount;
      status = t.status;
      provider = provider_internal;
      kind = transfer;
      direction = if receives then credit else debit;
      created_at = t.created_at;
    }
