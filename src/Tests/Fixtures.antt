-- ===== src/Tests/Fixtures.antt =====
-- A small world in memory: two wallets, a transfer between them and three deposits.
use digital_wallet.Prelude.{refl, true, Option, none, List, [], ◌∷◌}
use digital_wallet.Prelude.Int.{pos}
use digital_wallet.External.Uuids.{Uuid}
use digital_wallet.External.Table.{TableLaws, KeyLaws}
use digital_wallet.External.TigerBeetle.{Posting}
use digital_wallet.External.Provider.{PaymentStatus}
use digital_wallet.Repository.Types.{
  TransactionStatus, WalletStatus, UserRow, WalletRow, TransferRow, IntentRow, ActivityRow,
}
use digital_wallet.Repository.Insertion.{InsertLaws}
use digital_wallet.Queues.Tasks.{TransferPayload, PaymentPayload}
use digital_wallet.Queues.Services.{Services, World}
use digital_wallet.Queues.TransferWorker.{TransferWorker}
use digital_wallet.Queues.PaymentWorker.{PaymentWorker}
use digital_wallet.Tests.Memory.{memory_uuids, print_uuid, memory_ledger, memory_broker}
use digital_wallet.Tests.MemoryProvider.{memory_provider}
use digital_wallet.Tests.MemoryRedis.{memory_redis}
use digital_wallet.Tests.MemoryTable.{memory_insert, memory_table, memory_laws, memory_key}

abbrev pub services : Services
services = record {
  uuids = memory_uuids;
  users = memory_table (λ (r : UserRow). r.id);
  wallets = memory_table (λ (r : WalletRow). r.id);
  transfers = memory_table (λ (r : TransferRow). r.id);
  intents = memory_table (λ (r : IntentRow). r.id);
  activities = memory_table (λ (r : ActivityRow). r.id);
  ledger = memory_ledger;
  provider = memory_provider;
  broker = memory_broker;
  redis = memory_redis;
}

abbrev pub transfer_laws : TableLaws services.transfers
transfer_laws = memory_laws (λ (r : TransferRow). r.id)

abbrev pub intent_laws : TableLaws services.intents
intent_laws = memory_laws (λ (r : IntentRow). r.id)

abbrev pub wallet_laws : TableLaws services.wallets
wallet_laws = memory_laws (λ (r : WalletRow). r.id)

abbrev pub transfer_inserts : InsertLaws services.transfers
transfer_inserts = memory_insert (λ (r : TransferRow). r.id)

pub intent_keys : KeyLaws intent_laws (λ r. r.id)
intent_keys = memory_key (λ (r : IntentRow). r.id)

abbrev pub wallet_row : Uuid → Uuid → WalletStatus → WalletRow
wallet_row id user status = record {
  id = id;
  account_number = print_uuid id;
  user_id = user;
  currency = "NGN";
  status = status;
  created_at = 1;
}

abbrev pub transfer_row : Uuid → TransactionStatus → TransferRow
transfer_row id status = record {
  id = id;
  sender_user_id = 1;
  sender_wallet_id = 1;
  recipient_user_id = 2;
  recipient_wallet_id = 2;
  amount = pos 500;
  currency = "NGN";
  status = status;
  failure_reason = "";
  created_at = 5;
}

abbrev pub intent_row : Uuid → TransactionStatus → IntentRow
intent_row id status = record {
  id = id;
  user_id = 1;
  amount = pos 700;
  status = status;
  wallet = 1;
  provider = "paystack";
  created_at = 4;
}

abbrev pub posting : Uuid → Posting
posting id = record {
  id = id;
  debit_account_id = 1;
  credit_account_id = 2;
  amount = 500;
  ledger = 566;
  code = 2;
  timestamp = 9;
}

-- The transfer 3, the deposits 6 (pending), 7 (success) and 8 (failed), and the given postings.
abbrev pub world : WalletStatus → TransactionStatus → List Posting → World services
world sender transfer_status postings = record {
  users = ([], refl);
  wallets = (wallet_row 1 1 sender ∷ wallet_row 2 2 WalletStatus.active ∷ [], refl);
  transfers = (transfer_row 3 transfer_status ∷ [], refl);
  intents = (
    intent_row 6 TransactionStatus.pending
        ∷ intent_row 7 TransactionStatus.success
        ∷ intent_row 8 TransactionStatus.failed
        ∷ [],
    refl,
  );
  ledger = postings;
  activities = ([], refl);
  provider = ([], []);
  broker = [];
  redis = ((λ i. none), (λ i. 0));
}

abbrev pub transfer_task : TransferPayload
transfer_task = record { transfer_id = print_uuid 3 }

abbrev pub payment_task : Uuid → Option PaymentStatus → PaymentPayload
payment_task id status = record {
  reference = print_uuid id;
  provider = "paystack";
  event = "charge.success";
  status = status;
  amount_minor = pos 700;
  currency = "NGN";
}

abbrev pub transfers_configured : TransferWorker
transfers_configured = record { has_ledger = true; has_activity = true }

abbrev pub payments_configured : PaymentWorker
payments_configured = record {
  has_ledger = true;
  has_provider = true;
  has_inspector = true;
  has_activity = true;
  has_email = true;
  queue = "default";
  poll_task_id = λ reference. reference;
}

pub transfer_keys : KeyLaws transfer_laws (λ r. r.id)
transfer_keys = memory_key (λ (r : TransferRow). r.id)
