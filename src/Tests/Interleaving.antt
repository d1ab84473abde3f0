-- ===== src/Tests/Interleaving.antt =====
-- The interleaving of two settlements, at a small world in memory.
use digital_wallet.Prelude.{refl, [], ◌∷◌, Memᴰ}
use digital_wallet.Prelude.Text.{equal_fold}
use digital_wallet.Prelude.Int.{pos}
use digital_wallet.Shared.Money.{is_positive}
use digital_wallet.Exec.{pure, attempt}
use digital_wallet.Ledger.Types.{ledger_for_currency}
use digital_wallet.Ledger.Accounts.{ensure_accounts, check_accounts}
use digital_wallet.Ledger.Transfers.{deposit, check_deposit}
use digital_wallet.Repository.Types.{TransactionStatus, WalletStatus, Wallet, TransactionIntent}
use digital_wallet.Queues.Services.{World}
use digital_wallet.Queues.PaymentWorker.{credit}
use digital_wallet.Queues.PaymentWorker.Exact.{IsExact}
use digital_wallet.Queues.PaymentWorker.Race.{credit-not-IsExact}
use digital_wallet.Tests.Memory.{memory_ledger_laws, print_uuid}
use digital_wallet.Tests.Fixtures.{services, intent_laws, intent_row, world, payments_configured}

-- the deposit 6, as it was read before it was refunded
abbrev read_earlier : TransactionIntent
read_earlier = record {
  id = print_uuid 6;
  user_id = print_uuid 1;
  wallet_id = print_uuid 1;
  amount = pos 700;
  status = TransactionStatus.pending;
  provider = "paystack";
  created_at = 4;
}

abbrev loaded_wallet : Wallet
loaded_wallet = record {
  id = print_uuid 1;
  account_number = print_uuid 1;
  user_id = print_uuid 1;
  currency = "NGN";
  status = WalletStatus.active;
}

abbrev refunded_world : World services
refunded_world = record (world WalletStatus.active TransactionStatus.pending []) {
  intents = (intent_row 6 TransactionStatus.refunded ∷ [], refl);
}

credit-not-IsExact_example :
    ¬ IsExact services intent_laws memory_ledger_laws
      (credit services payments_configured
        (print_uuid 6)
        "NGN"
        read_earlier
        loaded_wallet
        refunded_world).1
unfolding deposit pure attempt is_positive ledger_for_currency ensure_accounts check_accounts
    check_deposit equal_fold
credit-not-IsExact_example =
    credit-not-IsExact services intent_laws memory_ledger_laws payments_configured
      (intent_row 6 TransactionStatus.refunded) refl (print_uuid 6) "NGN" read_earlier loaded_wallet
      refunded_world 1 (Memᴰ.head refl) refl refl refl refl refl
