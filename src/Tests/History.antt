-- ===== src/Tests/History.antt =====
-- The theorem on pages of transactions, at a small world in memory.
use digital_wallet.Prelude.{true, refl, some, none, [], ◌∷◌, ◌≡◌}
use digital_wallet.Prelude.Int.{pos}
use digital_wallet.Exec.{ok, pure, wrap, attempt}
use digital_wallet.Ledger.Accounting.{Direction, wallet_movements, collect_movements, movement_of}
use digital_wallet.Repository.Types.{TransactionStatus, WalletStatus}
use digital_wallet.Repository.Wallets.{list_wallets_by_user}
use digital_wallet.Repository.Intents.{get_intents_by_ids, list_unsettled_intents}
use digital_wallet.Repository.Transfers.{list_unsettled_transfers}
use digital_wallet.Queues.Services.{World}
use digital_wallet.Api.Transfers.{caller_id}
use digital_wallet.Api.Payments.Types.{Transaction, TransactionKind, provider_internal}
use digital_wallet.Api.History.{
  ActivityPageParam, TransactionList, normalise, settled_transactions, unsettled_transactions,
  list_my_transactions,
}
use digital_wallet.Api.Paging.{IsPage, list_my_transactions-IsPage}
use digital_wallet.Tests.Memory.{print_uuid}
use digital_wallet.Tests.Fixtures.{services, world, posting}

abbrev settled_world : World services
settled_world = world WalletStatus.active TransactionStatus.pending (posting 7 ∷ [])

abbrev two_at_most : ActivityPageParam
two_at_most = record { limit = some (pos 2); offset = none }

abbrev sent : Transaction
sent = record {
  reference = print_uuid 7;
  user_id = print_uuid 1;
  wallet_id = print_uuid 1;
  amount = pos 500;
  status = TransactionStatus.success;
  provider = provider_internal;
  kind = TransactionKind.transfer;
  direction = Direction.debit;
  created_at = 9;
}

abbrev pending_transfer : Transaction
pending_transfer = record {
  reference = print_uuid 3;
  user_id = print_uuid 1;
  wallet_id = print_uuid 1;
  amount = pos 500;
  status = TransactionStatus.pending;
  provider = provider_internal;
  kind = TransactionKind.transfer;
  direction = Direction.debit;
  created_at = 5;
}

abbrev listed : TransactionList
listed = record { transactions = sent ∷ pending_transfer ∷ []; total = 4; limit = 2; offset = 0 }

listed_lem :
    (list_my_transactions services true (some (print_uuid 1)) two_at_most settled_world).0
    ≡ ok listed
unfolding list_my_transactions attempt caller_id pure settled_transactions wrap list_wallets_by_user
    wallet_movements normalise collect_movements get_intents_by_ids movement_of
    unsettled_transactions list_unsettled_intents list_unsettled_transfers
listed_lem = refl

list_my_transactions-IsPage_example : IsPage two_at_most listed
list_my_transactions-IsPage_example =
    list_my_transactions-IsPage services true (some (print_uuid 1)) two_at_most settled_world listed
      listed_lem
