-- ===== src/Tests/Wallets.antt =====
-- The theorem on opening wallets, at a world in memory.
use digital_wallet.Prelude.{
  ltb, if◌then◌else◌, ℕ, ◌-◌, String, ◌≡◌, refl, some, true, List, [], ◌∷◌, map, arith,
}
use digital_wallet.Exec.{Result, ok, pure, raise, attempt, wrap}
use digital_wallet.External.Uuids.{Uuid}
use digital_wallet.Repository.Types.{TransactionStatus, WalletStatus, WalletRow}
use digital_wallet.Repository.Insertion.{InsertLaws}
use digital_wallet.Queues.Services.{World}
use digital_wallet.Prelude.Text.{to_upper, trim_space}
use digital_wallet.Ledger.Types.{ledger_for_currency}
use digital_wallet.Ledger.Accounts.{ensure_wallet_account, ensure_accounts, check_accounts}
use digital_wallet.Repository.Wallets as Wallets
use digital_wallet.Api.Transfers.{caller_id}
use digital_wallet.Api.Wallets.{create_wallet, open_wallet, ensure_ledger_account, currency_of}
use digital_wallet.Api.Wallets.Pairs.{OnePerCurrency}
use digital_wallet.Api.Wallets.Unique.{WalletRequest, run_requests, create_wallet-OnePerCurrency}
use digital_wallet.Tests.Memory.{print_uuid}
use digital_wallet.Tests.MemoryTable.{memory_insert}
use digital_wallet.Repository.Wallets.{get_wallet_by_id, map_wallet}
use digital_wallet.Ledger.Accounting.{balances}
use digital_wallet.Api.Wallets.{WalletView, get_wallet, with_balances, parse_ids}
use digital_wallet.Api.Wallets.Showing.{OwnWallet, get_wallet-OwnWallet}
use digital_wallet.Prelude.Int.{pos}
use digital_wallet.Tests.Fixtures.{services, world, wallet_laws}

abbrev wallet_inserts : InsertLaws services.wallets
wallet_inserts = memory_insert (λ (r : WalletRow). r.id)

abbrev empty : World services
empty = record (world WalletStatus.active TransactionStatus.pending []) { wallets = ([], refl) }

-- a draw of the number, and the ids from 40 on
abbrev drawn : ℕ → ℕ → Result ℕ × Uuid × ℕ
drawn from n = (ok n, from - n, 9)

-- Two users ask for dollars, and one of them asks again in small letters.
abbrev asked : List WalletRequest
asked =
    record { caller = some (print_uuid 1); currency = "USD"; draws = drawn 40 }
    ∷ record { caller = some (print_uuid 2); currency = " usd "; draws = drawn 50 }
    ∷ record { caller = some (print_uuid 1); currency = "usd"; draws = drawn 60 }
    ∷ []

-- a short text for an account number
abbrev short : ℕ → String
short n = if ltb n 1000000002 then "1" else if ltb n 1000000004 then "3" else "9"

create_wallet-OnePerCurrency_example :
    OnePerCurrency (wallet_inserts.rows (run_requests services true short asked empty).wallets)
create_wallet-OnePerCurrency_example =
    create_wallet-OnePerCurrency services true short wallet_inserts asked empty
      (λ user currency. omega arith)

two_opened :
    map
      (λ (r : WalletRow). r.user_id)
      (wallet_inserts.rows (run_requests services true short asked empty).wallets)
    ≡ 1 ∷ 2 ∷ []
unfolding run_requests create_wallet open_wallet ensure_ledger_account Wallets.create_wallet
    Wallets.create_wallet_from Wallets.try_draw Wallets.get_wallet_by_user currency_of to_upper
    trim_space ledger_for_currency caller_id ensure_wallet_account ensure_accounts check_accounts
    attempt pure wrap raise
two_opened = refl

abbrev opened : World services
opened = world WalletStatus.active TransactionStatus.pending []

abbrev shown : WalletView
shown = record {
  id = print_uuid 1;
  account_number = print_uuid 1;
  currency = "NGN";
  status = WalletStatus.active;
  balance = pos 0;
}

get_wallet-OwnWallet_example :
    OwnWallet services true wallet_laws opened (some (print_uuid 1)) shown
unfolding get_wallet get_wallet_by_id map_wallet caller_id with_balances parse_ids balances pure
    wrap attempt
get_wallet-OwnWallet_example =
    get_wallet-OwnWallet services true wallet_laws opened (some (print_uuid 1)) (print_uuid 1) shown
      refl
