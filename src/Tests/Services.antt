-- ===== src/Tests/Services.antt =====
-- The theorems on the ledger, wallets and the middleware, at concrete inputs.
use Prim.Native.Nat.{ℕ, suc, ◌-◌}
use digital_wallet.Prelude.{◌≡◌, ◌≢◌, refl, some, List, [], ◌∷◌, All, arith}
use digital_wallet.Prelude.Text.{equal_fold, codes}
use digital_wallet.Shared.Money.Printing.{read_signed, read_signed-to_string}
use digital_wallet.Prelude.Int.{pos, negsuc}
use digital_wallet.Shared.{retry_later}
use digital_wallet.Shared.Money.{is_positive, int64, to_string}
use digital_wallet.Exec.{Result, ok, pure, raise, attempt}
use digital_wallet.Repository.Types.{WalletRow}
use digital_wallet.Repository.Wallets.{create_wallet}
use digital_wallet.Repository.Allocation.{AddsOne, create_wallet-AddsOne}
use digital_wallet.Ledger.Accounts.{ensure_accounts, check_accounts}
use digital_wallet.Ledger.Types.{ledger_for_currency}
use digital_wallet.Ledger.Transfers.{
  DepositParam, TransferParam, check_deposit, check_transfer, deposit, transfer,
}
use digital_wallet.Ledger.Exactly.{
  transfer_posts_exactly, deposit_posts_exactly, MovesTransfer, MovesDeposit,
}
use digital_wallet.Ledger.Accounting.{
  Movement, Direction, credit, debit, movement_of, collect_movements, wallet_movements,
}
use digital_wallet.Ledger.Merging.{IsNewestFirst, IsAsked, wallet_movements-IsNewestFirst}
use digital_wallet.Queues.Middleware.{Handler, ExhaustedFunc, chain, on_retries_exhausted}
use digital_wallet.Queues.Middleware.Order.{chain-first}
use digital_wallet.Tests.Memory.{memory_ledger, memory_entry_laws, memory_uuids, print_uuid}
use digital_wallet.Tests.MemoryTable.{memory_insert, memory_table}
use digital_wallet.Tests.Fixtures.{posting}

prints : (to_string (pos 123405) ≡ "1234.05") × (to_string (negsuc 4) ≡ "-0.05")
unfolding to_string
prints = (refl, refl)

abbrev one_transfer : TransferParam
one_transfer = record {
  transfer_id = 3;
  sender_wallet_id = 1;
  receipient_wallet_id = 2;
  sender_currency = "NGN";
  receipients_currency = "ngn";
  amount = pos 500;
}

transfer_posts_exactly_example :
    MovesTransfer memory_entry_laws one_transfer (transfer memory_ledger one_transfer []).1
    × ((i : ℕ)
        → i ≢ memory_ledger.bytes_to_uint128 3
        → memory_entry_laws.entry (transfer memory_ledger one_transfer []).1 i
          ≡ memory_entry_laws.entry [] i)
unfolding transfer pure attempt is_positive equal_fold ledger_for_currency ensure_accounts
    check_accounts check_transfer int64
transfer_posts_exactly_example = transfer_posts_exactly memory_entry_laws one_transfer [] refl refl

abbrev one_deposit : DepositParam
one_deposit = record { transfer_id = 6; wallet_id = 1; currency = "NGN"; amount = pos 700 }

deposit_posts_exactly_example :
    MovesDeposit memory_entry_laws one_deposit (deposit memory_ledger one_deposit []).1
    × ((i : ℕ)
        → i ≢ memory_ledger.bytes_to_uint128 6
        → memory_entry_laws.entry (deposit memory_ledger one_deposit []).1 i
          ≡ memory_entry_laws.entry [] i)
unfolding deposit pure attempt is_positive ledger_for_currency ensure_accounts check_accounts
    check_deposit int64
deposit_posts_exactly_example = deposit_posts_exactly memory_entry_laws one_deposit [] refl refl

abbrev movement : ℕ → Direction → Movement
movement wallet direction = record {
  transfer_id = 3;
  wallet_id = wallet;
  direction = direction;
  amount = pos 500;
  code = 2;
  timestamp = 9;
}

abbrev merged : List Movement
merged = movement 1 debit ∷ movement 2 credit ∷ []

wallet_movements-IsNewestFirst_example :
    IsNewestFirst merged × All (IsAsked memory_ledger (1 ∷ 2 ∷ [])) merged
unfolding wallet_movements attempt collect_movements pure movement_of
wallet_movements-IsNewestFirst_example =
    wallet_movements-IsNewestFirst memory_ledger (1 ∷ 2 ∷ []) 10 (posting 3 ∷ []) merged refl

abbrev draws : ℕ → Result ℕ × ℕ × ℕ
draws n = (ok (42 - n), 40, 9)

create_wallet-AddsOne_example :
    AddsOne memory_uuids
      (memory_table (λ (r : WalletRow). r.id))
      (memory_insert (λ (r : WalletRow). r.id))
      1
      "NGN"
      []
      (create_wallet memory_uuids
        (memory_table (λ (r : WalletRow). r.id))
        print_uuid
        draws
        (print_uuid 1)
        "NGN"
        ([], refl)).0
      (create_wallet memory_uuids
        (memory_table (λ (r : WalletRow). r.id))
        print_uuid
        draws
        (print_uuid 1)
        "NGN"
        ([], refl)).1
create_wallet-AddsOne_example =
    create_wallet-AddsOne memory_uuids (memory_table (λ (r : WalletRow). r.id))
      (memory_insert (λ (r : WalletRow). r.id)) print_uuid draws (print_uuid 1) "NGN" 1 ([], refl)
      refl

-- A handler that always wants to come back later, and a count of the last attempts.
abbrev postpone : Handler ℕ
postpone ctx = raise retry_later

abbrev count_last : ExhaustedFunc ℕ
count_last ctx e n = (ok tt, suc n)

chain-first_example :
    chain postpone (on_retries_exhausted count_last ∷ on_retries_exhausted count_last ∷ [])
    ≡ on_retries_exhausted count_last (chain postpone (on_retries_exhausted count_last ∷ []))
chain-first_example =
    chain-first postpone (on_retries_exhausted count_last) (on_retries_exhausted count_last ∷ [])

read_signed-to_string_example : read_signed (codes (to_string (negsuc 4))) ≡ some (negsuc 4)
read_signed-to_string_example = read_signed-to_string (negsuc 4) (omega arith)
