-- ===== src/Ledger/Transfers.antt =====
-- internal/ledger/ledger.go: the two postings that the program makes, and the test for one.
use digital_wallet.Prelude.{ℕ, String, Bool, not, List, [], ◌∷◌, is_empty, ◌==◌, if◌then◌else◌}
use digital_wallet.Prelude.Text.{equal_fold}
use digital_wallet.Shared.{rejected, insufficient_funds, cross_currency}
use digital_wallet.Shared.Money.{Money, is_positive, uint64}
use digital_wallet.Exec.{Exec, pure, raise, or_else, ◌>>=◌, ◌>>◌}
use digital_wallet.External.Uuids.{Uuid}
use digital_wallet.External.TigerBeetle.{
  TigerBeetle, Posting, TransferStatus, transfer_created, transfer_exists, exceeds_credits,
}
use digital_wallet.Ledger.Types.{TransferCode, transfer_code, ledger_for_currency}
use digital_wallet.Ledger.Accounts.{account_id, transfer_id, settlement_account_id, ensure_accounts}

pub record DepositParam : Type 0 where
  pub transfer_id : Uuid
  pub wallet_id : Uuid
  pub currency : String
  pub amount : Money

pub record TransferParam : Type 0 where
  pub transfer_id : Uuid
  pub sender_wallet_id : Uuid
  pub receipient_wallet_id : Uuid
  pub sender_currency : String
  pub receipients_currency : String
  pub amount : Money

module _ (T : TigerBeetle) where
  unfoldable pub check_deposit : List TransferStatus → Exec T.Store Unit
  check_deposit [] = pure tt
  check_deposit (transfer_created ∷ rest) = check_deposit rest
  check_deposit (transfer_exists ∷ rest) = check_deposit rest
  check_deposit (_ ∷ rest) = raise rejected

  unfoldable pub deposit_posting : ℕ → DepositParam → Posting
  unfolding transfer_id account_id settlement_account_id uint64
  deposit_posting ledger param = record {
    id = transfer_id T param.transfer_id;
    debit_account_id = settlement_account_id T ledger;
    credit_account_id = account_id T param.wallet_id;
    amount = T.to_uint128 (uint64 param.amount);
    ledger = ledger;
    code = transfer_code TransferCode.deposit;
    timestamp = 0;
  }

  -- the part of `deposit` after its guard
  unfoldable pub post_deposit : DepositParam → Exec T.Store Unit
  post_deposit param = do
    ledger ← or_else (ledger_for_currency param.currency) rejected
    ensure_accounts T ledger param.wallet_id
    results ← T.create_transfers (deposit_posting ledger param ∷ [])
    check_deposit results

  unfoldable pub deposit : DepositParam → Exec T.Store Unit
  unfolding post_deposit
  deposit param = if not (is_positive param.amount) then raise rejected else post_deposit param

  unfoldable pub check_transfer : List TransferStatus → Exec T.Store Unit
  check_transfer [] = pure tt
  check_transfer (transfer_created ∷ rest) = check_transfer rest
  check_transfer (transfer_exists ∷ rest) = check_transfer rest
  check_transfer (exceeds_credits ∷ rest) = raise insufficient_funds
  check_transfer (_ ∷ rest) = raise rejected

  unfoldable pub transfer_posting : ℕ → TransferParam → Posting
  unfolding transfer_id account_id uint64
  transfer_posting ledger param = record {
    id = transfer_id T param.transfer_id;
    debit_account_id = account_id T param.sender_wallet_id;
    credit_account_id = account_id T param.receipient_wallet_id;
    amount = T.to_uint128 (uint64 param.amount);
    ledger = ledger;
    code = transfer_code TransferCode.internal;
    timestamp = 0;
  }

  -- the part of `transfer` after its guards
  unfoldable pub post_transfer : TransferParam → Exec T.Store Unit
  post_transfer param = do
    ledger ← or_else (ledger_for_currency param.sender_currency) rejected
    ensure_accounts T ledger param.sender_wallet_id
    ensure_accounts T ledger param.receipient_wallet_id
    results ← T.create_transfers (transfer_posting ledger param ∷ [])
    check_transfer results

  unfoldable pub transfer : TransferParam → Exec T.Store Unit
  unfolding post_transfer
  transfer param =
      if not (is_positive param.amount)
      then raise rejected
      else if param.sender_wallet_id == param.receipient_wallet_id
      then raise rejected
      else if not (equal_fold param.sender_currency param.receipients_currency)
      then raise cross_currency
      else post_transfer param

  unfoldable pub has_posting : Uuid → Exec T.Store Bool
  unfolding transfer_id
  has_posting intent_id = do
    transfers ← T.lookup_transfers (transfer_id T intent_id ∷ [])
    pure (not (is_empty transfers))
