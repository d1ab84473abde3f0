-- ===== src/Ledger/Accounts.antt =====
-- internal/ledger/ledger.go: account identifiers, and the accounts that a posting needs.
use digital_wallet.Prelude.{ℕ, String, true, false, List, [], ◌∷◌, map}
use digital_wallet.Shared.{rejected}
use digital_wallet.Exec.{Exec, pure, raise, or_else, ◌>>=◌}
use digital_wallet.External.Uuids.{Uuid}
use digital_wallet.External.TigerBeetle.{
  TigerBeetle, Account, AccountStatus, account_created, account_exists,
}
use digital_wallet.Ledger.Types.{
  LedgerId, AccountCode, account_code, currency_ledgers, ledger_for_currency,
}

module _ (T : TigerBeetle) where
  unfoldable pub account_id : Uuid → ℕ
  account_id wallet_id = T.bytes_to_uint128 wallet_id

  unfoldable pub transfer_id : Uuid → ℕ
  transfer_id intent_id = T.bytes_to_uint128 intent_id

  unfoldable pub settlement_account_id : LedgerId → ℕ
  settlement_account_id ledger = T.to_uint128 ledger

  -- the loop over the results
  unfoldable pub check_accounts : List AccountStatus → Exec T.Store Unit
  check_accounts [] = pure tt
  check_accounts (account_created ∷ rest) = check_accounts rest
  check_accounts (account_exists ∷ rest) = check_accounts rest
  check_accounts (_ ∷ rest) = raise rejected

  unfoldable pub create_accounts : List Account → Exec T.Store Unit
  create_accounts accounts = do results ← T.create_accounts accounts; check_accounts results

  unfoldable pub settlement_account : LedgerId → Account
  unfolding settlement_account_id
  settlement_account ledger = record {
    id = settlement_account_id ledger;
    ledger = ledger;
    code = account_code AccountCode.settlement;
    debits_must_not_exceed_credits = false;
  }

  unfoldable pub ensure_accounts : LedgerId → Uuid → Exec T.Store Unit
  unfolding create_accounts settlement_account account_id
  ensure_accounts ledger wallet_id = create_accounts (
      settlement_account ledger
      ∷ record {
        id = account_id wallet_id;
        ledger = ledger;
        code = account_code AccountCode.wallet;
        debits_must_not_exceed_credits = true;
      }
      ∷ [])

  unfoldable pub ensure_wallet_account : Uuid → String → Exec T.Store Unit
  unfolding ensure_accounts
  ensure_wallet_account wallet_id currency = do
    ledger ← or_else (ledger_for_currency currency) rejected
    ensure_accounts ledger wallet_id

  -- The source ranges over a Go map, in no fixed order; here, in the order of its literal.
  unfoldable pub ensure_settlement_accounts : Exec T.Store Unit
  unfolding create_accounts settlement_account
  ensure_settlement_accounts = create_accounts (map (λ e. settlement_account e.1) currency_ledgers)
