-- ===== src/Api/Wallets.antt =====
-- internal/api/services/wallet-service.go: opening a wallet, and showing the caller's own.
pub mod Pairs
pub mod Opening
pub mod Unique
pub mod Balance
pub mod Showing
use Prim.Native.String.{◌++◌ as append}
use digital_wallet.Prelude.{
  ℕ, String, Bool, not, Option, none, some, List, [], ◌∷◌, ◌++◌, str_eq, if◌then◌else◌,
}
use digital_wallet.Prelude.Int.{pos}
use digital_wallet.Prelude.Text.{to_upper, trim_space}
use digital_wallet.Shared.{Error, is_not_found, app_error}
use digital_wallet.Shared.Money.{Money}
use digital_wallet.Exec.{Result, ok, err, Exec, pure, raise, attempt, wrap, or_else, ◌>>=◌, ◌>>◌}
use digital_wallet.External.Uuids.{Uuid}
use digital_wallet.Ledger.Types.{LedgerId, ledger_for_currency}
use digital_wallet.Ledger.Accounts.{ensure_wallet_account}
use digital_wallet.Ledger.Accounting.{balances}
use digital_wallet.Repository.Types.{Wallet, WalletStatus}
use digital_wallet.Repository.Wallets as Wallets
use digital_wallet.Queues.Services.{Services, World, on_wallets, on_ledger}
use digital_wallet.Api.Transfers.{caller_id, load_failure, server_error, balance_of}

-- services.Wallet
pub record WalletView : Type 0 where
  pub id : String
  pub account_number : String
  pub currency : String
  pub status : WalletStatus
  pub balance : Money

abbrev pub default_deposit_currency : String
default_deposit_currency = "NGN"

-- the currency that was asked for, as it is stored
unfoldable pub currency_of : String → String
currency_of asked =
    let currency = to_upper (trim_space asked) in
    if str_eq currency "" then default_deposit_currency else currency

abbrev pub view_of : Wallet → Money → WalletView
view_of wallet balance = record {
  id = wallet.id;
  account_number = wallet.account_number;
  currency = wallet.currency;
  status = wallet.status;
  balance = balance;
}

-- the second loop of `withBalances`, over the wallets and their ids
abbrev pub with_balance : List (Uuid × Money) → List (Uuid × Wallet) → List WalletView
with_balance found [] = []
with_balance found ((id, wallet) ∷ rest) =
    view_of wallet (balance_of id found) ∷ with_balance found rest

abbrev pub ids_of : List (Uuid × Wallet) → List Uuid
ids_of [] = []
ids_of ((id, wallet) ∷ rest) = id ∷ ids_of rest

module _ (S : Services) (has_ledger : Bool) where
  -- A failure is logged but not returned.
  abbrev pub after_parse : Wallet → Option Uuid → Exec (World S) Unit
  after_parse wallet none = pure tt
  after_parse wallet (some id) =
      attempt (on_ledger S (ensure_wallet_account S.ledger id wallet.currency)) (λ r. pure tt)

  unfoldable pub ensure_ledger_account : Wallet → Exec (World S) Unit
  ensure_ledger_account wallet =
      if not has_ledger then pure tt else after_parse wallet (S.uuids.parse wallet.id)

  -- the first loop of `withBalances`
  unfoldable pub parse_ids : List Wallet → Exec (World S) (List (Uuid × Wallet))
  parse_ids [] = pure []
  parse_ids (wallet ∷ rest) = do
    id ← or_else (S.uuids.parse wallet.id) (app_error 500 "Could Not Load Wallets")
    more ← parse_ids rest
    pure ((id, wallet) ∷ more)

  unfoldable pub with_balances : List Wallet → Exec (World S) (List WalletView)
  with_balances wallets = do
    parsed ← parse_ids wallets
    found ←
        if not has_ledger
        then pure []
        else wrap (λ e. app_error 502 "Could Not Load Wallet Balance")
            (on_ledger S (balances S.ledger (ids_of parsed)))
    pure (with_balance found parsed)

  unfoldable pub open_wallet :
      (ℕ → String) → (ℕ → Result ℕ × Uuid × ℕ) → String → String → Exec (World S) WalletView
  unfolding ensure_ledger_account
  open_wallet format_int draws user_id currency = do
    wallet ←
        wrap (server_error "Could Not Create Wallet")
          (on_wallets S (Wallets.create_wallet S.uuids S.wallets format_int draws user_id currency))
    ensure_ledger_account wallet
    pure (view_of wallet (pos 0))

  -- what follows the question whether the user has such a wallet
  abbrev pub open_if_missing :
      (ℕ → String)
      → (ℕ → Result ℕ × Uuid × ℕ)
      → String
      → String
      → Result Wallet
      → Exec (World S) WalletView
  open_if_missing format_int draws user_id currency (ok wallet) =
      raise (app_error 409 (append "You Already Have A " (append currency " Wallet")))
  open_if_missing format_int draws user_id currency (err e) =
      if not (is_not_found e)
      then raise (app_error 500 "Could Not Create Wallet")
      else open_wallet format_int draws user_id currency

  unfoldable pub create_wallet :
      (ℕ → String) → (ℕ → Result ℕ × Uuid × ℕ) → Option String → String → Exec (World S) WalletView
  unfolding open_wallet
  create_wallet format_int draws caller asked = do
    user_id ← caller_id caller
    or_else (ledger_for_currency (currency_of asked)) (app_error 400 "Unsupported Currency")
    attempt
        (on_wallets S (Wallets.get_wallet_by_user S.uuids S.wallets user_id (currency_of asked)))
        (open_if_missing format_int draws user_id (currency_of asked))

  unfoldable pub list_my_wallets : Option String → Exec (World S) (List WalletView)
  unfolding with_balances
  list_my_wallets caller = do
    user_id ← caller_id caller
    wallets ←
        wrap (server_error "Could Not Load Wallets")
          (on_wallets S (Wallets.list_wallets_by_user S.uuids S.wallets user_id))
    with_balances wallets

  -- `result[0]`, of a list that has as many members as the one it was made of
  abbrev pub only : List WalletView → Exec (World S) WalletView
  only [] = raise (app_error 500 "index out of range")
  only (view ∷ rest) = pure view

  unfoldable pub get_wallet : Option String → String → Exec (World S) WalletView
  unfolding with_balances
  get_wallet caller wallet_id = do
    user_id ← caller_id caller
    wallet ←
        wrap (load_failure "Wallet Not Found" "Could Not Load Wallet")
          (on_wallets S (Wallets.get_wallet_by_id S.uuids S.wallets wallet_id))
    if not (str_eq wallet.user_id user_id)
        then raise (app_error 404 "Wallet Not Found")
        else (do result ← with_balances (wallet ∷ []); only result)
