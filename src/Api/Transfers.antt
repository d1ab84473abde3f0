-- ===== src/Api/Transfers.antt =====
-- internal/api/services/transfer-service.go: starting a transfer, and showing one.
use digital_wallet.Prelude.{
  ℕ, String, Bool, not, ◌&&◌, ◌||◌, Option, none, some, List, [], ◌∷◌, ◌==◌, str_eq, if◌then◌else◌,
}
use digital_wallet.Prelude.Int.{pos, ltb_ℤ}
use digital_wallet.Prelude.Text.{equal_fold, trim_space}
use digital_wallet.Shared.{Error, is_not_found, app_error}
use digital_wallet.Shared.Money.{Money}
use digital_wallet.Exec.{Result, ok, err, Exec, pure, raise, attempt, wrap, or_else, ◌>>=◌, ◌>>◌}
use digital_wallet.External.Uuids.{Uuid}
use digital_wallet.Ledger.Accounting.{balances}
use digital_wallet.Repository.Types.{is_active, Wallet, Transfer}
use digital_wallet.Repository.Transfers.{create_transfer, get_transfer_by_id}
use digital_wallet.Repository.Wallets.{get_wallet_by_id, get_wallet_by_account_number}
use digital_wallet.Queues.Services.{Services, World, on_wallets, on_transfers, on_ledger}
use digital_wallet.Api.Events.{publish, transfer_listeners}

abbrev pub min_transfer_minor : Money
min_transfer_minor = pos 100

abbrev pub max_transfer_minor : Money
max_transfer_minor = pos 100_000_000

-- `param.Money()`, the rounding of a float64, is done before: `amount` is its result.
pub record InitiateTransferParam : Type 0 where
  pub sender_wallet_id : String
  pub recipient_account_number : String
  pub amount : Money

-- the caller that the request carries, if any
unfoldable pub caller_id : Option String → {S : Type 0} → Exec S String
caller_id none = raise (app_error 401 "Unauthorized")
caller_id (some id) = if str_eq id "" then raise (app_error 401 "Unauthorized") else pure id

abbrev pub load_failure : String → String → Error → Error
load_failure missing failed e =
    if is_not_found e then app_error 404 missing else app_error 500 failed

abbrev pub server_error : String → Error → Error
server_error message e = app_error 500 message

-- an entry of the map of balances; a missing one is 0
abbrev pub balance_of : Uuid → List (Uuid × Money) → Money
balance_of w [] = pos 0
balance_of w ((v, m) ∷ rest) = let later = balance_of w rest in if v == w then m else later

module _ (S : Services) (has_ledger : Bool) where
  -- A ledger that cannot be asked does not stop the transfer.
  abbrev pub after_balances : Uuid → Money → Result (List (Uuid × Money)) → Exec (World S) Unit
  after_balances wallet amount (err e) = pure tt
  after_balances wallet amount (ok found) =
      if ltb_ℤ (balance_of wallet found) amount
      then raise (app_error 422 "Insufficient Funds")
      else pure tt

  unfoldable pub check_sufficient_balance : String → Money → Exec (World S) Unit
  check_sufficient_balance wallet_id amount = if not has_ledger then pure tt else do
    parsed ← or_else (S.uuids.parse wallet_id) (app_error 500 "Could Not Load Wallet Balance")
    attempt (on_ledger S (balances S.ledger (parsed ∷ []))) (after_balances parsed amount)

  -- `InitiateTransfer`, with both wallets accepted
  unfoldable pub record_transfer :
      Uuid → ℕ → String → Money → Wallet → Wallet → Exec (World S) Transfer
  record_transfer fresh now user_id amount sender recipient = do
    check_sufficient_balance sender.id amount
    transfer ← wrap (server_error "Could Not Start Transfer") (
        on_transfers S (
          create_transfer S.uuids S.transfers fresh now (record {
            sender_user_id = user_id;
            sender_wallet_id = sender.id;
            recipient_user_id = recipient.user_id;
            recipient_wallet_id = recipient.id;
            amount = amount;
            currency = sender.currency;
          })))
    publish S (transfer_listeners S) (record {
      transfer_id = transfer.id;
      user_id = user_id;
      amount_minor = amount;
      currency = sender.currency;
    })
    pure transfer

  -- the tests on the recipient's wallet
  unfoldable pub admit_recipient :
      Uuid → ℕ → String → Money → Wallet → Wallet → Exec (World S) Transfer
  admit_recipient fresh now user_id amount sender recipient =
      if str_eq recipient.id sender.id
      then raise (app_error 400 "You Cannot Transfer To The Same Wallet")
      else if not (equal_fold recipient.currency sender.currency)
      then raise (app_error 400 "Cross-Currency Transfers Are Not Supported Yet")
      else if not (is_active recipient.status)
      then raise (app_error 422 "That Account Cannot Receive Money")
      else record_transfer fresh now user_id amount sender recipient

  -- the tests on the sender's wallet
  unfoldable pub admit_sender :
      Uuid → ℕ → String → InitiateTransferParam → Wallet → Exec (World S) Transfer
  admit_sender fresh now user_id param sender =
      if not (str_eq sender.user_id user_id)
      then raise (app_error 404 "Wallet Not Found")
      else if not (is_active sender.status)
      then raise (app_error 422 "Wallet Is Not Active")
      else do
        recipient ← wrap (load_failure "Account Not Found" "Could Not Load Account") (
            on_wallets S (
              get_wallet_by_account_number S.uuids S.wallets
                (trim_space param.recipient_account_number)))
        admit_recipient fresh now user_id param.amount sender recipient

  -- The transfer is handed out as the repository has it: `MapTransferToServiceDomain` leaves the two
  -- users out and prints the time.
  unfoldable pub initiate_transfer :
      Uuid → ℕ → Option String → InitiateTransferParam → Exec (World S) Transfer
  initiate_transfer fresh now caller param = do
    user_id ← caller_id caller
    if ltb_ℤ param.amount min_transfer_minor || ltb_ℤ max_transfer_minor param.amount
        then raise (app_error 422 "Transfer Amount Is Out Of Range")
        else (do
          sender ←
              wrap (load_failure "Wallet Not Found" "Could Not Load Wallet")
                (on_wallets S (get_wallet_by_id S.uuids S.wallets param.sender_wallet_id))
          admit_sender fresh now user_id param sender)

  abbrev pub show_to_party : String → Transfer → Exec (World S) Transfer
  show_to_party user_id transfer =
      if not (str_eq transfer.sender_user_id user_id)
        && not (str_eq transfer.recipient_user_id user_id)
      then raise (app_error 404 "Transfer Not Found")
      else pure transfer

  unfoldable pub get_transfer : Option String → String → Exec (World S) Transfer
  get_transfer caller transfer_id = do
    user_id ← caller_id caller
    transfer ←
        wrap (load_failure "Transfer Not Found" "Could Not Load Transfer")
          (on_transfers S (get_transfer_by_id S.uuids S.transfers transfer_id))
    show_to_party user_id transfer
