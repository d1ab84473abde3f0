-- ===== src/Queues/TransferWorker.antt =====
-- internal/queues/transfer.go: the worker that carries out a transfer.
pub mod Marks
pub mod Settled
pub mod Exhausted
pub mod Redelivery
pub mod Stands
pub mod Marking
pub mod LostTransfer
pub mod Completed
pub mod Done
pub mod Finished
use Prim.Native.String.{◌++◌}
use digital_wallet.Prelude.{
  String, Bool, true, false, not, ◌&&◌, ◌||◌, Option, none, some, if◌then◌else◌,
}
use digital_wallet.Prelude.Text.{equal_fold}
use digital_wallet.Shared.{
  Error, is_not_found, is_transfer_not_pending, skip_retry, insufficient_funds, cross_currency,
  rejected,
}
use digital_wallet.Shared.Money.{to_string}
use digital_wallet.Exec.{Result, ok, err, Exec, pure, raise, attempt, wrap, or_else, ◌>>=◌, ◌>>◌}
use digital_wallet.Ledger.Transfers as Ledger
use digital_wallet.External.Uuids.{Uuid}
use digital_wallet.Repository.Types.{is_pending, is_active, Wallet, Transfer}
use digital_wallet.Repository.Transfers.{
  get_transfer_by_id, mark_transfer_succeeded, mark_transfer_failed,
}
use digital_wallet.Repository.Wallets.{get_wallet_by_id}
use digital_wallet.Queues.Tasks.{
  TransferPayload, ActivityPayload, Task, update_user_activity, activity, default_task,
  enqueue_with_context,
}
use digital_wallet.Queues.Services.{Services, World, on_wallets, on_transfers, on_ledger, on_broker}

-- which of the worker's optional parts are configured
pub record TransferWorker : Type 0 where
  pub has_ledger : Bool
  pub has_activity : Bool

abbrev pub skip_if_missing : Error → Error
skip_if_missing e = if is_not_found e then skip_retry else e

module _ (S : Services) where
  abbrev pub ignore : Result (Unit {0}) → Exec (World S) Unit
  ignore r = pure tt

  -- a payload that is not JSON is `none`
  abbrev pub decode : {A : Type 0} → Option A → Exec (World S) A
  decode payload = or_else payload skip_retry

  -- `uuid.Parse(id)` in a handler
  abbrev pub parse_id : String → Exec (World S) Uuid
  parse_id id = or_else (S.uuids.parse id) skip_retry

  module _ (t : TransferWorker) where
    -- `record`; an activity that cannot be queued is only logged
    unfoldable pub record_activity : String → String → Exec (World S) Unit
    unfolding enqueue_with_context
    record_activity user_id action =
        if t.has_activity
        then attempt
            (on_broker S (
              enqueue_with_context S.broker (
                default_task update_user_activity
                  (activity (record { user_id = user_id; action = action })))))
            ignore
        else pure tt

    unfoldable pub notify : Transfer → Exec (World S) Unit
    unfolding record_activity
    notify transfer = do
      record_activity transfer.sender_user_id ("Sent " ++ to_string transfer.amount)
      record_activity transfer.recipient_user_id ("Received " ++ to_string transfer.amount)

    abbrev pub after_failed : String → Result Transfer → Exec (World S) Unit
    after_failed reason (ok failed) =
        record_activity failed.sender_user_id
          ("Transfer of " ++ to_string failed.amount ++ " failed: " ++ reason)
    after_failed reason (err e) = if is_transfer_not_pending e then pure tt else raise e

    unfoldable pub finalize_failed : Transfer → String → Exec (World S) Unit
    finalize_failed transfer reason =
        attempt (on_transfers S (mark_transfer_failed S.uuids S.transfers transfer.id reason))
          (after_failed reason)

    -- the tests of `loadWallets` on the two wallets; `none` if the transfer was closed here
    unfoldable pub check_wallets :
        Transfer → Wallet → Wallet → Exec (World S) (Option (Wallet × Wallet))
    check_wallets transfer sender recipient =
        if not (is_active sender.status) || not (is_active recipient.status)
        then (do finalize_failed transfer "An account involved is not active"; pure none)
        else if not (equal_fold sender.currency recipient.currency)
        then (do finalize_failed transfer "Cross-currency transfers are not supported"; pure none)
        else pure (some (sender, recipient))

    unfoldable pub load_wallets : Transfer → Exec (World S) (Option (Wallet × Wallet))
    load_wallets transfer = do
      sender ←
          wrap skip_if_missing
            (on_wallets S (get_wallet_by_id S.uuids S.wallets transfer.sender_wallet_id))
      recipient ←
          wrap skip_if_missing
            (on_wallets S (get_wallet_by_id S.uuids S.wallets transfer.recipient_wallet_id))
      check_wallets transfer sender recipient

    abbrev pub after_succeeded : Result Transfer → Exec (World S) Unit
    after_succeeded (ok settled) = notify settled
    after_succeeded (err e) = if is_transfer_not_pending e then pure tt else raise e

    -- the `switch` on the answer of the ledger, and what follows it
    abbrev pub after_ledger : Transfer → Result (Unit {0}) → Exec (World S) Unit
    after_ledger transfer (ok _) =
        attempt (on_transfers S (mark_transfer_succeeded S.uuids S.transfers transfer.id))
          after_succeeded
    after_ledger transfer (err insufficient_funds) = finalize_failed transfer "Insufficient funds"
    after_ledger transfer (err cross_currency) = do
      finalize_failed transfer "Rejected by the ledger"
      raise skip_retry
    after_ledger transfer (err rejected) = do
      finalize_failed transfer "Rejected by the ledger"
      raise skip_retry
    after_ledger transfer (err e) = raise e

    unfoldable pub execute_between : Transfer → Option (Wallet × Wallet) → Exec (World S) Unit
    execute_between transfer none = pure tt
    execute_between transfer (some (sender, recipient)) = do
      transfer_id ← parse_id transfer.id
      sender_wallet_id ← parse_id sender.id
      recipient_wallet_id ← parse_id recipient.id
      attempt
          (on_ledger S (
            Ledger.transfer S.ledger (record {
              transfer_id = transfer_id;
              sender_wallet_id = sender_wallet_id;
              receipient_wallet_id = recipient_wallet_id;
              sender_currency = sender.currency;
              receipients_currency = recipient.currency;
              amount = transfer.amount;
            })))
          (after_ledger transfer)

    unfoldable pub handle_transfer_execute : Option TransferPayload → Exec (World S) Unit
    handle_transfer_execute task = do
      payload ← decode task
      if not t.has_ledger then raise skip_retry else do
        transfer ←
            wrap skip_if_missing
              (on_transfers S (get_transfer_by_id S.uuids S.transfers payload.transfer_id))
        if not (is_pending transfer.status)
            then pure tt
            else do wallets ← load_wallets transfer; execute_between transfer wallets

    -- Of `HandleTransferExhausted`, the end where the ledger has no such transfer.
    abbrev pub give_up : Transfer → Exec (World S) Unit
    give_up transfer =
        attempt (finalize_failed transfer "The transfer could not be completed") ignore

    abbrev pub after_late_success : Result Transfer → Exec (World S) Unit
    after_late_success (ok settled) = notify settled
    after_late_success (err e) = pure tt

    -- with the ledger's answer, whose error leaves the transfer pending
    abbrev pub after_lookup : Transfer → Result Bool → Exec (World S) Unit
    after_lookup transfer (err e) = pure tt
    after_lookup transfer (ok true) =
        attempt (on_transfers S (mark_transfer_succeeded S.uuids S.transfers transfer.id))
          after_late_success
    after_lookup transfer (ok false) = give_up transfer

    abbrev pub after_exhausted_id : Transfer → Option Uuid → Exec (World S) Unit
    after_exhausted_id transfer none = pure tt
    after_exhausted_id transfer (some transfer_id) =
        if t.has_ledger
        then attempt (on_ledger S (Ledger.has_posting S.ledger transfer_id)) (after_lookup transfer)
        else give_up transfer

    abbrev pub after_exhausted_read : Result Transfer → Exec (World S) Unit
    after_exhausted_read (err e) = pure tt
    after_exhausted_read (ok transfer) =
        if not (is_pending transfer.status)
        then pure tt
        else after_exhausted_id transfer (S.uuids.parse transfer.id)

    -- It returns nothing: its errors are only logged.
    unfoldable pub handle_transfer_exhausted : Option TransferPayload → Exec (World S) Unit
    handle_transfer_exhausted none = pure tt
    handle_transfer_exhausted (some payload) =
        attempt (on_transfers S (get_transfer_by_id S.uuids S.transfers payload.transfer_id))
          after_exhausted_read
