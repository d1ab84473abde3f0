-- ===== src/Tests/Workers.antt =====
-- The theorems on the workers and the repository, at a small world in memory.
use digital_wallet.Prelude.{◌≡◌, refl, inl, none, some, true, List, [], ◌∷◌, Memᴰ, arith}
use digital_wallet.Exec.{ok, pure, wrap, attempt, raise}
use digital_wallet.External.Provider.{PaymentStatus}
use digital_wallet.Repository.Types.{TransactionStatus, WalletStatus}
use digital_wallet.Repository.Life.{Evolves}
use digital_wallet.Repository.Transitions.{IntentOp, run_op, run_ops, run_op-Evolves, final_stays}
use digital_wallet.Ledger.Accounts.{transfer_id, ensure_accounts, check_accounts}
use digital_wallet.Repository.Transfers.{
  map_transfer, get_transfer_by_id, mark_transfer, mark_transfer_failed, mark_transfer_succeeded,
}
use digital_wallet.Repository.Wallets.{map_wallet, get_wallet_by_id}
use digital_wallet.Queues.Services.{World}
use digital_wallet.Queues.TransferWorker.{
  handle_transfer_execute, handle_transfer_exhausted, load_wallets, check_wallets, execute_between,
  notify, record_activity,
}
use digital_wallet.Ledger.Transfers as Ledger
use digital_wallet.Ledger.Transfers.{check_transfer}
use digital_wallet.Ledger.Types.{ledger_for_currency}
use digital_wallet.Prelude.Text.{equal_fold}
use digital_wallet.Shared.Money.{is_positive}
use digital_wallet.Repository.Closed.{TransferOp, run_transfer_ops, closed_stays}
use digital_wallet.Queues.TransferWorker.Settled.{IsSettled, execute-IsSettled}
use digital_wallet.Queues.TransferWorker.Exhausted.{
  IsExact as TransfersExact, Agreement, exhausted-Agreement,
}
use digital_wallet.Queues.TransferWorker.Redelivery.{IsUnmoved, execute-IsUnmoved}
use digital_wallet.Queues.TransferWorker.Done.{IsClosed as TransferIsClosed}
use digital_wallet.Queues.TransferWorker.Finished.{execute-IsClosed}
use digital_wallet.Queues.TransferWorker.Completed.{param_of, Served, Completed, execute-Completed}
use digital_wallet.Queues.TransferWorker.LostTransfer.{retry-not-IsExact}
use digital_wallet.Repository.Errors.{parse_uuid}
use digital_wallet.Ledger.Transfers.{has_posting}
use digital_wallet.Repository.Intents.{
  get_intent_by_reference, mark_intent_refunding, mark_intent_refunded, move_row, map_intent,
}
use digital_wallet.Queues.PaymentWorker.{
  handle_payment_webhook, settle, refund_late_payment, refund, cancel_poll, run, Delivery, webhook,
  poll, poll_exhausted,
}
use digital_wallet.Queues.PaymentWorker.Exact.{IsExact}
use digital_wallet.Queues.PaymentWorker.Refunds.{Backed}
use digital_wallet.Queues.PaymentWorker.NeverBoth.{NeverBoth, run-NeverBoth}
use digital_wallet.Tests.MemoryProvider.{memory_refund_laws}
use digital_wallet.Tests.Memory.{memory-UuidLaws, memory_ledger_laws, print_uuid}
use digital_wallet.Tests.Fixtures.{
  services, transfer_laws, transfer_keys, intent_laws, intent_keys, intent_row, transfer_row,
  wallet_row, world, posting, transfer_task, payment_task, transfers_configured,
  payments_configured,
}

abbrev pub fresh_world : World services
fresh_world = world WalletStatus.active TransactionStatus.pending (posting 7 ∷ [])

pub fresh_world-IsExact : IsExact services intent_laws memory_ledger_laws fresh_world
unfolding transfer_id
fresh_world-IsExact = (
  ((λ e. cc), (λ e. ground arith)),
  (((λ e. refl), (λ e. ground arith)), (((λ e. cc), (λ e. ground arith)), tt)),
)

abbrev deliveries : List Delivery
deliveries =
    webhook (some (payment_task 6 (some PaymentStatus.success)))
    ∷ webhook (some (payment_task 8 (some PaymentStatus.success)))
    ∷ poll (some (payment_task 6 none))
    ∷ poll_exhausted (some (payment_task 6 none))
    ∷ []

-- A payment that arrives for a failed deposit makes the worker ask for its refund.
asked_for_a_refund :
    memory_refund_laws.asked_back
      (handle_payment_webhook services payments_configured
        (some (payment_task 8 (some PaymentStatus.success)))
        fresh_world).1.provider
      (print_uuid 8)
    ≡ true
unfolding handle_payment_webhook settle refund_late_payment get_intent_by_reference has_posting
    refund mark_intent_refunding mark_intent_refunded move_row map_intent attempt pure wrap
    transfer_id cancel_poll raise parse_uuid
asked_for_a_refund = refl

run-NeverBoth_example :
    IsExact services intent_laws memory_ledger_laws
      (run services payments_configured deliveries fresh_world)
    × Backed services memory-UuidLaws intent_laws intent_keys memory_refund_laws
        (run services payments_configured deliveries fresh_world)
    × NeverBoth services memory-UuidLaws intent_laws intent_keys memory_refund_laws
        memory_ledger_laws
        (run services payments_configured deliveries fresh_world)
run-NeverBoth_example =
    run-NeverBoth services memory-UuidLaws intent_laws intent_keys memory_refund_laws
      memory_ledger_laws payments_configured deliveries fresh_world fresh_world-IsExact
      ((λ e. cc), ((λ e. cc), ((λ e. cc), tt)))

execute-IsSettled_example :
    IsSettled services transfer_laws memory_ledger_laws
      (handle_transfer_execute services transfers_configured (some transfer_task) fresh_world).1
execute-IsSettled_example =
    execute-IsSettled services transfer_laws memory_ledger_laws transfers_configured
      (some transfer_task) fresh_world ((λ e. cc), tt)

exhausted-Agreement_example :
    Agreement services transfer_laws memory_ledger_laws transfers_configured true
      (handle_transfer_exhausted services transfers_configured (some transfer_task) fresh_world).1
exhausted-Agreement_example =
    exhausted-Agreement services transfer_laws memory_ledger_laws transfers_configured
      (some transfer_task) fresh_world (((λ e. cc), (λ e. cc)), tt)

abbrev closed_world : World services
closed_world = world WalletStatus.active TransactionStatus.failed []

execute-IsUnmoved_example :
    IsUnmoved services transfer_laws transfer_task closed_world
      (handle_transfer_execute services transfers_configured (some transfer_task) closed_world).1
execute-IsUnmoved_example =
    execute-IsUnmoved services transfer_laws transfer_task closed_world transfers_configured
      ((λ u parsed same. refl), tt)

abbrev moved_world : World services
moved_world = world WalletStatus.frozen TransactionStatus.pending (posting 3 ∷ [])

retry-not-IsExact_example :
    ¬ TransfersExact services transfer_laws memory_ledger_laws
      (handle_transfer_execute services transfers_configured (some transfer_task) moved_world).1
unfolding get_transfer_by_id get_wallet_by_id mark_transfer_failed transfer_id attempt pure wrap
retry-not-IsExact_example =
    retry-not-IsExact services transfer_laws memory_ledger_laws transfers_configured transfer_task
      moved_world refl refl refl refl refl refl refl refl refl

run_op-Evolves_example :
    Evolves
      (fresh_world.intents.0)
      (run_op services.uuids services.intents
        (IntentOp.succeed (print_uuid 6))
        fresh_world.intents).0
run_op-Evolves_example =
    run_op-Evolves services.uuids services.intents intent_laws (IntentOp.succeed (print_uuid 6))
      fresh_world.intents

final_stays_example :
    Memᴰ
      (intent_row 7 TransactionStatus.success)
      (run_ops services.uuids services.intents
        (IntentOp.fail (print_uuid 7) ∷ IntentOp.begin_refund (print_uuid 7) ∷ [])
        fresh_world.intents).0
final_stays_example =
    final_stays services.uuids services.intents intent_laws
      (IntentOp.fail (print_uuid 7) ∷ IntentOp.begin_refund (print_uuid 7) ∷ []) fresh_world.intents
      (intent_row 7 TransactionStatus.success) (inl refl) (Memᴰ.tail (Memᴰ.head refl))

closed_stays_example :
    Memᴰ
      (transfer_row 3 TransactionStatus.failed)
      (run_transfer_ops services.uuids services.transfers
        (TransferOp.succeed (print_uuid 3) ∷ TransferOp.fail (print_uuid 3) "again" ∷ [])
        closed_world.transfers).0
closed_stays_example =
    closed_stays services.uuids services.transfers transfer_laws
      (transfer_row 3 TransactionStatus.failed) refl
      (TransferOp.succeed (print_uuid 3) ∷ TransferOp.fail (print_uuid 3) "again" ∷ [])
      closed_world.transfers (Memᴰ.head refl)

execute-IsClosed_example : TransferIsClosed services transfer_laws transfer_task.transfer_id (
    transfer_laws.rows
      (handle_transfer_execute services transfers_configured
        (some transfer_task)
        fresh_world).1.transfers)
unfolding handle_transfer_execute load_wallets check_wallets execute_between get_transfer_by_id
    get_wallet_by_id Ledger.transfer is_positive equal_fold ledger_for_currency ensure_accounts
    check_accounts check_transfer mark_transfer_succeeded mark_transfer notify record_activity
    attempt pure wrap raise Ledger.transfer_posting
execute-IsClosed_example =
    execute-IsClosed services memory-UuidLaws transfer_laws transfer_keys transfers_configured
      transfer_task fresh_world refl

abbrev served : Served services transfers_configured transfer_task fresh_world
unfolding get_transfer_by_id get_wallet_by_id Ledger.transfer Ledger.transfer_posting is_positive
    equal_fold ledger_for_currency ensure_accounts check_accounts check_transfer
    mark_transfer_succeeded mark_transfer attempt pure wrap
served = record {
  x = map_transfer services.uuids (transfer_row 3 TransactionStatus.pending);
  y = map_transfer services.uuids (transfer_row 3 TransactionStatus.success);
  a = map_wallet services.uuids (wallet_row 1 1 WalletStatus.active);
  b = map_wallet services.uuids (wallet_row 2 2 WalletStatus.active);
  u = 3;
  ua = 1;
  ub = 2;
  s = fresh_world.transfers;
  s' = (transfer_row 3 TransactionStatus.success ∷ [], refl);
  v = fresh_world.wallets;
  v' = fresh_world.wallets;
  l =
      (Ledger.transfer services.ledger
        (param_of (map_transfer services.uuids (transfer_row 3 TransactionStatus.pending))
          (map_wallet services.uuids (wallet_row 1 1 WalletStatus.active))
          (map_wallet services.uuids (wallet_row 2 2 WalletStatus.active)) 3 1 2)
        fresh_world.ledger).1;
  configured = refl;
  read = refl;
  still_pending = refl;
  sender = refl;
  recipient = refl;
  sends = refl;
  receives = refl;
  one_currency = refl;
  named = refl;
  sender_named = refl;
  recipient_named = refl;
  taken = refl;
  marked = refl;
}

execute-Completed_example :
    ((handle_transfer_execute services transfers_configured (some transfer_task) fresh_world).0
      ≡ ok tt)
    × Completed services transfer_laws memory_ledger_laws transfers_configured transfer_task
        fresh_world served.x
        (handle_transfer_execute services transfers_configured (some transfer_task) fresh_world).1
execute-Completed_example =
    execute-Completed services transfer_laws memory_ledger_laws transfers_configured transfer_task
      fresh_world served
