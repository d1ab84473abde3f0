-- ===== src/Tests/Attempts.antt =====
-- The theorems on attempts at tasks, at a small world in memory.
use digital_wallet.Prelude.{◌≡◌, some, List, [], ◌∷◌}
use digital_wallet.Exec.{ok}
use digital_wallet.External.Provider.{PaymentStatus}
use digital_wallet.Queues.Middleware.{Attempt}
use digital_wallet.Queues.Middleware.Order.{RunsOut}
use digital_wallet.Queues.TransferWorker.{handle_transfer_execute, handle_transfer_exhausted}
use digital_wallet.Queues.TransferWorker.Done.{IsClosed}
use digital_wallet.Queues.PaymentWorker.Exact.{IsExact}
use digital_wallet.Queues.Worker.{
  Queued, webhook_received, payment_polled, transfer_started, register_handlers, run_attempts,
}
use digital_wallet.Queues.Worker.Attempts.{attempts-IsExact, register_handlers-Closes}
use digital_wallet.Tests.Memory.{memory-UuidLaws, memory_ledger_laws}
use digital_wallet.Tests.Fixtures.{
  services, transfer_laws, transfer_keys, intent_laws, intent_keys, transfer_task, payment_task,
  transfers_configured, payments_configured,
}
use digital_wallet.Tests.Workers.{fresh_world, fresh_world-IsExact}

abbrev first : Attempt
first = record { retried = some 0; max_retry = some 3 }

abbrev last : Attempt
last = record { retried = some 3; max_retry = some 3 }

abbrev tasks : List (Queued × Attempt)
tasks =
    (webhook_received (some (payment_task 6 (some PaymentStatus.success))), first)
    ∷ (payment_polled (some (payment_task 8 (some PaymentStatus.success))), first)
    ∷ (payment_polled (some (payment_task 8 (some PaymentStatus.success))), last)
    ∷ []

attempts-IsExact_example :
    IsExact services intent_laws memory_ledger_laws
      (run_attempts services payments_configured transfers_configured tasks fresh_world)
attempts-IsExact_example =
    attempts-IsExact services payments_configured transfers_configured memory-UuidLaws intent_laws
      intent_keys memory_ledger_laws tasks fresh_world (tt, (tt, (tt, tt))) fresh_world-IsExact

register_handlers-Closes_example :
    ((register_handlers services payments_configured transfers_configured
        (transfer_started (some transfer_task))
        last
        fresh_world).0
      ≡ (handle_transfer_execute services transfers_configured (some transfer_task) fresh_world).0)
    × ((handle_transfer_execute services transfers_configured (some transfer_task) fresh_world).0
          ≡ ok tt
        → IsClosed services transfer_laws transfer_task.transfer_id (
            transfer_laws.rows
              (register_handlers services payments_configured transfers_configured
                (transfer_started (some transfer_task))
                last
                fresh_world).1.transfers))
    × (RunsOut last
          (handle_transfer_execute services transfers_configured (some transfer_task) fresh_world).0
        → (register_handlers services payments_configured transfers_configured
            (transfer_started (some transfer_task))
            last
            fresh_world).1
          ≡ (handle_transfer_exhausted services transfers_configured
              (some transfer_task)
              (handle_transfer_execute services transfers_configured
                (some transfer_task)
                fresh_world).1).1)
register_handlers-Closes_example =
    register_handlers-Closes services payments_configured transfers_configured memory-UuidLaws
      transfer_laws transfer_keys transfer_task last fresh_world
