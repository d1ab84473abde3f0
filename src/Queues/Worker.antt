-- ===== src/Queues/Worker.antt =====
-- internal/queues/worker.go, `RegisterHandlers`: which handler an attempt at a task runs, and what stands
-- between. E-mails are left to Queues.EmailWorker, whose sender is no part of the world. A task that is no
-- JSON of its payload is none.
pub mod Attempts
use digital_wallet.Prelude.{ℕ, Option, List, [], ◌∷◌, ◌++◌}
use digital_wallet.Exec.{Result, Exec, attempt, from_result}
use digital_wallet.Queues.Tasks.{TransferPayload, PaymentPayload, ActivityPayload}
use digital_wallet.Queues.Middleware.{Attempt, Handler, MiddlewareFunc, chain, on_retries_exhausted}
use digital_wallet.Queues.Services.{Services, World}
use digital_wallet.Queues.TransferWorker.{
  TransferWorker, handle_transfer_execute, handle_transfer_exhausted,
}
use digital_wallet.Queues.PaymentWorker.{
  PaymentWorker, handle_payment_webhook, handle_payment_poll, handle_poll_exhausted,
}
use digital_wallet.Api.Activities.{handle_create_activity}

-- a task by its type; of an activity also the id and the time that its row is going to have
pub data Queued : Type 0 where
  user_activity : ℕ → ℕ → Option ActivityPayload → Queued
  webhook_received : Option PaymentPayload → Queued
  payment_polled : Option PaymentPayload → Queued
  transfer_started : Option TransferPayload → Queued

module _ {S : Type 0} where
  -- It logs, and returns the error of the handler.
  unfoldable pub logging_middleware : MiddlewareFunc S
  logging_middleware next ctx = attempt (next ctx) from_result

  -- The deferred function does nothing without a panic, and no handler of the model panics.
  abbrev pub recover_middleware : MiddlewareFunc S
  recover_middleware next ctx = next ctx

  unfoldable pub handle_payment : Handler S → List (MiddlewareFunc S) → Handler S
  handle_payment h mws = chain h ((logging_middleware ∷ mws) ++ (recover_middleware ∷ []))

module _ (S : Services) (p : PaymentWorker) (t : TransferWorker) where
  unfoldable pub register_handlers : Queued → Handler (World S)
  register_handlers (user_activity fresh now task) ctx = handle_create_activity S fresh now task
  register_handlers (webhook_received task) ctx =
      handle_payment (λ _. handle_payment_webhook S p task) [] ctx
  register_handlers (payment_polled task) ctx =
      handle_payment (λ _. handle_payment_poll S p task)
        (on_retries_exhausted (λ _ e. handle_poll_exhausted S p task) ∷ []) ctx
  register_handlers (transfer_started task) ctx =
      handle_payment (λ _. handle_transfer_execute S t task)
        (on_retries_exhausted (λ _ e. handle_transfer_exhausted S t task) ∷ []) ctx

  -- attempts that are made one after another
  unfoldable pub run_attempts : List (Queued × Attempt) → World S → World S
  run_attempts [] w = w
  run_attempts ((task, ctx) ∷ rest) w = run_attempts rest (register_handlers task ctx w).1
