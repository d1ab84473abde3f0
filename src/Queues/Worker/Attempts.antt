-- ===== src/Queues/Worker/Attempts.antt =====
-- internal/queues/worker.go: attempts at tasks, through the middleware, and what they leave.
use digital_wallet.Prelude.{◌≡◌, inl, inr, refl, sym, subst, ap, ◌∙◌, some, List, [], ◌∷◌, All}
use digital_wallet.Exec.{Result, ok, err, pure, raise, attempt, from_result}
use digital_wallet.External.Uuids.{UuidLaws}
use digital_wallet.External.Table.{TableLaws, KeyLaws}
use digital_wallet.External.TigerBeetle.{TigerBeetleLaws}
use digital_wallet.Queues.Tasks.{TransferPayload}
use digital_wallet.Queues.Middleware.{Attempt, Handler, ExhaustedFunc, chain, on_retries_exhausted}
use digital_wallet.Queues.Middleware.Order.{
  RunsOut, on_retries_exhausted_lem, on_retries_exhausted-RunsOut,
}
use digital_wallet.Queues.Services.{Services, World}
use digital_wallet.Queues.TransferWorker.{
  TransferWorker, handle_transfer_execute, handle_transfer_exhausted,
}
use digital_wallet.Queues.TransferWorker.Done.{IsClosed}
use digital_wallet.Queues.TransferWorker.Finished.{execute-IsClosed}
use digital_wallet.Queues.PaymentWorker.{
  PaymentWorker, Delivery, webhook, poll, poll_exhausted, run, handle_payment_webhook,
  handle_payment_poll, handle_poll_exhausted,
}
use digital_wallet.Queues.PaymentWorker.Exact.{IsExact}
use digital_wallet.Queues.PaymentWorker.Handlers.{run-IsExact}
use digital_wallet.Queues.Worker.{
  Queued, user_activity, webhook_received, payment_polled, transfer_started, logging_middleware,
  handle_payment, register_handlers, run_attempts,
}

module _ {S : Type 0} where
  returned : (r : Result (Unit {0})) (s : S) → from_result {A = Unit {0}} {S = S} r s ≡ (r, s)
  unfolding pure raise
  returned (ok a) s = refl
  returned (err e) s = refl

  -- Without a further middleware the registered handler is the handler.
  pub plain_handler : (h : Handler S) (ctx : Attempt) (s : S) → handle_payment h [] ctx s ≡ h ctx s
  unfolding handle_payment chain logging_middleware attempt
  plain_handler h ctx s = returned (h ctx s).0 (h ctx s).1

  pub guarded_handler :
      (h : Handler S) (fn : ExhaustedFunc S) (ctx : Attempt) (s : S)
      → handle_payment h (on_retries_exhausted fn ∷ []) ctx s ≡ on_retries_exhausted fn h ctx s
  unfolding handle_payment chain logging_middleware attempt
  guarded_handler h fn ctx s =
      returned (on_retries_exhausted fn h ctx s).0 (on_retries_exhausted fn h ctx s).1

-- the tasks of deposits
abbrev pub IsPayment : Queued → Type 0
IsPayment (webhook_received task) = Unit {0}
IsPayment (payment_polled task) = Unit {0}
IsPayment _ = ⊥

module _ (S : Services) (p : PaymentWorker) (t : TransferWorker) where
  -- An attempt is one delivery to the handlers, or two if it was the last.
  payment-deliveries :
      (task : Queued) (ctx : Attempt) (w : World S)
      → IsPayment task
      → (ds : List Delivery) × ((register_handlers S p t task ctx w).1 ≡ run S p ds w)
  unfolding register_handlers
  payment-deliveries (webhook_received task) ctx w h = (
    webhook task ∷ [],
    ap (λ z. z.1) (plain_handler (λ _. handle_payment_webhook S p task) ctx w),
  )
  payment-deliveries (payment_polled task) ctx w h =
      elim (on_retries_exhausted_lem fn next ctx w).1 [
        | inl kept ↦ (poll task ∷ [], guarded ∙ kept)
        | inr (e, failed, out, closed) ↦ (poll task ∷ poll_exhausted task ∷ [], guarded ∙ closed)
      ]
    where
      next : Handler (World S)
      next = λ _. handle_payment_poll S p task

      fn : ExhaustedFunc (World S)
      fn = λ _ e. handle_poll_exhausted S p task

      guarded :
          (handle_payment next (on_retries_exhausted fn ∷ []) ctx w).1
          ≡ (on_retries_exhausted fn next ctx w).1
      guarded = ap (λ z. z.1) (guarded_handler next fn ctx w)
  payment-deliveries (transfer_started task) ctx w h = absurd h
  payment-deliveries (user_activity fresh now task) ctx w h = absurd h

  -- Any sequence of attempts at webhook and poll tasks, first or last ones, through the middleware and one
  -- after another, keeps a successful deposit in the ledger and a deposit with the status refunding
  -- or refunded out of it.
  pub attempts-IsExact :
      (ul : UuidLaws S.uuids) (il : TableLaws S.intents) (keys : KeyLaws il (λ r. r.id))
      (bl : TigerBeetleLaws S.ledger) (tasks : List (Queued × Attempt)) (w : World S)
      → All (λ (a : Queued × Attempt). IsPayment a.0) tasks
      → IsExact S il bl w
      → IsExact S il bl (run_attempts S p t tasks w)
  unfolding run_attempts
  attempts-IsExact ul il keys bl [] w payments h = h
  attempts-IsExact ul il keys bl ((task, ctx) ∷ rest) w (payment, payments) h =
      let (ds, same) = payment-deliveries task ctx w payment in
      attempts-IsExact ul il keys bl rest (register_handlers S p t task ctx w).1 payments
        (subst (IsExact S il bl) (sym same) (run-IsExact S ul il keys bl p ds w h))

  -- An attempt at a transfer task answers what the handler answers. If that is nil, no transfer of the
  -- task's id is pending; if it is an error that allows a retry and no retry is left, the transfer is
  -- handed to the closing of exhausted transfers in the state that the handler left.
  pub register_handlers-Closes :
      (ids : UuidLaws S.uuids) (tl : TableLaws S.transfers) (keys : KeyLaws tl (λ r. r.id))
      (task : TransferPayload) (ctx : Attempt) (w : World S)
      → ((register_handlers S p t (transfer_started (some task)) ctx w).0
          ≡ (handle_transfer_execute S t (some task) w).0)
        × ((handle_transfer_execute S t (some task) w).0 ≡ ok tt
            → IsClosed S tl task.transfer_id (
                tl.rows (register_handlers S p t (transfer_started (some task)) ctx w).1.transfers))
        × (RunsOut ctx (handle_transfer_execute S t (some task) w).0
            → (register_handlers S p t (transfer_started (some task)) ctx w).1
              ≡ (handle_transfer_exhausted S t
                  (some task)
                  (handle_transfer_execute S t (some task) w).1).1)
  unfolding register_handlers
  register_handlers-Closes ids tl keys task ctx w = (
    ap (λ z. z.0) guarded ∙ (on_retries_exhausted_lem fn next ctx w).0,
    λ done. elim (on_retries_exhausted_lem fn next ctx w).1 [
      | inl kept ↦
          subst (λ (z : World S). IsClosed S tl task.transfer_id (tl.rows z.transfers))
            (sym (ap (λ z. z.1) guarded ∙ kept)) (execute-IsClosed S ids tl keys t task w done)
      | inr (e, failed, out, closed) ↦ cc
    ],
    λ (e, retried, max_retry, failed, allowed, a, b, none_left).
        ap (λ z. z.1) guarded
        ∙ on_retries_exhausted-RunsOut fn next ctx w (next ctx w).1 e retried max_retry
            (ap (λ r. (r, (next ctx w).1)) failed) allowed a b none_left,
  )
    where
      next : Handler (World S)
      next = λ _. handle_transfer_execute S t (some task)

      fn : ExhaustedFunc (World S)
      fn = λ _ e. handle_transfer_exhausted S t (some task)

      guarded :
          handle_payment next (on_retries_exhausted fn ∷ []) ctx w
          ≡ on_retries_exhausted fn next ctx w
      guarded = guarded_handler next fn ctx w
