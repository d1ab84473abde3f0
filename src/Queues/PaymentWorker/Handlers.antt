-- ===== src/Queues/PaymentWorker/Handlers.antt =====
-- internal/queues/payment.go: the handlers of the payment worker, and sequences of deliveries to them.
use digital_wallet.Prelude.{String, not, Option, none, some, List, [], ◌∷◌}
use digital_wallet.Shared.{skip_retry, retry_later}
use digital_wallet.Exec.Ensures.{
  Keeps, Ensures-imp, Keeps-attempt, Keeps-bind, Keeps-wrap, Keeps-pure, Keeps-raise, Keeps-or_else,
  Keeps-if,
}
use digital_wallet.External.Uuids.{UuidLaws}
use digital_wallet.External.Table.{TableLaws, KeyLaws}
use digital_wallet.External.TigerBeetle.{TigerBeetleLaws}
use digital_wallet.External.Provider.{PaymentStatus, PaymentVerification}
use digital_wallet.Repository.Types.{
  TransactionStatus, pending, success, failed, refunding, refunded,
}
use digital_wallet.Queues.Tasks.{PaymentPayload}
use digital_wallet.Queues.Services.{Services, World}
use digital_wallet.Queues.TransferWorker.{skip_if_missing}
use digital_wallet.Queues.PaymentWorker.Marks.{AllFit, on_provider-On, cancel_poll-On}
use digital_wallet.Queues.PaymentWorker.Exact.{Agrees, IsExact, fail-IsExact}
use digital_wallet.Queues.PaymentWorker.{
  PaymentWorker, Delivery, webhook, poll, poll_exhausted, deliver, run, cancel_poll, act_on_webhook,
  handle_payment_webhook, later_if_unknown, act_on_poll, poll_by_status, handle_payment_poll,
  handle_poll_exhausted,
}
use digital_wallet.Queues.PaymentWorker.Settling.{get_intent-Ready}
use digital_wallet.Queues.PaymentWorker.Once.{settle-Exact}

module _ (S : Services) (ul : UuidLaws S.uuids) (il : TableLaws S.intents)
    (keys : KeyLaws il (λ r. r.id)) (bl : TigerBeetleLaws S.ledger) where
  abbrev Exact : World S → Type 0
  Exact = IsExact S il bl

  module _ (p : PaymentWorker) where
    canceled : (reference : String) → Keeps Exact (cancel_poll S p reference)
    canceled = cancel_poll-On S (λ l s. AllFit S il bl Agrees l (il.rows s)) p

    webhook_action-Exact :
        (payload : PaymentPayload) (st : Option PaymentStatus)
        → Keeps Exact (act_on_webhook S p payload st)
    webhook_action-Exact payload (some PaymentStatus.success) =
        Keeps-bind
          (settle-Exact S ul il keys bl p payload.reference payload.amount_minor payload.currency)
          (λ _. canceled payload.reference)
    webhook_action-Exact payload (some PaymentStatus.failed) =
        Keeps-bind (fail-IsExact S il bl p payload.reference) (λ _. canceled payload.reference)
    webhook_action-Exact payload (some PaymentStatus.pending) = Keeps-pure tt
    webhook_action-Exact payload (some PaymentStatus.abandoned) = Keeps-pure tt
    webhook_action-Exact payload none = Keeps-pure tt

    webhook-Keeps : (task : Option PaymentPayload) → Keeps Exact (handle_payment_webhook S p task)
    unfolding handle_payment_webhook
    webhook-Keeps task =
        Keeps-bind (Keeps-or_else task skip_retry)
          (λ payload. webhook_action-Exact payload payload.status)

    -- Whatever a payment webhook says and whatever fails while it is handled, the handler keeps this: a
    -- successful deposit is in the ledger, and one with the status refunding or refunded is not.
    -- Nothing else runs in between.
    webhook-IsExact :
        (task : Option PaymentPayload) (w : World S)
        → Exact w
        → Exact (handle_payment_webhook S p task w).1
    webhook-IsExact task w h = (webhook-Keeps task).at w h

    act_on_poll-Exact :
        (reference : String) (st : PaymentStatus) (v : PaymentVerification)
        → Keeps Exact (act_on_poll S p reference st v)
    act_on_poll-Exact reference PaymentStatus.success v =
        settle-Exact S ul il keys bl p reference v.amount v.currency
    act_on_poll-Exact reference PaymentStatus.failed v = fail-IsExact S il bl p reference
    act_on_poll-Exact reference PaymentStatus.pending v = Keeps-raise retry_later
    act_on_poll-Exact reference PaymentStatus.abandoned v = Keeps-raise retry_later

    poll_by_status-Exact :
        (reference : String) (st : TransactionStatus)
        → Keeps Exact (poll_by_status S p reference st)
    poll_by_status-Exact reference pending =
        Keeps-bind
          (Keeps-wrap later_if_unknown (
            on_provider-On S (λ l s. AllFit S il bl Agrees l (il.rows s))
              (S.provider.verify reference)))
          (λ v. act_on_poll-Exact reference v.status v)
    poll_by_status-Exact reference success = Keeps-pure tt
    poll_by_status-Exact reference failed = Keeps-pure tt
    poll_by_status-Exact reference refunding = Keeps-pure tt
    poll_by_status-Exact reference refunded = Keeps-pure tt

    poll-Keeps : (task : Option PaymentPayload) → Keeps Exact (handle_payment_poll S p task)
    unfolding handle_payment_poll
    poll-Keeps task = Keeps-bind (Keeps-or_else task skip_retry) (λ payload.
        Keeps-if (not p.has_provider) (Keeps-raise skip_retry) (
          Keeps-bind
            (Keeps-wrap skip_if_missing
              (Ensures-imp (get_intent-Ready S ul il keys bl payload.reference) (λ r w h. h.0)))
            (λ x. poll_by_status-Exact payload.reference x.status)))

    -- Whatever the provider answers to the poll of a payment, and whatever fails while it is handled, the
    -- handler keeps a successful deposit in the ledger and one with the status refunding or refunded
    -- out of it. Nothing else runs in between.
    poll-IsExact :
        (task : Option PaymentPayload) (w : World S)
        → Exact w
        → Exact (handle_payment_poll S p task w).1
    poll-IsExact task w h = (poll-Keeps task).at w h

    exhausted-Exact : (task : Option PaymentPayload) → Keeps Exact (handle_poll_exhausted S p task)
    unfolding handle_poll_exhausted
    exhausted-Exact none = Keeps-pure tt
    exhausted-Exact (some payload) =
        Keeps-attempt (fail-IsExact S il bl p payload.reference) (λ r. Keeps-pure tt)

    deliver-Exact : (d : Delivery) → Keeps Exact (deliver S p d)
    deliver-Exact (webhook task) = webhook-Keeps task
    deliver-Exact (poll task) = poll-Keeps task
    deliver-Exact (poll_exhausted task) = exhausted-Exact task

    -- Any sequence of webhooks, polls and exhausted polls, handled one after another, each of them
    -- perhaps failing half way, keeps a successful deposit in the ledger and a deposit with the status
    -- refunding or refunded out of it.
    pub run-IsExact : (ds : List Delivery) (w : World S) → Exact w → Exact (run S p ds w)
    run-IsExact [] w h = h
    run-IsExact (d ∷ ds) w h = run-IsExact ds (deliver S p d w).1 ((deliver-Exact d).at w h)
