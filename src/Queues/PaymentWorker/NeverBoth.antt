-- ===== src/Queues/PaymentWorker/NeverBoth.antt =====
-- internal/queues/payment.go: a deposit is credited or paid back, never both, in any sequence of
-- deliveries.
use digital_wallet.Prelude.{
  String, ◌≡◌, ◌⊎◌, inl, inr, refl, true, false, not, Option, none, some, List, [], ◌∷◌, All,
  All-imp_mem, All-get,
}
use digital_wallet.Shared.{skip_retry, retry_later}
use digital_wallet.Exec.Ensures.{
  Keeps, Keeps-attempt, Keeps-bind, Keeps-wrap, Keeps-pure, Keeps-raise, Keeps-or_else, Keeps-if,
}
use digital_wallet.External.Uuids.{UuidLaws}
use digital_wallet.External.Table.{TableLaws, KeyLaws}
use digital_wallet.External.TigerBeetle.{TigerBeetleLaws}
use digital_wallet.External.Provider.{RefundLaws, PaymentStatus, PaymentVerification}
use digital_wallet.Ledger.Accounts.{transfer_id}
use digital_wallet.Repository.Types.{
  TransactionStatus, pending, success, failed, refunding, refunded,
}
use digital_wallet.Queues.Tasks.{PaymentPayload}
use digital_wallet.Queues.Services.{Services, World}
use digital_wallet.Queues.TransferWorker.{skip_if_missing}
use digital_wallet.Queues.PaymentWorker.Exact.{Agrees, IsExact}
use digital_wallet.Queues.PaymentWorker.Handlers.{run-IsExact}
use digital_wallet.Queues.PaymentWorker.PaidBack.{is_back, on_verify-PaysBack, IsAsked}
use digital_wallet.Queues.PaymentWorker.{
  PaymentWorker, Delivery, webhook, poll, poll_exhausted, act_on_webhook, handle_payment_webhook,
  later_if_unknown, act_on_poll, poll_by_status, handle_payment_poll, handle_poll_exhausted,
  deliver, run,
}
use digital_wallet.Queues.PaymentWorker.Refunds.{
  Backed, get_intent-Backed, cancel_poll-Backed, fail-Backed, settle-Backed,
}
use digital_wallet.Queues.PaymentWorker.Marks.{is_posted}

module _ (S : Services) (ul : UuidLaws S.uuids) (il : TableLaws S.intents)
    (keys : KeyLaws il (λ r. r.id)) (rl : RefundLaws S.provider) where
  abbrev Kept : World S → Type 0
  Kept = Backed S ul il keys rl

  module _ (p : PaymentWorker) where
    webhook_action-Backed :
        (payload : PaymentPayload) (st : Option PaymentStatus)
        → Keeps Kept (act_on_webhook S p payload st)
    webhook_action-Backed payload (some PaymentStatus.success) =
        Keeps-bind
          (settle-Backed S ul il keys rl p payload.reference payload.amount_minor payload.currency)
          (λ _. cancel_poll-Backed S ul il keys rl p payload.reference)
    webhook_action-Backed payload (some PaymentStatus.failed) =
        Keeps-bind (fail-Backed S ul il keys rl p payload.reference)
          (λ _. cancel_poll-Backed S ul il keys rl p payload.reference)
    webhook_action-Backed payload (some PaymentStatus.pending) = Keeps-pure tt
    webhook_action-Backed payload (some PaymentStatus.abandoned) = Keeps-pure tt
    webhook_action-Backed payload none = Keeps-pure tt

    webhook-Backed : (task : Option PaymentPayload) → Keeps Kept (handle_payment_webhook S p task)
    unfolding handle_payment_webhook
    webhook-Backed task =
        Keeps-bind (Keeps-or_else task skip_retry)
          (λ payload. webhook_action-Backed payload payload.status)

    act_on_poll-Backed :
        (reference : String) (st : PaymentStatus) (v : PaymentVerification)
        → Keeps Kept (act_on_poll S p reference st v)
    act_on_poll-Backed reference PaymentStatus.success v =
        settle-Backed S ul il keys rl p reference v.amount v.currency
    act_on_poll-Backed reference PaymentStatus.failed v = fail-Backed S ul il keys rl p reference
    act_on_poll-Backed reference PaymentStatus.pending v = Keeps-raise retry_later
    act_on_poll-Backed reference PaymentStatus.abandoned v = Keeps-raise retry_later

    poll_by_status-Backed :
        (reference : String) (st : TransactionStatus) → Keeps Kept (poll_by_status S p reference st)
    poll_by_status-Backed reference pending =
        Keeps-bind (Keeps-wrap later_if_unknown (on_verify-PaysBack S ul il keys rl reference))
          (λ v. act_on_poll-Backed reference v.status v)
    poll_by_status-Backed reference success = Keeps-pure tt
    poll_by_status-Backed reference failed = Keeps-pure tt
    poll_by_status-Backed reference refunding = Keeps-pure tt
    poll_by_status-Backed reference refunded = Keeps-pure tt

    poll-Backed : (task : Option PaymentPayload) → Keeps Kept (handle_payment_poll S p task)
    unfolding handle_payment_poll
    poll-Backed task = Keeps-bind (Keeps-or_else task skip_retry) (λ payload.
        Keeps-if (not p.has_provider) (Keeps-raise skip_retry) (
          Keeps-bind
            (Keeps-wrap skip_if_missing (get_intent-Backed S ul il keys rl payload.reference))
            (λ x. poll_by_status-Backed payload.reference x.status)))

    exhausted-Backed : (task : Option PaymentPayload) → Keeps Kept (handle_poll_exhausted S p task)
    unfolding handle_poll_exhausted
    exhausted-Backed none = Keeps-pure tt
    exhausted-Backed (some payload) =
        Keeps-attempt (fail-Backed S ul il keys rl p payload.reference) (λ r. Keeps-pure tt)

    deliver-Backed : (d : Delivery) → Keeps Kept (deliver S p d)
    deliver-Backed (webhook task) = webhook-Backed task
    deliver-Backed (poll task) = poll-Backed task
    deliver-Backed (poll_exhausted task) = exhausted-Backed task

    pub run-PaysBack : (ds : List Delivery) (w : World S) → Kept w → Kept (run S p ds w)
    run-PaysBack [] w h = h
    run-PaysBack (d ∷ ds) w h = run-PaysBack ds (deliver S p d w).1 ((deliver-Backed d).at w h)

  module _ (bl : TigerBeetleLaws S.ledger) where
    -- No deposit is in the ledger that the provider was asked to pay back.
    abbrev pub NeverBoth : World S → Type 0
    NeverBoth w =
        All
          (λ r.
            IsAsked S ul il keys rl w.provider r.id
            → bl.posted w.ledger (transfer_id S.ledger r.id) ≡ false)
          (il.rows w.intents)

    is_back-either :
        (st : TransactionStatus) → is_back st ≡ true → (st ≡ refunding) ⊎ (st ≡ refunded)
    is_back-either refunding h = inl refl
    is_back-either refunded h = inr refl
    is_back-either pending h = cc
    is_back-either success h = cc
    is_back-either failed h = cc

    exact-NeverBoth : (w : World S) → IsExact S il bl w → Kept w → NeverBoth w
    exact-NeverBoth w exact kept =
        All-imp_mem {P = λ r. Agrees r.status (is_posted S il bl Agrees w.ledger r.id)}
          (il.rows w.intents)
          (λ r at_row agrees asked. agrees.1 (
            is_back-either r.status (
              All-get (λ r. IsAsked S ul il keys rl w.provider r.id → is_back r.status ≡ true) kept
                at_row asked)))
          exact

    -- Take a world in which every successful deposit is in the ledger, every deposit marked as
    -- refunding or refunded is not, and every deposit that the provider was asked to refund is so
    -- marked. After any sequence of webhooks, polls and exhausted polls, handled one after another,
    -- each of them perhaps failing half way, all of this holds again; and so the provider was asked
    -- to refund no deposit that is in the ledger.
    pub run-NeverBoth :
        (p : PaymentWorker) (ds : List Delivery) (w : World S)
        → IsExact S il bl w
        → Kept w
        → IsExact S il bl (run S p ds w) × Kept (run S p ds w) × NeverBoth (run S p ds w)
    run-NeverBoth p ds w exact kept =
        let exact' = run-IsExact S ul il keys bl p ds w exact in
        let kept' = run-PaysBack p ds w kept in
        (exact', kept', exact-NeverBoth (run S p ds w) exact' kept')
