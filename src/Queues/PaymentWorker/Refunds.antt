-- ===== src/Queues/PaymentWorker/Refunds.antt =====
-- internal/queues/payment.go: which deposits the provider was asked to pay back, through `settle` and the
-- calls it makes.
use digital_wallet.Prelude.{◌==◌, String, ◌≡◌, refl, true, not, All}
use digital_wallet.Shared.{skip_retry}
use digital_wallet.Shared.Money.{Money}
use digital_wallet.Exec.{Result, ok, err, Exec}
use digital_wallet.Exec.Ensures.{
  Ensures, Keeps, Ensures-attempt, Ensures-bind, Ensures-from, Keeps-attempt, Keeps-bind,
  Keeps-wrap, Keeps-pure, Keeps-raise, Keeps-if, keeps_rules,
}
use digital_wallet.External.Uuids.{UuidLaws}
use digital_wallet.External.Table.{TableLaws, KeyLaws}
use digital_wallet.External.Provider.{RefundLaws}
use digital_wallet.Repository.Types.{
  TransactionStatus, pending, success, failed, refunding, refunded, is_pending, is_refunding,
  TransactionIntent, User, Wallet,
}
use digital_wallet.Repository.Intents.{
  mark_intent_failed, mark_intent_refunded, mark_intent_succeeded, pending_or_failed,
  get_intent_by_reference, map_intent,
}
use digital_wallet.Repository.Queries.{read-Keeps}
use digital_wallet.Queues.Services.{
  Services, World, on_users, on_wallets, on_intents, on_ledger, on_broker,
}
use digital_wallet.Queues.TransferWorker.{skip_if_missing}
use digital_wallet.Queues.PaymentWorker.PaidBack.{
  StaysBack, is_back, PaysBack, Ready, on_refund-PaysBack, on_move-PaysBack, on_refunding-Ready,
  IsAsked,
}
use digital_wallet.Queues.PaymentWorker.{
  PaymentWorker, send_receipt, record_deposit, notify, after_fail, fail, after_succeeded,
  close_succeeded, after_refunded, pay_back, refund, refund_late_payment, credit, settle_pending,
  settle_by_status, settle, cancel_poll,
}

failed-StaysBack : StaysBack is_pending failed
failed-StaysBack refunding h back = cc
failed-StaysBack refunded h back = cc
failed-StaysBack pending h back = cc
failed-StaysBack success h back = cc
failed-StaysBack failed h back = cc

success-StaysBack : StaysBack pending_or_failed success
success-StaysBack refunding h back = cc
success-StaysBack refunded h back = cc
success-StaysBack pending h back = cc
success-StaysBack success h back = cc
success-StaysBack failed h back = cc

refunded-StaysBack : StaysBack is_refunding refunded
refunded-StaysBack st h back = refl

module _ (S : Services) (ul : UuidLaws S.uuids) (il : TableLaws S.intents)
    (keys : KeyLaws il (λ r. r.id)) (rl : RefundLaws S.provider) where
  abbrev pub Backed : World S → Type 0
  Backed = PaysBack S ul il keys rl

  on_broker-Backed : {A : Type 0} (m : Exec S.broker.State A) → Keeps Backed (on_broker S m)
  on_broker-Backed m = record { at = λ w h. h }

  on_users-Backed : {A : Type 0} (m : Exec S.users.State A) → Keeps Backed (on_users S m)
  on_users-Backed m = record { at = λ w h. h }

  on_wallets-Backed : {A : Type 0} (m : Exec S.wallets.State A) → Keeps Backed (on_wallets S m)
  on_wallets-Backed m = record { at = λ w h. h }

  on_ledger-Backed : {A : Type 0} (m : Exec S.ledger.Store A) → Keeps Backed (on_ledger S m)
  on_ledger-Backed m = record { at = λ w h. h }

  pub get_intent-Backed :
      (reference : String)
      → Keeps Backed (on_intents S (get_intent_by_reference S.uuids S.intents reference))
  unfolding get_intent_by_reference
  get_intent-Backed reference = record {
    at = λ w h.
        (read-Keeps S.uuids il (λ u r. r.id == u) (map_intent S.uuids) reference
            (All (λ r. IsAsked S ul il keys rl w.provider r.id → is_back r.status ≡ true))).at
          w.intents h;
  }

  mark_failed-Backed :
      (reference : String)
      → Keeps Backed (on_intents S (mark_intent_failed S.uuids S.intents reference))
  unfolding mark_intent_failed
  mark_failed-Backed reference =
      on_move-PaysBack S ul il keys rl is_pending failed _ reference failed-StaysBack

  mark_succeeded-Backed :
      (reference : String)
      → Keeps Backed (on_intents S (mark_intent_succeeded S.uuids S.intents reference))
  unfolding mark_intent_succeeded
  mark_succeeded-Backed reference =
      on_move-PaysBack S ul il keys rl pending_or_failed success _ reference success-StaysBack

  mark_refunded-Backed :
      (reference : String)
      → Keeps Backed (on_intents S (mark_intent_refunded S.uuids S.intents reference))
  unfolding mark_intent_refunded
  mark_refunded-Backed reference =
      on_move-PaysBack S ul il keys rl is_refunding refunded _ reference refunded-StaysBack

  module _ (p : PaymentWorker) where
    record_deposit-Backed : (x : TransactionIntent) → Keeps Backed (record_deposit S p x)
    unfolding record_deposit
    record_deposit-Backed x = search (keeps_rules, Keeps-attempt, on_broker-Backed)

    receipt-Backed : (x : TransactionIntent) (r : Result User) → Keeps Backed (send_receipt S p x r)
    receipt-Backed x (ok user) = search (keeps_rules, Keeps-attempt, on_broker-Backed)
    receipt-Backed x (err e) = Keeps-pure tt

    notify-Backed : (x : TransactionIntent) → Keeps Backed (notify S p x)
    unfolding notify
    notify-Backed x =
        search (keeps_rules, Keeps-attempt, record_deposit-Backed, on_users-Backed, receipt-Backed)

    pub cancel_poll-Backed : (reference : String) → Keeps Backed (cancel_poll S p reference)
    unfolding cancel_poll
    cancel_poll-Backed reference = search (keeps_rules, Keeps-attempt, on_broker-Backed)

    after_fail-Backed : (r : Result TransactionIntent) → Keeps Backed (after_fail S p r)
    after_fail-Backed (ok x) = Keeps-pure tt
    after_fail-Backed (err e) = search keeps_rules

    pub fail-Backed : (reference : String) → Keeps Backed (fail S p reference)
    unfolding fail
    fail-Backed reference = Keeps-attempt (mark_failed-Backed reference) after_fail-Backed

    after_succeeded-Backed : (r : Result TransactionIntent) → Keeps Backed (after_succeeded S p r)
    after_succeeded-Backed (ok x) = notify-Backed x
    after_succeeded-Backed (err e) = search keeps_rules

    close_succeeded-Backed : (reference : String) → Keeps Backed (close_succeeded S p reference)
    unfolding close_succeeded
    close_succeeded-Backed reference =
        Keeps-attempt (mark_succeeded-Backed reference) after_succeeded-Backed

    after_refunded-Backed : (r : Result TransactionIntent) → Keeps Backed (after_refunded S p r)
    after_refunded-Backed (ok x) = Keeps-pure tt
    after_refunded-Backed (err e) = search keeps_rules

    -- The provider is asked only once the deposit is marked.
    pay_back-Backed :
        (x : TransactionIntent) (r : Result TransactionIntent)
        → Ensures
            (λ w. Backed w × ((y : TransactionIntent) → r ≡ ok y → Ready S ul il keys rl x.id w))
            (pay_back S p x r)
            (λ _ w. Backed w)
    pay_back-Backed x (err e) = Ensures-from (search keeps_rules) (λ w h. h.0)
    pay_back-Backed x (ok y) =
        Ensures-bind (λ _ w. Backed w)
          (Ensures-from (on_refund-PaysBack S ul il keys rl x.id x.amount) (λ w h. h.1 y refl))
          (λ _. Keeps-attempt (mark_refunded-Backed x.id) after_refunded-Backed) (λ e w h. h)

    refund-Backed : (x : TransactionIntent) → Keeps Backed (refund S p x)
    unfolding refund
    refund-Backed x =
        Ensures-attempt _ (on_refunding-Ready S ul il keys rl x.id) (pay_back-Backed x)

    late-Backed : (x : TransactionIntent) → Keeps Backed (refund_late_payment S p x)
    unfolding refund_late_payment
    late-Backed x =
        search (keeps_rules, on_ledger-Backed, close_succeeded-Backed, refund-Backed) depth 12

    credit-Backed :
        (reference currency : String) (x : TransactionIntent) (wallet : Wallet)
        → Keeps Backed (credit S p reference currency x wallet)
    unfolding credit
    credit-Backed reference currency x wallet =
        search (keeps_rules, on_ledger-Backed, close_succeeded-Backed) depth 12

    settle_pending-Backed :
        (reference : String) (amount : Money) (currency : String) (x : TransactionIntent)
        → Keeps Backed (settle_pending S p reference amount currency x)
    unfolding settle_pending
    settle_pending-Backed reference amount currency x =
        search (keeps_rules, on_wallets-Backed, credit-Backed) depth 12

    by_status-Backed :
        (st : TransactionStatus) (reference : String) (amount : Money) (currency : String)
        (x : TransactionIntent)
        → Keeps Backed (settle_by_status S p st reference amount currency x)
    by_status-Backed pending reference amount currency x =
        settle_pending-Backed reference amount currency x
    by_status-Backed failed reference amount currency x = late-Backed x
    by_status-Backed refunding reference amount currency x = late-Backed x
    by_status-Backed success reference amount currency x = Keeps-pure tt
    by_status-Backed refunded reference amount currency x = Keeps-pure tt

    pub settle-Backed :
        (reference : String) (amount : Money) (currency : String)
        → Keeps Backed (settle S p reference amount currency)
    unfolding settle
    settle-Backed reference amount currency = Keeps-if (not p.has_ledger) (Keeps-raise skip_retry) (
        Keeps-bind (Keeps-wrap skip_if_missing (get_intent-Backed reference))
          (λ x. by_status-Backed x.status reference amount currency x))
