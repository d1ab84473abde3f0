-- ===== src/Queues/PaymentWorker/Exact.antt =====
-- internal/queues/payment.go: the agreement of a deposit's status with the ledger, for the calls that
-- close, fail and refund a deposit.
use digital_wallet.Prelude.{String, ◌≡◌, ◌⊎◌, Bool, true, false, arith}
use digital_wallet.Shared.{
  intent_not_pending, intent_succeeded, intent_not_failed, is_intent_not_failed,
}
use digital_wallet.Exec.{Result, ok, err}
use digital_wallet.Exec.Ensures.{
  Ensures, Keeps, Ensures-bind, Ensures-attempt, Ensures-from, Ensures-imp, Keeps-attempt,
  Keeps-pure, Keeps-raise, Keeps-if, keeps_rules,
}
use digital_wallet.External.Table.{TableLaws}
use digital_wallet.External.TigerBeetle.{TigerBeetleLaws}
use digital_wallet.Repository.Types.{
  TransactionStatus, pending, success, failed, refunding, refunded, is_pending, is_refunding,
  TransactionIntent,
}
use digital_wallet.Repository.Intents.{
  mark_intent_failed, mark_intent_refunding, mark_intent_refunded, mark_intent_succeeded,
  failed_or_refunding, pending_or_failed,
}
use digital_wallet.Queues.Services.{Services, World}
use digital_wallet.Queues.PaymentWorker.Marks.{AllFit, Inv, With, move_row-With, notify-On}
use digital_wallet.Queues.PaymentWorker.{
  PaymentWorker, after_fail, fail, after_succeeded, close_succeeded, after_refunded, pay_back,
  refund,
}

-- A settled deposit is in the ledger; one that is paid back, or about to be, is not.
abbrev pub Agrees : TransactionStatus → Bool → Type 0
Agrees st posted =
    (st ≡ success → posted ≡ true) × ((st ≡ refunding) ⊎ (st ≡ refunded) → posted ≡ false)

failed-Agrees : (b : Bool) → Agrees failed b
failed-Agrees b = (λ e. cc, λ e. ground arith)

pending-Agrees : (b : Bool) → Agrees pending b
pending-Agrees b = (λ e. cc, λ e. ground arith)

module _ (S : Services) (il : TableLaws S.intents) (bl : TigerBeetleLaws S.ledger) where
  abbrev pub IsExact : World S → Type 0
  IsExact = Inv S il bl Agrees

  abbrev pub Posted : Bool → String → World S → Type 0
  Posted b = With S il bl Agrees (λ c. c ≡ b)

  module _ (p : PaymentWorker) where
    after_fail-IsExact : (r : Result TransactionIntent) → Keeps IsExact (after_fail S p r)
    after_fail-IsExact (ok x) = Keeps-pure tt
    after_fail-IsExact (err e) = search keeps_rules

    pub fail-IsExact : (reference : String) → Keeps IsExact (fail S p reference)
    unfolding fail mark_intent_failed
    fail-IsExact reference =
        Keeps-attempt
          (Ensures-imp
            (Ensures-from
              (move_row-With S il bl Agrees (λ _. Unit) is_pending failed intent_not_pending
                reference (λ b _. failed-Agrees b))
              (λ w h. (h, λ u _. tt)))
            (λ r w h. h.0))
          after_fail-IsExact

    after_succeeded-IsExact : (r : Result TransactionIntent) → Keeps IsExact (after_succeeded S p r)
    after_succeeded-IsExact (ok x) = notify-On S (λ l s. AllFit S il bl Agrees l (il.rows s)) p x
    after_succeeded-IsExact (err e) = search keeps_rules

    pub close_succeeded-IsExact :
        (reference : String)
        → Ensures (Posted true reference) (close_succeeded S p reference) (λ _ w. IsExact w)
    unfolding close_succeeded mark_intent_succeeded
    close_succeeded-IsExact reference =
        Ensures-attempt (λ _ w. IsExact w)
          (Ensures-imp
            (move_row-With S il bl Agrees (λ c. c ≡ true) pending_or_failed success intent_succeeded
              reference (λ b e. (λ _. e, λ h. ground arith)))
            (λ r w h. h.0))
          after_succeeded-IsExact

    after_refunded-IsExact : (r : Result TransactionIntent) → Keeps IsExact (after_refunded S p r)
    after_refunded-IsExact (ok x) = Keeps-pure tt
    after_refunded-IsExact (err e) = search keeps_rules

    pay_back-IsExact :
        (x : TransactionIntent) (r : Result TransactionIntent)
        → Ensures (Posted false x.id) (pay_back S p x r) (λ _ w. IsExact w)
    unfolding mark_intent_refunded
    pay_back-IsExact x (err e) =
        Ensures-from (Keeps-if (is_intent_not_failed e) (Keeps-pure tt) (Keeps-raise e))
          (λ w h. h.0)
    pay_back-IsExact x (ok _) =
        Ensures-bind (λ _ w. Posted false x.id w) (record { at = λ w h. h })
          (λ _.
            Ensures-attempt (λ _ w. IsExact w)
              (Ensures-imp
                (move_row-With S il bl Agrees (λ c. c ≡ false) is_refunding refunded
                  intent_not_failed x.id (λ b e. (λ h. cc, λ _. e)))
                (λ r w h. h.0))
              after_refunded-IsExact)
          (λ e w h. h.0)

    pub refund-IsExact :
        (x : TransactionIntent) → Ensures (Posted false x.id) (refund S p x) (λ _ w. IsExact w)
    unfolding refund mark_intent_refunding
    refund-IsExact x =
        Ensures-attempt (λ _ w. Posted false x.id w)
          (move_row-With S il bl Agrees (λ c. c ≡ false) failed_or_refunding refunding
            intent_not_failed x.id (λ b e. (λ h. cc, λ _. e)))
          (pay_back-IsExact x)
