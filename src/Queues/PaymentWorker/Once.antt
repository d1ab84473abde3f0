-- ===== src/Queues/PaymentWorker/Once.antt =====
-- internal/queues/payment.go, `settle` and `refundLatePayment`, branch by branch.
use digital_wallet.Prelude.{
  String, ◌≡◌, refl, sym, subst, ◌∙◌, inl, Bool, true, false, not, ◌&&◌, some, All-get, some_eq,
  str_eq, if◌then◌else◌,
}
use digital_wallet.Prelude.Text.{equal_fold}
use digital_wallet.Prelude.Int.{eq_ℤ}
use digital_wallet.Shared.{skip_retry}
use digital_wallet.Shared.Money.{Money}
use digital_wallet.Exec.{ok, wrap, ◌>>◌}
use digital_wallet.Exec.Ensures.{
  Ensures, Keeps, Ensures-pure, Ensures-raise, Ensures-or_else, Ensures-if, Ensures-bind,
  Ensures-wrap, Ensures-from, Keeps-wrap, Keeps-raise, Keeps-if,
}
use digital_wallet.External.Uuids.{Uuid, UuidLaws}
use digital_wallet.External.Table.{TableLaws, KeyLaws}
use digital_wallet.External.TigerBeetle.{TigerBeetleLaws}
use digital_wallet.Ledger.Transfers as Ledger
use digital_wallet.Ledger.Transfers.{DepositParam}
use digital_wallet.Repository.Types.{
  TransactionStatus, pending, success, failed, refunding, refunded, is_pending, is_failed,
  is_active, Wallet, TransactionIntent, IntentRow,
}
use digital_wallet.Repository.Wallets.{get_wallet_by_id}
use digital_wallet.Queues.Services.{Services, World, on_ledger}
use digital_wallet.Queues.TransferWorker.{skip_if_missing}
use digital_wallet.Queues.PaymentWorker.Marks.{is_posted, AllFit, Claim, on_wallets-On}
use digital_wallet.Queues.PaymentWorker.Exact.{
  Agrees, IsExact, close_succeeded-IsExact, refund-IsExact,
}
use digital_wallet.Queues.PaymentWorker.{
  PaymentWorker, skip_if_rejected, close_succeeded, refund, refund_late_payment, credit,
  settle_pending, settle_by_status, settle,
}
use digital_wallet.Queues.PaymentWorker.Settling.{
  IsLoaded, Ready, get_intent-Ready, ask-Posted, deposit-Ready,
}

module _ (S : Services) (ul : UuidLaws S.uuids) (il : TableLaws S.intents)
    (keys : KeyLaws il (λ r. r.id)) (bl : TigerBeetleLaws S.ledger) where
  abbrev Exact : World S → Type 0
  Exact = IsExact S il bl

  abbrev ReadyFor : String → TransactionIntent → World S → Type 0
  ReadyFor = Ready S ul il keys bl

  module _ (p : PaymentWorker) where
    answered-Exact :
        (x : TransactionIntent) (credited : Bool)
        → Ensures
            (λ w.
              Exact w
              × ((b : Bool) → ok credited ≡ ok b → Claim S il bl Agrees (λ c. c ≡ b) x.id w))
            (if credited then close_succeeded S p x.id else refund S p x)
            (λ _ w. Exact w)
    answered-Exact x true =
        Ensures-from (close_succeeded-IsExact S il bl p x.id) (λ w h. (h.0, h.1 true refl))
    answered-Exact x false =
        Ensures-from (refund-IsExact S il bl p x) (λ w h. (h.0, h.1 false refl))

    unposted :
        (x : TransactionIntent) (reference : String) (w : World S)
        → ReadyFor reference x w
        → x.status ≡ refunding
        → Claim S il bl Agrees (λ c. c ≡ false) x.id w
    unposted x reference w h paying v same =
        let (u, row, parsed, q, member, id, status) = h.1 in
        subst (λ (y : Uuid). is_posted S il bl Agrees w.ledger y ≡ false) (id ∙ some_eq q same)
          ((All-get (λ (r : IntentRow). Agrees r.status (is_posted S il bl Agrees w.ledger r.id))
              h.0 member).1
            (inl (status ∙ paying)))

    -- A deposit that is not failed here is being paid back, and so it is not posted.
    late-Exact :
        (x : TransactionIntent) (reference : String)
        → (is_failed x.status ≡ false → x.status ≡ refunding)
        → Ensures (ReadyFor reference x) (refund_late_payment S p x) (λ _ w. Exact w)
    unfolding refund_late_payment
    late-Exact x reference other =
        Ensures-if (not p.has_provider) (λ _. Ensures-raise _ skip_retry (λ w h. h.0))
          (λ _.
            Ensures-or_else _ (S.uuids.parse x.id) skip_retry
              (λ u parsed.
                Ensures-if (is_failed x.status)
                  (λ _.
                    Ensures-bind
                      (λ r w.
                        Exact w
                        × ((b : Bool) → r ≡ ok b → Claim S il bl Agrees (λ c. c ≡ b) x.id w))
                      (Ensures-from (ask-Posted S ul il keys bl x.id u parsed) (λ w h. h.0))
                      (λ credited. answered-Exact x credited) (λ e w h. h.0))
                  (λ unfailed.
                    Ensures-from (refund-IsExact S il bl p x)
                      (λ w h. (h.0, unposted x reference w h (other unfailed)))))
              (λ w h. h.0))

    deposited :
        (x : TransactionIntent) (reference : String) (wallet : Wallet) (u v : Uuid)
        → is_pending x.status ≡ true
        → S.uuids.parse x.id ≡ some u
        → Ensures
            (ReadyFor reference x)
            (do
              wrap skip_if_rejected (
                  on_ledger S (
                    Ledger.deposit S.ledger (record {
                      transfer_id = u;
                      wallet_id = v;
                      currency = wallet.currency;
                      amount = x.amount;
                    })))
              close_succeeded S p reference)
            (λ _ w. Exact w)
    deposited x reference wallet u v open_still parsed =
        Ensures-bind
          (λ r w. Exact w × (r ≡ ok tt → Claim S il bl Agrees (λ c. c ≡ true) reference w))
          (Ensures-wrap skip_if_rejected _
            (deposit-Ready S ul il keys bl reference x _ open_still parsed) (λ a w h. h)
            (λ e w h. (h.0, λ bad. cc)))
          (λ a. Ensures-from (close_succeeded-IsExact S il bl p reference) (λ w h. (h.0, h.1 refl)))
          (λ e w h. h.0)

    credit-Exact :
        (x : TransactionIntent) (reference currency : String) (wallet : Wallet)
        → is_pending x.status ≡ true
        → Ensures (ReadyFor reference x) (credit S p reference currency x wallet) (λ _ w. Exact w)
    unfolding credit
    credit-Exact x reference currency wallet open_still =
        Ensures-if (not (str_eq currency "") && not (equal_fold currency wallet.currency))
          (λ _. Ensures-raise _ skip_retry (λ w h. h.0))
          (λ _.
            Ensures-if (not (is_active wallet.status))
              (λ _. Ensures-raise _ skip_retry (λ w h. h.0))
              (λ _.
                Ensures-or_else _ (S.uuids.parse x.id) skip_retry
                  (λ u parsed.
                    Ensures-or_else _ (S.uuids.parse wallet.id) skip_retry
                      (λ v parsed_wallet. deposited x reference wallet u v open_still parsed)
                      (λ w h. h.0))
                  (λ w h. h.0)))

    settle_pending-Exact :
        (x : TransactionIntent) (reference : String) (amount : Money) (currency : String)
        → is_pending x.status ≡ true
        → Ensures
            (ReadyFor reference x)
            (settle_pending S p reference amount currency x)
            (λ _ w. Exact w)
    unfolding settle_pending
    settle_pending-Exact x reference amount currency open_still =
        Ensures-if (not (eq_ℤ amount x.amount)) (λ _. Ensures-raise _ skip_retry (λ w h. h.0))
          (λ _.
            Ensures-bind (λ _ w. ReadyFor reference x w)
              (Keeps-wrap skip_if_missing (
                on_wallets-On S
                  (λ l s.
                    AllFit S il bl Agrees l (il.rows s)
                    × IsLoaded S ul il keys bl reference x (il.rows s))
                  (get_wallet_by_id S.uuids S.wallets x.wallet_id)))
              (λ wallet. credit-Exact x reference currency wallet open_still) (λ e w h. h.0))

    by_status-Exact :
        (st : TransactionStatus) (x : TransactionIntent) (reference : String) (amount : Money)
        (currency : String)
        → x.status ≡ st
        → Ensures
            (ReadyFor reference x)
            (settle_by_status S p st reference amount currency x)
            (λ _ w. Exact w)
    by_status-Exact pending x reference amount currency e =
        settle_pending-Exact x reference amount currency
          (subst (λ st. is_pending st ≡ true) (sym e) refl)
    by_status-Exact failed x reference amount currency e =
        late-Exact x reference (λ bad. subst_bad x.status e bad)
      where
        subst_bad : (st : TransactionStatus) → st ≡ failed → is_failed st ≡ false → st ≡ refunding
        subst_bad failed e bad = cc
        subst_bad _ e bad = cc
    by_status-Exact refunding x reference amount currency e = late-Exact x reference (λ _. e)
    by_status-Exact success x reference amount currency e = Ensures-pure _ tt (λ w h. h.0)
    by_status-Exact refunded x reference amount currency e = Ensures-pure _ tt (λ w h. h.0)

    pub settle-Exact :
        (reference : String) (amount : Money) (currency : String)
        → Keeps Exact (settle S p reference amount currency)
    unfolding settle
    settle-Exact reference amount currency = Keeps-if (not p.has_ledger) (Keeps-raise skip_retry) (
        Ensures-bind
          (λ r w.
            Exact w
            × ((x : TransactionIntent)
                → r ≡ ok x
                → IsLoaded S ul il keys bl reference x (il.rows w.intents)))
          (Ensures-wrap skip_if_missing _ (get_intent-Ready S ul il keys bl reference) (λ x w h. h)
            (λ e w h. (h.0, λ x bad. cc)))
          (λ x.
            Ensures-from (by_status-Exact x.status x reference amount currency refl)
              (λ w h. (h.0, h.1 x refl)))
          (λ e w h. h.0))
