-- ===== src/Queues/PaymentWorker/Race.antt =====
-- internal/queues/payment.go, `settle`: a deposit that was read as pending, and refunded by another task
-- before it is credited.
use digital_wallet.Prelude.{
  String, ◌≡◌, refl, sym, subst, inl, inr, true, false, not, ◌&&◌, some, Memᴰ, All-get, ◌==◌,
  str_eq,
}
use digital_wallet.Prelude.Text.{equal_fold}
use digital_wallet.Shared.{not_found, intent_succeeded}
use digital_wallet.Exec.{Result, ok, err, pure, attempt, wrap}
use digital_wallet.Exec.Ensures.{
  Keeps, Keeps-attempt, Keeps-bind, Keeps-wrap, Keeps-pure, Keeps-or_else, keeps_rules,
}
use digital_wallet.External.Uuids.{Uuid}
use digital_wallet.External.Table.{TableLaws}
use digital_wallet.External.TigerBeetle.{TigerBeetleLaws}
use digital_wallet.Ledger.Accounts.{transfer_id}
use digital_wallet.Ledger.Transfers as Ledger
use digital_wallet.Ledger.Transfers.{DepositParam}
use digital_wallet.Ledger.Answers.{deposit-Posts}
use digital_wallet.Repository.Types.{
  success, refunded, is_active, Wallet, TransactionIntent, IntentRow,
}
use digital_wallet.Repository.Errors.{wrap_gorm_error}
use digital_wallet.Repository.Closed.{Memᴰ-set_where, and_false}
use digital_wallet.Repository.Intents.{
  set_status, pending_or_failed, move_row, mark_intent_succeeded,
}
use digital_wallet.Repository.Queries.{affected_row-Keeps}
use digital_wallet.Queues.Services.{Services, World, on_ledger}
use digital_wallet.Queues.PaymentWorker.Exact.{Agrees, IsExact}
use digital_wallet.Queues.PaymentWorker.Marks.{is_posted, notify-On}
use digital_wallet.Queues.PaymentWorker.{PaymentWorker, after_succeeded, close_succeeded, credit}

module _ (S : Services) (il : TableLaws S.intents) (bl : TigerBeetleLaws S.ledger)
    (p : PaymentWorker) (row : IntentRow) (gone : row.status ≡ refunded) where
  -- the refunded row is there, and its deposit is posted
  abbrev BothIn : S.ledger.Store → S.intents.State → Type 0
  BothIn l s = Memᴰ row (il.rows s) × (bl.posted l (transfer_id S.ledger row.id) ≡ true)

  abbrev Both : World S → Type 0
  Both w = BothIn w.ledger w.intents

  update-Memᴰ :
      (u : Uuid)
      → Keeps
          (λ s. Memᴰ row (il.rows s))
          (S.intents.update (λ r. r.id == u && pending_or_failed r.status) (set_status success))
  update-Memᴰ u = record {
    at = λ s m.
        elim (il.rows-update (λ r. r.id == u && pending_or_failed r.status) (set_status success)
          s) [
            | inl same ↦ rw same m
            | inr changed ↦ rw changed (
                Memᴰ-set_where (λ r. r.id == u && pending_or_failed r.status) (set_status success)
                  (il.rows s) row
                  (and_false (row.id == u) (pending_or_failed row.status)
                    (subst (λ st. pending_or_failed st ≡ false) (sym gone) refl))
                  m)
          ];
  }

  mark-Memᴰ :
      (reference : String)
      → Keeps (λ s. Memᴰ row (il.rows s)) (mark_intent_succeeded S.uuids S.intents reference)
  unfolding mark_intent_succeeded move_row
  mark-Memᴰ reference = Keeps-bind (Keeps-or_else (S.uuids.parse reference) not_found) (λ u.
      Keeps-bind (Keeps-wrap wrap_gorm_error (update-Memᴰ u))
        (λ moved. Keeps-bind (affected_row-Keeps intent_succeeded moved) (λ t. Keeps-pure _)))

  after_succeeded-Both : (r : Result TransactionIntent) → Keeps Both (after_succeeded S p r)
  after_succeeded-Both (ok x) = notify-On S BothIn p x
  after_succeeded-Both (err e) = search keeps_rules

  close_succeeded-Both : (reference : String) → Keeps Both (close_succeeded S p reference)
  unfolding close_succeeded
  close_succeeded-Both reference =
      Keeps-attempt (record { at = λ w h. ((mark-Memᴰ reference).at w.intents h.0, h.1) })
        after_succeeded-Both

  module _ (reference currency : String) (x : TransactionIntent) (wallet : Wallet) (w : World S)
      (v : Uuid) (there : Memᴰ row (il.rows w.intents))
      (same_currency : (not (str_eq currency "") && not (equal_fold currency wallet.currency))
        ≡ false)
      (active : is_active wallet.status ≡ true) (parsed : S.uuids.parse x.id ≡ some row.id)
      (parsed_wallet : S.uuids.parse wallet.id ≡ some v) where
    abbrev param : DepositParam
    param = record {
      transfer_id = row.id;
      wallet_id = v;
      currency = wallet.currency;
      amount = x.amount;
    }

    deposit-Both :
        (Ledger.deposit S.ledger param w.ledger).0 ≡ ok tt
        → Both (on_ledger S (Ledger.deposit S.ledger param) w).1
    deposit-Both credited =
        (there, (deposit-Posts bl (transfer_id S.ledger row.id) param refl).at w.ledger tt credited)

    -- A task that read a deposit as pending and then credits it, after another task has refunded it in
    -- the meantime, leaves it both refunded and in the ledger, if the ledger takes the deposit.
    pub credit-not-IsExact :
        (Ledger.deposit S.ledger param w.ledger).0 ≡ ok tt
        → ¬ IsExact S il bl (credit S p reference currency x wallet w).1
    unfolding credit attempt wrap pure
    credit-not-IsExact credited exact =
        let end : Both (credit S p reference currency x wallet w).1 =
          rw (same_currency, active, parsed, parsed_wallet, credited)
            ((close_succeeded-Both reference).at (on_ledger S (Ledger.deposit S.ledger param) w).1
              (deposit-Both credited)) in
        let (_, unposted) =
          All-get
            (λ (r : IntentRow).
              Agrees r.status
                (is_posted S il bl Agrees (credit S p reference currency x wallet w).1.ledger r.id))
            exact end.0 in
        cc (unposted (inr gone), end.1)
