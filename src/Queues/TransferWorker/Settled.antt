-- ===== src/Queues/TransferWorker/Settled.antt =====
-- internal/queues/transfer.go, `HandleTransferExecute`, and the transfers that are marked successful.
use digital_wallet.Prelude.{
  String, ◌≡◌, refl, subst, Bool, true, Option, none, some, All-imp, some_eq,
}
use digital_wallet.Shared.{Error, skip_retry}
use digital_wallet.Exec.{Result, ok, err}
use digital_wallet.Exec.Ensures.{
  Ensures, Keeps, Ensures-attempt, keeps_rules, Keeps-bind, Ensures-or_else, Ensures-from,
  Keeps-pure, Keeps-raise, Keeps-or_else,
}
use digital_wallet.External.Uuids.{Uuid}
use digital_wallet.External.Table.{TableLaws}
use digital_wallet.External.TigerBeetle.{TigerBeetleLaws}
use digital_wallet.Ledger.Accounts.{transfer_id}
use digital_wallet.Ledger.Transfers as Ledger
use digital_wallet.Ledger.Transfers.{TransferParam}
use digital_wallet.Ledger.Postings.{transfer_stays}
use digital_wallet.Ledger.Answers.{transfer-Posts}
use digital_wallet.Repository.Types.{TransactionStatus, success, Wallet, Transfer}
use digital_wallet.Queues.Tasks.{TransferPayload}
use digital_wallet.Queues.Services.{Services, World, on_ledger}
use digital_wallet.Queues.TransferWorker.Marks.{
  Inv, CanMark, mark_succeeded-Inv, on_wallets-Inv, get_transfer-Inv, after_succeeded-Inv,
  finalize_failed-Inv,
}
use digital_wallet.Queues.TransferWorker.{
  TransferWorker, finalize_failed, check_wallets, load_wallets, execute_between, after_ledger,
  handle_transfer_execute,
}

module _ (S : Services) (tl : TableLaws S.transfers) (bl : TigerBeetleLaws S.ledger) where
  abbrev pub SuccessPosted : TransactionStatus → Bool → Type 0
  SuccessPosted st posted = st ≡ success → posted ≡ true

  -- Every successful transfer is posted.
  abbrev pub IsSettled : World S → Type 0
  IsSettled = Inv S tl bl SuccessPosted

  module _ (t : TransferWorker) where
    finalize_failed-IsSettled :
        (x : Transfer) (reason : String) → Keeps IsSettled (finalize_failed S t x reason)
    finalize_failed-IsSettled x reason =
        Ensures-from (finalize_failed-Inv S tl bl SuccessPosted t x reason)
          (λ w h. (h, λ u _ e. cc))

    check_wallets-IsSettled :
        (x : Transfer) (a b : Wallet) → Keeps IsSettled (check_wallets S t x a b)
    unfolding check_wallets
    check_wallets-IsSettled x a b = search (keeps_rules, finalize_failed-IsSettled)

    load_wallets-IsSettled : (x : Transfer) → Keeps IsSettled (load_wallets S t x)
    unfolding load_wallets
    load_wallets-IsSettled x = search (keeps_rules, on_wallets-Inv, check_wallets-IsSettled) depth 8

    -- what has to hold of the ledger before a transfer is marked successful
    abbrev Asked : String → Result (Unit {0}) → World S → Type 0
    Asked id r w = IsSettled w × (r ≡ ok tt → CanMark S tl bl SuccessPosted success id w)

    after_ledger-IsSettled :
        (x : Transfer) (r : Result (Unit {0}))
        → Ensures (Asked x.id r) (after_ledger S t x r) (λ _ w. IsSettled w)
    after_ledger-IsSettled x (ok tt) =
        Ensures-attempt (λ _ w. IsSettled w)
          (Ensures-from (mark_succeeded-Inv S tl bl SuccessPosted x.id) (λ w h. (h.0, h.1 refl)))
          (after_succeeded-Inv S tl bl SuccessPosted t)
    after_ledger-IsSettled x (err e) = Ensures-from (refusal e) (λ w h. h.0)
      where
        refusal : (e : Error) → Keeps IsSettled (after_ledger S t x (err e))
        refusal Error.insufficient_funds = finalize_failed-IsSettled x _
        refusal Error.cross_currency =
            Keeps-bind (finalize_failed-IsSettled x _) (λ _. Keeps-raise skip_retry)
        refusal Error.rejected =
            Keeps-bind (finalize_failed-IsSettled x _) (λ _. Keeps-raise skip_retry)
        refusal other_error = Keeps-raise other_error

    ledger-Asked :
        (id : String) (p : TransferParam)
        → S.uuids.parse id ≡ some p.transfer_id
        → Ensures IsSettled (on_ledger S (Ledger.transfer S.ledger p)) (Asked id)
    ledger-Asked id p parsed = record {
      at = λ w h. (
        All-imp (tl.rows w.transfers)
            (λ r agrees e. (transfer_stays bl (transfer_id S.ledger r.id) p).at w.ledger (agrees e))
            h,
        λ e u same _.
            subst
              (λ (v : Uuid).
                bl.posted (Ledger.transfer S.ledger p w.ledger).1 (transfer_id S.ledger v) ≡ true)
              (some_eq parsed same)
              ((transfer-Posts bl (transfer_id S.ledger p.transfer_id) p refl).at w.ledger tt e),
      );
    }

    execute_between-IsSettled :
        (x : Transfer) (o : Option (Wallet × Wallet)) → Keeps IsSettled (execute_between S t x o)
    unfolding execute_between
    execute_between-IsSettled x none = Keeps-pure tt
    execute_between-IsSettled x (some (a, b)) =
        Ensures-or_else _ (S.uuids.parse x.id) skip_retry
          (λ u parsed. Keeps-bind (Keeps-or_else (S.uuids.parse a.id) skip_retry) (λ v.
            Keeps-bind (Keeps-or_else (S.uuids.parse b.id) skip_retry) (λ v'.
              Ensures-attempt (Asked x.id) (ledger-Asked x.id _ parsed)
                (after_ledger-IsSettled x))))
          (λ w h. h)

    execute-Keeps :
        (task : Option TransferPayload) → Keeps IsSettled (handle_transfer_execute S t task)
    unfolding handle_transfer_execute
    execute-Keeps task =
        search (keeps_rules, get_transfer-Inv, load_wallets-IsSettled, execute_between-IsSettled)
          depth 12

    -- Carrying out a transfer, whatever fails on the way, leaves no transfer that the database calls
    -- successful without its posting in the ledger, if there was none before.
    pub execute-IsSettled :
        (task : Option TransferPayload) (w : World S)
        → IsSettled w
        → IsSettled (handle_transfer_execute S t task w).1
    execute-IsSettled task w h = (execute-Keeps task).at w h
