-- ===== src/Queues/TransferWorker/Exhausted.antt =====
-- internal/queues/transfer.go, `HandleTransferExhausted`, and the agreement of a transfer's status with
-- the ledger.
use digital_wallet.Prelude.{
  String, ◌≡◌, refl, sym, subst, Bool, true, false, not, Option, none, some, All-imp, some_eq,
}
use digital_wallet.Exec.{Result, ok, err}
use digital_wallet.Exec.Ensures.{
  Ensures, Keeps, Ensures-attempt, Ensures-if, Keeps-attempt, Ensures-from, Keeps-pure, Keeps-if,
}
use digital_wallet.External.Uuids.{Uuid}
use digital_wallet.External.Table.{TableLaws}
use digital_wallet.External.TigerBeetle.{TigerBeetleLaws}
use digital_wallet.Ledger.Accounts.{transfer_id}
use digital_wallet.Ledger.Transfers as Ledger
use digital_wallet.Ledger.Transfers.{TransferParam}
use digital_wallet.Ledger.Postings.{has_posting-Posted}
use digital_wallet.Ledger.Answers.{has_posting_answers}
use digital_wallet.Repository.Types.{TransactionStatus, success, failed, is_pending, Transfer}
use digital_wallet.Queues.Tasks.{TransferPayload}
use digital_wallet.Queues.Services.{Services, World, on_ledger}
use digital_wallet.Queues.TransferWorker.Marks.{
  Inv, mark_succeeded-Inv, get_transfer-Inv, notify-Inv, finalize_failed-Inv,
}
use digital_wallet.Queues.TransferWorker.Settled.{SuccessPosted, IsSettled}
use digital_wallet.Queues.TransferWorker.{
  TransferWorker, ignore, after_lookup, after_exhausted_id, after_exhausted_read,
  after_late_success, handle_transfer_exhausted,
}

-- The status agrees with the ledger: success is posted, and failure is not.
abbrev pub Agrees : TransactionStatus → Bool → Type 0
Agrees st posted = (st ≡ success → posted ≡ true) × (st ≡ failed → posted ≡ false)

module _ (S : Services) (tl : TableLaws S.transfers) (bl : TigerBeetleLaws S.ledger) where
  -- Every transfer's status agrees with the ledger.
  abbrev pub IsExact : World S → Type 0
  IsExact = Inv S tl bl Agrees

  -- what the ledger answered about one transfer
  abbrev Answered : String → Result Bool → World S → Type 0
  Answered id r w =
      IsExact w
      × ((b : Bool) (u : Uuid)
          → r ≡ ok b
          → S.uuids.parse id ≡ some u
          → bl.posted w.ledger (transfer_id S.ledger u) ≡ b)

  ask-Answered :
      (id : String) (u : Uuid)
      → S.uuids.parse id ≡ some u
      → Ensures IsExact (on_ledger S (Ledger.has_posting S.ledger u)) (Answered id)
  ask-Answered id u parsed = record {
    at = λ w h. (
      All-imp (tl.rows w.transfers)
          (λ r agrees.
            subst (Agrees r.status)
              (sym (
                (has_posting-Posted bl (transfer_id S.ledger r.id)
                    (bl.posted w.ledger (transfer_id S.ledger r.id)) u).at
                  w.ledger refl))
              agrees)
          h,
      λ b v e same.
          subst
            (λ (x : Uuid).
              bl.posted (Ledger.has_posting S.ledger u w.ledger).1 (transfer_id S.ledger x) ≡ b)
            (some_eq parsed same)
            ((has_posting_answers bl (transfer_id S.ledger u) u refl).at w.ledger tt b e),
    );
  }

  module _ (t : TransferWorker) where
    ignore-IsExact : (r : Result (Unit {0})) → Keeps IsExact (ignore S r)
    ignore-IsExact r = Keeps-pure tt

    after_late_success-IsExact : (r : Result Transfer) → Keeps IsExact (after_late_success S t r)
    after_late_success-IsExact (ok x) = notify-Inv S tl bl Agrees t x
    after_late_success-IsExact (err e) = Keeps-pure tt

    after_lookup-IsExact :
        (x : Transfer) (r : Result Bool)
        → Ensures (Answered x.id r) (after_lookup S t x r) (λ _ w. IsExact w)
    after_lookup-IsExact x (err e) = Ensures-from (Keeps-pure tt) (λ w h. h.0)
    after_lookup-IsExact x (ok true) =
        Ensures-attempt (λ _ w. IsExact w)
          (Ensures-from (mark_succeeded-Inv S tl bl Agrees x.id)
            (λ w h. (h.0, λ u parsed. (λ _. h.1 true u refl parsed, λ e. cc))))
          after_late_success-IsExact
    after_lookup-IsExact x (ok false) =
        Ensures-attempt (λ _ w. IsExact w)
          (Ensures-from (finalize_failed-Inv S tl bl Agrees t x _)
            (λ w h. (h.0, λ u parsed. (λ e. cc, λ _. h.1 false u refl parsed))))
          ignore-IsExact

    module _ (configured : t.has_ledger ≡ true) where
      after_id-IsExact :
          (x : Transfer) (o : Option Uuid)
          → S.uuids.parse x.id ≡ o
          → Keeps IsExact (after_exhausted_id S t x o)
      after_id-IsExact x none e = Keeps-pure tt
      after_id-IsExact x (some u) e =
          Ensures-if t.has_ledger
            (λ _. Ensures-attempt (Answered x.id) (ask-Answered x.id u e) (after_lookup-IsExact x))
            (λ missing. cc)

      after_read-IsExact : (r : Result Transfer) → Keeps IsExact (after_exhausted_read S t r)
      after_read-IsExact (err e) = Keeps-pure tt
      after_read-IsExact (ok x) =
          Keeps-if (not (is_pending x.status)) (Keeps-pure tt) (after_id-IsExact x _ refl)

      exhausted-Keeps :
          (task : Option TransferPayload) → Keeps IsExact (handle_transfer_exhausted S t task)
      unfolding handle_transfer_exhausted
      exhausted-Keeps none = Keeps-pure tt
      exhausted-Keeps (some payload) =
          Keeps-attempt (get_transfer-Inv S tl bl Agrees payload.transfer_id) after_read-IsExact

    -- Without a ledger nobody is asked: the transfer is failed.
    module _ (missing : t.has_ledger ≡ false) where
      after_id-IsSettled :
          (x : Transfer) (o : Option Uuid) → Keeps (IsSettled S tl bl) (after_exhausted_id S t x o)
      after_id-IsSettled x none = Keeps-pure tt
      after_id-IsSettled x (some u) =
          Ensures-if t.has_ledger (λ present. cc)
            (λ _.
              Ensures-attempt (λ _ w. IsSettled S tl bl w)
                (Ensures-from (finalize_failed-Inv S tl bl (SuccessPosted S tl bl) t x _)
                  (λ w h. (h, λ u parsed e. cc)))
                (λ r. Keeps-pure tt))

      after_read-IsSettled :
          (r : Result Transfer) → Keeps (IsSettled S tl bl) (after_exhausted_read S t r)
      after_read-IsSettled (err e) = Keeps-pure tt
      after_read-IsSettled (ok x) =
          Keeps-if (not (is_pending x.status)) (Keeps-pure tt) (after_id-IsSettled x _)

      exhausted-IsSettled :
          (task : Option TransferPayload)
          → Keeps (IsSettled S tl bl) (handle_transfer_exhausted S t task)
      unfolding handle_transfer_exhausted
      exhausted-IsSettled none = Keeps-pure tt
      exhausted-IsSettled (some payload) =
          Keeps-attempt (get_transfer-Inv S tl bl (SuccessPosted S tl bl) payload.transfer_id)
            after_read-IsSettled

    -- what a worker with a ledger keeps, and one without
    abbrev pub Agreement : Bool → World S → Type 0
    Agreement true w = IsExact w
    Agreement false w = IsSettled S tl bl w

    -- Closing a transfer out of retries, whatever fails on the way, keeps this: with a ledger, every status
    -- agrees with the ledger, so that a transfer is failed only if no money has moved and called
    -- successful only if it has; without a ledger, which is not asked then, every successful transfer is
    -- posted.
    pub exhausted-Agreement :
        (task : Option TransferPayload) (w : World S)
        → Agreement t.has_ledger w
        → Agreement t.has_ledger (handle_transfer_exhausted S t task w).1
    exhausted-Agreement task w = by_ledger t.has_ledger refl
      where
        by_ledger :
            (b : Bool)
            → t.has_ledger ≡ b
            → Agreement b w
            → Agreement b (handle_transfer_exhausted S t task w).1
        by_ledger true present h = (exhausted-Keeps present task).at w h
        by_ledger false missing h = (exhausted-IsSettled missing task).at w h
