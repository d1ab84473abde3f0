-- ===== src/Queues/TransferWorker/Done.antt =====
-- internal/queues/transfer.go, `HandleTransferExecute`: what it leaves when it returns nil.
use digital_wallet.Prelude.{
  String, ◌≡◌, refl, sym, subst, ap, ◌∙◌, inl, inr, true, false, ◌&&◌, some, List, [], ◌∷◌, Memᴰ,
  All, set_where, ◌==◌, ==_iff, Bool-cases, some_eq, if◌then◌else◌, arith,
}
use digital_wallet.Shared.{
  Error, skip_retry, transfer_not_pending, is_transfer_not_pending, not_found, record_not_found,
  duplicated_key,
}
use digital_wallet.Exec.{Result, ok, err, pure, raise, attempt, ◌>>=◌}
use digital_wallet.Exec.Ensures.{
  Ensures, Keeps, Ensures-pure, Ensures-raise, Ensures-bind, Ensures-wrap, Ensures-if,
  Ensures-attempt, Ensures-imp, Ensures-or_else, Ensures-from, Keeps-pure, Keeps-attempt,
  Keeps-bind, Keeps-if,
}
use digital_wallet.External.Uuids.{Uuid}
use digital_wallet.External.Table.{TableLaws}
use digital_wallet.Repository.Types.{
  TransactionStatus, success, failed, is_pending, TransferRow, Transfer,
}
use digital_wallet.Repository.Errors.{wrap_gorm_error}
use digital_wallet.Repository.Queries.{affected_row-Keeps}
use digital_wallet.Repository.Transfers.{
  set_outcome, mark_transfer, mark_transfer_succeeded, mark_transfer_failed,
}
use digital_wallet.Queues.Services.{Services, World, on_transfers}
use digital_wallet.Queues.TransferWorker.{
  TransferWorker, record_activity, notify, after_failed, finalize_failed, after_succeeded,
  after_ledger,
}

wrap_own : (e : Error) → wrap_gorm_error e ≡ transfer_not_pending → e ≡ transfer_not_pending
wrap_own record_not_found h = cc
wrap_own duplicated_key h = cc
wrap_own e h = h

own_error : (e : Error) → is_transfer_not_pending e ≡ true → e ≡ transfer_not_pending
own_error transfer_not_pending h = refl
own_error e h = cc

pub All-of : {A : Type 0} {P : A → Type 0} (xs : List A) → ((x : A) → Memᴰ x xs → P x) → All P xs
All-of [] f = tt
All-of (x ∷ xs) f = (f x (Memᴰ.head refl), All-of xs (λ y m. f y (Memᴰ.tail m)))

module _ (S : Services) (tl : TableLaws S.transfers) where
  -- no transfer of that id is pending
  abbrev pub IsClosed : String → List TransferRow → Type 0
  IsClosed id rows = All (λ r. S.uuids.parse id ≡ some r.id → is_pending r.status ≡ false) rows

  set_outcome-IsClosed :
      (id : String) (u : Uuid) (st : TransactionStatus) (reason : String) (rows : List TransferRow)
      → S.uuids.parse id ≡ some u
      → is_pending st ≡ false
      → IsClosed id (set_where (λ r. r.id == u && is_pending r.status) (set_outcome st reason) rows)
  set_outcome-IsClosed id u st reason [] parsed final = tt
  set_outcome-IsClosed id u st reason (r ∷ rows) parsed final = (
    elim (Bool-cases (r.id == u && is_pending r.status)) [
      | inl fits ↦ rw fits (λ same. final)
      | inr misses ↦
          rw misses
            (λ same. let hit = (==_iff r.id u).1 (some_eq refl (sym same ∙ parsed)) in ground arith)
    ],
    set_outcome-IsClosed id u st reason rows parsed final,
  )

  -- a mark that is made, or that finds nothing to mark
  abbrev Marks : String → Result Transfer → S.transfers.State → Type 0
  Marks id r s =
      ((y : Transfer) → r ≡ ok y → IsClosed id (tl.rows s))
      × (r ≡ err transfer_not_pending → IsClosed id (tl.rows s))

  mark_transfer-Marks :
      (id : String) (st : TransactionStatus) (reason : String)
      → is_pending st ≡ false
      → Ensures (λ s. Unit {0}) (mark_transfer S.uuids S.transfers st reason id) (Marks id)
  unfolding mark_transfer
  mark_transfer-Marks id st reason final =
      Ensures-or_else (Marks id) (S.uuids.parse id) not_found
        (λ u parsed.
          Ensures-bind Updated
            (Ensures-wrap wrap_gorm_error Updated
              (record {
                at = λ s h. (
                  λ rs e.
                      subst (IsClosed id) (sym (tl.update_returns _ _ s rs e).1)
                        (set_outcome-IsClosed id u st reason (tl.rows s) parsed final),
                  tl.update_foreign _ _ s,
                );
              })
              (λ rs s h. ((λ rs' e. h.0 rs refl), (λ bad. cc)))
              (λ e s h. ((λ rs bad. cc), (λ own. absurd (h.1 (ap err (wrap_own e (err-eq own))))))))
            (λ rs.
              Ensures-imp {M = λ r s. IsClosed id (tl.rows s)}
                (Ensures-from
                  (Keeps-bind (affected_row-Keeps transfer_not_pending rs) (λ r. Keeps-pure _))
                  (λ s h. h.0 rs refl))
                (λ r s h. ((λ y e. h), (λ e. h))))
            (λ e s h. ((λ y bad. cc), (λ own. absurd (h.1 (ap err (err-eq own)))))))
        (λ s h. ((λ y bad. cc), (λ bad. cc)))
    where
      err-eq : {B : Type 0} {e e' : Error} → ◌≡◌ {A = Result B} (err e) (err e') → e ≡ e'
      err-eq p = cc

      Updated : Result (List TransferRow) → S.transfers.State → Type 0
      Updated r s =
          ((rs : List TransferRow) → r ≡ ok rs → IsClosed id (tl.rows s))
          × (r ≡ err transfer_not_pending → ⊥)

  -- nothing is left of that id, if it returned nil
  abbrev pub Done : String → Result (Unit {0}) → World S → Type 0
  Done id r w = r ≡ ok tt → IsClosed id (tl.rows w.transfers)

  abbrev pub Closed : String → World S → Type 0
  Closed id w = IsClosed id (tl.rows w.transfers)

  pub raise-Done : {P : World S → Type 0} (id : String) (e : Error) → Ensures P (raise e) (Done id)
  raise-Done id e = Ensures-raise (Done id) e (λ w h bad. cc)

  module _ (t : TransferWorker) where
    record_activity-Closed :
        (id user act : String) → Keeps (Closed id) (record_activity S t user act)
    unfolding record_activity
    record_activity-Closed id user act =
        Keeps-if t.has_activity (Keeps-attempt (record { at = λ w h. h }) (λ r. Keeps-pure tt))
          (Keeps-pure tt)

    -- what follows a mark
    abbrev Marked : String → Result Transfer → World S → Type 0
    Marked id r w = Marks id r w.transfers

    tolerate-Done :
        (id : String) (e : Error)
        → Ensures
            (Marked id (err e))
            (if is_transfer_not_pending e then pure tt else raise e)
            (Done id)
    tolerate-Done id e =
        Ensures-if (is_transfer_not_pending e)
          (λ own. Ensures-pure (Done id) tt (λ w h _. h.1 (ap err (own_error e own))))
          (λ _. raise-Done id e)

    pub finalize_failed-Done :
        (x : Transfer) (reason : String)
        → Ensures (λ w. Unit {0}) (finalize_failed S t x reason) (Done x.id)
    unfolding finalize_failed mark_transfer_failed
    finalize_failed-Done x reason =
        Ensures-attempt (Marked x.id)
          (record { at = λ w h. (mark_transfer-Marks x.id failed reason refl).at w.transfers tt })
          after
      where
        after :
            (r : Result Transfer) → Ensures (Marked x.id r) (after_failed S t reason r) (Done x.id)
        after (ok y) =
            Ensures-imp (Ensures-from (record_activity-Closed x.id _ _) (λ w h. h.0 y refl))
              (λ r w h e. h)
        after (err e) = tolerate-Done x.id e

    mark_succeeded-Done :
        (x : Transfer)
        → Ensures
            (λ w. Unit {0})
            (attempt
              (on_transfers S (mark_transfer_succeeded S.uuids S.transfers x.id))
              (after_succeeded S t))
            (Done x.id)
    unfolding mark_transfer_succeeded notify
    mark_succeeded-Done x =
        Ensures-attempt (Marked x.id)
          (record { at = λ w h. (mark_transfer-Marks x.id success "" refl).at w.transfers tt })
          after
      where
        after : (r : Result Transfer) → Ensures (Marked x.id r) (after_succeeded S t r) (Done x.id)
        after (ok y) =
            Ensures-imp
              (Ensures-from
                (Keeps-bind (record_activity-Closed x.id _ _)
                  (λ _. record_activity-Closed x.id _ _))
                (λ w h. h.0 y refl))
              (λ r w h e. h)
        after (err e) = tolerate-Done x.id e

    pub after_ledger-Done :
        (x : Transfer) (r : Result (Unit {0}))
        → Ensures (λ w. Unit {0}) (after_ledger S t x r) (Done x.id)
    after_ledger-Done x (ok u) = mark_succeeded-Done x
    after_ledger-Done x (err e) = refusal e
      where
        skipped :
            (reason : String)
            → Ensures
                (λ w. Unit {0})
                (finalize_failed S t x reason >>= (λ _. raise skip_retry))
                (Done x.id)
        skipped reason =
            Ensures-bind (Done x.id) (finalize_failed-Done x reason)
              (λ _. raise-Done x.id skip_retry) (λ e w h bad. cc)

        refusal : (e : Error) → Ensures (λ w. Unit {0}) (after_ledger S t x (err e)) (Done x.id)
        refusal Error.insufficient_funds = finalize_failed-Done x _
        refusal Error.cross_currency = skipped _
        refusal Error.rejected = skipped _
        refusal other_error = raise-Done x.id other_error
