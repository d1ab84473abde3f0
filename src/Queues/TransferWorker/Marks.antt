-- ===== src/Queues/TransferWorker/Marks.antt =====
-- internal/queues/transfer.go: predicates on a transfer's status and the ledger, and the calls of the
-- worker for any such predicate.
use digital_wallet.Prelude.{
  ℕ, String, ◌≡◌, subst, inl, inr, Bool, true, ◌&&◌, some, List, All, All-set_where, arith, ◌==◌,
}
use digital_wallet.Shared.{not_found, transfer_not_pending}
use digital_wallet.Exec.{Result, ok, err, Exec, attempt}
use digital_wallet.Exec.Ensures.{
  Ensures, Keeps, Ensures-attempt, keeps_rules, Keeps-attempt, Keeps-bind, Ensures-or_else,
  Keeps-wrap, Keeps-pure,
}
use digital_wallet.External.Uuids.{Uuid}
use digital_wallet.External.Table.{TableLaws}
use digital_wallet.External.TigerBeetle.{TigerBeetleLaws}
use digital_wallet.Ledger.Accounts.{transfer_id}
use digital_wallet.Repository.Types.{
  TransactionStatus, success, failed, is_pending, Transfer, TransferRow,
}
use digital_wallet.Repository.Errors.{wrap_gorm_error}
use digital_wallet.Repository.Transfers.{
  set_outcome, map_transfer, get_transfer_by_id, mark_transfer, mark_transfer_succeeded,
  mark_transfer_failed,
}
use digital_wallet.Repository.Queries.{read-Keeps, affected_row-Keeps}
use digital_wallet.Queues.Services.{Services, World, on_transfers, on_broker, on_wallets}
use digital_wallet.Queues.TransferWorker.{
  TransferWorker, after_failed, after_succeeded, record_activity, notify, finalize_failed,
}

same_id : (a b : ℕ) (c : Bool) → (a == b && c) ≡ true → b ≡ a
same_id a b c h = ground arith

module _ (S : Services) (tl : TableLaws S.transfers) (bl : TigerBeetleLaws S.ledger)
    (Fits : TransactionStatus → Bool → Type 0) where
  abbrev pub is_posted : S.ledger.Store → Uuid → Bool
  is_posted l u = bl.posted l (transfer_id S.ledger u)

  -- each status fits whether the transfer is posted
  abbrev pub AllFit : S.ledger.Store → List TransferRow → Type 0
  AllFit l = All (λ r. Fits r.status (is_posted l r.id))

  abbrev pub Inv : World S → Type 0
  Inv w = AllFit w.ledger (tl.rows w.transfers)

  -- the status that is to be set fits
  abbrev pub CanMark : TransactionStatus → String → World S → Type 0
  CanMark st id w = (u : Uuid) → S.uuids.parse id ≡ some u → Fits st (is_posted w.ledger u)

  update-AllFit :
      (l : S.ledger.Store) (u : Uuid) (st : TransactionStatus) (reason : String)
      → Fits st (is_posted l u)
      → Keeps
          (λ s. AllFit l (tl.rows s))
          (S.transfers.update (λ r. r.id == u && is_pending r.status) (set_outcome st reason))
  update-AllFit l u st reason fits = record {
    at = λ s all.
        elim (tl.rows-update (λ r. r.id == u && is_pending r.status) (set_outcome st reason) s) [
          | inl same ↦ rw same all
          | inr changed ↦ rw changed (
              All-set_where (λ r. Fits r.status (is_posted l r.id))
                (λ r. r.id == u && is_pending r.status) (set_outcome st reason) (tl.rows s)
                (λ r _ match.
                  subst (λ (v : Uuid). Fits st (is_posted l v))
                    (same_id r.id u (is_pending r.status) match) fits)
                all)
        ];
  }

  mark_transfer-AllFit :
      (l : S.ledger.Store) (st : TransactionStatus) (reason id : String)
      → ((u : Uuid) → S.uuids.parse id ≡ some u → Fits st (is_posted l u))
      → Keeps (λ s. AllFit l (tl.rows s)) (mark_transfer S.uuids S.transfers st reason id)
  unfolding mark_transfer
  mark_transfer-AllFit l st reason id h =
      Ensures-or_else _ (S.uuids.parse id) not_found
        (λ u e.
          Keeps-bind (Keeps-wrap wrap_gorm_error (update-AllFit l u st reason (h u e))) (λ moved.
            Keeps-bind (affected_row-Keeps transfer_not_pending moved) (λ r. Keeps-pure _)))
        (λ s all. all)

  pub mark_failed-Inv :
      (id reason : String)
      → Ensures
          (λ w. Inv w × CanMark failed id w)
          (on_transfers S (mark_transfer_failed S.uuids S.transfers id reason))
          (λ _ w. Inv w)
  unfolding mark_transfer_failed
  mark_failed-Inv id reason = record {
    at = λ w h. (mark_transfer-AllFit w.ledger failed reason id h.1).at w.transfers h.0;
  }

  pub mark_succeeded-Inv :
      (id : String)
      → Ensures
          (λ w. Inv w × CanMark success id w)
          (on_transfers S (mark_transfer_succeeded S.uuids S.transfers id))
          (λ _ w. Inv w)
  unfolding mark_transfer_succeeded
  mark_succeeded-Inv id = record {
    at = λ w h. (mark_transfer-AllFit w.ledger success "" id h.1).at w.transfers h.0;
  }

  -- the calls that touch neither the statuses nor the ledger
  pub on_broker-Inv : {A : Type 0} (m : Exec S.broker.State A) → Keeps Inv (on_broker S m)
  on_broker-Inv m = record { at = λ w h. h }

  pub on_wallets-Inv : {A : Type 0} (m : Exec S.wallets.State A) → Keeps Inv (on_wallets S m)
  on_wallets-Inv m = record { at = λ w h. h }

  pub get_transfer-Inv :
      (id : String) → Keeps Inv (on_transfers S (get_transfer_by_id S.uuids S.transfers id))
  unfolding get_transfer_by_id attempt
  get_transfer-Inv id = record {
    at = λ w h.
        (read-Keeps S.uuids tl (λ u r. r.id == u) (map_transfer S.uuids) id (AllFit w.ledger)).at
          w.transfers h;
  }

  module _ (t : TransferWorker) where
    record_activity-Inv : (user : String) (a : String) → Keeps Inv (record_activity S t user a)
    unfolding record_activity
    record_activity-Inv user a = search (keeps_rules, Keeps-attempt, on_broker-Inv)

    pub notify-Inv : (x : Transfer) → Keeps Inv (notify S t x)
    unfolding notify
    notify-Inv x = search (keeps_rules, record_activity-Inv)

    after_failed-Inv :
        (reason : String) (r : Result Transfer) → Keeps Inv (after_failed S t reason r)
    after_failed-Inv reason (ok x) = record_activity-Inv _ _
    after_failed-Inv reason (err e) = search keeps_rules

    pub after_succeeded-Inv : (r : Result Transfer) → Keeps Inv (after_succeeded S t r)
    after_succeeded-Inv (ok x) = notify-Inv x
    after_succeeded-Inv (err e) = search keeps_rules

    pub finalize_failed-Inv :
        (x : Transfer) (reason : String)
        → Ensures (λ w. Inv w × CanMark failed x.id w) (finalize_failed S t x reason) (λ _ w. Inv w)
    unfolding finalize_failed
    finalize_failed-Inv x reason =
        Ensures-attempt (λ _ w. Inv w) (mark_failed-Inv x.id reason) (after_failed-Inv reason)
