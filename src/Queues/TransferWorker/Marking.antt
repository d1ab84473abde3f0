-- ===== src/Queues/TransferWorker/Marking.antt =====
-- internal/repository/transfer_repository.go, `markTransfer`: the row behind what it returns.
use digital_wallet.Prelude.{
  String, ◌≡◌, refl, sym, subst, ap, Bool, ◌&&◌, some, List, ◌∷◌, Memᴰ, ◌==◌, ==_iff,
}
use digital_wallet.Shared.{not_found, transfer_not_pending}
use digital_wallet.Exec.{Result, ok}
use digital_wallet.Exec.Ensures.{Ensures, Ensures-pure, Ensures-bind, Ensures-wrap, Ensures-or_else}
use digital_wallet.External.Uuids.{Uuid}
use digital_wallet.External.Table.{TableLaws}
use digital_wallet.Repository.Types.{TransactionStatus, is_pending, Transfer, TransferRow}
use digital_wallet.Repository.Errors.{wrap_gorm_error}
use digital_wallet.Repository.Transfers.{set_outcome, mark_transfer}
use digital_wallet.Repository.Queries.{select_member, first_of_and, IsHead, affected_row-IsHead}
use digital_wallet.Queues.Services.{Services}

-- A transfer that was marked is in the table with its new status.
module _ (S : Services) (tl : TableLaws S.transfers) (st : TransactionStatus) (id reason : String)
    (base : List TransferRow) where
  abbrev pub IsMarked : Result Transfer → S.transfers.State → Type 0
  IsMarked r s =
      (y : Transfer)
      → r ≡ ok y
      → (u : Uuid) × (row : TransferRow) × (S.uuids.parse id ≡ some u)
        × Memᴰ row (tl.rows s)
        × (row.id ≡ u)
        × (row.status ≡ st)

  abbrev IsUpdated : Uuid → Result (List TransferRow) → S.transfers.State → Type 0
  IsUpdated u r s =
      (z : TransferRow) (zs : List TransferRow)
      → r ≡ ok (z ∷ zs)
      → (row : TransferRow) × Memᴰ row (tl.rows s) × (row.id ≡ u) × (row.status ≡ st)

  update-IsUpdated :
      (u : Uuid)
      → Ensures
          (λ s. tl.rows s ≡ base)
          (S.transfers.update (λ r. r.id == u && is_pending r.status) (set_outcome st reason))
          (IsUpdated u)
  update-IsUpdated u = record {
    at = λ s h z zs e.
        let p : TransferRow → Bool = λ r. r.id == u && is_pending r.status in
        let (returned, changed) = tl.update_returns p (set_outcome st reason) s (z ∷ zs) e in
        let (row, fits, member) =
          select_member p (set_outcome st reason) (tl.rows s) (sym returned) in
        (
          set_outcome st reason row,
          subst (Memᴰ (set_outcome st reason row)) (sym changed) member,
          (==_iff row.id u).0 (first_of_and (row.id == u) (is_pending row.status) fits),
          refl,
        );
  }

  pub mark_transfer-IsMarked :
      Ensures (λ s. tl.rows s ≡ base) (mark_transfer S.uuids S.transfers st reason id) IsMarked
  unfolding mark_transfer
  mark_transfer-IsMarked =
      Ensures-or_else IsMarked (S.uuids.parse id) not_found
        (λ u parsed.
          Ensures-bind (IsUpdated u)
            (Ensures-wrap wrap_gorm_error (IsUpdated u) (update-IsUpdated u) (λ zs s h. h)
              (λ e s h z zs bad. cc))
            (λ moved.
              Ensures-bind (λ r s. IsUpdated u (ok moved) s × IsHead moved r)
                (affected_row-IsHead transfer_not_pending moved)
                (λ z. Ensures-pure IsMarked _ (λ s h y e.
                  let (zs, whole) = h.1 z refl in
                  let (row, member, same, set) = h.0 z zs (ap ok whole) in
                  (u, row, parsed, member, same, set)))
                (λ e s h y bad. cc))
            (λ e s h y bad. cc))
        (λ s h y bad. cc)
