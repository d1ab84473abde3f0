-- ===== src/Queues/TransferWorker/Redelivery.antt =====
-- internal/queues/transfer.go, `HandleTransferExecute`, for a task that is delivered again.
use digital_wallet.Prelude.{
  ◌≡◌, refl, sym, subst, Bool, true, false, not, some, List, All, All-get, ◌==◌, ==_iff,
}
use digital_wallet.Shared.{skip_retry}
use digital_wallet.Exec.{Result, ok, attempt}
use digital_wallet.Exec.Ensures.{
  Ensures, Ensures-pure, Ensures-bind, Ensures-wrap, Ensures-if, Ensures-pure-bind, Ensures-absurd,
  Keeps-raise,
}
use digital_wallet.External.Uuids.{Uuid}
use digital_wallet.External.Table.{TableLaws}
use digital_wallet.Repository.Types.{is_pending, Transfer, TransferRow}
use digital_wallet.Repository.Transfers.{map_transfer, get_transfer_by_id}
use digital_wallet.Repository.Queries.{read-Keeps, read-Found}
use digital_wallet.Queues.Tasks.{TransferPayload}
use digital_wallet.Queues.Services.{Services, World, on_transfers}
use digital_wallet.Queues.TransferWorker.{TransferWorker, skip_if_missing, handle_transfer_execute}

not_both : (b : Bool) → not b ≡ false → b ≡ false → ⊥
not_both true h k = cc
not_both false h k = cc

module _ (S : Services) (tl : TableLaws S.transfers) (payload : TransferPayload)
    (w₀ : World S) where
  -- the transfer of the task, if the database has it, is not pending
  abbrev pub IsClosed : List TransferRow → Type 0
  IsClosed = All (λ r.
      (u : Uuid)
      → S.uuids.parse payload.transfer_id ≡ some u
      → r.id ≡ u
      → is_pending r.status ≡ false)

  abbrev pub IsUnmoved : World S → Type 0
  IsUnmoved w =
      (w.ledger ≡ w₀.ledger) × (tl.rows w.transfers ≡ tl.rows w₀.transfers) × (w.broker ≡ w₀.broker)

  abbrev Read : Result Transfer → World S → Type 0
  Read r w = IsUnmoved w × ((x : Transfer) → r ≡ ok x → is_pending x.status ≡ false)

  get_transfer-Read :
      IsClosed (tl.rows w₀.transfers)
      → Ensures IsUnmoved
          (on_transfers S (get_transfer_by_id S.uuids S.transfers payload.transfer_id))
          Read
  unfolding get_transfer_by_id attempt map_transfer
  get_transfer-Read closed = record {
    at = λ w h. (
      (
        h.0,
        (read-Keeps S.uuids tl (λ u r. r.id == u) (map_transfer S.uuids) payload.transfer_id
              (λ rows. rows ≡ tl.rows w₀.transfers)).at
            w.transfers h.1,
        h.2,
      ),
      λ x e.
          let (u, row, parsed, same, member, view) =
            (read-Found S.uuids tl (λ u r. r.id == u) (map_transfer S.uuids) payload.transfer_id
                (tl.rows w₀.transfers)).at
              w.transfers h.1 x e in
          subst (λ (y : Transfer). is_pending y.status ≡ false) (sym view)
            (All-get _ closed member u parsed ((==_iff row.id u).0 same)),
    );
  }

  module _ (t : TransferWorker) (closed : IsClosed (tl.rows w₀.transfers)) where
    execute-Unmoved :
        Ensures IsUnmoved (handle_transfer_execute S t (some payload)) (λ _ w. IsUnmoved w)
    unfolding handle_transfer_execute
    execute-Unmoved = Ensures-pure-bind payload _ (
        Ensures-if (not t.has_ledger) (λ _. Keeps-raise skip_retry)
          (λ _.
            Ensures-bind Read
              (Ensures-wrap skip_if_missing Read (get_transfer-Read closed) (λ x w h. h)
                (λ e w h. (h.0, λ x bad. cc)))
              (λ x.
                Ensures-if (not (is_pending x.status)) (λ _. Ensures-pure _ tt (λ w h. h.0))
                  (λ open_still.
                    Ensures-absurd (λ w h. not_both (is_pending x.status) open_still (h.1 x refl))))
              (λ e w h. h.0)))

    -- A transfer task delivered again, after its transfer was closed, moves no money, writes no
    -- transfer and queues nothing.
    pub execute-IsUnmoved : IsUnmoved (handle_transfer_execute S t (some payload) w₀).1
    execute-IsUnmoved = execute-Unmoved.at w₀ (refl, refl, refl)
