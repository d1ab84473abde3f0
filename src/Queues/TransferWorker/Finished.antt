-- ===== src/Queues/TransferWorker/Finished.antt =====
-- internal/queues/transfer.go, `HandleTransferExecute`: what it leaves when it returns nil, for the whole
-- handler.
use digital_wallet.Prelude.{
  String, ◌≡◌, refl, sym, subst, ap, ◌∙◌, false, not, ◌||◌, Option, none, some, All-imp, ◌==◌,
  ==_iff, some_eq, arith,
}
use digital_wallet.Prelude.Text.{equal_fold}
use digital_wallet.Shared.{skip_retry}
use digital_wallet.Exec.{Result, ok, pure, ◌>>=◌}
use digital_wallet.Exec.Ensures.{
  Ensures, Ensures-pure, Ensures-bind, Ensures-wrap, Ensures-if, Ensures-attempt, Ensures-pure-bind,
}
use digital_wallet.External.Uuids.{UuidLaws}
use digital_wallet.External.Table.{TableLaws, KeyLaws}
use digital_wallet.Repository.Types.{is_pending, is_active, TransferRow, Wallet, Transfer}
use digital_wallet.Repository.Queries.{read-Keeps, read-Found}
use digital_wallet.Repository.Transfers.{map_transfer, get_transfer_by_id}
use digital_wallet.Queues.Tasks.{TransferPayload}
use digital_wallet.Queues.Services.{Services, World, on_transfers}
use digital_wallet.Queues.TransferWorker.{
  TransferWorker, skip_if_missing, finalize_failed, check_wallets, load_wallets, execute_between,
  handle_transfer_execute,
}
use digital_wallet.Queues.TransferWorker.Done.{
  All-of, IsClosed, Closed, Done, raise-Done, finalize_failed-Done, after_ledger-Done,
}

module _ (S : Services) (tl : TableLaws S.transfers) (t : TransferWorker) where
  -- closed, if there are no wallets to go on with
  abbrev Loaded : String → Result (Option (Wallet × Wallet)) → World S → Type 0
  Loaded id r w = r ≡ ok none → Closed S tl id w

  refused-Loaded :
      (x : Transfer) (reason : String)
      → Ensures (λ w. Unit {0}) (finalize_failed S t x reason >>= (λ _. pure none)) (Loaded x.id)
  refused-Loaded x reason =
      Ensures-bind (Done S tl x.id) (finalize_failed-Done S tl t x reason)
        (λ u. Ensures-pure (Loaded x.id) none (λ w h e. h refl)) (λ e w h bad. cc)

  check_wallets-Loaded :
      (x : Transfer) (a b : Wallet)
      → Ensures (λ w. Unit {0}) (check_wallets S t x a b) (Loaded x.id)
  unfolding check_wallets
  check_wallets-Loaded x a b =
      Ensures-if (not (is_active a.status) || not (is_active b.status)) (λ _. refused-Loaded x _)
        (λ _.
          Ensures-if (not (equal_fold a.currency b.currency)) (λ _. refused-Loaded x _)
            (λ _. Ensures-pure (Loaded x.id) (some (a, b)) (λ w h bad. cc)))

  load_wallets-Loaded : (x : Transfer) → Ensures (λ w. Unit {0}) (load_wallets S t x) (Loaded x.id)
  unfolding load_wallets
  load_wallets-Loaded x =
      Ensures-bind (λ r w. Unit {0}) (record { at = λ w h. tt })
        (λ a.
          Ensures-bind (λ r w. Unit {0}) (record { at = λ w h. tt })
            (λ b. check_wallets-Loaded x a b) (λ e w h bad. cc))
        (λ e w h bad. cc)

  execute_between-Done :
      (x : Transfer) (o : Option (Wallet × Wallet))
      → Ensures (Loaded x.id (ok o)) (execute_between S t x o) (Done S tl x.id)
  unfolding execute_between
  execute_between-Done x none = Ensures-pure (Done S tl x.id) tt (λ w h e. h refl)
  execute_between-Done x (some (a, b)) =
      Ensures-bind (λ r w. Unit {0}) (record { at = λ w h. tt })
        (λ u.
          Ensures-bind (λ r w. Unit {0}) (record { at = λ w h. tt })
            (λ v.
              Ensures-bind (λ r w. Unit {0}) (record { at = λ w h. tt })
                (λ v'.
                  Ensures-attempt (λ r w. Unit {0}) (record { at = λ w h. tt })
                    (after_ledger-Done S tl t x))
                (λ e w h bad. cc))
            (λ e w h bad. cc))
        (λ e w h bad. cc)

  pub carry_out-Done :
      (x : Transfer)
      → Ensures (λ w. Unit {0}) (load_wallets S t x >>= execute_between S t x) (Done S tl x.id)
  carry_out-Done x =
      Ensures-bind (Loaded x.id) (load_wallets-Loaded x) (execute_between-Done x) (λ e w h bad. cc)

module _ (S : Services) (ids : UuidLaws S.uuids) (tl : TableLaws S.transfers)
    (keys : KeyLaws tl (λ r. r.id)) (t : TransferWorker) where
  -- the transfer that was read: its id, and that none of it is pending if it is not
  abbrev Read : String → Result Transfer → World S → Type 0
  Read id r w =
      (x : Transfer)
      → r ≡ ok x
      → (S.uuids.parse x.id ≡ S.uuids.parse id) × (is_pending x.status ≡ false → Closed S tl id w)

  get_transfer-Read :
      (id : String)
      → Ensures
          (λ w. Unit {0})
          (on_transfers S (get_transfer_by_id S.uuids S.transfers id))
          (Read id)
  unfolding get_transfer_by_id map_transfer
  get_transfer-Read id = record {
    at = λ w h x e.
        let s' = (get_transfer_by_id S.uuids S.transfers id w.transfers).1 in
        let same_rows : tl.rows s' ≡ tl.rows w.transfers =
          (read-Keeps S.uuids tl (λ u r. r.id == u) (map_transfer S.uuids) id
              (λ rows. rows ≡ tl.rows w.transfers)).at
            w.transfers refl in
        let (u, row, parsed, fits, member, shown) =
          (read-Found S.uuids tl (λ u r. r.id == u) (map_transfer S.uuids) id
              (tl.rows w.transfers)).at
            w.transfers refl x e in
        let named : S.uuids.parse id ≡ some row.id =
          parsed ∙ ap some (sym ((==_iff row.id u).0 fits)) in
        (
          ap (λ (z : Transfer). S.uuids.parse z.id) shown ∙ ids.parse-to_string row.id ∙ sym named,
          λ final. subst (IsClosed S tl id) (sym same_rows) (
              All-of (tl.rows w.transfers) (λ r m same.
                subst (λ (z : TransferRow). is_pending z.status ≡ false)
                  (keys.unique w.transfers row r member m (some_eq refl (sym named ∙ same)))
                  (ap (λ (z : Transfer). is_pending z.status) (sym shown) ∙ final))),
        );
  }

  execute-Done :
      (task : TransferPayload)
      → Ensures
          (λ w. Unit {0})
          (handle_transfer_execute S t (some task))
          (Done S tl task.transfer_id)
  unfolding handle_transfer_execute
  execute-Done task = Ensures-pure-bind task _ (
      Ensures-if (not t.has_ledger) (λ _. raise-Done S tl task.transfer_id skip_retry)
        (λ _.
          Ensures-bind (Read task.transfer_id)
            (Ensures-wrap skip_if_missing (Read task.transfer_id)
              (get_transfer-Read task.transfer_id) (λ x w h. h) (λ e w h x bad. cc))
            (λ x.
              Ensures-if (not (is_pending x.status))
                (λ final.
                  Ensures-pure (Done S tl task.transfer_id) tt
                    (λ w h e. (h x refl).1 (ground arith)))
                (λ _. record {
                  at = λ w h done.
                      All-imp _ (λ r known same. known ((h x refl).0 ∙ same))
                        ((carry_out-Done S tl t x).at w tt done);
                }))
            (λ e w h bad. cc)))

  -- When the handler of a transfer task returns nil, whatever failed on the way, no transfer of the task's id is
  -- pending: none is left behind by a task that is not delivered again.
  pub execute-IsClosed :
      (task : TransferPayload) (w : World S)
      → (handle_transfer_execute S t (some task) w).0 ≡ ok tt
      → IsClosed S tl task.transfer_id
          (tl.rows (handle_transfer_execute S t (some task) w).1.transfers)
  execute-IsClosed task w done = (execute-Done task).at w tt done
