-- ===== src/Queues/TransferWorker/Completed.antt =====
-- internal/queues/transfer.go, `HandleTransferExecute`: a transfer that is carried out to its end.
use digital_wallet.Prelude.{
  ◌≡◌, refl, sym, subst, ap, ◌∙◌, Bool, true, false, not, ◌||◌, some, Memᴰ, some_eq,
}
use digital_wallet.Prelude.Text.{equal_fold}
use digital_wallet.Exec.{ok}
use digital_wallet.Exec.Ensures.{
  Ensures, Ensures-pure, Ensures-if, Ensures-step, Ensures-attempt-step, Ensures-wrap-ok,
  Ensures-pure-bind, Ensures-or_else-some,
}
use digital_wallet.External.Uuids.{Uuid}
use digital_wallet.External.Table.{TableLaws}
use digital_wallet.External.TigerBeetle.{TigerBeetleLaws}
use digital_wallet.Ledger.Accounts.{transfer_id}
use digital_wallet.Ledger.Transfers as Ledger
use digital_wallet.Ledger.Transfers.{TransferParam}
use digital_wallet.Ledger.Answers.{transfer-Posts}
use digital_wallet.Repository.Types.{success, is_pending, is_active, Transfer, Wallet, TransferRow}
use digital_wallet.Repository.Transfers.{get_transfer_by_id, mark_transfer_succeeded}
use digital_wallet.Repository.Wallets.{get_wallet_by_id}
use digital_wallet.Queues.Tasks.{TransferPayload}
use digital_wallet.Queues.Services.{Services, World}
use digital_wallet.Queues.TransferWorker.{
  TransferWorker, skip_if_missing, notify, check_wallets, load_wallets, after_ledger,
  execute_between, handle_transfer_execute,
}
use digital_wallet.Queues.TransferWorker.Marking.{mark_transfer-IsMarked}
use digital_wallet.Queues.TransferWorker.Stands.{
  Stands, step_transfers, step_wallets, step_ledger, record_activity-Stands,
}

-- what the ledger is asked for
abbrev pub param_of : Transfer → Wallet → Wallet → Uuid → Uuid → Uuid → TransferParam
param_of x a b u ua ub = record {
  transfer_id = u;
  sender_wallet_id = ua;
  receipient_wallet_id = ub;
  sender_currency = a.currency;
  receipients_currency = b.currency;
  amount = x.amount;
}

-- every answer that a run gets, none of which is an error, and the ledger takes the transfer
pub record Served (S : Services) (t : TransferWorker) (payload : TransferPayload) (w : World S)
    : Type 0 where
  pub x : Transfer
  pub y : Transfer
  pub a : Wallet
  pub b : Wallet
  pub u : Uuid
  pub ua : Uuid
  pub ub : Uuid
  pub s : S.transfers.State
  pub s' : S.transfers.State
  pub v : S.wallets.State
  pub v' : S.wallets.State
  pub l : S.ledger.Store
  pub configured : t.has_ledger ≡ true
  pub read : get_transfer_by_id S.uuids S.transfers payload.transfer_id w.transfers ≡ (ok x, s)
  pub still_pending : is_pending x.status ≡ true
  pub sender : get_wallet_by_id S.uuids S.wallets x.sender_wallet_id w.wallets ≡ (ok a, v)
  pub recipient : get_wallet_by_id S.uuids S.wallets x.recipient_wallet_id v ≡ (ok b, v')
  pub sends : is_active a.status ≡ true
  pub receives : is_active b.status ≡ true
  pub one_currency : equal_fold a.currency b.currency ≡ true
  pub named : S.uuids.parse x.id ≡ some u
  pub sender_named : S.uuids.parse a.id ≡ some ua
  pub recipient_named : S.uuids.parse b.id ≡ some ub
  pub taken : Ledger.transfer S.ledger (param_of x a b u ua ub) w.ledger ≡ (ok tt, l)
  pub marked : mark_transfer_succeeded S.uuids S.transfers x.id s ≡ (ok y, s')

none_refused : (p q : Bool) → p ≡ true → q ≡ true → (not p || not q) ≡ false
none_refused true true h k = refl
none_refused true false h k = cc
none_refused false q h k = cc

module _ (S : Services) (t : TransferWorker) (payload : TransferPayload) (w : World S)
    (served : Served S t payload w) where
  open served use {x, y, a, b, u, ua, ub, s, s', v, v', l}

  notify-Stands :
      Ensures (Stands S s' v' l) (notify S t y) (λ r z. (r ≡ ok tt) × Stands S s' v' l z)
  unfolding notify
  notify-Stands =
      Ensures-step _ tt (Stands S s' v' l) (record_activity-Stands S t _ _)
        (record_activity-Stands S t _ _)

  after_ledger-Stands :
      Ensures
        (Stands S s v' l)
        (after_ledger S t x (ok tt))
        (λ r z. (r ≡ ok tt) × Stands S s' v' l z)
  after_ledger-Stands =
      Ensures-attempt-step _ (ok y) (Stands S s' v' l) (step_transfers S _ served.marked)
        notify-Stands

  check_passes :
      Ensures
        (Stands S s v' w.ledger)
        (check_wallets S t x a b)
        (λ r z. (r ≡ ok (some (a, b))) × Stands S s v' w.ledger z)
  unfolding check_wallets
  check_passes =
      Ensures-if (not (is_active a.status) || not (is_active b.status))
        (λ bad.
          cc (none_refused (is_active a.status) (is_active b.status) served.sends served.receives))
        (λ _.
          Ensures-if (not (equal_fold a.currency b.currency)) (λ bad. cc (served.one_currency))
            (λ _. Ensures-pure _ (some (a, b)) (λ z h. (refl, h))))

  run_completes :
      Ensures
        (Stands S w.transfers w.wallets w.ledger)
        (handle_transfer_execute S t (some payload))
        (λ r z. (r ≡ ok tt) × Stands S s' v' l z)
  unfolding handle_transfer_execute load_wallets execute_between
  run_completes = Ensures-pure-bind payload _ (
      Ensures-if (not t.has_ledger) (λ bad. cc (served.configured))
        (λ _.
          Ensures-step _ x (Stands S s w.wallets w.ledger)
            (Ensures-wrap-ok skip_if_missing x _ (step_transfers S _ served.read))
            (Ensures-if (not (is_pending x.status)) (λ bad. cc (served.still_pending))
              (λ _.
                Ensures-step _ (some (a, b)) (Stands S s v' w.ledger)
                  (Ensures-step _ a (Stands S s v w.ledger)
                    (Ensures-wrap-ok skip_if_missing a _ (step_wallets S _ served.sender))
                    (Ensures-step _ b (Stands S s v' w.ledger)
                      (Ensures-wrap-ok skip_if_missing b _ (step_wallets S _ served.recipient))
                      check_passes))
                  (Ensures-or_else-some _ _ u _ served.named (
                    Ensures-or_else-some _ _ ua _ served.sender_named (
                      Ensures-or_else-some _ _ ub _ served.recipient_named (
                        Ensures-attempt-step _ (ok tt) (Stands S s v' l)
                          (step_ledger S _ served.taken) after_ledger-Stands))))))))

module _ (S : Services) (tl : TableLaws S.transfers) (bl : TigerBeetleLaws S.ledger)
    (t : TransferWorker) (payload : TransferPayload) (w : World S) where
  -- the transfer is in the table as successful and its posting in the ledger
  abbrev pub Completed : Transfer → World S → Type 0
  Completed x z =
      (row : TransferRow) × (S.uuids.parse x.id ≡ some row.id)
      × Memᴰ row (tl.rows z.transfers)
      × (row.status ≡ success)
      × (bl.posted z.ledger (transfer_id S.ledger row.id) ≡ true)

  -- A pending transfer between two active wallets of one currency is completed, if no service answers
  -- with an error and the ledger takes it: the handler returns nil, the transfer is successful in the
  -- database and its posting is in the ledger.
  pub execute-Completed :
      (served : Served S t payload w)
      → ((handle_transfer_execute S t (some payload) w).0 ≡ ok tt)
        × Completed served.x (handle_transfer_execute S t (some payload) w).1
  unfolding mark_transfer_succeeded
  execute-Completed served =
      let (answered, stands) = (run_completes S t payload w served).at w (refl, refl, refl) in
      let (u', row, parsed, member, same, set) =
        (mark_transfer-IsMarked S tl success served.x.id "" (tl.rows served.s)).at served.s refl
          served.y (ap (λ p. p.0) served.marked) in
      let named = parsed ∙ ap some (sym same) in
      let param = param_of served.x served.a served.b served.u served.ua served.ub in
      let ledger_after = ap (λ p. p.1) served.taken ∙ sym stands.2 in
      (
        answered,
        (
          row,
          named,
          subst (λ z. Memᴰ row (tl.rows z)) (ap (λ p. p.1) served.marked ∙ sym stands.0) member,
          set,
          subst
              (λ (k : Uuid).
                bl.posted (handle_transfer_execute S t (some payload) w).1.ledger
                  (transfer_id S.ledger k)
                ≡ true)
              (some_eq served.named named)
              (subst (λ z. bl.posted z (transfer_id S.ledger served.u) ≡ true) ledger_after
                ((transfer-Posts bl (transfer_id S.ledger served.u) param refl).at w.ledger tt
                  (ap (λ p. p.0) served.taken))),
        ),
      )
