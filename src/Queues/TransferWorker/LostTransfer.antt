-- ===== src/Queues/TransferWorker/LostTransfer.antt =====
-- internal/queues/transfer.go, `loadWallets`: the branch that fails a transfer without asking the ledger
-- about it.
use digital_wallet.Prelude.{
  ◌≡◌, refl, subst, ap, ◌∙◌, Bool, true, false, not, ◌||◌, none, some, Memᴰ, All-get, some_eq,
}
use digital_wallet.Exec.{ok}
use digital_wallet.Exec.Ensures.{
  Ensures, Ensures-pure, Ensures-if, Ensures-step, Ensures-attempt-step, Ensures-wrap-ok,
  Ensures-pure-bind, Keeps-pure,
}
use digital_wallet.External.Uuids.{Uuid}
use digital_wallet.External.Table.{TableLaws}
use digital_wallet.External.TigerBeetle.{TigerBeetleLaws}
use digital_wallet.Ledger.Accounts.{transfer_id}
use digital_wallet.Repository.Types.{failed, is_pending, is_active, Transfer, Wallet}
use digital_wallet.Repository.Transfers.{get_transfer_by_id, mark_transfer_failed}
use digital_wallet.Repository.Wallets.{get_wallet_by_id}
use digital_wallet.Queues.Tasks.{TransferPayload}
use digital_wallet.Queues.Services.{Services, World}
use digital_wallet.Queues.TransferWorker.{
  TransferWorker, skip_if_missing, finalize_failed, check_wallets, load_wallets, execute_between,
  handle_transfer_execute,
}
use digital_wallet.Queues.TransferWorker.Exhausted.{Agrees, IsExact}
use digital_wallet.Queues.TransferWorker.Marks.{AllFit}
use digital_wallet.Queues.TransferWorker.Marking.{mark_transfer-IsMarked}
use digital_wallet.Queues.TransferWorker.Stands.{
  Stands, step_transfers, step_wallets, record_activity-Stands,
}

not_refused : (p q : Bool) → p ≡ false → (not p || not q) ≡ false → ⊥
not_refused true q h k = cc
not_refused false q h k = cc

module _ (S : Services) (t : TransferWorker) (payload : TransferPayload) (w : World S)
    {x y : Transfer} {a b : Wallet} {s s' : S.transfers.State} {v v' : S.wallets.State}
    (configured : t.has_ledger ≡ true)
    (read : get_transfer_by_id S.uuids S.transfers payload.transfer_id w.transfers ≡ (ok x, s))
    (still_pending : is_pending x.status ≡ true)
    (sender : get_wallet_by_id S.uuids S.wallets x.sender_wallet_id w.wallets ≡ (ok a, v))
    (recipient : get_wallet_by_id S.uuids S.wallets x.recipient_wallet_id v ≡ (ok b, v'))
    (inactive : is_active a.status ≡ false)
    (marked : mark_transfer_failed S.uuids S.transfers x.id "An account involved is not active" s
      ≡ (ok y, s')) where
  finalize_failed-Stands :
      Ensures
        (Stands S s v' w.ledger)
        (finalize_failed S t x "An account involved is not active")
        (λ r z. (r ≡ ok tt) × Stands S s' v' w.ledger z)
  unfolding finalize_failed
  finalize_failed-Stands =
      Ensures-attempt-step _ (ok y) (Stands S s' v' w.ledger) (step_transfers S _ marked)
        (record_activity-Stands S t _ _)

  check_fails :
      Ensures
        (Stands S s v' w.ledger)
        (check_wallets S t x a b)
        (λ r z. (r ≡ ok none) × Stands S s' v' w.ledger z)
  unfolding check_wallets
  check_fails =
      Ensures-if (not (is_active a.status) || not (is_active b.status))
        (λ _.
          Ensures-step _ tt (Stands S s' v' w.ledger) finalize_failed-Stands
            (Ensures-pure _ none (λ z h. (refl, h))))
        (λ passed. absurd (not_refused (is_active a.status) (is_active b.status) inactive passed))

  run_fails :
      Ensures
        (Stands S w.transfers w.wallets w.ledger)
        (handle_transfer_execute S t (some payload))
        (λ r z. Stands S s' v' w.ledger z)
  unfolding handle_transfer_execute load_wallets execute_between
  run_fails = Ensures-pure-bind payload _ (
      Ensures-if (not t.has_ledger) (λ bad. cc configured)
        (λ _.
          Ensures-step _ x (Stands S s w.wallets w.ledger)
            (Ensures-wrap-ok skip_if_missing x _ (step_transfers S _ read))
            (Ensures-if (not (is_pending x.status)) (λ bad. cc)
              (λ _.
                Ensures-step _ none (Stands S s' v' w.ledger)
                  (Ensures-step _ a (Stands S s v w.ledger)
                    (Ensures-wrap-ok skip_if_missing a _ (step_wallets S _ sender))
                    (Ensures-step _ b (Stands S s v' w.ledger)
                      (Ensures-wrap-ok skip_if_missing b _ (step_wallets S _ recipient))
                      check_fails))
                  (Keeps-pure tt)))))

module _ (S : Services) (tl : TableLaws S.transfers) (bl : TigerBeetleLaws S.ledger)
    (t : TransferWorker) (payload : TransferPayload) (w : World S) {x y : Transfer} {a b : Wallet}
    {s s' : S.transfers.State} {v v' : S.wallets.State} {u : Uuid} where
  -- The worker fails a transfer whose money has moved, if the sender's wallet has stopped being active
  -- when the task is retried and no call fails: afterwards, not every transfer's status agrees with the
  -- ledger.
  pub retry-not-IsExact :
      t.has_ledger ≡ true
      → get_transfer_by_id S.uuids S.transfers payload.transfer_id w.transfers ≡ (ok x, s)
      → is_pending x.status ≡ true
      → get_wallet_by_id S.uuids S.wallets x.sender_wallet_id w.wallets ≡ (ok a, v)
      → get_wallet_by_id S.uuids S.wallets x.recipient_wallet_id v ≡ (ok b, v')
      → is_active a.status ≡ false
      → mark_transfer_failed S.uuids S.transfers x.id "An account involved is not active" s
        ≡ (ok y, s')
      → S.uuids.parse x.id ≡ some u
      → bl.posted w.ledger (transfer_id S.ledger u) ≡ true
      → ¬ IsExact S tl bl (handle_transfer_execute S t (some payload) w).1
  unfolding mark_transfer_failed
  retry-not-IsExact configured read still_pending sender recipient inactive marked parsed moved
        exact =
      let stands =
        (run_fails S t payload w configured read still_pending sender recipient inactive marked).at
          w (refl, refl, refl) in
      let (u', row, parsed', member, same, st) =
        (mark_transfer-IsMarked S tl failed x.id "An account involved is not active" (tl.rows s)).at
          s refl y (ap (λ p. p.0) marked) in
      let member' : Memᴰ row (tl.rows s') =
        subst (λ z. Memᴰ row (tl.rows z)) (ap (λ p. p.1) marked) member in
      let all : AllFit S tl bl Agrees w.ledger (tl.rows s') =
        subst (λ z. AllFit S tl bl Agrees w.ledger (tl.rows z)) stands.0
          (subst
            (λ l.
              AllFit S tl bl Agrees l
                (tl.rows (handle_transfer_execute S t (some payload) w).1.transfers))
            stands.2 exact) in
      let (_, unposted) = All-get _ all member' in
      cc (
        unposted st,
        moved,
        ap (λ v. bl.posted w.ledger (transfer_id S.ledger v)) (same ∙ some_eq parsed' parsed),
      )
