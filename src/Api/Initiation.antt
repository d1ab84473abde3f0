-- ===== src/Api/Initiation.antt =====
-- internal/api/services/transfer-service.go, `InitiateTransfer`: the row that it records.
use digital_wallet.Prelude.{
  ℕ, String, ◌≡◌, refl, ap, Bool, ◌⊎◌, inl, inr, some, List, [], ◌∷◌, ◌++◌,
}
use digital_wallet.Shared.{not_found}
use digital_wallet.Shared.Money.{Money}
use digital_wallet.Exec.{Result, ok, err, Exec}
use digital_wallet.Exec.Ensures.{
  Ensures, Keeps, Ensures-pure, Ensures-or_else, Ensures-bind, Ensures-attempt, Keeps-attempt,
  Keeps-pure, keeps_rules,
}
use digital_wallet.External.Uuids.{Uuid}
use digital_wallet.Repository.Types.{pending, Transfer, TransferRow, CreateTransferParam}
use digital_wallet.Repository.Insertion.{InsertLaws, Stored, create-Stored}
use digital_wallet.Repository.Transfers.{map_transfer, create_transfer}
use digital_wallet.Queues.Services.{Services, World, on_ledger, on_broker}
use digital_wallet.Api.Events.{
  TransferInitiatedPayload, publish, execute_listener, activity_listener, transfer_listeners,
}
use digital_wallet.Api.Transfers.{after_balances, check_sufficient_balance}

-- The calls that touch neither the transfers nor the wallets keep whatever is said of those two.
module _ (S : Services) (P : S.transfers.State → S.wallets.State → Type 0) where
  abbrev pub On : World S → Type 0
  On w = P w.transfers w.wallets

  on_ledger-On : {A : Type 0} (m : Exec S.ledger.Store A) → Keeps On (on_ledger S m)
  on_ledger-On m = record { at = λ w h. h }

  on_broker-On : {A : Type 0} (m : Exec S.broker.State A) → Keeps On (on_broker S m)
  on_broker-On m = record { at = λ w h. h }

  after_balances-On :
      (has_ledger : Bool) (u : Uuid) (amount : Money) (r : Result (List (Uuid × Money)))
      → Keeps On (after_balances S has_ledger u amount r)
  after_balances-On has_ledger u amount (ok found) = search keeps_rules
  after_balances-On has_ledger u amount (err e) = Keeps-pure tt

  pub check_sufficient_balance-On :
      (has_ledger : Bool) (id : String) (amount : Money)
      → Keeps On (check_sufficient_balance S has_ledger id amount)
  unfolding check_sufficient_balance
  check_sufficient_balance-On has_ledger id amount =
      search (keeps_rules, Keeps-attempt, on_ledger-On, after_balances-On)

  -- Publishing never fails: an error of a listener goes no further.
  pub publish-On :
      (event : TransferInitiatedPayload)
      → Ensures On (publish S (transfer_listeners S) event) (λ r w. (r ≡ ok tt) × On w)
  unfolding execute_listener activity_listener
  publish-On event =
      Ensures-attempt (λ _ w. On w) (on_broker-On _)
        (λ r.
          Ensures-attempt (λ _ w. On w) (on_broker-On _)
            (λ r'. Ensures-pure _ tt (λ w h. (refl, h))))

-- what a new row has of the request
pub record Recorded (S : Services) (param : CreateTransferParam) (row : TransferRow) : Type 0 where
  pub status : row.status ≡ pending
  pub amount : row.amount ≡ param.amount
  pub sender_user : S.uuids.parse param.sender_user_id ≡ some row.sender_user_id
  pub sender_wallet : S.uuids.parse param.sender_wallet_id ≡ some row.sender_wallet_id
  pub recipient_wallet : S.uuids.parse param.recipient_wallet_id ≡ some row.recipient_wallet_id

module _ (S : Services) (laws : InsertLaws S.transfers) (base : List TransferRow) where
  abbrev pub Adds : CreateTransferParam → Result Transfer → S.transfers.State → Type 0
  Adds param (ok t) s =
      (row : TransferRow) × (laws.rows s ≡ base ++ row ∷ [])
      × (t ≡ map_transfer S.uuids row)
      × Recorded S param row
  Adds param (err e) s =
      (laws.rows s ≡ base)
      ⊎ ((row : TransferRow) × (laws.rows s ≡ base ++ row ∷ []) × Recorded S param row)

  pub create_transfer-Adds :
      (fresh : Uuid) (now : ℕ) (param : CreateTransferParam)
      → Ensures
          (λ s. laws.rows s ≡ base)
          (create_transfer S.uuids S.transfers fresh now param)
          (Adds param)
  unfolding create_transfer
  create_transfer-Adds fresh now param =
      Ensures-or_else (Adds param) (S.uuids.parse param.sender_user_id) not_found
        (λ a pa.
          Ensures-or_else (Adds param) (S.uuids.parse param.sender_wallet_id) not_found
            (λ b pb.
              Ensures-or_else (Adds param) (S.uuids.parse param.recipient_user_id) not_found
                (λ c pc.
                  Ensures-or_else (Adds param) (S.uuids.parse param.recipient_wallet_id) not_found
                    (λ d pd.
                      Ensures-bind (Stored laws base _) (create-Stored laws base _)
                        (λ r. Ensures-pure (Adds param) _ (λ s h. (
                          _,
                          h.1,
                          ap (map_transfer S.uuids) h.0,
                          record {
                            status = refl;
                            amount = refl;
                            sender_user = pa;
                            sender_wallet = pb;
                            recipient_wallet = pd;
                          },
                        )))
                        (λ e s h. elim h [
                          | inl same ↦ inl same
                          | inr added ↦ inr (
                            _,
                            added,
                            record {
                              status = refl;
                              amount = refl;
                              sender_user = pa;
                              sender_wallet = pb;
                              recipient_wallet = pd;
                            },
                          )
                        ]))
                    (λ s h. inl h))
                (λ s h. inl h))
            (λ s h. inl h))
        (λ s h. inl h)
