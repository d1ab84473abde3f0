-- ===== src/Queues/TransferWorker/Stands.antt =====
-- internal/queues/transfer.go: where the parts that a run touches stand, when every answer is known.
use digital_wallet.Prelude.{String, ◌≡◌, refl, ap, ◌∙◌}
use digital_wallet.Exec.{ok, Exec}
use digital_wallet.Exec.Ensures.{Ensures, Ensures-pure, Ensures-if, Ensures-attempt}
use digital_wallet.Queues.Services.{Services, World, on_transfers, on_wallets, on_ledger}
use digital_wallet.Queues.TransferWorker.{TransferWorker, record_activity}

module _ (S : Services) where
  abbrev pub Stands : S.transfers.State → S.wallets.State → S.ledger.Store → World S → Type 0
  Stands ts ws l z = (z.transfers ≡ ts) × (z.wallets ≡ ws) × (z.ledger ≡ l)

  module _ {A : Type 0} {ts : S.transfers.State} {ws : S.wallets.State} {l : S.ledger.Store}
      {c : A} where
    pub step_transfers :
        (m : Exec S.transfers.State A) {ts' : S.transfers.State}
        → m ts ≡ (ok c, ts')
        → Ensures (Stands ts ws l) (on_transfers S m) (λ r z. (r ≡ ok c) × Stands ts' ws l z)
    step_transfers m e = record {
      at = λ z h. (ap (λ p. p.0) (ap m h.0 ∙ e), (ap (λ p. p.1) (ap m h.0 ∙ e), h.1, h.2));
    }

    pub step_wallets :
        (m : Exec S.wallets.State A) {ws' : S.wallets.State}
        → m ws ≡ (ok c, ws')
        → Ensures (Stands ts ws l) (on_wallets S m) (λ r z. (r ≡ ok c) × Stands ts ws' l z)
    step_wallets m e = record {
      at = λ z h. (ap (λ p. p.0) (ap m h.1 ∙ e), (h.0, ap (λ p. p.1) (ap m h.1 ∙ e), h.2));
    }

    pub step_ledger :
        (m : Exec S.ledger.Store A) {l' : S.ledger.Store}
        → m l ≡ (ok c, l')
        → Ensures (Stands ts ws l) (on_ledger S m) (λ r z. (r ≡ ok c) × Stands ts ws l' z)
    step_ledger m e = record {
      at = λ z h. (ap (λ p. p.0) (ap m h.2 ∙ e), (h.0, h.1, ap (λ p. p.1) (ap m h.2 ∙ e)));
    }

  pub record_activity-Stands :
      (t : TransferWorker) {ts : S.transfers.State} {ws : S.wallets.State} {l : S.ledger.Store}
      (user act : String)
      → Ensures
          (Stands ts ws l)
          (record_activity S t user act)
          (λ r z. (r ≡ ok tt) × Stands ts ws l z)
  unfolding record_activity
  record_activity-Stands t {ts} {ws} {l} user act =
      Ensures-if t.has_activity
        (λ _.
          Ensures-attempt (λ _ z. Stands ts ws l z) (record { at = λ z h. h })
            (λ r. Ensures-pure _ tt (λ z h. (refl, h))))
        (λ _. Ensures-pure _ tt (λ z h. (refl, h)))
