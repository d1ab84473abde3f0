-- ===== src/Queues/PaymentWorker/Marks.antt =====
-- internal/queues/payment.go: predicates on a deposit's status and the ledger, and the calls of the
-- worker for any such predicate.
use digital_wallet.Prelude.{
  ℕ, String, ◌≡◌, subst, inl, inr, Bool, true, ◌&&◌, some, List, All, All-set_where, arith, ◌==◌,
}
use digital_wallet.Shared.{Error, not_found}
use digital_wallet.Exec.{Result, ok, err, Exec}
use digital_wallet.Exec.Ensures.{
  Keeps, Ensures-or_else, Keeps-attempt, Keeps-bind, Keeps-wrap, Keeps-pure, keeps_rules,
}
use digital_wallet.External.Uuids.{Uuid}
use digital_wallet.External.Table.{TableLaws}
use digital_wallet.External.TigerBeetle.{TigerBeetleLaws}
use digital_wallet.Ledger.Accounts.{transfer_id}
use digital_wallet.Repository.Types.{TransactionStatus, TransactionIntent, IntentRow, User}
use digital_wallet.Repository.Errors.{wrap_gorm_error}
use digital_wallet.Repository.Intents.{set_status, move_row}
use digital_wallet.Repository.Queries.{affected_row-Keeps}
use digital_wallet.Queues.Services.{
  Services, World, on_users, on_wallets, on_intents, on_provider, on_broker,
}
use digital_wallet.Queues.PaymentWorker.{
  PaymentWorker, send_receipt, record_deposit, notify, cancel_poll,
}

same_id : (a b : ℕ) (c : Bool) → (a == b && c) ≡ true → b ≡ a
same_id a b c h = ground arith

module _ (S : Services) (il : TableLaws S.intents) (bl : TigerBeetleLaws S.ledger)
    (Fits : TransactionStatus → Bool → Type 0) where
  abbrev pub is_posted : S.ledger.Store → Uuid → Bool
  is_posted l u = bl.posted l (transfer_id S.ledger u)

  -- each status fits whether the deposit is posted
  abbrev pub AllFit : S.ledger.Store → List IntentRow → Type 0
  AllFit l = All (λ r. Fits r.status (is_posted l r.id))

  abbrev pub Inv : World S → Type 0
  Inv w = AllFit w.ledger (il.rows w.intents)

  update-AllFit :
      (l : S.ledger.Store) (u : Uuid) (allowed : TransactionStatus → Bool) (to : TransactionStatus)
      → Fits to (is_posted l u)
      → Keeps
          (λ s. AllFit l (il.rows s))
          (S.intents.update (λ r. r.id == u && allowed r.status) (set_status to))
  update-AllFit l u allowed to fits = record {
    at = λ s all. elim (il.rows-update (λ r. r.id == u && allowed r.status) (set_status to) s) [
      | inl same ↦ rw same all
      | inr changed ↦ rw changed (
          All-set_where (λ r. Fits r.status (is_posted l r.id)) (λ r. r.id == u && allowed r.status)
            (set_status to) (il.rows s)
            (λ r _ match.
              subst (λ (v : Uuid). Fits to (is_posted l v))
                (same_id r.id u (allowed r.status) match) fits)
            all)
    ];
  }

  move_row-AllFit :
      (l : S.ledger.Store) (allowed : TransactionStatus → Bool) (to : TransactionStatus)
      (refusal : Error) (reference : String)
      → ((u : Uuid) → S.uuids.parse reference ≡ some u → Fits to (is_posted l u))
      → Keeps (λ s. AllFit l (il.rows s)) (move_row S.uuids S.intents allowed to refusal reference)
  unfolding move_row
  move_row-AllFit l allowed to refusal reference h =
      Ensures-or_else _ (S.uuids.parse reference) not_found
        (λ u e.
          Keeps-bind (Keeps-wrap wrap_gorm_error (update-AllFit l u allowed to (h u e)))
            (λ moved. Keeps-bind (affected_row-Keeps refusal moved) (λ r. Keeps-pure _)))
        (λ s all. all)

  -- the fact that a call needs beside the invariant: a claim on whether the reference is posted
  abbrev pub Claim : (Bool → Type 0) → String → World S → Type 0
  Claim C reference w = (u : Uuid) → S.uuids.parse reference ≡ some u → C (is_posted w.ledger u)

  abbrev pub With : (Bool → Type 0) → String → World S → Type 0
  With C reference w = Inv w × Claim C reference w

  pub move_row-With :
      (C : Bool → Type 0) (allowed : TransactionStatus → Bool) (to : TransactionStatus)
      (refusal : Error) (reference : String)
      → ((b : Bool) → C b → Fits to b)
      → Keeps
          (With C reference)
          (on_intents S (move_row S.uuids S.intents allowed to refusal reference))
  move_row-With C allowed to refusal reference fits = record {
    at = λ w h. (
      (move_row-AllFit w.ledger allowed to refusal reference
            (λ u parsed. fits (is_posted w.ledger u) (h.1 u parsed))).at
          w.intents h.0,
      h.1,
    );
  }

-- The calls that touch neither the deposits nor the ledger keep whatever is said of those two.
module _ (S : Services) (P : S.ledger.Store → S.intents.State → Type 0) where
  abbrev pub On : World S → Type 0
  On w = P w.ledger w.intents

  pub on_broker-On : {A : Type 0} (m : Exec S.broker.State A) → Keeps On (on_broker S m)
  on_broker-On m = record { at = λ w h. h }

  pub on_users-On : {A : Type 0} (m : Exec S.users.State A) → Keeps On (on_users S m)
  on_users-On m = record { at = λ w h. h }

  pub on_wallets-On : {A : Type 0} (m : Exec S.wallets.State A) → Keeps On (on_wallets S m)
  on_wallets-On m = record { at = λ w h. h }

  pub on_provider-On : {A : Type 0} (m : Exec S.provider.State A) → Keeps On (on_provider S m)
  on_provider-On m = record { at = λ w h. h }

  module _ (p : PaymentWorker) where
    record_deposit-On : (x : TransactionIntent) → Keeps On (record_deposit S p x)
    unfolding record_deposit
    record_deposit-On x = search (keeps_rules, Keeps-attempt, on_broker-On)

    send_receipt-On : (x : TransactionIntent) (r : Result User) → Keeps On (send_receipt S p x r)
    send_receipt-On x (ok user) = search (keeps_rules, Keeps-attempt, on_broker-On)
    send_receipt-On x (err e) = Keeps-pure tt

    pub notify-On : (x : TransactionIntent) → Keeps On (notify S p x)
    unfolding notify
    notify-On x =
        search (keeps_rules, Keeps-attempt, record_deposit-On, on_users-On, send_receipt-On)

    pub cancel_poll-On : (reference : String) → Keeps On (cancel_poll S p reference)
    unfolding cancel_poll
    cancel_poll-On reference = search (keeps_rules, Keeps-attempt, on_broker-On)
