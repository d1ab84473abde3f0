-- ===== src/Ledger/Keeping.antt =====
-- internal/ledger/ledger.go: what a deposit or a transfer keeps, when the creation of accounts and of
-- its posting keep it.
use digital_wallet.Prelude.{ℕ, ◌≡◌, refl, inl, inr, List, [], ◌∷◌, All}
use digital_wallet.Exec.{ok, pure, raise}
use digital_wallet.Exec.Ensures.{Keeps, Keeps-bind, keeps_rules}
use digital_wallet.External.Uuids.{Uuid}
use digital_wallet.External.TigerBeetle.{
  TigerBeetle, TransferStatus, transfer_created, transfer_exists, exceeds_credits, transfer_refused,
  AccountStatus, account_created, account_exists, account_refused, IsSettled, Account,
}
use digital_wallet.Ledger.Accounts.{check_accounts, create_accounts, ensure_accounts}
use digital_wallet.Ledger.Transfers.{
  DepositParam, TransferParam, check_deposit, check_transfer, deposit_posting, transfer_posting,
  deposit, transfer,
}

module _ (T : TigerBeetle) where
  pub check_accounts-state :
      (sts : List AccountStatus) (s : T.Store) → (check_accounts T sts s).1 ≡ s
  unfolding check_accounts pure raise
  check_accounts-state [] s = refl
  check_accounts-state (account_created ∷ rest) s = check_accounts-state rest s
  check_accounts-state (account_exists ∷ rest) s = check_accounts-state rest s
  check_accounts-state (account_refused n ∷ rest) s = refl

  pub check_transfer-state :
      (sts : List TransferStatus) (s : T.Store) → (check_transfer T sts s).1 ≡ s
  unfolding check_transfer pure raise
  check_transfer-state [] s = refl
  check_transfer-state (transfer_created ∷ rest) s = check_transfer-state rest s
  check_transfer-state (transfer_exists ∷ rest) s = check_transfer-state rest s
  check_transfer-state (exceeds_credits ∷ rest) s = refl
  check_transfer-state (transfer_refused n ∷ rest) s = refl

  pub check_transfer-IsSettled :
      (sts : List TransferStatus) (s : T.Store)
      → (check_transfer T sts s).0 ≡ ok tt
      → All IsSettled sts
  unfolding check_transfer pure raise
  check_transfer-IsSettled [] s h = tt
  check_transfer-IsSettled (transfer_created ∷ rest) s h =
      (inl refl, check_transfer-IsSettled rest s h)
  check_transfer-IsSettled (transfer_exists ∷ rest) s h =
      (inr refl, check_transfer-IsSettled rest s h)
  check_transfer-IsSettled (exceeds_credits ∷ rest) s h = cc
  check_transfer-IsSettled (transfer_refused n ∷ rest) s h = cc

  pub check_deposit-state :
      (sts : List TransferStatus) (s : T.Store) → (check_deposit T sts s).1 ≡ s
  unfolding check_deposit pure raise
  check_deposit-state [] s = refl
  check_deposit-state (transfer_created ∷ rest) s = check_deposit-state rest s
  check_deposit-state (transfer_exists ∷ rest) s = check_deposit-state rest s
  check_deposit-state (exceeds_credits ∷ rest) s = refl
  check_deposit-state (transfer_refused n ∷ rest) s = refl

  pub check_deposit-IsSettled :
      (sts : List TransferStatus) (s : T.Store)
      → (check_deposit T sts s).0 ≡ ok tt
      → All IsSettled sts
  unfolding check_deposit pure raise
  check_deposit-IsSettled [] s h = tt
  check_deposit-IsSettled (transfer_created ∷ rest) s h =
      (inl refl, check_deposit-IsSettled rest s h)
  check_deposit-IsSettled (transfer_exists ∷ rest) s h =
      (inr refl, check_deposit-IsSettled rest s h)
  check_deposit-IsSettled (exceeds_credits ∷ rest) s h = cc
  check_deposit-IsSettled (transfer_refused n ∷ rest) s h = cc

module _ (T : TigerBeetle) (P : T.Store → Type 0)
    (accounts_keep : (accounts : List Account) → Keeps P (T.create_accounts accounts)) where
  ensure_accounts-Keeps : (l : ℕ) (w : Uuid) → Keeps P (ensure_accounts T l w)
  unfolding ensure_accounts create_accounts
  ensure_accounts-Keeps l w =
      Keeps-bind (accounts_keep _) (λ sts. record { at = λ s h. rw check_accounts-state h })

  check_transfer-Keeps : (sts : List TransferStatus) → Keeps P (check_transfer T sts)
  check_transfer-Keeps sts = record { at = λ s h. rw check_transfer-state h }

  check_deposit-Keeps : (sts : List TransferStatus) → Keeps P (check_deposit T sts)
  check_deposit-Keeps sts = record { at = λ s h. rw check_deposit-state h }

  pub transfer-Keeps :
      (p : TransferParam)
      → ((l : ℕ) → Keeps P (T.create_transfers (transfer_posting T l p ∷ [])))
      → Keeps P (transfer T p)
  unfolding transfer
  transfer-Keeps p create =
      search (keeps_rules, ensure_accounts-Keeps, create, check_transfer-Keeps) depth 12

  pub deposit-Keeps :
      (p : DepositParam)
      → ((l : ℕ) → Keeps P (T.create_transfers (deposit_posting T l p ∷ [])))
      → Keeps P (deposit T p)
  unfolding deposit
  deposit-Keeps p create =
      search (keeps_rules, ensure_accounts-Keeps, create, check_deposit-Keeps) depth 12
