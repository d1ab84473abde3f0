-- ===== src/Ledger/Postings.antt =====
-- internal/ledger/ledger.go: whether a transfer is posted, before and after each operation.
use digital_wallet.Prelude.{ℕ, ◌≡◌, ◌≢◌, ◌∙◌, Bool, true, List}
use digital_wallet.Exec.Ensures.{Keeps, keeps_rules}
use digital_wallet.External.Uuids.{Uuid}
use digital_wallet.External.TigerBeetle.{TigerBeetle, TigerBeetleLaws, Account}
use digital_wallet.Ledger.Accounts.{transfer_id}
use digital_wallet.Ledger.Transfers.{
  DepositParam, TransferParam, deposit_posting, transfer_posting, deposit, transfer, has_posting,
}
use digital_wallet.Ledger.Keeping.{transfer-Keeps, deposit-Keeps}

module _ {T : TigerBeetle} (laws : TigerBeetleLaws T) (i : ℕ) (b : Bool) where
  -- whether the transfer `i` is posted
  abbrev pub Posted : T.Store → Type 0
  Posted s = laws.posted s i ≡ b

  pub create_accounts-Posted : (accounts : List Account) → Keeps Posted (T.create_accounts accounts)
  create_accounts-Posted accounts = record {
    at = λ s h. laws.posted-create_accounts accounts s i ∙ h;
  }

  lookup-Posted : (is : List ℕ) → Keeps Posted (T.lookup_transfers is)
  lookup-Posted is = record { at = λ s h. laws.posted-lookup_transfers is s i ∙ h }

  pub has_posting-Posted : (u : Uuid) → Keeps Posted (has_posting T u)
  unfolding has_posting
  has_posting-Posted u = search (keeps_rules, lookup-Posted)

module _ {T : TigerBeetle} (laws : TigerBeetleLaws T) (i : ℕ) where
  pub transfer_stays : (p : TransferParam) → Keeps (Posted laws i true) (transfer T p)
  transfer_stays p =
      transfer-Keeps T (Posted laws i true) (create_accounts-Posted laws i true) p
        (λ l. record { at = λ s h. laws.posted_stays _ s i h })

  pub deposit_stays : (p : DepositParam) → Keeps (Posted laws i true) (deposit T p)
  deposit_stays p =
      deposit-Keeps T (Posted laws i true) (create_accounts-Posted laws i true) p
        (λ l. record { at = λ s h. laws.posted_stays _ s i h })

  pub transfer_only :
      (p : TransferParam) (b : Bool)
      → i ≢ transfer_id T p.transfer_id
      → Keeps (Posted laws i b) (transfer T p)
  unfolding transfer_posting
  transfer_only p b ne =
      transfer-Keeps T (Posted laws i b) (create_accounts-Posted laws i b) p
        (λ l. record { at = λ s h. laws.posted_only _ s i ne ∙ h })

  pub deposit_only :
      (p : DepositParam) (b : Bool)
      → i ≢ transfer_id T p.transfer_id
      → Keeps (Posted laws i b) (deposit T p)
  unfolding deposit_posting
  deposit_only p b ne =
      deposit-Keeps T (Posted laws i b) (create_accounts-Posted laws i b) p
        (λ l. record { at = λ s h. laws.posted_only _ s i ne ∙ h })
