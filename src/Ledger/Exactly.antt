-- ===== src/Ledger/Exactly.antt =====
-- internal/ledger/ledger.go: the postings of one deposit or transfer, and their amounts.
use digital_wallet.Prelude.{
  ℕ, ◌%◌, ◌^◌, ◌-◌, ◌≡◌, ◌≢◌, refl, ◌∙◌, true, arith, ltb, Bool-cases, inl, inr, some, Option, List,
  [], ◌∷◌, String,
}
use digital_wallet.Prelude.Int.{pos, negsuc}
use digital_wallet.Shared.Money.{Money, is_positive, uint64, int64}
use digital_wallet.Exec.{ok}
use digital_wallet.Exec.Ensures.{Ensures, Keeps}
use digital_wallet.External.TigerBeetle.{TigerBeetle, EntryLaws, Account, IsEntryOf, Posting}
use digital_wallet.Ledger.Types.{TransferCode, transfer_code, ledger_for_currency}
use digital_wallet.Ledger.Accounts.{account_id, transfer_id, settlement_account_id}
use digital_wallet.Ledger.Transfers.{
  DepositParam, TransferParam, deposit, transfer, deposit_posting, transfer_posting,
}
use digital_wallet.Ledger.Keeping.{transfer-Keeps, deposit-Keeps}
use digital_wallet.Ledger.Answers.{Anything, Settled, transfer-After, deposit-After}

-- A positive amount that is an `int64` reaches the ledger unchanged: the conversion to `uint64` does
-- not wrap.
uint64-positive : (m : Money) → int64 m ≡ m → is_positive m ≡ true → pos (uint64 m) ≡ m
unfolding int64 is_positive uint64
uint64-positive (pos n) range positive = elim (Bool-cases (ltb (n % 2 ^ 64) (2 ^ 63))) [
  | inl small ↦ rw small at range
  | inr large ↦ (let bad : negsuc (2 ^ 64 - 1 - n % 2 ^ 64) ≡ pos n = rw large at range in cc)
]
uint64-positive (negsuc n) range positive = ground arith

-- A posting in the ledger that moves `amount` from one account to another, on the ledger of that
-- currency.
pub record Moves (T : TigerBeetle) (entry : Option Posting) (from_account to_account : ℕ)
    (amount : Money) (currency : String) (kind : TransferCode) : Type 0 where
  pub posting : Posting
  pub is_there : entry ≡ some posting
  pub debited : posting.debit_account_id ≡ from_account
  pub credited : posting.credit_account_id ≡ to_account
  pub moved : ℕ
  pub moved_is : pos moved ≡ amount
  pub amount_is : posting.amount ≡ T.to_uint128 moved
  pub ledger_is : ledger_for_currency currency ≡ some posting.ledger
  pub code_is : posting.code ≡ transfer_code kind

module _ {T : TigerBeetle} (laws : EntryLaws T) where
  module _ (i : ℕ) (o : Option Posting) where
    -- what is posted under the id `i`
    abbrev Holds : T.Store → Type 0
    Holds s = laws.entry s i ≡ o

    accounts-Holds : (accounts : List Account) → Keeps Holds (T.create_accounts accounts)
    accounts-Holds accounts = record { at = λ s h. laws.entry-create_accounts accounts s i ∙ h }

    create-Holds : (t : Posting) → i ≢ t.id → Keeps Holds (T.create_transfers (t ∷ []))
    create-Holds t ne = record { at = λ s h. laws.entry_only t s i ne ∙ h }

    transfer-Holds :
        (p : TransferParam) → i ≢ transfer_id T p.transfer_id → Keeps Holds (transfer T p)
    unfolding transfer_posting
    transfer-Holds p ne = transfer-Keeps T Holds accounts-Holds p (λ l. create-Holds _ ne)

    deposit-Holds : (p : DepositParam) → i ≢ transfer_id T p.transfer_id → Keeps Holds (deposit T p)
    unfolding deposit_posting
    deposit-Holds p ne = deposit-Keeps T Holds accounts-Holds p (λ l. create-Holds _ ne)

  -- A request for one posting that is settled leaves a posting with its fields under its id.
  create-IsEntryOf :
      (Q : T.Store → Type 0) (t : Posting)
      → ((s : T.Store) → IsEntryOf t (laws.entry s t.id) → Q s)
      → Ensures Anything (T.create_transfers (t ∷ [])) (Settled Q)
  create-IsEntryOf Q t imp = record {
    at = λ s _ sts h all. imp _ (laws.entry_settled t s sts h all);
  }

  -- the money that a transfer asks to move, from the sender's account to the recipient's
  abbrev pub MovesTransfer : TransferParam → T.Store → Type 0
  MovesTransfer p s =
      Moves T (laws.entry s (T.bytes_to_uint128 p.transfer_id))
        (T.bytes_to_uint128 p.sender_wallet_id) (T.bytes_to_uint128 p.receipient_wallet_id) p.amount
        p.sender_currency TransferCode.internal

  transfer-MovesTransfer :
      (p : TransferParam)
      → int64 p.amount ≡ p.amount
      → Ensures Anything (transfer T p) (λ r s. r ≡ ok tt → MovesTransfer p s)
  unfolding transfer_posting transfer_id account_id
  transfer-MovesTransfer p range = transfer-After T (MovesTransfer p) p (λ l known positive.
      create-IsEntryOf (MovesTransfer p) (transfer_posting T l p) (λ s h.
        let (e, there, from, to, amount, ledger, code) = h in
        record {
          posting = e;
          is_there = there;
          debited = from;
          credited = to;
          moved = uint64 p.amount;
          moved_is = uint64-positive p.amount range positive;
          amount_is = amount;
          ledger_is = cc;
          code_is = code;
        }))

  -- the money that a deposit asks to move, from the settlement account of the ledger to the wallet's
  abbrev pub MovesDeposit : DepositParam → T.Store → Type 0
  MovesDeposit p s =
      (l : ℕ) × (ledger_for_currency p.currency ≡ some l)
      × Moves T (laws.entry s (T.bytes_to_uint128 p.transfer_id)) (T.to_uint128 l)
          (T.bytes_to_uint128 p.wallet_id) p.amount p.currency TransferCode.deposit

  deposit-MovesDeposit :
      (p : DepositParam)
      → int64 p.amount ≡ p.amount
      → Ensures Anything (deposit T p) (λ r s. r ≡ ok tt → MovesDeposit p s)
  unfolding deposit_posting transfer_id account_id settlement_account_id
  deposit-MovesDeposit p range = deposit-After T (MovesDeposit p) p (λ l known positive.
      create-IsEntryOf (MovesDeposit p) (deposit_posting T l p) (λ s h.
        let (e, there, from, to, amount, ledger, code) = h in
        (
          l,
          known,
          record {
            posting = e;
            is_there = there;
            debited = from;
            credited = to;
            moved = uint64 p.amount;
            moved_is = uint64-positive p.amount range positive;
            amount_is = amount;
            ledger_is = cc;
            code_is = code;
          },
        )))

  -- When a transfer of an `int64` amount returns no error, the ledger has under the transfer's id a
  -- posting of that amount from the sender's account to the recipient's, on the ledger of the
  -- currency; and what is posted under every other id is as before.
  pub transfer_posts_exactly :
      (p : TransferParam) (s : T.Store)
      → int64 p.amount ≡ p.amount
      → (transfer T p s).0 ≡ ok tt
      → MovesTransfer p (transfer T p s).1
        × ((i : ℕ)
            → i ≢ T.bytes_to_uint128 p.transfer_id
            → laws.entry (transfer T p s).1 i ≡ laws.entry s i)
  unfolding transfer_id
  transfer_posts_exactly p s range h = (
    (transfer-MovesTransfer p range).at s tt h,
    λ i other. (transfer-Holds i (laws.entry s i) p other).at s refl,
  )

  -- When a deposit of an `int64` amount returns no error, the ledger has under the deposit's id a
  -- posting of that amount from the settlement account of the currency's ledger to the wallet's
  -- account, on that ledger; and what is posted under every other id is as before.
  pub deposit_posts_exactly :
      (p : DepositParam) (s : T.Store)
      → int64 p.amount ≡ p.amount
      → (deposit T p s).0 ≡ ok tt
      → MovesDeposit p (deposit T p s).1
        × ((i : ℕ)
            → i ≢ T.bytes_to_uint128 p.transfer_id
            → laws.entry (deposit T p s).1 i ≡ laws.entry s i)
  unfolding transfer_id
  deposit_posts_exactly p s range h = (
    (deposit-MovesDeposit p range).at s tt h,
    λ i other. (deposit-Holds i (laws.entry s i) p other).at s refl,
  )
