-- ===== src/External/TigerBeetle.antt =====
-- The TigerBeetle client, as far as internal/ledger/ledger.go calls it. Identifiers are 128-bit.
use digital_wallet.Prelude.{
  ℕ, Option, some, ◌≡◌, ◌≢◌, ◌⊎◌, Bool, true, not, List, [], ◌∷◌, is_empty, All,
}
use digital_wallet.Exec.{ok, Exec}
use digital_wallet.External.Uuids.{Uuid}

pub record Account : Type 0 where
  pub id : ℕ
  pub ledger : ℕ
  pub code : ℕ
  -- the only flag that the program sets
  pub debits_must_not_exceed_credits : Bool

-- What `LookupAccounts` returns, in the fields that the program reads.
pub record Totals : Type 0 where
  pub account : ℕ
  pub credits_posted : ℕ
  pub debits_posted : ℕ

pub record Posting : Type 0 where
  pub id : ℕ
  pub debit_account_id : ℕ
  pub credit_account_id : ℕ
  pub amount : ℕ
  pub ledger : ℕ
  pub code : ℕ
  pub timestamp : ℕ

-- `refused` is any other status of the client's enumeration.
pub data AccountStatus : Type 0 where
  account_created account_exists : AccountStatus
  account_refused : ℕ → AccountStatus

pub data TransferStatus : Type 0 where
  transfer_created transfer_exists exceeds_credits : TransferStatus
  transfer_refused : ℕ → TransferStatus

pub record TigerBeetle : Type 1 where
  pub Store : Type 0
  pub bytes_to_uint128 : Uuid → ℕ
  pub to_uint128 : ℕ → ℕ
  -- `uuid.UUID(id.Bytes())`
  pub to_uuid : ℕ → Uuid
  pub create_accounts : List Account → Exec Store (List AccountStatus)
  pub create_transfers : List Posting → Exec Store (List TransferStatus)
  pub lookup_transfers : List ℕ → Exec Store (List Posting)
  pub lookup_accounts : List ℕ → Exec Store (List Totals)
  -- the newest postings on both sides of an account, at most as many as given
  pub get_account_transfers : ℕ → ℕ → Exec Store (List Posting)

abbrev pub IsSettled : TransferStatus → Type 0
IsSettled st = (st ≡ transfer_created) ⊎ (st ≡ transfer_exists)

-- Sixteen bytes are a 128-bit number in one way. A transfer, once posted, stays; a request to create one transfer posts no other; and a request
-- whose every status is "created" or "exists" has posted it, while one that met an error may or may
-- not have.
pub record TigerBeetleLaws (T : TigerBeetle) : Type 0 where
  pub bytes_injective : (u v : Uuid) → T.bytes_to_uint128 u ≡ T.bytes_to_uint128 v → u ≡ v
  pub posted : T.Store → ℕ → Bool
  pub posted-create_accounts :
      (accounts : List Account) (s : T.Store) (i : ℕ)
      → posted (T.create_accounts accounts s).1 i ≡ posted s i
  pub posted-lookup_transfers :
      (is : List ℕ) (s : T.Store) (i : ℕ) → posted (T.lookup_transfers is s).1 i ≡ posted s i
  pub posted_stays :
      (t : Posting) (s : T.Store) (i : ℕ)
      → posted s i ≡ true
      → posted (T.create_transfers (t ∷ []) s).1 i ≡ true
  pub posted_only :
      (t : Posting) (s : T.Store) (i : ℕ)
      → i ≢ t.id
      → posted (T.create_transfers (t ∷ []) s).1 i ≡ posted s i
  pub settled_posts :
      (t : Posting) (s : T.Store) (sts : List TransferStatus)
      → (T.create_transfers (t ∷ []) s).0 ≡ ok sts
      → All IsSettled sts
      → posted (T.create_transfers (t ∷ []) s).1 t.id ≡ true
  pub lookup_finds :
      (i : ℕ) (s : T.Store) (ts : List Posting)
      → (T.lookup_transfers (i ∷ []) s).0 ≡ ok ts
      → posted s i ≡ not (is_empty ts)

-- The fields that make a posting what it is. Its time is the ledger's.
abbrev pub IsEntryOf : Posting → Option Posting → Type 0
IsEntryOf t o =
    (e : Posting) × (o ≡ some e)
    × (e.debit_account_id ≡ t.debit_account_id)
    × (e.credit_account_id ≡ t.credit_account_id)
    × (e.amount ≡ t.amount)
    × (e.ledger ≡ t.ledger)
    × (e.code ≡ t.code)

-- What is posted under each id. Creating accounts posts nothing, and a request to create one transfer
-- changes no other id. "Created" and "exists" say that the id has a transfer of these fields: for
-- the same id with another field TigerBeetle answers with another status.
pub record EntryLaws (T : TigerBeetle) : Type 0 where
  pub entry : T.Store → ℕ → Option Posting
  pub entry-create_accounts :
      (accounts : List Account) (s : T.Store) (i : ℕ)
      → entry (T.create_accounts accounts s).1 i ≡ entry s i
  pub entry_only :
      (t : Posting) (s : T.Store) (i : ℕ)
      → i ≢ t.id
      → entry (T.create_transfers (t ∷ []) s).1 i ≡ entry s i
  pub entry_settled :
      (t : Posting) (s : T.Store) (sts : List TransferStatus)
      → (T.create_transfers (t ∷ []) s).0 ≡ ok sts
      → All IsSettled sts
      → IsEntryOf t (entry (T.create_transfers (t ∷ []) s).1 t.id)
