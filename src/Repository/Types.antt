-- ===== src/Repository/Types.antt =====
-- internal/repository/db/types.go and internal/repository/types.go: rows, and what the repository
-- hands out. A status is one of the constants that the code writes. `UpdatedAt`, which gorm sets and
-- nothing reads, is left out.
use digital_wallet.Prelude.{Option, ℕ, String, Bool, true, false}
use digital_wallet.Shared.Money.{Money}
use digital_wallet.External.Uuids.{Uuid}

pub data TransactionStatus : Type 0 where
  pending success failed refunding refunded : TransactionStatus

pub data WalletStatus : Type 0 where
  active frozen closed : WalletStatus

abbrev pub is_pending : TransactionStatus → Bool
is_pending pending = true
is_pending _ = false

abbrev pub is_failed : TransactionStatus → Bool
is_failed failed = true
is_failed _ = false

abbrev pub is_success : TransactionStatus → Bool
is_success success = true
is_success _ = false

abbrev pub is_refunding : TransactionStatus → Bool
is_refunding refunding = true
is_refunding _ = false

abbrev pub is_active : WalletStatus → Bool
is_active active = true
is_active _ = false

-- db.User
pub record UserRow : Type 0 where
  pub id : Uuid
  pub first_name : String
  pub last_name : String
  pub email : String
  pub passwordhash : Option String
  pub phone_number : Option String
  pub date_of_birth : Option ℕ
  pub profile_photo_url : Option String
  pub gender : String
  pub is_active : Bool
  pub is_verified : Bool

pub record User : Type 0 where
  pub id : String
  pub first_name : String
  pub last_name : String
  pub email : String
  pub phone_number : Option String
  pub date_of_birth : Option ℕ
  pub profile_photo_url : Option String
  pub gender : String
  pub is_verified : Bool
  pub is_active : Bool

-- `none` is a nil pointer: a column that is not given
pub record UserInputParam : Type 0 where
  pub id : Option String
  pub first_name : Option String
  pub last_name : Option String
  pub email : Option String
  pub passwordhash : Option String
  pub phone_number : Option String
  pub date_of_birth : Option ℕ
  pub profile_photo_url : Option String
  pub gender : Option String
  pub is_verified : Option Bool

-- `none` is a nil pointer: no condition
pub record UserFilters : Type 0 where
  pub first_name : Option String
  pub last_name : Option String
  pub email : Option String
  pub gender : Option String

-- db.Wallet
pub record WalletRow : Type 0 where
  pub id : Uuid
  pub account_number : String
  pub user_id : Uuid
  pub currency : String
  pub status : WalletStatus
  pub created_at : ℕ

-- db.UserActivity; the id is the database's next number
pub record ActivityRow : Type 0 where
  pub id : ℕ
  pub user_id : Uuid
  pub action : String
  pub created_at : ℕ

-- `CreatedAt`, which is printed, is kept as it is.
pub record Activity : Type 0 where
  pub id : ℕ
  pub user_id : String
  pub action : String
  pub created_at : ℕ

-- db.Transfer
pub record TransferRow : Type 0 where
  pub id : Uuid
  pub sender_user_id : Uuid
  pub sender_wallet_id : Uuid
  pub recipient_user_id : Uuid
  pub recipient_wallet_id : Uuid
  pub amount : Money
  pub currency : String
  pub status : TransactionStatus
  pub failure_reason : String
  pub created_at : ℕ

-- db.TransactionIntent
pub record IntentRow : Type 0 where
  pub id : Uuid
  pub user_id : Uuid
  pub amount : Money
  pub status : TransactionStatus
  pub wallet : Uuid
  pub provider : String
  pub created_at : ℕ

pub record Wallet : Type 0 where
  pub id : String
  pub account_number : String
  pub user_id : String
  pub currency : String
  pub status : WalletStatus

pub record Transfer : Type 0 where
  pub id : String
  pub sender_user_id : String
  pub sender_wallet_id : String
  pub recipient_user_id : String
  pub recipient_wallet_id : String
  pub amount : Money
  pub currency : String
  pub status : TransactionStatus
  pub failure_reason : String
  pub created_at : ℕ

pub record TransactionIntent : Type 0 where
  pub id : String
  pub user_id : String
  pub wallet_id : String
  pub amount : Money
  pub status : TransactionStatus
  pub provider : String
  pub created_at : ℕ

pub record CreateTransferParam : Type 0 where
  pub sender_user_id : String
  pub sender_wallet_id : String
  pub recipient_user_id : String
  pub recipient_wallet_id : String
  pub amount : Money
  pub currency : String

pub record CreateIntentParam : Type 0 where
  pub user_id : String
  pub wallet_id : String
  pub amount : Money
  pub provider : String
