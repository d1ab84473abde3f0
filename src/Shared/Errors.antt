-- ===== src/Shared/Errors.antt =====
-- Errors. The program tells errors apart by `errors.Is` against sentinel values, so an error is the
-- sentinel that it wraps; the text around it is not modelled. `other` stands for an error of a
-- library or a service that wraps no sentinel of the program.
use digital_wallet.Prelude.{ℕ, String, Bool, true, false}

pub data Error : Type 0 where
  -- gorm's own sentinels
  record_not_found duplicated_key : Error
  -- internal/repository/errors.go, transaction_repository.go, transfer_repository.go
  not_found already_exists nothing_to_update no_identifier : Error
  intent_not_pending intent_succeeded intent_not_failed transfer_not_pending : Error
  account_number_exhausted : Error
  -- internal/ledger/ledger.go
  rejected insufficient_funds cross_currency : Error
  -- shared/payment.go
  provider_unavailable invalid_signature reference_not_found unhandled_webhook : Error
  -- internal/queues/middleware.go, and asynq's own marker
  retry_later skip_retry : Error
  task_id_conflict task_not_found queue_not_found : Error
  -- internal/otp/store.go
  otp_not_found otp_mismatch too_many_tries : Error
  -- shared.AppError, by its HTTP status and message
  app_error : ℕ → String → Error
  other : ℕ → Error

abbrev pub is_not_found : Error → Bool
is_not_found not_found = true
is_not_found _ = false

abbrev pub is_already_exists : Error → Bool
is_already_exists already_exists = true
is_already_exists _ = false

abbrev pub is_nothing_to_update : Error → Bool
is_nothing_to_update nothing_to_update = true
is_nothing_to_update _ = false

abbrev pub is_intent_not_pending : Error → Bool
is_intent_not_pending intent_not_pending = true
is_intent_not_pending _ = false

abbrev pub is_intent_succeeded : Error → Bool
is_intent_succeeded intent_succeeded = true
is_intent_succeeded _ = false

abbrev pub is_intent_not_failed : Error → Bool
is_intent_not_failed intent_not_failed = true
is_intent_not_failed _ = false

abbrev pub is_transfer_not_pending : Error → Bool
is_transfer_not_pending transfer_not_pending = true
is_transfer_not_pending _ = false

abbrev pub is_rejected : Error → Bool
is_rejected rejected = true
is_rejected _ = false

abbrev pub is_reference_not_found : Error → Bool
is_reference_not_found reference_not_found = true
is_reference_not_found _ = false

abbrev pub is_retry_later : Error → Bool
is_retry_later retry_later = true
is_retry_later _ = false

abbrev pub is_skip_retry : Error → Bool
is_skip_retry skip_retry = true
is_skip_retry _ = false

abbrev pub is_unhandled_webhook : Error → Bool
is_unhandled_webhook unhandled_webhook = true
is_unhandled_webhook _ = false

abbrev pub is_task_id_conflict : Error → Bool
is_task_id_conflict task_id_conflict = true
is_task_id_conflict _ = false
