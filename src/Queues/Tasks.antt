-- ===== src/Queues/Tasks.antt =====
-- The tasks of internal/queues: payloads, their retry policy (utils.go, payment.go, transfer.go), and
-- how one is put on the queue. A payload travels as JSON and is kept as the record. A task id such as
-- `TaskTypePaymentPoll + ":" + reference` is kept as its two parts.
use digital_wallet.Prelude.{ℕ, String, Option, none, some, List, if◌then◌else◌}
use digital_wallet.Shared.{is_task_id_conflict}
use digital_wallet.Shared.Money.{Money}
use digital_wallet.Exec.{Result, ok, err, Exec, pure, raise, attempt}
use digital_wallet.External.Provider.{PaymentStatus}
use digital_wallet.External.Broker.{Broker}

pub record TransferPayload : Type 0 where
  pub transfer_id : String

pub record PaymentPayload : Type 0 where
  pub reference : String
  pub provider : String
  pub event : String
  pub status : Option PaymentStatus
  pub amount_minor : Money
  pub currency : String

pub record ActivityPayload : Type 0 where
  pub user_id : String
  pub action : String

pub record EmailPayload : Type 0 where
  pub to : List String
  pub subject : String
  pub template : String
  pub otp : String
  pub first_name : String
  pub last_name : String
  pub values : List (String × String)

pub data TaskType : Type 0 where
  transfer_execute payment_webhook payment_poll update_user_activity email_send : TaskType

pub data Payload : Type 0 where
  transfer : TransferPayload → Payload
  payment : PaymentPayload → Payload
  activity : ActivityPayload → Payload
  email : EmailPayload → Payload

pub record Task : Type 0 where
  pub name : TaskType
  pub payload : Payload
  pub max_retry : ℕ
  pub process_in : ℕ
  pub task_id : Option (TaskType × String)

-- `GenerateNewTask` with no further option
abbrev pub default_task : TaskType → Payload → Task
default_task name payload = record {
  name = name;
  payload = payload;
  max_retry = 3;
  process_in = 0;
  task_id = none;
}

abbrev pub transfer_max_retry : ℕ
transfer_max_retry = 10

abbrev pub payment_webhook_retry : ℕ
payment_webhook_retry = 10

-- `TransferWorker.GenerateNewTask`
unfoldable pub transfer_task : TaskType → TransferPayload → Task
transfer_task transfer_execute payload = record (default_task transfer_execute (transfer payload)) {
  max_retry = transfer_max_retry;
  task_id = some (transfer_execute, payload.transfer_id);
}
transfer_task name payload = default_task name (transfer payload)

-- `PaymentWorker.GenerateNewTask`, with the worker's retries and interval of polling
unfoldable pub payment_task : ℕ → ℕ → TaskType → PaymentPayload → Task
payment_task poll_max_retry poll_interval payment_poll payload =
    record (default_task payment_poll (payment payload)) {
      max_retry = poll_max_retry;
      process_in = poll_interval;
      task_id = some (payment_poll, payload.reference);
    }
payment_task poll_max_retry poll_interval payment_webhook payload =
    record (default_task payment_webhook (payment payload)) { max_retry = payment_webhook_retry }
payment_task poll_max_retry poll_interval name payload = default_task name (payment payload)

-- `EnqueueWithContext`: a task that is already queued is no error.
unfoldable pub enqueue_with_context : (B : Broker Task) → Task → Exec B.State Unit
enqueue_with_context B task = attempt (B.enqueue task) answer
  where
    answer : Result (Unit {0}) → Exec B.State Unit
    answer (ok _) = pure tt
    answer (err e) = if is_task_id_conflict e then pure tt else raise e
