-- ===== src/External/Broker.antt =====
-- asynq: the client that puts a task on a queue and the inspector that takes one off, for any type of
-- tasks.
use digital_wallet.Prelude.{String}
use digital_wallet.Exec.{Exec}

pub record Broker (Task : Type 0) : Type 1 where
  pub State : Type 0
  -- `client.EnqueueContext`; a task id in use is `task_id_conflict`
  pub enqueue : Task → Exec State Unit
  -- `Inspector.DeleteTask(queue, id)`
  pub delete_task : String → String → Exec State Unit
