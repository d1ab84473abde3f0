-- ===== src/Api/Events.antt =====
-- internal/api/events: the bus and the listeners to a new transfer. A handler's panic, which the bus
-- recovers from, is not modelled; a handler returns nothing, so its errors are dropped.
use digital_wallet.Prelude.{String, List, [], ◌∷◌}
use digital_wallet.Shared.Money.{Money}
use digital_wallet.Exec.{Exec, pure, attempt}
use digital_wallet.Queues.Tasks.{
  transfer_task, default_task, enqueue_with_context, transfer_execute, update_user_activity,
  activity,
}
use digital_wallet.Queues.Services.{Services, World, on_broker}

pub record TransferInitiatedPayload : Type 0 where
  pub transfer_id : String
  pub user_id : String
  pub amount_minor : Money
  pub currency : String

module _ (S : Services) where
  abbrev pub Listener : Type 0 → Type 0
  Listener Payload = Payload → Exec (World S) Unit

  -- the handlers subscribed to one event, in the order in which they were subscribed
  abbrev pub publish : {Payload : Type 0} → List (Listener Payload) → Payload → Exec (World S) Unit
  publish [] payload = pure tt
  publish (handler ∷ handlers) payload = attempt (handler payload) (λ r. publish handlers payload)

  -- RegisterTransferListeners
  unfoldable pub execute_listener : Listener TransferInitiatedPayload
  unfolding transfer_task enqueue_with_context
  execute_listener event = on_broker S (
      enqueue_with_context S.broker
        (transfer_task transfer_execute (record { transfer_id = event.transfer_id })))

  -- RegisterTransferActivityListeners
  unfoldable pub activity_listener : Listener TransferInitiatedPayload
  unfolding enqueue_with_context
  activity_listener event = on_broker S (
      enqueue_with_context S.broker (
        default_task update_user_activity
          (activity (record { user_id = event.user_id; action = "Started a transfer" }))))

  -- the listeners to `transfer.initiated` that cmd/main.go registers
  abbrev pub transfer_listeners : List (Listener TransferInitiatedPayload)
  transfer_listeners = execute_listener ∷ activity_listener ∷ []
