-- ===== src/Queues/PaymentWorker.antt =====
-- internal/queues/payment.go: the worker that settles, fails and refunds deposits.
pub mod Marks
pub mod Exact
pub mod Settling
pub mod Once
pub mod Handlers
pub mod PaidBack
pub mod Refunds
pub mod NeverBoth
pub mod Race
use Prim.Native.String.{◌++◌}
use digital_wallet.Prelude.{
  ℕ, String, Bool, true, false, not, ◌&&◌, List, [], ◌∷◌, Option, none, some, str_eq, if◌then◌else◌,
}
use digital_wallet.Prelude.Int.{eq_ℤ}
use digital_wallet.Prelude.Text.{equal_fold}
use digital_wallet.Shared.{
  Error, is_rejected, is_intent_not_pending, is_intent_succeeded, is_intent_not_failed,
  is_reference_not_found, skip_retry, retry_later,
}
use digital_wallet.Shared.Money.{Money, to_string}
use digital_wallet.Exec.{Result, ok, err, Exec, pure, raise, attempt, wrap, or_else, ◌>>=◌, ◌>>◌}
use digital_wallet.External.Uuids.{Uuid}
use digital_wallet.External.Provider.{PaymentStatus, PaymentVerification}
use digital_wallet.Ledger.Transfers as Ledger
use digital_wallet.Repository.Types.{
  TransactionStatus, pending, failed, refunding, is_failed, is_active, Wallet, TransactionIntent,
  User,
}
use digital_wallet.Repository.Intents.{
  get_intent_by_reference, mark_intent_failed, mark_intent_refunding, mark_intent_refunded,
  mark_intent_succeeded,
}
use digital_wallet.Repository.Wallets.{get_wallet_by_id}
use digital_wallet.Repository.Users.{get_user_by_id}
use digital_wallet.Queues.Tasks.{
  PaymentPayload, ActivityPayload, EmailPayload, Task, update_user_activity, email_send, activity,
  email, default_task, enqueue_with_context,
}
use digital_wallet.Queues.Services.{
  Services, World, on_users, on_wallets, on_intents, on_ledger, on_provider, on_broker,
}
use digital_wallet.Queues.TransferWorker.{skip_if_missing, ignore, decode, parse_id}

-- which of the worker's optional parts are configured, and its queue
pub record PaymentWorker : Type 0 where
  pub has_ledger : Bool
  pub has_provider : Bool
  pub has_inspector : Bool
  pub has_activity : Bool
  pub has_email : Bool
  pub queue : String
  -- `PollTaskID`
  pub poll_task_id : String → String

abbrev pub email_deposit_success : String
email_deposit_success = "deposit-success"

-- a task that reaches the worker
pub data Delivery : Type 0 where
  webhook poll poll_exhausted : Option PaymentPayload → Delivery

abbrev pub skip_if_rejected : Error → Error
skip_if_rejected e = if is_rejected e then skip_retry else e

abbrev pub later_if_unknown : Error → Error
later_if_unknown e = if is_reference_not_found e then retry_later else e

module _ (S : Services) (p : PaymentWorker) where
  -- the receipt, for a user who could be loaded
  abbrev pub send_receipt : TransactionIntent → Result User → Exec (World S) Unit
  send_receipt intent (err e) = pure tt
  send_receipt intent (ok user) =
      attempt
        (on_broker S (
          enqueue_with_context S.broker (
            default_task email_send (
              email (record {
                to = user.email ∷ [];
                subject = "Your DigiWallet Deposit Was Successful";
                template = email_deposit_success;
                otp = "";
                first_name = user.first_name;
                last_name = user.last_name;
                values =
                    ("first_name", user.first_name)
                    ∷ ("last_name", user.last_name)
                    ∷ ("amount", to_string intent.amount)
                    ∷ ("reference", intent.id)
                    ∷ [];
              })))))
        (ignore S)

  unfoldable pub record_deposit : TransactionIntent → Exec (World S) Unit
  record_deposit intent =
      if p.has_activity
      then attempt
          (on_broker S (
            enqueue_with_context S.broker (
              default_task update_user_activity (
                activity (record {
                  user_id = intent.user_id;
                  action = "Deposited " ++ to_string intent.amount ++ " into wallet";
                })))))
          (ignore S)
      else pure tt

  unfoldable pub notify : TransactionIntent → Exec (World S) Unit
  unfolding record_deposit
  notify intent = do
    record_deposit intent
    if p.has_email
        then attempt (on_users S (get_user_by_id S.uuids S.users intent.user_id))
            (send_receipt intent)
        else pure tt

  abbrev pub after_fail : Result TransactionIntent → Exec (World S) Unit
  after_fail (ok intent) = pure tt
  after_fail (err e) = if is_intent_not_pending e then pure tt else raise e

  unfoldable pub fail : String → Exec (World S) Unit
  fail reference =
      attempt (on_intents S (mark_intent_failed S.uuids S.intents reference)) after_fail

  abbrev pub after_succeeded : Result TransactionIntent → Exec (World S) Unit
  after_succeeded (ok settled) = notify settled
  after_succeeded (err e) = if is_intent_succeeded e then pure tt else raise e

  unfoldable pub close_succeeded : String → Exec (World S) Unit
  close_succeeded reference =
      attempt (on_intents S (mark_intent_succeeded S.uuids S.intents reference)) after_succeeded

  abbrev pub after_refunded : Result TransactionIntent → Exec (World S) Unit
  after_refunded (ok intent) = pure tt
  after_refunded (err e) = if is_intent_not_failed e then pure tt else raise e

  abbrev pub pay_back : TransactionIntent → Result TransactionIntent → Exec (World S) Unit
  pay_back intent (err e) = if is_intent_not_failed e then pure tt else raise e
  pay_back intent (ok _) = do
    on_provider S (S.provider.refund intent.id intent.amount)
    attempt (on_intents S (mark_intent_refunded S.uuids S.intents intent.id)) after_refunded

  -- the end of `refundLatePayment`, from `MarkIntentRefunding` on
  unfoldable pub refund : TransactionIntent → Exec (World S) Unit
  refund intent =
      attempt (on_intents S (mark_intent_refunding S.uuids S.intents intent.id)) (pay_back intent)

  unfoldable pub refund_late_payment : TransactionIntent → Exec (World S) Unit
  refund_late_payment intent = if not p.has_provider then raise skip_retry else do
    intent_id ← parse_id S intent.id
    if is_failed intent.status
        then (do
          credited ← on_ledger S (Ledger.has_posting S.ledger intent_id)
          if credited then close_succeeded intent.id else refund intent)
        else refund intent

  -- `settle` of a pending deposit, from the loaded wallet on
  unfoldable pub credit : String → String → TransactionIntent → Wallet → Exec (World S) Unit
  credit reference currency intent wallet =
      if not (str_eq currency "") && not (equal_fold currency wallet.currency)
      then raise skip_retry
      else if not (is_active wallet.status)
      then raise skip_retry
      else do
        intent_id ← parse_id S intent.id
        wallet_id ← parse_id S wallet.id
        wrap skip_if_rejected (
            on_ledger S (
              Ledger.deposit S.ledger (record {
                transfer_id = intent_id;
                wallet_id = wallet_id;
                currency = wallet.currency;
                amount = intent.amount;
              })))
        close_succeeded reference

  unfoldable pub settle_pending : String → Money → String → TransactionIntent → Exec (World S) Unit
  settle_pending reference amount currency intent =
      if not (eq_ℤ amount intent.amount) then raise skip_retry else do
        wallet ←
            wrap skip_if_missing
              (on_wallets S (get_wallet_by_id S.uuids S.wallets intent.wallet_id))
        credit reference currency intent wallet

  -- the `switch` on the status of the loaded deposit
  abbrev pub settle_by_status :
      TransactionStatus → String → Money → String → TransactionIntent → Exec (World S) Unit
  settle_by_status pending reference amount currency intent =
      settle_pending reference amount currency intent
  settle_by_status failed reference amount currency intent = refund_late_payment intent
  settle_by_status refunding reference amount currency intent = refund_late_payment intent
  settle_by_status _ reference amount currency intent = pure tt

  unfoldable pub settle : String → Money → String → Exec (World S) Unit
  settle reference amount currency = if not p.has_ledger then raise skip_retry else do
    intent ←
        wrap skip_if_missing (on_intents S (get_intent_by_reference S.uuids S.intents reference))
    settle_by_status intent.status reference amount currency intent

  unfoldable pub cancel_poll : String → Exec (World S) Unit
  cancel_poll reference =
      if p.has_inspector
      then attempt (on_broker S (S.broker.delete_task p.queue (p.poll_task_id reference)))
          (ignore S)
      else pure tt

  abbrev pub act_on_webhook : PaymentPayload → Option PaymentStatus → Exec (World S) Unit
  act_on_webhook payload (some PaymentStatus.success) = do
    settle payload.reference payload.amount_minor payload.currency
    cancel_poll payload.reference
  act_on_webhook payload (some PaymentStatus.failed) = do
    fail payload.reference
    cancel_poll payload.reference
  act_on_webhook payload _ = pure tt

  unfoldable pub handle_payment_webhook : Option PaymentPayload → Exec (World S) Unit
  handle_payment_webhook task = do payload ← decode S task; act_on_webhook payload payload.status

  abbrev pub act_on_poll : String → PaymentStatus → PaymentVerification → Exec (World S) Unit
  act_on_poll reference PaymentStatus.success verification =
      settle reference verification.amount verification.currency
  act_on_poll reference PaymentStatus.failed verification = fail reference
  act_on_poll reference _ verification = raise retry_later

  abbrev pub poll_by_status : String → TransactionStatus → Exec (World S) Unit
  poll_by_status reference pending = do
    verification ← wrap later_if_unknown (on_provider S (S.provider.verify reference))
    act_on_poll reference verification.status verification
  poll_by_status reference _ = pure tt

  unfoldable pub handle_payment_poll : Option PaymentPayload → Exec (World S) Unit
  handle_payment_poll task = do
    payload ← decode S task
    if not p.has_provider then raise skip_retry else do
      intent ←
          wrap skip_if_missing
            (on_intents S (get_intent_by_reference S.uuids S.intents payload.reference))
      poll_by_status payload.reference intent.status

  -- It returns nothing: its errors are only logged.
  unfoldable pub handle_poll_exhausted : Option PaymentPayload → Exec (World S) Unit
  handle_poll_exhausted none = pure tt
  handle_poll_exhausted (some payload) = attempt (fail payload.reference) (ignore S)

  -- the registrations of the payment handlers with the task server
  abbrev pub deliver : Delivery → Exec (World S) Unit
  deliver (webhook task) = handle_payment_webhook task
  deliver (poll task) = handle_payment_poll task
  deliver (poll_exhausted task) = handle_poll_exhausted task

  -- the state after deliveries that are handled one after another
  abbrev pub run : List Delivery → World S → World S
  run [] w = w
  run (d ∷ ds) w = run ds (deliver d w).1
