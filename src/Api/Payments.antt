-- ===== src/Api/Payments.antt =====
-- internal/api/services/payment-service.go: starting a deposit, taking in a provider's webhook, and
-- showing one transaction; with the listeners of internal/api/events to the first two.
pub mod Types
use digital_wallet.Prelude.{
  ℕ, String, Bool, true, false, not, ◌&&◌, ◌||◌, Option, none, [], ◌∷◌, str_eq, if◌then◌else◌,
}
use digital_wallet.Prelude.Int.{pos, ltb_ℤ}
use digital_wallet.Shared.{
  Error, is_not_found, is_unhandled_webhook, provider_unavailable, app_error,
}
use digital_wallet.Shared.Money.{Money}
use digital_wallet.Exec.{Result, ok, err, Exec, pure, raise, attempt, wrap, ◌>>=◌, ◌>>◌}
use digital_wallet.External.Uuids.{Uuid}
use digital_wallet.External.Provider.{InitializePaymentResponse, WebhookEvent}
use digital_wallet.Ledger.Accounting.{Direction, credit, debit}
use digital_wallet.Repository.Types.{
  TransactionStatus, is_active, User, Wallet, Transfer, TransactionIntent,
}
use digital_wallet.Repository.Intents.{create_intent, get_intent_by_reference, mark_intent_failed}
use digital_wallet.Repository.Transfers.{get_transfer_by_id}
use digital_wallet.Repository.Users.{get_user_by_id}
use digital_wallet.Repository.Wallets.{get_wallet_by_id}
use digital_wallet.Queues.Tasks.{
  PaymentPayload, payment_task, payment_poll, payment_webhook, enqueue_with_context,
}
use digital_wallet.Queues.Services.{
  Services, World, on_users, on_wallets, on_transfers, on_intents, on_provider, on_broker,
}
use digital_wallet.Api.Events.{Listener, publish}
use digital_wallet.Api.Transfers.{caller_id, load_failure, server_error}
use digital_wallet.Api.Payments.Types.{
  min_deposit_minor, max_deposit_minor, InitializeDepositParam, DepositInitialized,
  PaymentInitializedPayload, PaymentService, is_provider_unavailable, Transaction,
  intent_to_transaction, transfer_to_transaction,
}

module _ (S : Services) (c : PaymentService) where
  -- RegisterPaymentListeners, for `payment.webhook.received`
  unfoldable pub webhook_listener : Listener S PaymentPayload
  unfolding payment_task enqueue_with_context
  webhook_listener event = on_broker S (
      enqueue_with_context S.broker
        (payment_task c.poll_max_retry c.poll_interval payment_webhook event))

  -- RegisterPaymentListeners, for `payment.initialized`
  unfoldable pub poll_listener : Listener S PaymentInitializedPayload
  unfolding payment_task enqueue_with_context
  poll_listener event = on_broker S (
      enqueue_with_context S.broker (
        payment_task c.poll_max_retry c.poll_interval payment_poll (record {
          reference = event.reference;
          provider = event.provider;
          event = "";
          status = none;
          amount_minor = pos 0;
          currency = "";
        })))

  -- the payload of `payment.webhook.received`, which is passed on field by field
  abbrev pub webhook_payload : WebhookEvent → PaymentPayload
  webhook_payload event = record {
    reference = event.reference;
    provider = S.provider.name;
    event = event.event;
    status = event.status;
    amount_minor = event.amount;
    currency = event.currency;
  }

  abbrev pub take_in : Result WebhookEvent → Exec (World S) Unit
  take_in (err e) =
      if is_unhandled_webhook e then pure tt else raise (app_error 400 "Unprocessable Webhook")
  take_in (ok event) = publish S (webhook_listener ∷ []) (webhook_payload event)

  abbrev pub after_signature : String → Result (Unit {0}) → Exec (World S) Unit
  after_signature body (err e) = raise (app_error 401 "Invalid Signature")
  after_signature body (ok _) = take_in (S.provider.parse_webhook body)

  unfoldable pub receive_webhook : String → String → Exec (World S) Unit
  receive_webhook signature body =
      if not c.has_provider
      then raise (app_error 503 "Payments Are Unavailable")
      else after_signature body (S.provider.verify_webhook_signature signature body)

  -- The deposit is failed, whether that works or not, and the request too.
  abbrev pub after_checkout :
      String
      → Money
      → Wallet
      → TransactionIntent
      → Result InitializePaymentResponse
      → Exec (World S) DepositInitialized
  after_checkout user_id amount wallet intent (err e) =
      attempt (on_intents S (mark_intent_failed S.uuids S.intents intent.id)) (λ r.
        raise
          (app_error (if is_provider_unavailable e then 503 else 502) "Could Not Start Deposit"))
  after_checkout user_id amount wallet intent (ok initialized) = do
    publish S (poll_listener ∷ []) (record {
      user_id = user_id;
      reference = intent.id;
      provider = S.provider.name;
      amount_minor = amount;
      currency = wallet.currency;
    })
    pure (record {
      reference = intent.id;
      authorization_url = initialized.authorization_url;
      access_code = initialized.access_code;
      amount = amount;
      currency = wallet.currency;
      status = intent.status;
    })

  -- `InitializeDeposit`, with user and wallet accepted
  unfoldable pub start_deposit :
      Uuid → ℕ → String → Money → User → Wallet → Exec (World S) DepositInitialized
  start_deposit fresh now user_id amount user wallet = do
    intent ← wrap (server_error "Could Not Start Deposit") (
        on_intents S (
          create_intent S.uuids S.intents fresh now (record {
            user_id = user_id;
            wallet_id = wallet.id;
            amount = amount;
            provider = S.provider.name;
          })))
    attempt
        (on_provider S (
          S.provider.initialize (record {
            reference = intent.id;
            amount = amount;
            currency = wallet.currency;
            email = user.email;
            callback_url = c.callback_url;
            metadata = ("user_id", user_id) ∷ ("wallet_id", wallet.id) ∷ [];
          })))
        (after_checkout user_id amount wallet intent)

  unfoldable pub admit_wallet :
      Uuid → ℕ → String → Money → User → Wallet → Exec (World S) DepositInitialized
  admit_wallet fresh now user_id amount user wallet =
      if not (str_eq wallet.user_id user_id)
      then raise (app_error 404 "Wallet Not Found")
      else if not (is_active wallet.status)
      then raise (app_error 422 "Wallet Is Not Active")
      else start_deposit fresh now user_id amount user wallet

  unfoldable pub initialize_deposit :
      Uuid → ℕ → Option String → InitializeDepositParam → Exec (World S) DepositInitialized
  initialize_deposit fresh now caller param =
      if not c.has_provider then raise (app_error 503 "Payments Are Unavailable") else do
        user_id ← caller_id caller
        if ltb_ℤ param.amount min_deposit_minor || ltb_ℤ max_deposit_minor param.amount
            then raise (app_error 422 "Deposit Amount Is Out Of Range")
            else (do
              user ←
                  wrap (load_failure "User Not Found" "Could Not Load User")
                    (on_users S (get_user_by_id S.uuids S.users user_id))
              wallet ←
                  wrap (load_failure "Wallet Not Found" "Could Not Load Wallet")
                    (on_wallets S (get_wallet_by_id S.uuids S.wallets param.wallet_id))
              admit_wallet fresh now user_id param.amount user wallet)

  abbrev pub render_transfer : String → Transfer → Exec (World S) Transaction
  render_transfer user_id t =
      if not (str_eq t.sender_user_id user_id) && not (str_eq t.recipient_user_id user_id)
      then raise (app_error 404 "Transaction Not Found")
      else pure (transfer_to_transaction user_id t)

  unfoldable pub transfer_as_transaction : String → String → Exec (World S) Transaction
  transfer_as_transaction user_id reference = do
    t ←
        wrap (load_failure "Transaction Not Found" "Could Not Load Transaction")
          (on_transfers S (get_transfer_by_id S.uuids S.transfers reference))
    render_transfer user_id t

  abbrev pub after_intent : String → String → Result TransactionIntent → Exec (World S) Transaction
  after_intent user_id reference (err e) =
      if is_not_found e
      then transfer_as_transaction user_id reference
      else raise (app_error 500 "Could Not Load Transaction")
  after_intent user_id reference (ok intent) =
      if not (str_eq intent.user_id user_id)
      then raise (app_error 404 "Transaction Not Found")
      else pure (intent_to_transaction intent)

  unfoldable pub get_transaction : Option String → String → Exec (World S) Transaction
  get_transaction caller reference = do
    user_id ← caller_id caller
    attempt (on_intents S (get_intent_by_reference S.uuids S.intents reference))
        (after_intent user_id reference)
