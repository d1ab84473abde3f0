-- ===== src/Api/Webhooks.antt =====
-- internal/api/services/payment-service.go, `HandlePaymentWebhook`: what reaches the queue.
use digital_wallet.Prelude.{String, ◌≡◌, ◌⊎◌, inl, inr, refl, Bool, true, false, not, if◌then◌else◌}
use digital_wallet.Shared.{Error, is_unhandled_webhook, app_error}
use digital_wallet.Exec.{Result, ok, err, pure, raise, attempt}
use digital_wallet.External.Provider.{WebhookEvent}
use digital_wallet.Queues.Services.{Services, World}
use digital_wallet.Api.Payments.Types.{PaymentService}
use digital_wallet.Api.Payments.{
  webhook_listener, webhook_payload, take_in, after_signature, receive_webhook,
}

module _ (S : Services) (c : PaymentService) (w : World S) where
  -- The state is as before, or as the listener leaves it for an event of that body.
  abbrev Leaves : String → World S → Type 0
  Leaves body w' =
      (w' ≡ w)
      ⊎ ((event : WebhookEvent) × (S.provider.parse_webhook body ≡ ok event)
          × (w' ≡ (webhook_listener S c (webhook_payload S c event) w).1))

  refused :
      (body : String) (b : Bool) (e : Error) → Leaves body ((if b then pure tt else raise e) w).1
  unfolding pure raise
  refused body true e = inl refl
  refused body false e = inl refl

  take_in-Leaves :
      (body : String) (r : Result WebhookEvent)
      → S.provider.parse_webhook body ≡ r
      → Leaves body (take_in S c r w).1
  unfolding attempt pure
  take_in-Leaves body (err e) parsed =
      refused body (is_unhandled_webhook e) (app_error 400 "Unprocessable Webhook")
  take_in-Leaves body (ok event) parsed = inr (event, parsed, refl)

  -- the same, or the signature holds too
  abbrev Verified : String → String → World S → Type 0
  Verified signature body w' =
      (w' ≡ w)
      ⊎ ((event : WebhookEvent) × (S.provider.verify_webhook_signature signature body ≡ ok tt)
          × (S.provider.parse_webhook body ≡ ok event)
          × (w' ≡ (webhook_listener S c (webhook_payload S c event) w).1))

  after_signature-Verified :
      (signature body : String) (r : Result (Unit {0}))
      → S.provider.verify_webhook_signature signature body ≡ r
      → Verified signature body (after_signature S c body r w).1
  unfolding raise
  after_signature-Verified signature body (err e) answered = inl refl
  after_signature-Verified signature body (ok tt) answered =
      elim (take_in-Leaves body (S.provider.parse_webhook body) refl) [
        | inl same ↦ inl same
        | inr (event, parsed, left) ↦ inr (event, answered, parsed, left)
      ]

  -- A webhook changes nothing, unless the provider accepts its signature and reads an event from its
  -- body; and then it only does what the listener to the event does, which is to queue the webhook task.
  pub receive_webhook_lem :
      (signature body : String)
      → ((receive_webhook S c signature body w).1 ≡ w)
        ⊎ ((event : WebhookEvent) × (S.provider.verify_webhook_signature signature body ≡ ok tt)
            × (S.provider.parse_webhook body ≡ ok event)
            × ((receive_webhook S c signature body w).1
                ≡ (webhook_listener S c (webhook_payload S c event) w).1))
  unfolding receive_webhook raise
  receive_webhook_lem signature body = by_provider c.has_provider
    where
      by_provider :
          (b : Bool)
          → Verified signature body
              ((if not b
                  then raise (app_error 503 "Payments Are Unavailable")
                  else after_signature S c body
                      (S.provider.verify_webhook_signature signature body))
                w).1
      by_provider true =
          after_signature-Verified signature body
            (S.provider.verify_webhook_signature signature body) refl
      by_provider false = inl refl
