-- ===== src/Providers/Signed.antt =====
-- internal/api/providers/paystack.go behind HandlePaymentWebhook of
-- internal/api/services/payment-service.go: whose webhooks count.
use digital_wallet.Prelude.{
  String, ◌≡◌, ◌≢◌, refl, sym, ◌⊎◌, inl, inr, Bool, true, false, not, ◌&&◌, some, str_eq, eq_iff,
  if◌then◌else◌, arith,
}
use digital_wallet.Prelude.Text.{to_lower, trim_space, has_prefix}
use digital_wallet.Shared.{Error, invalid_signature, unhandled_webhook, app_error}
use digital_wallet.Exec.{Result, ok, err, raise}
use digital_wallet.External.Http.{Http}
use digital_wallet.External.Provider.{WebhookEvent}
use digital_wallet.Queues.Services.{Services, World}
use digital_wallet.Api.Payments.Types.{PaymentService}
use digital_wallet.Api.Payments.{
  webhook_listener, webhook_payload, after_signature, receive_webhook,
}
use digital_wallet.Api.Webhooks.{receive_webhook_lem}
use digital_wallet.Providers.Paystack.{
  PaystackWebhookBody, Codec, PaystackProvider, paystack_status, event_of, verify_webhook_signature,
  parse_webhook, paystack,
}

-- the program's services, with Paystack as the provider
abbrev pub with_paystack : Services → (H : Http) → Codec → PaystackProvider → Services
with_paystack S H C p = record S { provider = paystack H C p }

either : (a b : Bool) → (not a && not b) ≡ false → (a ≡ true) ⊎ (b ≡ true)
either true b h = inl refl
either false true h = inr refl
either false false h = cc

guard_ok :
    {A : Type 0} (b : Bool) (e : Error) (r : Result A) (a : A)
    → (if b then err e else r) ≡ ok a
    → (b ≡ false) × (r ≡ ok a)
guard_ok true e r a h = cc
guard_ok false e r a h = (refl, h)

same_text : (a b : String) → not (str_eq a b) ≡ false → a ≡ b
same_text a b h = ground (arith, eq_iff a b)

ok-eq : {A : Type 0} {a b : A} → ok a ≡ ok b → a ≡ b
ok-eq h = cc

module _ (H : Http) (C : Codec) (p : PaystackProvider) where
  -- the signature is the HMAC of the body under a secret that is not empty
  abbrev pub IsMac : String → String → Type 0
  IsMac signature body =
      (str_eq p.secret "" ≡ false) × (C.hmac_hex p.secret body ≡ to_lower (trim_space signature))

  -- the event that a body tells of: of a charge or a transaction, and with a reference
  pub record Tells (body : String) (event : WebhookEvent) : Type 0 where
    pub parsed : PaystackWebhookBody
    pub decodes : C.webhook_body body ≡ ok parsed
    pub kind :
        (has_prefix parsed.event "charge." ≡ true) ⊎ (has_prefix parsed.event "transaction." ≡ true)
    pub named : str_eq parsed.json_data.reference "" ≡ false
    pub shown : event ≡ record {
      event = parsed.event;
      reference = parsed.json_data.reference;
      status = some (paystack_status parsed.json_data.status);
      amount = parsed.json_data.amount;
      currency = parsed.json_data.currency;
    }

  verified-IsMac :
      (signature body : String)
      → verify_webhook_signature H C p signature body ≡ ok tt
      → IsMac signature body
  unfolding verify_webhook_signature
  verified-IsMac signature body h =
      let (configured, given) = guard_ok (str_eq p.secret "") invalid_signature _ tt h in
      let (present, compared) = guard_ok (str_eq signature "") invalid_signature _ tt given in
      (
        configured,
        same_text _ _
            (guard_ok (not (str_eq (C.hmac_hex p.secret body) (to_lower (trim_space signature))))
              invalid_signature _ tt compared).0,
      )

  parsed-Tells :
      (body : String) (event : WebhookEvent) (r : Result PaystackWebhookBody)
      → C.webhook_body body ≡ r
      → event_of H C p r ≡ ok event
      → Tells body event
  parsed-Tells body event (err e) decodes h = cc
  parsed-Tells body event (ok parsed) decodes h =
      let (kind, rest) =
        guard_ok
          (not (has_prefix parsed.event "charge.") && not (has_prefix parsed.event "transaction."))
          unhandled_webhook _ event h in
      let (named, made) =
        guard_ok (str_eq parsed.json_data.reference "") unhandled_webhook _ event rest in
      record {
        parsed = parsed;
        decodes = decodes;
        kind = either _ _ kind;
        named = named;
        shown = ok-eq (sym made);
      }

module _ (S : Services) (H : Http) (C : Codec) (p : PaystackProvider) (c : PaymentService) where
  abbrev pub Queued :
      String → String → World (with_paystack S H C p) → World (with_paystack S H C p) → Type 0
  Queued signature body w w' =
      IsMac H C p signature body
      × ((event : WebhookEvent) × Tells H C p body event
          × (w'
              ≡ (webhook_listener (with_paystack S H C p) c
                  (webhook_payload (with_paystack S H C p) c event) w).1))

  -- the answer to a webhook without the right signature
  forged :
      (signature body : String) (r : Result (Unit {0})) (w : World (with_paystack S H C p))
      → r ≢ ok tt
      → (after_signature (with_paystack S H C p) c body r w).0
        ≡ err (app_error 401 "Invalid Signature")
  unfolding raise
  forged signature body (ok tt) w bad = absurd (bad refl)
  forged signature body (err e) w bad = refl

  -- With Paystack as the provider, a webhook changes nothing unless it is signed with the secret, which is
  -- not empty, and tells of a charge or a transaction with a reference; then it does what the listener to
  -- that event does. One with another signature is answered as invalid, where payments are available.
  pub receive_webhook-Queued :
      (signature body : String) (w : World (with_paystack S H C p))
      → (((receive_webhook (with_paystack S H C p) c signature body w).1 ≡ w)
          ⊎ Queued signature body w (receive_webhook (with_paystack S H C p) c signature body w).1)
        × (C.hmac_hex p.secret body ≢ to_lower (trim_space signature)
            → c.has_provider ≡ true
            → (receive_webhook (with_paystack S H C p) c signature body w).0
              ≡ err (app_error 401 "Invalid Signature"))
  unfolding receive_webhook parse_webhook webhook_listener
  receive_webhook-Queued signature body w = (
    elim (receive_webhook_lem (with_paystack S H C p) c w signature body) [
      | inl same ↦ inl same
      | inr (event, accepted, parsed, left) ↦ inr (
        verified-IsMac H C p signature body accepted,
        (event, parsed-Tells H C p body event (C.webhook_body body) refl parsed, left),
      )
    ],
    λ wrong available. rw available (
        forged signature body (verify_webhook_signature H C p signature body) w
          (λ accepted. wrong (verified-IsMac H C p signature body accepted).1)),
  )
