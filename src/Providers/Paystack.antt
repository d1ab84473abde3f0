-- ===== src/Providers/Paystack.antt =====
-- internal/api/providers/paystack.go: the provider's API as a payment provider.
use Prim.Native.String.{◌++◌}
use digital_wallet.Prelude.{
  suc, String, Bool, not, ◌&&◌, Option, none, some, List, [], ◌∷◌, leb, ◌==◌, is_empty, str_eq,
  if◌then◌else◌,
}
use digital_wallet.Prelude.Int.{ℤ, pos, negsuc}
use digital_wallet.Prelude.Text.{to_lower, trim_space, has_prefix}
use digital_wallet.Shared.{
  Error, other, provider_unavailable, invalid_signature, reference_not_found, unhandled_webhook,
}
use digital_wallet.Shared.Money.{Money, decimal}
use digital_wallet.Exec.{Result, ok, err, Exec, pure, raise, wrap, from_result, ◌>>=◌, ◌>>◌}
use digital_wallet.External.Http.{Field, text, number, texts, Response, Http}
use digital_wallet.External.Provider.{
  PaymentStatus, PaymentVerification, InitializePaymentRequest, InitializePaymentResponse,
  WebhookEvent, Provider,
}

abbrev pub paystack_name : String
paystack_name = "paystack"

-- `Data`, which is decoded later, is kept as the text that it is.
pub record PaystackEnvelope : Type 0 where
  pub status : Bool
  pub message : String
  pub json_data : String

pub record PaystackInitData : Type 0 where
  pub authorization_url : String
  pub access_code : String
  pub reference : String

pub record PaystackTransactionData : Type 0 where
  pub reference : String
  pub status : String
  pub amount : Money
  pub currency : String
  pub id : ℤ

pub record PaystackWebhookBody : Type 0 where
  pub event : String
  pub json_data : PaystackTransactionData

-- `json.Unmarshal` into each of the four, and the SHA-512 HMAC of a text under a key, in hexadecimal
pub record Codec : Type 0 where
  pub envelope : String → Result PaystackEnvelope
  pub init_data : String → Result PaystackInitData
  pub transaction_data : String → Result PaystackTransactionData
  pub webhook_body : String → Result PaystackWebhookBody
  pub hmac_hex : String → String → String

pub record PaystackProvider : Type 0 where
  pub base_url : String
  pub secret : String

-- an error that wraps no sentinel
abbrev pub plain_error : Error
plain_error = other 0

unfoldable pub paystack_status : String → PaymentStatus
paystack_status status =
    let lower = to_lower status in
    if str_eq lower "success"
    then PaymentStatus.success
    else if str_eq lower "failed"
    then PaymentStatus.failed
    else if str_eq lower "reversed"
    then PaymentStatus.failed
    else if str_eq lower "abandoned"
    then PaymentStatus.abandoned
    else PaymentStatus.pending

-- `%d`
abbrev pub format_int : ℤ → String
format_int (pos n) = decimal n
format_int (negsuc n) = "-" ++ decimal (suc n)

-- a field that is left out if its text is empty
abbrev pub unless_empty : String → String → List (String × Field) → List (String × Field)
unless_empty key value rest = if str_eq value "" then rest else (key, text value) ∷ rest

abbrev pub init_payload : InitializePaymentRequest → List (String × Field)
init_payload req =
    ("email", text req.email)
    ∷ ("amount", number req.amount)
    ∷ ("reference", text req.reference)
    ∷ unless_empty "currency" req.currency (
        unless_empty "callback_url" req.callback_url
          (if is_empty req.metadata then [] else ("metadata", texts req.metadata) ∷ []))

abbrev pub or_given : String → String → String
or_given reference given = if str_eq reference "" then given else reference

module _ (H : Http) (C : Codec) (p : PaystackProvider) where
  -- what `do` makes of an answer
  unfoldable pub read_response : Response → Exec H.State PaystackEnvelope
  read_response resp = do
    raw ← wrap (λ e. provider_unavailable) (from_result resp.body)
    if resp.status_code == 404 then raise reference_not_found else (do
      envelope ← wrap (λ e. provider_unavailable) (from_result (C.envelope raw))
      if leb 500 resp.status_code
          then raise provider_unavailable
          else if not envelope.status
          then raise plain_error
          else pure envelope)

  unfoldable pub do_request :
      String → String → Option (List (String × Field)) → Exec H.State PaystackEnvelope
  unfolding read_response
  do_request method path body = do
    req ←
        wrap (λ e. plain_error)
          (from_result (
            H.new_request (record {
              method = method;
              url = p.base_url ++ path;
              authorization = "Bearer " ++ p.secret;
              body = body;
            })))
    resp ← wrap (λ e. provider_unavailable) (H.send req)
    read_response resp

  unfoldable pub initialize : InitializePaymentRequest → Exec H.State InitializePaymentResponse
  unfolding do_request
  initialize req = do
    envelope ← do_request "POST" "/transaction/initialize" (some (init_payload req))
    decoded ← wrap (λ e. plain_error) (from_result (C.init_data envelope.json_data))
    pure (record {
      reference = or_given decoded.reference req.reference;
      authorization_url = decoded.authorization_url;
      access_code = decoded.access_code;
    })

  abbrev pub verification_of : String → PaystackTransactionData → PaymentVerification
  verification_of reference decoded = record {
    reference = or_given decoded.reference reference;
    status = paystack_status decoded.status;
    amount = decoded.amount;
    currency = decoded.currency;
    provider_ref = format_int decoded.id;
  }

  unfoldable pub verify : String → Exec H.State PaymentVerification
  unfolding do_request
  verify reference = do
    envelope ← do_request "GET" ("/transaction/verify/" ++ reference) none
    decoded ← wrap (λ e. plain_error) (from_result (C.transaction_data envelope.json_data))
    pure (verification_of reference decoded)

  unfoldable pub refund : String → Money → Exec H.State Unit
  unfolding do_request
  refund reference amount = do
    do_request "POST" "/refund"
        (some (("transaction", text reference) ∷ ("amount", number amount) ∷ []))
    pure tt

  unfoldable pub verify_webhook_signature : String → String → Result (Unit {0})
  verify_webhook_signature signature body =
      if str_eq p.secret ""
      then err invalid_signature
      else if str_eq signature ""
      then err invalid_signature
      else if not (str_eq (C.hmac_hex p.secret body) (to_lower (trim_space signature)))
      then err invalid_signature
      else ok tt

  abbrev pub event_of : Result PaystackWebhookBody → Result WebhookEvent
  event_of (err e) = err plain_error
  event_of (ok parsed) =
      if not (has_prefix parsed.event "charge.") && not (has_prefix parsed.event "transaction.")
      then err unhandled_webhook
      else if str_eq parsed.json_data.reference ""
      then err unhandled_webhook
      else ok (record {
        event = parsed.event;
        reference = parsed.json_data.reference;
        status = some (paystack_status parsed.json_data.status);
        amount = parsed.json_data.amount;
        currency = parsed.json_data.currency;
      })

  unfoldable pub parse_webhook : String → Result WebhookEvent
  parse_webhook body = event_of (C.webhook_body body)

  -- the interface of shared/payment.go
  abbrev pub paystack : Provider
  paystack = record {
    State = H.State;
    name = paystack_name;
    initialize = initialize;
    verify_webhook_signature = verify_webhook_signature;
    parse_webhook = parse_webhook;
    verify = verify;
    refund = refund;
  }
