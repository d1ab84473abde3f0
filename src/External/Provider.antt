-- ===== src/External/Provider.antt =====
-- shared/payment.go: the interface of a payment provider, as the workers call it, over the state of
-- the service behind it.
use digital_wallet.Prelude.{◌≡◌, Bool, true, false, String, Option, List, str_eq}
use digital_wallet.Shared.Money.{Money}
use digital_wallet.Exec.{Result, ok, Exec}

pub data PaymentStatus : Type 0 where
  pending success failed abandoned : PaymentStatus

pub record PaymentVerification : Type 0 where
  pub reference : String
  pub status : PaymentStatus
  pub amount : Money
  pub currency : String
  pub provider_ref : String

pub record InitializePaymentRequest : Type 0 where
  pub reference : String
  pub amount : Money
  pub currency : String
  pub email : String
  pub callback_url : String
  pub metadata : List (String × String)

pub record InitializePaymentResponse : Type 0 where
  pub reference : String
  pub authorization_url : String
  pub access_code : String

-- a status of another text is `none`
pub record WebhookEvent : Type 0 where
  pub event : String
  pub reference : String
  pub status : Option PaymentStatus
  pub amount : Money
  pub currency : String

pub record Provider : Type 1 where
  pub State : Type 0
  pub name : String
  pub initialize : InitializePaymentRequest → Exec State InitializePaymentResponse
  -- of a signature and a body
  pub verify_webhook_signature : String → String → Result (Unit {0})
  pub parse_webhook : String → Result WebhookEvent
  pub verify : String → Exec State PaymentVerification
  pub refund : String → Money → Exec State Unit

-- Which payments the provider was asked to pay back, by their reference. A refund asks for its own
-- reference and for no other, and one that met an error may or may not have asked. A question about a
-- payment asks for no refund.
pub record RefundLaws (P : Provider) : Type 0 where
  pub asked_back : P.State → String → Bool
  pub verify_asks_none :
      (reference other : String) (s : P.State)
      → asked_back (P.verify reference s).1 other ≡ asked_back s other
  pub refund_asks :
      (reference : String) (amount : Money) (s : P.State)
      → (P.refund reference amount s).0 ≡ ok tt
      → asked_back (P.refund reference amount s).1 reference ≡ true
  pub refund_asks_only :
      (reference other : String) (amount : Money) (s : P.State)
      → str_eq other reference ≡ false
      → asked_back (P.refund reference amount s).1 other ≡ asked_back s other
