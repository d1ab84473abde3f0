-- ===== src/Tests/Paystack.antt =====
-- The theorem on signed webhooks, with a signature that is the secret before the body.
use Prim.Native.String.{◌++◌}
use digital_wallet.Prelude.{◌≡◌, ◌≢◌, ◌⊎◌, refl, true, []}
use digital_wallet.Prelude.Int.{pos}
use digital_wallet.Prelude.Text.{to_lower, trim_space}
use digital_wallet.Shared.{app_error}
use digital_wallet.Exec.{ok, err, attempt, pure, wrap}
use digital_wallet.Shared.Money.{decimal}
use digital_wallet.External.Http.{Http}
use digital_wallet.External.Provider.{PaymentStatus}
use digital_wallet.Repository.Types.{TransactionStatus, WalletStatus}
use digital_wallet.Queues.Services.{Services, World}
use digital_wallet.Api.Payments.Types.{PaymentService}
use digital_wallet.Api.Payments.{receive_webhook}
use digital_wallet.Providers.Paystack.{
  PaystackTransactionData, Codec, PaystackProvider, paystack_status, verify, do_request,
  read_response,
}
use digital_wallet.Providers.Signed.{with_paystack, Queued, receive_webhook-Queued}
use digital_wallet.Tests.Fixtures.{services, world}

-- the same transaction, whatever is asked
abbrev charged : PaystackTransactionData
charged = record {
  reference = "uuuuuu";
  status = "Success";
  amount = pos 700;
  currency = "NGN";
  id = pos 12;
}

abbrev codec : Codec
codec = record {
  envelope = λ text. ok (record { status = true; message = ""; json_data = text });
  init_data = λ text.
      ok (record {
        authorization_url = "https://pay.example";
        access_code = "code";
        reference = "";
      });
  transaction_data = λ text. ok charged;
  webhook_body = λ text. ok (record { event = "charge.success"; json_data = charged });
  hmac_hex = λ key text. key ++ text;
}

-- an API that counts its calls and always answers
abbrev http : Http
http = record {
  State = Unit {0};
  new_request = λ request. ok request;
  send = λ request s. (ok (record { status_code = 200; body = ok "{}" }), s);
}

abbrev provider : PaystackProvider
provider = record { base_url = "https://api.paystack.co"; secret = "key" }

abbrev with_api : Services
with_api = with_paystack services http codec provider

abbrev quiet : World with_api
quiet =
    let base = world WalletStatus.active TransactionStatus.pending [] in
    record {
      users = base.users;
      wallets = base.wallets;
      transfers = base.transfers;
      intents = base.intents;
      activities = base.activities;
      ledger = base.ledger;
      provider = tt;
      broker = base.broker;
      redis = base.redis;
    }

abbrev available : PaymentService
available = record {
  has_provider = true;
  callback_url = "";
  poll_max_retry = 3;
  poll_interval = 60;
}

receive_webhook-Queued_example :
    (((receive_webhook with_api available " KEYbody " "body" quiet).1 ≡ quiet)
      ⊎ Queued services http codec provider available " KEYbody " "body" quiet
          (receive_webhook with_api available " KEYbody " "body" quiet).1)
    × ("keybody" ≢ to_lower (trim_space " KEYbody ")
        → available.has_provider ≡ true
        → (receive_webhook with_api available " KEYbody " "body" quiet).0
          ≡ err (app_error 401 "Invalid Signature"))
receive_webhook-Queued_example =
    receive_webhook-Queued services http codec provider available " KEYbody " "body" quiet

verifies :
    (verify http codec provider "uuuuuu" tt).0
    ≡ ok (record {
      reference = "uuuuuu";
      status = PaymentStatus.success;
      amount = pos 700;
      currency = "NGN";
      provider_ref = "12";
    })
unfolding verify do_request read_response paystack_status to_lower decimal attempt pure wrap
verifies = refl
