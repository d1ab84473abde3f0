-- ===== src/Tests/Requests.antt =====
-- The theorems on the services, at a small world in memory.
use digital_wallet.Prelude.{String, ◌≡◌, ◌⊎◌, refl, false, some, [], true}
use digital_wallet.Prelude.Int.{pos}
use digital_wallet.Exec.{ok, pure, wrap, attempt}
use digital_wallet.Repository.Types.{TransactionStatus, WalletStatus, Transfer}
use digital_wallet.Repository.Transfers.{map_transfer, get_transfer_by_id}
use digital_wallet.Queues.Services.{World}
use digital_wallet.Api.Transfers.{InitiateTransferParam, caller_id, initiate_transfer, get_transfer}
use digital_wallet.External.Provider.{WebhookEvent}
use digital_wallet.Api.Payments.Types.{PaymentService}
use digital_wallet.Api.Payments.{receive_webhook, webhook_listener, webhook_payload}
use digital_wallet.Api.Webhooks.{receive_webhook_lem}
use digital_wallet.Api.Acceptance.{Outcome}
use digital_wallet.Api.Admission.{initiate_transfer-Accepted}
use digital_wallet.Api.Showing.{get_transfer_lem}
use digital_wallet.Tests.Memory.{print_uuid}
use digital_wallet.Tests.Fixtures.{services, wallet_laws, transfer_inserts, world}

abbrev request : InitiateTransferParam
request = record {
  sender_wallet_id = print_uuid 1;
  recipient_account_number = " uu ";
  amount = pos 500;
}

abbrev quiet_world : World services
quiet_world = world WalletStatus.active TransactionStatus.pending []

initiate_transfer-Accepted_example :
    Outcome services false transfer_inserts wallet_laws quiet_world.transfers.0
      quiet_world.wallets.0
      (print_uuid 1)
      request
      (initiate_transfer services false 9 4 (some (print_uuid 1)) request quiet_world).0
      (initiate_transfer services false 9 4 (some (print_uuid 1)) request quiet_world).1
initiate_transfer-Accepted_example =
    initiate_transfer-Accepted services transfer_inserts wallet_laws false 9 4 (print_uuid 1)
      request quiet_world refl

abbrev shown : Transfer
shown = record {
  id = "uuu";
  sender_user_id = "u";
  sender_wallet_id = "u";
  recipient_user_id = "uu";
  recipient_wallet_id = "uu";
  amount = pos 500;
  currency = "NGN";
  status = TransactionStatus.pending;
  failure_reason = "";
  created_at = 5;
}

get_transfer_lem_example :
    (user_id : String) × (some (print_uuid 2) ≡ some user_id)
    × ((shown.sender_user_id ≡ user_id) ⊎ (shown.recipient_user_id ≡ user_id))
unfolding get_transfer get_transfer_by_id map_transfer caller_id pure wrap attempt
get_transfer_lem_example =
    get_transfer_lem services false (some (print_uuid 2)) (print_uuid 3) quiet_world shown refl

abbrev payments : PaymentService
payments = record {
  has_provider = true;
  callback_url = "https://wallet.example";
  poll_max_retry = 30;
  poll_interval = 60;
}

receive_webhook_lem_example :
    ((receive_webhook services payments "uuuuuu" "uuuuuu" quiet_world).1 ≡ quiet_world)
    ⊎ ((event : WebhookEvent) × (services.provider.verify_webhook_signature "uuuuuu" "uuuuuu"
          ≡ ok tt)
        × (services.provider.parse_webhook "uuuuuu" ≡ ok event)
        × ((receive_webhook services payments "uuuuuu" "uuuuuu" quiet_world).1
            ≡ (webhook_listener services payments
                (webhook_payload services payments event)
                quiet_world).1))
receive_webhook_lem_example = receive_webhook_lem services payments quiet_world "uuuuuu" "uuuuuu"
