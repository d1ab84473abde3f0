-- ===== src/Api/Routes/Payments.antt =====
-- internal/api/routes/payment-route.go and transfer-route.go: the handlers.
use digital_wallet.Prelude.{String, some}
use digital_wallet.Exec.{Result}
use digital_wallet.Queues.Services.{Services, World}
use digital_wallet.Api.History as History
use digital_wallet.Api.Payments as Payments
use digital_wallet.Api.Payments.Types.{InitializeDepositParam}
use digital_wallet.Api.Transfers.{InitiateTransferParam}
use digital_wallet.Api.Transfers as Transfers
use digital_wallet.Api.Routes.{
  Answer, Payload, message_response, deposit_response, transfer_response, transaction_response,
  transaction_list_response, map_transfer, map_transaction, map_transactions, decode_and_validate,
  answer, given,
}
use digital_wallet.Api.Routes.Table.{Setup, Draws}
use digital_wallet.Api.Routes.Users.{or_bad_request, page_from}

module _ (S : Services) (c : Setup) (d : Draws) where
  unfoldable pub initialize_deposit_route :
      String → Payload InitializeDepositParam → World S → Answer × World S
  initialize_deposit_route caller payload =
      given c.web (decode_and_validate c.web.error_text payload) (λ body.
        answer c.web (Payments.initialize_deposit S c.payments d.fresh d.now (some caller) body) 201
          deposit_response)

  unfoldable pub payment_webhook_route : String → Result String → World S → Answer × World S
  payment_webhook_route signature read =
      given c.web (or_bad_request "Could Not Read Webhook Body" read) (λ body.
        answer c.web (Payments.receive_webhook S c.payments signature body) 200
          (λ done. message_response "Webhook Received"))

  unfoldable pub get_transaction_route : String → String → World S → Answer × World S
  get_transaction_route caller reference =
      answer c.web (Payments.get_transaction S c.payments (some caller) reference) 200
        (λ transaction. transaction_response (map_transaction transaction))

  unfoldable pub list_my_transactions_route : String → String → String → World S → Answer × World S
  list_my_transactions_route caller limit offset = given c.web (page_from c limit offset) (λ page.
      answer c.web (History.list_my_transactions S c.has_ledger (some caller) page) 200
        (λ result. transaction_list_response (map_transactions result)))

  unfoldable pub initiate_transfer_route :
      String → Payload InitiateTransferParam → World S → Answer × World S
  initiate_transfer_route caller payload =
      given c.web (decode_and_validate c.web.error_text payload) (λ body.
        answer c.web (Transfers.initiate_transfer S c.has_ledger d.fresh d.now (some caller) body)
          202 (λ transfer. transfer_response (map_transfer transfer)))

  unfoldable pub get_transfer_route : String → String → World S → Answer × World S
  get_transfer_route caller id =
      answer c.web (Transfers.get_transfer S c.has_ledger (some caller) id) 200
        (λ transfer. transfer_response (map_transfer transfer))
