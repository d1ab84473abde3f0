-- ===== src/Lib.antt =====
-- The money paths of the DigitalWallet back end: wallets are credited from a payment provider, and money
-- moves between wallets, through background tasks that may be delivered twice, fail half way and be
-- retried. The balance of a wallet is what TigerBeetle has posted; Postgres keeps what the program
-- believes of each deposit and transfer. The library models both and what ties them.
--
-- Shared        shared/money.go (Money: amounts in minor units, with the int64 wrap-around and the text of an
--               amount) and the sentinel errors of all packages, on which the code branches by errors.Is.
-- Exec          a Go function that acts on services and returns (T, error): a function from a state to a
--               result and a state, since what was written before an error stays written. Exec.Ensures has
--               the rules for pre- and postconditions, one for each way to build a call.
-- External      what is not in this repository, as records of operations on a state of their own, with
--               records of the laws that their documentation promises: google/uuid, a gorm table, the
--               TigerBeetle client, Redis, asynq's queue, bcrypt, go-chi/jwtauth, net/http, html/template,
--               resend's client; and shared/payment.go's interface of a provider. EntryLaws is what the
--               ledger has posted under each id, RefundLaws what the provider was asked to pay back.
-- Ledger        internal/ledger: deposits, transfers (one posting each, named by the id of the deposit or
--               transfer), account creation, balances and movements.
-- Repository    internal/repository: rows, the guarded status changes of deposits and transfers, wallets and
--               their numbers, users, activities. A WHERE clause is a predicate on rows.
-- Otp           internal/otp/store.go: one-time passwords and their counted attempts, with an
--               abstract description of the store in Otp.Abstract.
-- Queues        internal/queues: the payment worker (settle, refund a late payment, fail, poll), the
--               transfer worker (carry out, close when out of retries), tasks, the middleware, the
--               e-mail worker, and Queues.Worker for the registration of the handlers in worker.go.
-- Api           internal/api/services: transfer-service.go (starting and showing a transfer) and
--               payment-service.go (starting a deposit, receive_webhook for HandlePaymentWebhook, showing a
--               transaction), transaction-history.go (pages of settled and unsettled transactions),
--               wallet-service.go (Api.Wallets), activity-service.go (Api.Activities), with
--               the event bus and its listeners. Api.Accounts is user-service.go, jwt.go and utils.go, with
--               the authentication of internal/api/routes/middelware.go. Api.Routes is the handlers of
--               internal/api/routes, and serve_public and serve_protected for the table of SetupRoutes.
-- Providers     internal/api/providers/paystack.go, as an instance of that interface, and resend.go.
-- Tests         every outside service in memory, and the theorems at concrete inputs.
--
-- How they interact. A handler of a worker is a function on Queues.Services.World: the states of the
-- tables, the ledger, the provider and the queue. A call of one service changes only that service's state.
-- Queues.TransferWorker is handle_transfer_execute for HandleTransferExecute and handle_transfer_exhausted
-- for HandleTransferExhausted; Queues.PaymentWorker is handle_payment_webhook, handle_payment_poll and
-- handle_poll_exhausted. The part of a Go function behind a branch on an error is a function of its own,
-- by clauses on the result (after_ledger, after_lookup, pay_back).
--
-- Conventions. A status is one of the constants that the code writes. A payload that is not JSON is none.
-- A worker part that may be nil is a Boolean (has_ledger). Identifiers and times that are drawn are
-- arguments. Logs and spans change no result and are left out. A handler runs alone: the theorems on
-- handlers are on one handler after another, with any error of any service in between. Queues.PaymentWorker.Race
-- runs the rest of one handler in a state that another has changed in the meantime.
--
-- Bounds. An amount is an int64, a number of a ledger a uint64. The decimal text of a number is made
-- with fuel for 20 digits, which a 64-bit number does not exceed. The loop of CreateWallet is recursion on
-- its five attempts. No other definition has fuel. An offset of a page that is so near to 2^63 that a limit
-- added to it wraps is left out. An expiry in hours is turned into seconds without a bound.
--
-- Not modelled: CORS and the documentation of the routes, the HTML of the e-mails,
-- configuration and telemetry; the conversions of amounts through float64; panics of handlers.
pub mod Prelude
pub mod Shared
pub mod Exec
pub mod External
pub mod Ledger
pub mod Repository
pub mod Otp
pub mod Queues
pub mod Api
pub mod Providers
pub mod Tests
