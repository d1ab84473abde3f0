-- ===== src/Api.antt =====
-- internal/api: the services behind the HTTP routes, and the listeners of the event bus.
pub mod Events
pub mod Transfers
pub mod Initiation
pub mod Acceptance
pub mod Admission
pub mod Showing
pub mod Payments
pub mod Webhooks
pub mod History
pub mod Paging
pub mod Accounts
pub mod Wallets
pub mod Activities
pub mod Routes
