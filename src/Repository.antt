-- ===== src/Repository.antt =====
-- internal/repository: the operations on the tables of deposits, transfers and wallets. Spans and
-- logs are not modelled; of `LogError` there is the error that it returns.
pub mod Types
pub mod Errors
pub mod Intents
pub mod Transfers
pub mod Wallets
pub mod Insertion
pub mod Allocation
pub mod Users
pub mod Queries
pub mod Life
pub mod Transitions
pub mod Closed
pub mod Profiles
pub mod Changes
pub mod Presence
pub mod Activities
