-- ===== src/Ledger.antt =====
-- internal/ledger: deposits, transfers, balances and movements over a TigerBeetle client. The spans
-- and logs of the exported wrappers change no result and are not modelled.
pub mod Types
pub mod Accounts
pub mod Transfers
pub mod Keeping
pub mod Postings
pub mod Answers
pub mod Accounting
pub mod Exactly
pub mod Merging
