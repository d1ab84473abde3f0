-- ===== src/Tests.antt =====
-- Concrete instances of the outside services, and the theorems at concrete inputs.
mod Memory
mod MemoryProvider
mod MemoryTable
mod MemoryRedis
mod Fixtures
mod Workers
mod Services
mod Requests
mod Interleaving
mod Users
mod Passwords
mod History
mod MemoryTokens
mod Wallets
mod Codes
mod Paystack
mod Accounts
mod Registrations
mod Routes
mod Attempts
