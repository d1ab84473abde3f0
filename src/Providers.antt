-- ===== src/Providers.antt =====
-- internal/api/providers: the payment provider that the program is run with.
pub mod Paystack
pub mod Resend
pub mod Signed
