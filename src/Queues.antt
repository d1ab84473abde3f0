-- ===== src/Queues.antt =====
-- internal/queues: the background workers.
pub mod Tasks
pub mod Services
pub mod TransferWorker
pub mod PaymentWorker
pub mod Middleware
pub mod Worker
pub mod EmailWorker
