-- ===== src/TxPool.antt =====
-- ethchain/transaction_pool.go
pub mod Process
pub mod Transfer
pub mod Refused
pub mod Queue
