-- ===== src/Kernel.antt =====
-- packages/kernel: thrown values, the error taxonomy, the retry classifier and `describeError`.
pub mod Value
pub mod Errors
pub mod Retry
pub mod Describe
pub mod Laws
