-- ===== src/Messaging.antt =====
-- packages/messaging: the rate limiters that run as scripts inside Redis, and the log suppressor.
pub mod SlidingWindow
pub mod TokenBucket
pub mod LogSuppressor
