-- ===== src/Config.antt =====
-- internal/config: configuration objects, their parser and subscriptions, and the loaders that
-- keep them, one fed by a stream from the management service and one by files.
pub mod Types
pub mod Parser
pub mod Subscriptions
pub mod TtlHeap
pub mod Ams
pub mod Fs
pub mod Tests
