-- ===== src/Store.antt =====
-- internal/resource/store: resources and their relationships in a key-value database, with
-- subscriptions to what changes.
pub mod Types
pub mod Subscriber
pub mod Key
pub mod Database
pub mod Index
pub mod Resources
pub mod Relationships
pub mod Deletion
mod Tests
