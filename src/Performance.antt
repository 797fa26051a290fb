-- ===== src/Performance.antt =====
-- pkg/performance: the framework that collectors are built on.
pub mod Capabilities
pub mod Collector
pub mod Registry
pub mod CollectionConfig
pub mod Manager
pub mod Network
pub mod System
mod Tests
