-- ===== src/Containers.antt =====
-- pkg/containers/discovery.go: the containers of a host, found by the names of their cgroups.
pub mod Names
pub mod Discovery
mod Tests
