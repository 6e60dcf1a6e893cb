-- ===== src/Provider.antt =====
-- pkg/provider.
pub mod Nodes
pub mod Needs
pub mod Dependencies
pub mod Pods
pub mod Exec
pub mod PodEvents
pub mod Usage
pub mod Metrics
pub mod Notify
pub mod Setup
