-- ===== src/Descheduler.antt =====
-- pkg/descheduler: evicts pods that stay pending, and re-creates them away from the node.
pub mod Evictor
pub mod Lifetime
pub mod Loop
