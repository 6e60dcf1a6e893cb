-- ===== src/Controllers.antt =====
-- pkg/controllers.
pub mod Global
pub mod Common
pub mod Services
pub mod Volumes
pub mod Informers
