-- ===== src/Common.antt =====
-- pkg/common.
pub mod Resource
