-- ===== src/Util.antt =====
-- pkg/util: the labels, selectors and caches that the other packages share.
pub mod Consts
pub mod Labels
pub mod Conversions
pub mod Cache
pub mod Replace
pub mod Clients
