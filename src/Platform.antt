-- ===== src/Platform.antt =====
-- include/cppload/platform and core/platform: the control plane.
pub mod Models
pub mod Repository
pub mod Policy
pub mod Json
pub mod Server
