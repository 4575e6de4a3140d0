-- ===== src/Security.antt =====
-- include/cppload/security and core/security: how requests are authenticated.
pub mod Auth
pub mod Post
pub mod TlsContext
