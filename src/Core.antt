-- ===== src/Core.antt =====
-- include/cppload/core and core/: the parts that the other components build on.
pub mod ContextPool
pub mod Errors
pub mod TokenBucket
pub mod Url
pub mod Redact
