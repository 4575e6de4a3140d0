-- ===== src/Vault.antt =====
-- include/cppload/vault and core/vault: the client of a secret store.
pub mod Answers
pub mod Requests
pub mod Tests
pub mod Client
