-- ===== src/Scenario.antt =====
-- include/cppload/scenario and core/scenario: scenarios, their assertions and their validation.
pub mod Yaml
pub mod Load
pub mod Config
pub mod Assertions
pub mod Validation
pub mod Choice
pub mod Engine
pub mod Stages
pub mod Worker
pub mod Units
