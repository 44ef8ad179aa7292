-- ===== src/Config.antt =====
-- internal/config: the YAML document of a build, its defaults and checks, and how it is loaded.
pub mod Schema
pub mod Defaults
pub mod Validate
pub mod Message
pub mod Load
pub mod Filled
pub mod Valid
pub mod Parsed
pub mod Buildable
pub mod Failures
pub mod Redacted
pub mod Fields
pub mod Samples
mod Tests
