-- ===== src/Update.antt =====
-- internal/update: the acquisition of the release's documents and files.
pub mod Validate
pub mod Store
pub mod Fetch
pub mod Documents
pub mod Metadata
pub mod Samples
