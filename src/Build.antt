-- ===== src/Build.antt =====
-- internal/build: release resolution, the GPT probe, the splice and the build pipeline.
pub mod Spec
pub mod Resolve
pub mod Probe
pub mod Splice
pub mod Ports
pub mod Pipeline
pub mod Samples
