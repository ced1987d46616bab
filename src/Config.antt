-- ===== src/Config.antt =====
-- src/config.rs: durations and sizes, provider sections, and the route of a model.
pub mod Sizes
pub mod Fields
pub mod Provider
pub mod Outputs
pub mod Load
pub mod Route
pub mod Samples
mod Tests
