-- ===== src/Tests.antt =====
-- Test data and the properties applied to it.
pub mod Samples
pub mod Pipelines
pub mod Executions
pub mod Limits
pub mod Operators
pub mod Resources
pub mod Updaters
pub mod Persisters
pub mod Generators
pub mod Tables
pub mod Stores
pub mod Resolving
