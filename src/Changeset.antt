-- ===== src/Changeset.antt =====
-- internal/metastructure/changeset: the pipeline of resource updates of one command.
pub mod Pipeline
pub mod Cycles
pub mod Init
pub mod Execution
pub mod Completion
pub mod RateLimiter
pub mod ResolveCache
pub mod Executor
pub mod Invariant
pub mod Liveness
