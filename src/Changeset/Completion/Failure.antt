-- ===== src/Changeset/Completion/Failure.antt =====
-- UpdatePipeline (changeset.go) for an update that failed or was rejected: the search for what is
-- downstream, the updates popped one by one, and the whole.
pub mod Search
pub mod Popping
pub mod Whole
