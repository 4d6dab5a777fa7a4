-- ===== src/Plugin.antt =====
-- pkg/plugin: the interface between the agent and its plugins.
pub mod Progress
