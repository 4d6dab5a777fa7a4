-- ===== src/PluginOperator.antt =====
-- internal/metastructure/plugin_operation/plugin_operator.go: the state machine that runs one plugin
-- operation, with its retries and its status checks.
pub mod Messages
pub mod Handlers
