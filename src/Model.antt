-- ===== src/Model.antt =====
-- pkg/model: the data that the agent, the plugins and the command line share.
pub mod Uri
pub mod Resource
pub mod Forma
pub mod Schema
