-- ===== src/Lib.antt =====
-- formae: the core of the infrastructure agent, as definitions and theorems.
--
-- formae turns a description of infrastructure (a forma) into resource updates, orders them in a
-- changeset, and runs each through a plugin. This library models the path of an update from the
-- changeset to the plugin and back:
--
-- - Prelude: numbers, texts (lists of code points), lists, finite sets as lists.
-- - Model/Uri and Model/Resource: pkg/model/uri.go (FormaeURI: NewFormaeURI, IsValid, KSUID,
--   PropertyPath, Stripped) and pkg/model/resource.go (Resource, URI, Namespace).
--   Model/Forma and Model/Schema: pkg/model/forma.go, target.go, stack.go and schema.go.
-- - Plugin/Progress: pkg/plugin/resource/resource.go, progress results and error codes.
-- - ResourceUpdate: internal/metastructure/resource_update/resource_update.go and the constants of
--   internal/metastructure/types. Progress has RecordProgress, updateState and what they call;
--   Progress/Record and Progress/State hold the theorems.
--   ResourceUpdate/Updater is internal/metastructure/resource_update/resource_updater.go, the actor that
--   takes one update through its plugin operations; its functions are named as there, and Handlers has
--   the messages of each state.
--   ResourceUpdate/Factory and ResourceUpdate/Generator are
--   internal/metastructure/resource_update/resource_update_factory.go and resource_update_generator.go:
--   Commands has GenerateResourceUpdates for each command, Apply the two modes of apply, Dependencies the
--   deletes that follow from deletes.
-- - FormaPersister: internal/metastructure/forma_persister/forma_command_persister.go and the record of
--   internal/metastructure/forma_command/forma_command.go; Calls has HandleCall on a datastore.
-- - Datastore: the tables of resources and targets of internal/metastructure/datastore/sqlite.go, with
--   `resourcesAreEqual` of datastore.go.
-- - ResourcePersister: internal/metastructure/resource_persister/resource_persister.go, on those tables.
-- - PluginOperator: internal/metastructure/plugin_operation/plugin_operator.go. Messages has the
--   messages and the data, Handlers the handlers of the state machine (read, create, update, delete,
--   resume, status, retry) with handlePluginResult, Handlers/Outcome and Handlers/Attempts the
--   theorems, the second one over whole lives of an operator.
-- - Changeset: internal/metastructure/changeset/changeset.go. Pipeline has the groups and their links,
--   Init the building of the pipeline, Cycles its check, Execution the choice of updates to run,
--   Completion UpdatePipeline and the cascade of failures; Invariant says what a sound pipeline is,
--   and Liveness that it can go on. RateLimiter is internal/metastructure/changeset/rate_limiter.go,
--   ResolveCache is internal/metastructure/changeset/resolve_cache.go, and
--   Executor the actor of internal/metastructure/changeset/changeset_executor.go.
--   The child modules hold the theorems.
-- - Tests: sample data, and the theorems applied to them.
--
-- How state is modelled. A pointer to a ResourceUpdateGroup is the URI of the group, and the objects are
-- a function from URIs to groups; the map ResourceUpdateGroups is the list of its keys. A handler of the
-- operator is a function from the operator's data, the message and a record World, which holds what
-- the plugin, the property documents and the actor library answer, to a Reply: the next state, the data,
-- the report and the message that the operator schedules for itself. Where Go ranges over a map, the
-- order is an argument, so that what is proved holds for every order.
--
-- A table of the datastore is the list of its rows, and a version is a number: a new one is given by the
-- caller, and theorems that need it to be greater than the stored ones say so.
--
-- Fuel. `dfs` and `recursivelyFailDependencies` run on fuel, one more than the number of groups of the
-- map and two more: each call marks another group of the map, so neither runs out, and the theorems
-- on them say that they return.
--
-- Not modelled. JSON documents are texts, and `updateProperties`, which merges them, is a parameter.
-- Logging, time and contexts are left out, as are SQL text, Postgres, the command line, the API, the
-- plugins and the other actors. Attempts and counters are natural
-- numbers, since they start at small values and grow by one.
pub mod Prelude
pub mod Model
pub mod Plugin
pub mod ResourcePersister
pub mod ResourceUpdate
pub mod Datastore
pub mod FormaPersister
pub mod PluginOperator
pub mod Changeset
pub mod Tests
