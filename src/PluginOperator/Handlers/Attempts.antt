-- ===== src/PluginOperator/Handlers/Attempts.antt =====
-- How often the operator (plugin_operator.go) calls the plugin: the retries of a whole life.
use formae.Prelude.{ℕ, ◌+◌, ◌≤◌, ◌≡◌, Bool, true, false, ◌&&◌, Option, none, some, List, ◌∷◌, []}
use formae.PluginOperator.Messages.{
  State, Request, read_resource, create_resource, update_resource, delete_resource, StatusCheck,
  requested, checked, RetryConfig, PluginUpdateData, World, Scheduled, nothing, retry_later,
  check_later, Reply,
}
use formae.PluginOperator.Handlers.{read, create, update, delete, status, retry, operation_of}

-- The operator between two messages.
pub record Operator : Type 0 where
  pub state : State
  pub update_data : PluginUpdateData
  pub scheduled : Scheduled

abbrev pub after : Reply → Operator
after reply = record {
  state = reply.state;
  update_data = reply.update_data;
  scheduled = reply.scheduled;
}

-- The call of the requester that starts the operation, in the state NotStarted.
unfoldable pub call : PluginUpdateData → Request → World → Reply
call d (read_resource r) w = read d r w
call d (create_resource c) w = create d c w
call d (update_resource c) w = update d c w
call d (delete_resource c) w = delete d c w

abbrev after_retry : Option Reply → Option Operator
after_retry none = none
after_retry (some reply) = some (after reply)

receive : Operator → Scheduled → World → Option Operator
receive o nothing w = some o
receive o (retry_later m) w = after_retry (retry o.update_data m w)
receive o (check_later m) w = some (after (status o.update_data m w))

-- The operator receives the message that it scheduled; `none` is a panic.
unfoldable pub deliver : Operator → World → Option Operator
unfolding receive
deliver o w = receive o o.scheduled w

unfoldable pub run : Operator → List World → Option Operator
run o [] = some o
run o (w ∷ ws) = elim (deliver o w) [ none ↦ none | some o' ↦ run o' ws ]

-- How many retries the operator handles in a run; each calls the plugin at most once.
abbrev pub retries_in : Scheduled → ℕ
retries_in (retry_later _) = 1
retries_in _ = 0

unfoldable pub retries : Operator → List World → ℕ
unfolding deliver
retries o [] = 0
retries o (w ∷ ws) =
    retries_in o.scheduled + elim (deliver o w) [ none ↦ 0 | some o' ↦ retries o' ws ]

abbrev IsTyped : Scheduled → Type 0
IsTyped nothing = Unit
IsTyped (retry_later m) = m.resource_operation ≡ operation_of m.request
IsTyped (check_later m) = m.resource_operation ≡ operation_of m.request

abbrev is_retry : Scheduled → Bool
is_retry (retry_later _) = true
is_retry _ = false

-- An operator in its `n`th attempt.
record Inv (config : RetryConfig) (n : ℕ) (o : Operator) : Type 0 where
  configured : o.update_data.config ≡ config
  typed : IsTyped o.scheduled
  counted : o.update_data.attempts ≡ n
  bounded : n ≤ config.max_retries + 2
  retrying : is_retry o.scheduled ≡ true → n ≤ config.max_retries + 1

abbrev IsTypedCheck : StatusCheck → Type 0
IsTypedCheck (requested r) = Unit
IsTypedCheck (checked c) = c.resource_operation ≡ operation_of c.request

module _ (d : PluginUpdateData) (w : World) (le : d.attempts ≤ d.config.max_retries + 2) where
  abbrev documents_ok : Bool
  documents_ok =
      w.existing_converted && (w.existing_has_metadata && (w.converted && w.has_metadata))
