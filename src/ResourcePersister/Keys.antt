-- ===== src/ResourcePersister/Keys.antt =====
-- Every call of the resource persister leaves a table of resources.
use formae.Prelude.{
  ◌≡◌, refl, ap, subst, ℕ, Bool, true, false, not, ◌&&◌, ◌||◌, Option, none, some, List, ◌∷◌, [],
  Text, is_empty, some_injective, if◌then◌else◌,
}
use formae.Model.Resource
use formae.Model.Resource.{Resource}
use formae.Model.Forma.{Target, Forma, same, split_by_stack, stack_part, single_stack_label}
use formae.Plugin.Progress.{Operation, ProgressResult}
use formae.ResourceUpdate.{OperationType, ResourceUpdate}
use formae.ResourceUpdate.Progress.{find_progress}
use formae.Datastore.{Table, load_resource, store, store_resource, delete_resource}
use formae.Datastore.Storing.{IsFresh}
use formae.Datastore.Keys.{IsTable, store-IsTable}
use formae.ResourcePersister.{
  Tables, Answers, Answer, Message, persist, load, failed, panicked, version, with_version,
  process_read, process_delete, process_safe, process_resource_update, versioned, store_update,
  store_stacks, store_targets, store_relevant, store_resource_update, handle_call,
  delegate_command_from_operation, misses_required, is_delete, is_success, command_update,
  command_forma,
}

module _ (w : Answers) where
  Keeps : Option (Table × Text) → Type 0
  Keeps o = (t' : Table) (v : Text) → o ≡ some (t', v) → IsTable t'

  keeps : (t : Table) (v : Text) → IsTable t → Keeps (some (t, v))
  unfolding Keeps
  keeps t v h t' v' e = subst IsTable (ap (λ z. z.0) (some_injective e)) h

  with_version-Keeps :
      (o : Option (Table × (Text × ℕ)))
      → ((t' : Table) (v : Text × ℕ) → o ≡ some (t', v) → IsTable t')
      → Keeps (with_version w o)
  unfolding Keeps
  with_version-Keeps none h = λ t' v e. cc
  with_version-Keeps (some (t, v)) h = keeps t (w.version_text v) (h t v refl)

  module _ (command_id : Text) (t : Table) (f : IsFresh w.ids t) (h : IsTable t) where
    stored-Keeps : (r : Resource) → Keeps (with_version w (store_resource w.ids r command_id t))
    unfolding store_resource
    stored-Keeps r =
        with_version-Keeps (store w.ids r command_id false t)
          (store-IsTable w.ids r command_id false t f h)

    process_read-Keeps :
        (r safe : Resource) (o : Option Resource) → Keeps (process_read w command_id r safe t o)
    unfolding process_read
    process_read-Keeps r safe none = stored-Keeps safe
    process_read-Keeps r safe (some current) = chosen (
        not (w.ids.same_json current.properties r.properties)
        || not (w.ids.same_json current.read_only_properties r.read_only_properties))
      where
        chosen :
            (b : Bool)
            → Keeps (
                if b then with_version w (store_resource w.ids safe command_id t) else some (t, []))
        chosen true = stored-Keeps safe
        chosen false = keeps t [] h

    process_delete-Keeps :
        (r : Resource) (o : Option Resource) → Keeps (process_delete w command_id r t o)
    unfolding process_delete delete_resource
    process_delete-Keeps r none = keeps t [] h
    process_delete-Keeps r (some e) =
        with_version-Keeps (store w.ids r command_id true t)
          (store-IsTable w.ids r command_id true t f h)

    process_safe-Keeps :
        (operation : OperationType) (r safe : Resource)
        → Keeps (process_safe w command_id operation r safe t)
    unfolding process_safe Keeps
    process_safe-Keeps OperationType.create r safe =
        stored-Keeps (record safe { patch_document = [] })
    process_safe-Keeps OperationType.update r safe =
        stored-Keeps (record safe { patch_document = [] })
    process_safe-Keeps OperationType.delete r safe =
        process_delete-Keeps r (load_resource (Resource.uri r) t)
    process_safe-Keeps OperationType.read r safe =
        process_read-Keeps r safe (load_resource (Resource.uri r) t)
    process_safe-Keeps OperationType.replace r safe = λ t' v e. cc

    process_resource_update-Keeps :
        (operation : OperationType) (r : Resource)
        → Keeps (process_resource_update w command_id operation r t)
    unfolding process_resource_update Keeps
    process_resource_update-Keeps operation r = chosen (w.secret_safe r)
      where
        chosen :
            (o : Option Resource)
            → Keeps
                (elim o [ none ↦ none | some safe ↦ process_safe w command_id operation r safe t ])
        chosen none = λ t' v e. cc
        chosen (some safe) = process_safe-Keeps operation r safe

  versioned-IsTable :
      (s : Tables) (u : ResourceUpdate) (o : Option (Table × Text))
      → IsTable s.resources
      → Keeps o
      → IsTable (versioned w s u o).0.resources
  unfolding Keeps
  versioned-IsTable s u none h k = h
  versioned-IsTable s u (some (t, hash)) h k = k t hash refl

  store_update-IsTable :
      (command_id : Text) (us : List ResourceUpdate) (targets : List Target) (label : Text)
      (u : ResourceUpdate) (s : Tables)
      → IsFresh w.ids s.resources
      → IsTable s.resources
      → IsTable (store_update w command_id us targets label u s).0.resources
  unfolding store_update
  store_update-IsTable c us targets label u s f h =
      chosen (same u.resource.stack label && (is_success u.state && is_empty u.version))
    where
      s' : Tables
      s' = record s { targets = store_targets us targets s.targets }

      chosen :
          (b : Bool)
          → IsTable
              (if b
                then versioned w s' u
                    (process_resource_update w c u.operation u.resource s.resources)
                else (s, some u)).0.resources
      chosen true =
          versioned-IsTable s' u (process_resource_update w c u.operation u.resource s.resources) h
            (process_resource_update-Keeps c s.resources f h u.operation u.resource)
      chosen false = h

  store_stacks-IsTable :
      (command_id : Text) (targets : List Target) (u : ResourceUpdate) (stack : Forma) (s : Tables)
      → IsFresh w.ids s.resources
      → IsTable s.resources
      → IsTable (store_stacks w command_id targets u (stack ∷ []) s).0.resources
  unfolding store_stacks
  store_stacks-IsTable c targets u stack s f h =
      last (store_update w c (u ∷ []) targets (single_stack_label stack) u s).0
        (store_update w c (u ∷ []) targets (single_stack_label stack) u s).1
        (store_update-IsTable c (u ∷ []) targets (single_stack_label stack) u s f h)
    where
      last :
          (s' : Tables) (o : Option ResourceUpdate)
          → IsTable s'.resources
          → IsTable
              (elim o as (λ x. Tables × Answer) [
                | none ↦ (s', failed)
                | some u' ↦ store_stacks w c targets u' [] s'
              ]).0.resources
      last s' none k = k
      last s' (some u') k = k

  store_relevant-IsTable :
      (command_id : Text) (resource_operation : OperationType) (plugin_operation : Operation)
      (ru : ResourceUpdate) (p : ProgressResult) (s : Tables)
      → IsFresh w.ids s.resources
      → IsTable s.resources
      → IsTable (store_relevant w command_id resource_operation plugin_operation ru p s).0.resources
  unfolding store_relevant split_by_stack
  store_relevant-IsTable c ro po ru p s f h =
      chosen (not (is_delete ro) && misses_required w ru.resource ru.resource.schema.hints)
        (delegate_command_from_operation po p)
    where
      next : OperationType → Tables × Answer
      next operation =
          store_stacks w c (ru.resource_target ∷ []) (command_update w ro po operation p ru)
            (stack_part ru.resource.stack (command_forma w ru) ∷ []) s

      chosen :
          (b : Bool) (o : Option OperationType)
          → IsTable
              (if b then (s, version []) else (elim o as (λ x. Tables × Answer) [
                | none ↦ (s, panicked)
                | some operation ↦ next operation
              ])).0.resources
      chosen true o = h
      chosen false none = h
      chosen false (some operation) =
          store_stacks-IsTable c (ru.resource_target ∷ []) (command_update w ro po operation p ru)
            (stack_part ru.resource.stack (command_forma w ru)) s f h

  -- Every call of the resource persister leaves a table in which each row has the URI of its KSUID and no
  -- two rows share a URI and a version, when it starts with one and the new version is greater than all.
  pub handle_call-IsTable :
      (m : Message) (s : Tables)
      → IsFresh w.ids s.resources
      → IsTable s.resources
      → IsTable (handle_call w m s).0.resources
  unfolding handle_call store_resource_update
  handle_call-IsTable (load uri) s f h = h
  handle_call-IsTable (persist c ro po ru) s f h = chosen (find_progress ru po)
    where
      chosen :
          (o : Option ProgressResult)
          → IsTable
              (elim o as (λ x. Tables × Answer) [
                | none ↦ (s, panicked)
                | some p ↦ store_relevant w c ro po ru p s
              ]).0.resources
      chosen none = h
      chosen (some p) = store_relevant-IsTable c ro po ru p s f h
