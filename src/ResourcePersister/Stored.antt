-- ===== src/ResourcePersister/Stored.antt =====
-- What a persisted create or update leaves to load.
use formae.Prelude.{
  ◌≡◌, ◌⊎◌, inl, inr, refl, sym, ap, subst, ◌∙◌, ℕ, Bool, true, false, not, ◌&&◌, Option, none,
  some, List, ◌∷◌, [], Text, In, is_empty, if◌then◌else◌,
}
use formae.Model.Resource
use formae.Model.Resource.{Resource}
use formae.Model.Forma.{
  Target, Forma, same, split_by_stack, stack_part, single_stack_label,
  single_stack_label-stack_part,
}
use formae.Plugin.Progress.{Operation, ProgressResult}
use formae.ResourceUpdate.{OperationType, ResourceUpdate}
use formae.ResourceUpdate.Progress.{find_progress}
use formae.Datastore.{
  Row, Table, latest, has_identity, load_resource, store_resource, read_write_equal,
  read_only_equal,
}
use formae.Datastore.Storing.{IsFresh, store_resource-load, same_refl}
use formae.ResourcePersister.{
  Tables, Answers, Answer, persist, version, with_version, process_safe, process_resource_update,
  store_update, store_stacks, store_targets, store_relevant, store_resource_update, handle_call,
  delegate_command_from_operation, misses_required, is_delete, is_success, command_update,
  command_forma,
}

empty-text : (a : Text) → is_empty a ≡ true → [] ≡ a
empty-text [] h = refl
empty-text (x ∷ a) h = cc

abbrev pub IsWrite : Operation → Type 0
IsWrite o = (o ≡ Operation.create) ⊎ (o ≡ Operation.update)

abbrev pub without_patch : Resource → Resource
without_patch r = record r { patch_document = [] }

module _ (w : Answers) where
  -- The answer is a version of the resource, and the resource is the one that is loaded, unless it was equal to
  -- the stored one.
  abbrev pub IsPersisted : Resource → Table → Tables × Answer → Type 0
  IsPersisted r t a =
      (v : Text × ℕ) × (a.1 ≡ version (w.version_text v))
      × ((load_resource (Resource.uri r) a.0.resources ≡ some r)
          ⊎ ((row : Row) × (latest (has_identity r) t ≡ some row)
              × (read_write_equal w.ids r row.content && read_only_equal w.ids r row.content
                  ≡ true)))

  -- The tables after one update that is stored.
  abbrev written : Table → List Target → ResourceUpdate → Tables → Tables
  unfolding store_targets
  written t' targets u s = record {
    resources = t';
    targets = store_targets (u ∷ []) targets s.targets;
  }

  store_update-written :
      (command_id : Text) (targets : List Target) (label : Text) (u : ResourceUpdate) (s : Tables)
      (t' : Table) (hash : Text)
      → same u.resource.stack label && (is_success u.state && is_empty u.version) ≡ true
      → process_resource_update w command_id u.operation u.resource s.resources ≡ some (t', hash)
      → store_update w command_id (u ∷ []) targets label u s
        ≡ (written t' targets u s, some (if is_empty hash then u else record u { version = hash }))
  unfolding store_update written
  store_update-written c targets label u s t' hash r q = rw r (rw q refl)

  -- Storing the one stack of the update's resource answers with the version.
  store_stacks-written :
      (command_id : Text) (targets : List Target) (u : ResourceUpdate) (stack : Forma) (s : Tables)
      (t' : Table) (hash : Text)
      → same u.resource.stack (single_stack_label stack)
          && (is_success u.state && is_empty u.version)
        ≡ true
      → u.version ≡ []
      → process_resource_update w command_id u.operation u.resource s.resources ≡ some (t', hash)
      → store_stacks w command_id targets u (stack ∷ []) s ≡ (written t' targets u s, version hash)
  unfolding store_stacks
  store_stacks-written c targets u stack s t' hash r e q =
      ap next (store_update-written c targets (single_stack_label stack) u s t' hash r q)
      ∙ ap (λ x. (written t' targets u s, version x)) (kept (is_empty hash) refl)
    where
      next : Tables × Option ResourceUpdate → Tables × Answer
      next x = elim x.1 as (λ y. Tables × Answer) [
        | none ↦ (x.0, Answer.failed)
        | some u' ↦ store_stacks w c targets u' [] x.0
      ]

      kept :
          (b : Bool)
          → is_empty hash ≡ b
          → (if b then u else record u { version = hash }).version ≡ hash
      kept true p = e ∙ empty-text hash p
      kept false p = refl

  -- A create or an update writes the transformed resource, without its patch document.
  IsWritten : OperationType → Operation → Type 0
  IsWritten operation po =
      ((p : ProgressResult) → delegate_command_from_operation po p ≡ some operation)
      × ((c : Text) (r safe : Resource) (t : Table)
          → process_safe w c operation r safe t
            ≡ with_version w (store_resource w.ids (without_patch safe) c t))
      × ((ro : OperationType) (p : ProgressResult) (ru : ResourceUpdate)
          → (command_update w ro po operation p ru).resource ≡ ru.resource)

  write-IsWritten :
      (po : Operation) → IsWrite po → (operation : OperationType) × IsWritten operation po
  unfolding IsWritten delegate_command_from_operation process_safe
  write-IsWritten po (inl e) = (
    OperationType.create,
    subst (IsWritten OperationType.create) (sym e)
        ((λ p. refl), (λ c r safe t. refl), (λ ro p ru. refl)),
  )
  write-IsWritten po (inr e) = (
    OperationType.update,
    subst (IsWritten OperationType.update) (sym e)
        ((λ p. refl), (λ c r safe t. refl), (λ ro p ru. refl)),
  )

  process-written :
      (c : Text) (operation : OperationType) (po : Operation) (r safe : Resource) (t t' : Table)
      (v : Text × ℕ)
      → IsWritten operation po
      → w.secret_safe r ≡ some safe
      → store_resource w.ids (without_patch safe) c t ≡ some (t', v)
      → process_resource_update w c operation r t ≡ some (t', w.version_text v)
  unfolding process_resource_update IsWritten
  process-written c operation po r safe t t' v h e q =
      ap after e ∙ (h.1 c r safe t ∙ ap (with_version w) q)
    where
      after : Option Resource → Option (Table × Text)
      after o = elim o as (λ x. Option (Table × Text)) [
        | none ↦ none
        | some x ↦ process_safe w c operation r x t
      ]

  store_relevant-written :
      (c : Text) (ro : OperationType) (po : Operation) (operation : OperationType)
      (ru : ResourceUpdate) (p : ProgressResult) (s : Tables) (safe : Resource) (t' : Table)
      (v : Text × ℕ)
      → IsWritten operation po
      → not (is_delete ro) && misses_required w ru.resource ru.resource.schema.hints ≡ false
      → w.secret_safe ru.resource ≡ some safe
      → store_resource w.ids (without_patch safe) c s.resources ≡ some (t', v)
      → store_relevant w c ro po ru p s ≡ (
        written t' (ru.resource_target ∷ []) (command_update w ro po operation p ru) s,
        version (w.version_text v),
      )
  unfolding store_relevant split_by_stack IsWritten
  store_relevant-written c ro po operation ru p s safe t' v h m e q = rw m (
      rw (h.0 p) (
        store_stacks-written c (ru.resource_target ∷ []) u stack s t' (w.version_text v) ready refl
          process))
    where
      u : ResourceUpdate
      u = command_update w ro po operation p ru

      stack : Forma
      stack = stack_part ru.resource.stack (command_forma w ru)

      process :
          process_resource_update w c operation u.resource s.resources ≡ some (t', w.version_text v)
      process =
          subst
            (λ r. process_resource_update w c operation r s.resources ≡ some (t', w.version_text v))
            (sym (h.2 ro p ru))
            (process-written c operation po ru.resource safe s.resources t' v h e q)

      ready :
          same u.resource.stack (single_stack_label stack)
            && (is_success u.state && is_empty u.version)
          ≡ true
      ready =
          ap (λ r. same r.stack (single_stack_label stack) && true) (h.2 ro p ru)
          ∙ (ap (λ l. same ru.resource.stack l && true)
                (single_stack_label-stack_part ru.resource.stack (command_forma w ru))
              ∙ ap (λ b. b && true) (same_refl ru.resource.stack))

  -- A create or an update that has its required fields, and whose transformed resource has a KSUID that only
  -- its own rows have, is stored when the new version is greater than all: the answer is the version, and
  -- `LoadResource` gives the transformed resource without its patch document, unless the stored one was
  -- equal to it by `resourcesAreEqual`.
  pub handle_call-IsPersisted :
      (c : Text) (ro : OperationType) (po : Operation) (ru : ResourceUpdate) (p : ProgressResult)
      (s : Tables) (safe : Resource)
      → IsWrite po
      → find_progress ru po ≡ some p
      → not (is_delete ro) && misses_required w ru.resource ru.resource.schema.hints ≡ false
      → w.secret_safe ru.resource ≡ some safe
      → is_empty safe.ksuid ≡ false
      → IsFresh w.ids s.resources
      → ((x : Row)
          → In x s.resources
          → same x.uri (Resource.uri safe) ≡ true
          → has_identity safe x ≡ true)
      → IsPersisted (without_patch safe) s.resources (handle_call w (persist c ro po ru) s)
  unfolding handle_call store_resource_update Resource.uri
  handle_call-IsPersisted c ro po ru p s safe h fp m e n f i =
      let (operation, written_as) = write-IsWritten po h in
      let (t', v, q, l) = store_resource-load w.ids (without_patch safe) c s.resources n f i in
      subst (IsPersisted (without_patch safe) s.resources)
        (sym (
          ap after fp ∙ store_relevant-written c ro po operation ru p s safe t' v written_as m e q))
        (v, refl, l)
    where
      after : Option ProgressResult → Tables × Answer
      after o = elim o as (λ x. Tables × Answer) [
        | none ↦ (s, Answer.panicked)
        | some x ↦ store_relevant w c ro po ru x s
      ]
