-- ===== src/ResourceUpdate/Generator/Commands.antt =====
-- GenerateResourceUpdates for every command (resource_update_generator.go). What follows it changes only a
-- copy of each update (the targets) or fields that are not modelled (the reference labels).
pub mod Destroy
use formae.Prelude.{
  Bool, true, false, not, ◌&&◌, Option, none, some, List, ◌++◌, ◌∷◌, [], Text, if◌then◌else◌, any,
  find,
}
use formae.Prelude.Results.{Result, ok, err, ◌>>=◌}
use formae.Model.Resource.{Resource}
use formae.Model.Forma.{Target, Forma, same, single_stack_label, split_by_stack}
use formae.ResourceUpdate.{OperationType, CommandSource, ResourceUpdate}
use formae.ResourceUpdate.Factory.{
  Documents, ApplyMode, Generated, GenerateError, load_failed, target_not_found, stack_not_found,
  target_namespace_mismatch, target_config_mismatch, unsupported, nil_pointer,
  new_resource_update_for_destroy, new_resource_update_for_sync,
}
use formae.ResourceUpdate.Generator.{
  Loaded, found, missing, failed, Lookup, TargetMap, target_of, collect,
}
use formae.ResourceUpdate.Generator.Apply.{
  reconcile_stacks, patch_stacks, finish_reconcile, finish_patch,
}

pub data Command : Type 0 where
  apply eval destroy sync : Command

abbrev stack_exists_in_forma : Forma → Text → Bool
stack_exists_in_forma forma l = any (λ s. same s.label l) forma.stacks

-- `validateStackReferences`. Go ranges over a map of the labels: the order decides only which of
-- several errors is returned.
unfoldable pub validate_stack_references : Lookup → Forma → List Resource → Generated (Unit {0})
validate_stack_references lookup forma [] = ok tt
validate_stack_references lookup forma (r ∷ rs) =
    let rest = validate_stack_references lookup forma rs in
    if stack_exists_in_forma forma r.stack then rest else (elim (lookup.load_stack r.stack) [
      | failed ↦ err load_failed
      | missing ↦ err (stack_not_found r.stack)
      | found s ↦ rest
    ])

-- The last existing target with the label, or else the first one of the forma.
unfoldable pub last_target : Text → List Target → Option Target
last_target l [] = none
last_target l (t ∷ ts) =
    let later = last_target l ts in
    elim later [ some x ↦ some x | none ↦ (if same t.label l then some t else none) ]

unfoldable pub target_map : (existing : List Target) → (of_forma : List Target) → TargetMap
unfolding last_target
target_map existing of_forma l = elim (last_target l existing) [
  | some t ↦ some t
  | none ↦ find (λ t. same t.label l) of_forma
]

unfoldable pub check_targets : TargetMap → List Resource → Generated (Unit {0})
check_targets targets [] = ok tt
check_targets targets (r ∷ rs) =
    let rest = check_targets targets rs in
    elim (targets r.target) [ none ↦ err (target_not_found r.target) | some t ↦ rest ]

abbrev is_meant : Text → Resource → Resource → Bool
is_meant l existing r = same r.stack l && (same r.label existing.label && same r.type existing.type)

-- The labels of the stacks in the order in which Go ranges over them.
module _ (docs : Documents) (lookup : Lookup) (targets : TargetMap) (source : CommandSource)
    (order : List Text) where
  -- The updates of the resources of an existing stack that the forma names, once for each naming.
  unfoldable pub for_named :
      (Resource → Target → CommandSource → Generated ResourceUpdate)
      → Text
      → List Resource
      → (existing : Resource) → Generated (List ResourceUpdate)
  unfolding collect
  for_named make l named existing =
      collect
        (λ r.
          if is_meant l existing r
          then (do t ← target_of targets existing.target; u ← make existing t source; ok (u ∷ []))
          else ok [])
        named

  unfoldable pub destroy_stack : List Resource → Text → Loaded → Generated (List ResourceUpdate)
  unfolding collect for_named new_resource_update_for_destroy
  destroy_stack named l failed = ok []
  destroy_stack named l missing = ok []
  destroy_stack named l (found s) =
      collect (for_named (new_resource_update_for_destroy docs) l named) s.resources

  unfoldable pub generate_for_destroy : Forma → Generated (List ResourceUpdate)
  unfolding collect destroy_stack single_stack_label split_by_stack
  generate_for_destroy forma =
      collect
        (λ s.
          destroy_stack forma.resources (single_stack_label s)
            (lookup.load_stack (single_stack_label s)))
        (split_by_stack order forma)

  -- Discovery, for one resource of the forma.
  abbrev discovered : Text → Resource → Generated (List ResourceUpdate)
  unfolding new_resource_update_for_sync
  discovered l r =
      if same r.stack l
      then (do
        t ← target_of targets r.target
        u ← new_resource_update_for_sync docs r t source
        ok (u ∷ []))
      else ok []

  abbrev is_discovery : Bool
  is_discovery = elim source [ CommandSource.discovery ↦ true | _ ↦ false ]

  -- A synchronization of a stack that does not exist is a panic.
  unfoldable pub sync_stack : List Resource → Text → Loaded → Generated (List ResourceUpdate)
  unfolding collect for_named discovered new_resource_update_for_sync
  sync_stack named l failed = ok []
  sync_stack named l missing =
      if is_discovery then collect (discovered l) named else err nil_pointer
  sync_stack named l (found s) =
      if is_discovery
      then collect (discovered l) named
      else collect (for_named (new_resource_update_for_sync docs) l named) s.resources

  unfoldable pub generate_for_sync : Forma → Generated (List ResourceUpdate)
  unfolding collect sync_stack single_stack_label split_by_stack
  generate_for_sync forma =
      collect
        (λ s.
          sync_stack forma.resources (single_stack_label s)
            (lookup.load_stack (single_stack_label s)))
        (split_by_stack order forma)

  -- The check of the forma's targets against those of the map.
  unfoldable pub check_existing_targets : List Target → Generated (Unit {0})
  check_existing_targets [] = ok tt
  check_existing_targets (t ∷ ts) =
      let rest = check_existing_targets ts in
      elim (targets t.label) [
        | none ↦ rest
        | some e ↦
            if not (same e.namespace t.namespace)
            then err (target_namespace_mismatch t.label)
            else if not (docs.same_json e.config t.config)
            then err (target_config_mismatch t.label)
            else rest
      ]

  abbrev load_all : Option (List Forma) → Generated (List Forma)
  load_all none = err load_failed
  load_all (some stacks) = ok stacks

  unfoldable pub generate_for_mode : ApplyMode → Forma → Generated (List ResourceUpdate)
  unfolding reconcile_stacks finish_reconcile patch_stacks finish_patch split_by_stack
  generate_for_mode ApplyMode.reconcile forma = do
    all_stacks ← load_all lookup.load_all_stacks
    b ←
        reconcile_stacks docs lookup targets source ApplyMode.reconcile all_stacks
          (split_by_stack order forma)
    finish_reconcile docs lookup targets source ApplyMode.reconcile all_stacks forma b
  generate_for_mode ApplyMode.patch forma = do
    all_stacks ← load_all lookup.load_all_stacks
    b ←
        patch_stacks docs lookup targets source ApplyMode.patch all_stacks
          (split_by_stack order forma)
    finish_patch docs lookup targets source ApplyMode.patch all_stacks b
  generate_for_mode _ forma = err unsupported

  unfoldable pub generate_for_apply : ApplyMode → Forma → Generated (List ResourceUpdate)
  unfolding check_existing_targets generate_for_mode
  generate_for_apply mode forma = do
    _ ← check_existing_targets forma.targets
    generate_for_mode mode forma

-- The switch on the command, after its checks.
unfoldable pub generate_for :
    Documents
    → Lookup
    → TargetMap
    → CommandSource
    → List Text
    → ApplyMode
    → Forma
    → Command
    → Generated (List ResourceUpdate)
unfolding generate_for_destroy generate_for_apply generate_for_sync
generate_for docs lookup targets source order mode forma Command.destroy =
    generate_for_destroy docs lookup targets source order forma
generate_for docs lookup targets source order mode forma Command.apply =
    generate_for_apply docs lookup targets source order mode forma
generate_for docs lookup targets source order mode forma Command.sync =
    generate_for_sync docs lookup targets source order forma
generate_for docs lookup targets source order mode forma Command.eval = err unsupported

abbrev pub changes_resources : Command → Bool
changes_resources Command.apply = true
changes_resources Command.destroy = true
changes_resources _ = false

unfoldable pub generate_resource_updates :
    Documents
    → Lookup
    → (existing_targets : List Target) → CommandSource
    → (order : List Text) → ApplyMode
    → Forma
    → Command
    → Generated (List ResourceUpdate)
unfolding validate_stack_references check_targets target_map generate_for
generate_resource_updates docs lookup existing_targets source order mode forma command =
    let targets = target_map existing_targets forma.targets in
    (do
      _ ←
          (if changes_resources command
            then validate_stack_references lookup forma forma.resources
            else ok tt)
      _ ← check_targets targets forma.resources
      generate_for docs lookup targets source order mode forma command)
