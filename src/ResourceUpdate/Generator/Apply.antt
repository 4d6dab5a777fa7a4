-- ===== src/ResourceUpdate/Generator/Apply.antt =====
-- The updates of an apply in the modes reconcile and patch (resource_update_generator.go).
pub mod Stacks
pub mod Reconciled
pub mod Covering
use formae.Prelude.{
  Bool, true, false, not, ◌&&◌, ◌||◌, Option, none, some, List, ◌++◌, ◌∷◌, [], Text, if◌then◌else◌,
  any, find,
}
use formae.Prelude.Results.{Result, ok, err, ◌>>=◌}
use formae.Model.Resource.{Resource}
use formae.Model.Forma.{Target, Forma, same, single_stack_label, split_by_stack}
use formae.ResourceUpdate.{OperationType, CommandSource, ResourceUpdate}
use formae.ResourceUpdate.Factory.{
  Documents, ApplyMode, Generated, document, load_failed, new_resource_update_for_existing,
  new_resource_update_for_create, new_resource_update_for_destroy,
}
use formae.ResourceUpdate.Generator.{
  Loaded, found, missing, failed, Lookup, TargetMap, target_of, unmanaged_stack, collect,
  is_update_update,
}
use formae.ResourceUpdate.Generator.Dependencies.{
  find_dependency_updates, convert_updates_to_replacements_for_dependencies,
  convert_dependency_deletes_to_replacements,
}

-- The lists to which the loops append.
pub record Batch : Type 0 where
  pub creates : List ResourceUpdate
  pub updates : List ResourceUpdate
  pub replaces : List ResourceUpdate
  pub deletes : List ResourceUpdate

abbrev pub no_updates : Batch
no_updates = record { creates = []; updates = []; replaces = []; deletes = [] }

abbrev pub join : Batch → Batch → Batch
join a b = record {
  creates = a.creates ++ b.creates;
  updates = a.updates ++ b.updates;
  replaces = a.replaces ++ b.replaces;
  deletes = a.deletes ++ b.deletes;
}

-- The switch on the operation: everything but an update is a part of a replacement.
unfoldable pub sort_updates : List ResourceUpdate → Batch
sort_updates [] = no_updates
sort_updates (u ∷ us) =
    let rest = sort_updates us in
    if is_update_update u
    then record rest { updates = u ∷ rest.updates }
    else record rest { replaces = u ∷ rest.replaces }

unfoldable pub join_all : {A : Type 0} → (A → Generated Batch) → List A → Generated Batch
join_all f [] = ok no_updates
join_all f (x ∷ xs) = do b ← f x; rest ← join_all f xs; ok (join b rest)

-- The conditions of the two loops over a stack that exists.
abbrev pub replaces_existing : Resource → Resource → Bool
replaces_existing new existing =
    same new.label existing.label
    && (same new.type existing.type
        && (same new.target existing.target
            && (same new.stack existing.stack || same existing.stack unmanaged_stack)))

abbrev pub exists_as : Resource → Resource → Bool
exists_as new existing =
    same new.label existing.label
    && (same new.type existing.type
        && (same new.target existing.target && same new.stack existing.stack))

abbrev pub same_label_and_type : Resource → Resource → Bool
same_label_and_type new existing = same existing.label new.label && same existing.type new.type

abbrev pub unmanaged_resources : List Forma → List Resource
unfolding single_stack_label
unmanaged_resources stacks = elim (find (λ s. same (single_stack_label s) unmanaged_stack) stacks) [
  | none ↦ []
  | some s ↦ s.resources
]

unfoldable pub find_unmanaged_resource : Resource → List Forma → Option Resource
unfolding unmanaged_resources
find_unmanaged_resource r stacks =
    find (λ e. same e.type r.type && same e.label r.label) (unmanaged_resources stacks)

module _ (docs : Documents) (lookup : Lookup) (targets : TargetMap) (source : CommandSource)
    (mode : ApplyMode) (all_stacks : List Forma) where
  unfoldable pub updates_for_existing : (existing new : Resource) → Generated (List ResourceUpdate)
  unfolding new_resource_update_for_existing
  updates_for_existing existing new = do
    resolvable ← document (docs.load_resolvable_properties new all_stacks)
    existing_target ← target_of targets existing.target
    new_target ← target_of targets new.target
    new_resource_update_for_existing docs resolvable existing new existing_target new_target mode
        source

  unfoldable pub create_new : Resource → Generated ResourceUpdate
  unfolding new_resource_update_for_create
  create_new new = do
    target ← target_of targets new.target
    new_resource_update_for_create docs new target source

  unfoldable pub create_batch : Resource → Generated Batch
  unfolding create_new
  create_batch new = do u ← create_new new; ok (record no_updates { creates = u ∷ [] })

  unfoldable pub delete_existing : Resource → Generated Batch
  unfolding new_resource_update_for_destroy
  delete_existing existing = do
    target ← target_of targets existing.target
    u ← new_resource_update_for_destroy docs existing target source
    ok (record no_updates { deletes = u ∷ [] })

  -- Reconcile, for a new resource of a stack that does not exist. What a resource of the unmanaged stack
  -- needs all goes to the updates, replacements as well.
  abbrev bring_in : Resource → Option Resource → Generated Batch
  unfolding create_batch updates_for_existing
  bring_in new none = create_batch new
  bring_in new (some existing) = do
    us ← updates_for_existing existing new
    ok (record no_updates { updates = us })

  unfoldable pub new_stack_resource : Resource → Generated Batch
  unfolding bring_in find_unmanaged_resource
  new_stack_resource new = bring_in new (find_unmanaged_resource new all_stacks)

  -- Reconcile, for an existing resource: the updates for each new resource that replaces it, or a delete.
  unfoldable pub update_if_replaced : (existing new : Resource) → Generated Batch
  unfolding updates_for_existing sort_updates
  update_if_replaced existing new =
      if replaces_existing new existing
      then (do us ← updates_for_existing existing new; ok (sort_updates us))
      else ok no_updates

  unfoldable pub reconcile_existing : (news : List Resource) → Resource → Generated Batch
  unfolding join_all update_if_replaced delete_existing
  reconcile_existing news existing =
      if any (λ new. replaces_existing new existing) news
      then join_all (update_if_replaced existing) news
      else delete_existing existing

  unfoldable pub create_if_new : (existing : List Resource) → Resource → Generated Batch
  unfolding create_batch
  create_if_new existing new =
      if any (exists_as new) existing then ok no_updates else create_batch new

  -- One stack in reconcile mode. The test whether the stack is unchanged compares a pointer with a value by
  -- `reflect.DeepEqual`, which is false.
  unfoldable pub reconcile_stack : Forma → Loaded → Generated Batch
  unfolding join_all new_stack_resource reconcile_existing create_if_new
  reconcile_stack stack failed = ok no_updates
  reconcile_stack stack missing = join_all new_stack_resource stack.resources
  reconcile_stack stack (found existing) = do
    a ← join_all (reconcile_existing stack.resources) existing.resources
    b ← join_all (create_if_new existing.resources) stack.resources
    ok (join a b)

  -- Patch, for a new resource: the first existing one with its label and type.
  abbrev patch_or_create : Resource → Option Resource → Generated Batch
  unfolding create_batch updates_for_existing sort_updates
  patch_or_create new none = create_batch new
  patch_or_create new (some existing) = do
    us ← updates_for_existing existing new
    ok (sort_updates us)

  unfoldable pub patch_stack : Forma → Loaded → Generated Batch
  unfolding join_all create_batch patch_or_create unmanaged_resources
  patch_stack stack failed = ok no_updates
  patch_stack stack missing = join_all create_batch stack.resources
  patch_stack stack (found existing) =
      let candidates = existing.resources ++ unmanaged_resources all_stacks in
      join_all (λ new. patch_or_create new (find (same_label_and_type new) candidates))
        stack.resources

  unfoldable pub reconcile_stacks : List Forma → Generated Batch
  unfolding join_all reconcile_stack single_stack_label
  reconcile_stacks stacks =
      join_all (λ s. reconcile_stack s (lookup.load_stack (single_stack_label s))) stacks

  unfoldable pub patch_stacks : List Forma → Generated Batch
  unfolding join_all patch_stack single_stack_label
  patch_stacks stacks =
      join_all (λ s. patch_stack s (lookup.load_stack (single_stack_label s))) stacks

  unfoldable pub finish_reconcile : Forma → Batch → Generated (List ResourceUpdate)
  unfolding find_dependency_updates convert_dependency_deletes_to_replacements
      convert_updates_to_replacements_for_dependencies
  finish_reconcile forma b = do
    deps ← find_dependency_updates docs targets source (b.replaces ++ b.deletes) all_stacks
    let all = b.creates ++ (b.replaces ++ (b.updates ++ b.deletes))
    more ← convert_dependency_deletes_to_replacements docs source targets forma all deps
    ok (convert_updates_to_replacements_for_dependencies docs source (all ++ more) deps)

  unfoldable pub finish_patch : Batch → Generated (List ResourceUpdate)
  unfolding find_dependency_updates convert_updates_to_replacements_for_dependencies
  finish_patch b = do
    deps ← find_dependency_updates docs targets source b.replaces all_stacks
    ok (
        convert_updates_to_replacements_for_dependencies docs source
          (b.creates ++ (b.updates ++ b.replaces)) deps)
