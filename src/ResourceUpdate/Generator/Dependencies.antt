-- ===== src/ResourceUpdate/Generator/Dependencies.antt =====
-- The resources that depend on a deleted one (resource_update_generator.go).
pub mod Covered
pub mod Dependents
use formae.Prelude.{
  Bool, true, false, not, ◌&&◌, ◌||◌, Option, none, some, List, ◌++◌, ◌∷◌, [], Text, codes,
  if◌then◌else◌, any, remove_first,
}
use formae.Prelude.Results.{Result, ok, err, ◌>>=◌}
use formae.Model.Uri.{FormaeUri, stripped}
use formae.Model.Resource
use formae.Model.Resource.{Resource}
use formae.Model.Forma.{Target, Forma, same}
use formae.ResourceUpdate
use formae.ResourceUpdate.{OperationType, CommandSource, ResourceUpdate}
use formae.ResourceUpdate.Factory.{
  Documents, Generated, new_resource_update_for_destroy, new_resource_update_for_replace,
}
use formae.ResourceUpdate.Generator.{
  TargetMap, target_of, same_triplet, is_delete_update, is_update_update,
}

-- The key of `formaResourceMap`.
abbrev pub resource_key : Resource → Text
resource_key r = r.stack ++ (codes "|" ++ (r.label ++ (codes "|" ++ r.type)))

-- The stripped URIs agree.
abbrev pub same_uri : ResourceUpdate → ResourceUpdate → Bool
unfolding ResourceUpdate.uri stripped
same_uri a b = same (stripped (ResourceUpdate.uri a)) (stripped (ResourceUpdate.uri b))

unfoldable pub add_missing_deletes :
    List ResourceUpdate → (dependency_deletes : List ResourceUpdate) → List ResourceUpdate
unfolding same_uri
add_missing_deletes out [] = out
add_missing_deletes out (d ∷ ds) =
    add_missing_deletes
      (if any (λ u. same_uri u d && is_delete_update u) out then out else out ++ d ∷ []) ds

module _ (docs : Documents) where
  unfoldable pub depends_on : Resource → Resource → Bool
  unfolding Resource.uri stripped
  depends_on target r =
      not (same_triplet r target)
      && any (λ u. same (stripped u) (stripped (Resource.uri target)))
          (docs.extract_resolvable_uris r)

  dependents_among : Resource → List Resource → List Resource
  unfolding depends_on
  dependents_among target [] = []
  dependents_among target (r ∷ rs) =
      let rest = dependents_among target rs in if depends_on target r then r ∷ rest else rest

  unfoldable pub find_resources_that_depend_on : Resource → List Forma → List Resource
  unfolding dependents_among
  find_resources_that_depend_on target [] = []
  find_resources_that_depend_on target (s ∷ stacks) =
      dependents_among target s.resources ++ find_resources_that_depend_on target stacks

  module _ (targets : TargetMap) (source : CommandSource) where
    -- A dependent whose delete cannot be made is skipped; a missing target is a panic.
    abbrev add_delete : Resource → Target → List ResourceUpdate → List ResourceUpdate
    unfolding new_resource_update_for_destroy
    add_delete r t rest = elim (new_resource_update_for_destroy docs r t source) [
      | err e ↦ rest
      | ok u ↦ u ∷ rest
    ]

    unfoldable pub delete_dependents :
        (already : List ResourceUpdate) → List Resource → Generated (List ResourceUpdate)
    unfolding add_delete
    delete_dependents already [] = ok []
    delete_dependents already (r ∷ rs) =
        let rest = delete_dependents already rs in
        if any (λ u. same_triplet u.resource r) already
        then rest
        else (do t ← target_of targets r.target; us ← rest; ok (add_delete r t us))

    dependency_updates :
        (all_deletes : List ResourceUpdate)
        → List Forma
        → List ResourceUpdate
        → Generated (List ResourceUpdate)
    unfolding delete_dependents find_resources_that_depend_on
    dependency_updates all_deletes stacks [] = ok []
    dependency_updates all_deletes stacks (u ∷ us) =
        let rest = dependency_updates all_deletes stacks us in
        if is_delete_update u
        then (do
          ds ← delete_dependents all_deletes (find_resources_that_depend_on u.resource stacks)
          more ← rest
          ok (ds ++ more))
        else rest

    unfoldable pub find_dependency_updates :
        List ResourceUpdate → List Forma → Generated (List ResourceUpdate)
    unfolding dependency_updates
    find_dependency_updates all_deletes stacks = dependency_updates all_deletes stacks all_deletes

  module _ (source : CommandSource) where
    abbrev replacement : ResourceUpdate → Generated (List ResourceUpdate)
    unfolding new_resource_update_for_replace
    replacement u =
        new_resource_update_for_replace docs u.existing_resource u.resource u.existing_target
          u.resource_target source

    -- A replacement that cannot be made is skipped, and then its dependency delete stays.
    unfoldable pub convert_updates :
        List ResourceUpdate
        → (dependency_deletes : List ResourceUpdate) → List ResourceUpdate × List ResourceUpdate
    unfolding replacement same_uri
    convert_updates [] deps = ([], deps)
    convert_updates (u ∷ us) deps = elim (is_update_update u && any (λ d. same_uri u d) deps) [
      | true ↦ elim (replacement u) [
        | err e ↦ convert_updates us deps
        | ok rs ↦
            let (out, left) = convert_updates us (remove_first (λ d. same_uri d u) deps) in
            (rs ++ out, left)
      ]
      | false ↦ let (out, left) = convert_updates us deps in (u ∷ out, left)
    ]

    unfoldable pub convert_updates_to_replacements_for_dependencies :
        List ResourceUpdate → (dependency_deletes : List ResourceUpdate) → List ResourceUpdate
    unfolding convert_updates add_missing_deletes
    convert_updates_to_replacements_for_dependencies us deps =
        let (out, left) = convert_updates us deps in add_missing_deletes out left

    module _ (targets : TargetMap) (forma : Forma) (all : List ResourceUpdate) where
      -- The entry of `formaResourceMap`: the last resource of the forma with the key.
      unfoldable pub forma_resource : Resource → List Resource → Option Resource
      forma_resource r [] = none
      forma_resource r (f ∷ fs) =
          let later = forma_resource r fs in
          elim later [
            | some x ↦ some x
            | none ↦ (if same (resource_key f) (resource_key r) then some f else none)
          ]

      abbrev pub has_update_or_create : ResourceUpdate → Bool
      unfolding same_uri
      has_update_or_create d =
          any
            (λ u. same_uri u d && (elim u.operation [
              | OperationType.update ↦ true
              | OperationType.create ↦ true
              | _ ↦ false
            ]))
            all

      -- One dependency delete: the replacement that takes its place, or nothing.
      unfoldable pub converted :
          ResourceUpdate → Option Resource → Generated (Option (List ResourceUpdate))
      unfolding has_update_or_create new_resource_update_for_replace
      converted d none = ok none
      converted d (some r) = if has_update_or_create d then ok none else (do
        t ← target_of targets r.target
        elim (new_resource_update_for_replace docs d.resource r d.resource_target t source) [
          | err e ↦ ok none
          | ok rs ↦ ok (some rs)
        ])

      -- The replacements, and the deletes that remain.
      unfoldable pub convert_deletes :
          List ResourceUpdate → Generated (List ResourceUpdate × List ResourceUpdate)
      unfolding converted forma_resource
      convert_deletes [] = ok ([], [])
      convert_deletes (d ∷ ds) = do
        c ← converted d (forma_resource d.resource forma.resources)
        rest ← convert_deletes ds
        ok (elim c [ none ↦ (rest.0, d ∷ rest.1) | some rs ↦ (rs ++ rest.0, rest.1) ])

      unfoldable pub convert_dependency_deletes_to_replacements :
          List ResourceUpdate → Generated (List ResourceUpdate)
      unfolding convert_deletes
      convert_dependency_deletes_to_replacements ds = do
        (replaced, left) ← convert_deletes ds
        ok (replaced ++ left)
