-- ===== src/ResourceUpdate/Generator/Apply/Covering.antt =====
-- What depends on a deleted resource is deleted as well (resource_update_generator.go).
use formae.Prelude.{
  ◌≡◌, ◌⊎◌, inl, inr, refl, sym, ap, subst, ◌∙◌, true, false, Option, some, none, List, ◌++◌, ◌∷◌,
  [], Text, In, any, in-append, Bool-cases, arith, some_injective,
}
use formae.Prelude.Results.{ok, bind-ok, ok_injective, Result-cases}
use formae.Model.Resource.{Resource}
use formae.Model.Forma.{Forma, Target}
use formae.ResourceUpdate.{OperationType, CommandSource, ResourceUpdate}
use formae.ResourceUpdate.Factory.{Documents, ApplyMode, new_resource_update_for_replace}
use formae.ResourceUpdate.Factory.Laws.{replace-resources}
use formae.ResourceUpdate.Generator.{
  Lookup, TargetMap, target_of, same_triplet, is_delete_update, is_update_update,
}
use formae.ResourceUpdate.Generator.Apply.{Batch, finish_reconcile}
use formae.ResourceUpdate.Generator.Dependencies.{
  depends_on, find_dependency_updates, convert_dependency_deletes_to_replacements, convert_deletes,
  converted, forma_resource, has_update_or_create,
}
use formae.ResourceUpdate.Generator.Dependencies.Covered.{
  IsCovered, KeepsResource, convert_updates_to_replacements_for_dependencies-IsCovered,
}
use formae.ResourceUpdate.Generator.Dependencies.Dependents.{
  IsDeleteOf, OnlyDeletes, find_dependency_updates-In,
}

-- No update among them.
abbrev NoUpdates : List ResourceUpdate → Type 0
NoUpdates us = (u : ResourceUpdate) → In u us → is_update_update u ≡ false

delete-is_update :
    (u : ResourceUpdate) → u.operation ≡ OperationType.delete → is_update_update u ≡ false
delete-is_update u o = ground (arith, o)

create-is_update :
    (u : ResourceUpdate) → u.operation ≡ OperationType.create → is_update_update u ≡ false
create-is_update u o = ground (arith, o)

delete-is_delete :
    (u : ResourceUpdate) → u.operation ≡ OperationType.delete → is_delete_update u ≡ true
delete-is_delete u o = ground (arith, o)

NoUpdates-append :
    (us vs : List ResourceUpdate) → NoUpdates us → NoUpdates vs → NoUpdates (us ++ vs)
NoUpdates-append us vs h k u m = elim (in-append u us vs m) [ inl l ↦ h u l | inr r ↦ k u r ]

KeepsResource-append :
    (us vs : List ResourceUpdate) → KeepsResource us → NoUpdates vs → KeepsResource (us ++ vs)
KeepsResource-append us vs h k u m q = elim (in-append u us vs m) [
  | inl l ↦ h u l q
  | inr r ↦ absurd (both (sym q ∙ k u r))
]
  where
    both : true ≡ false → ⊥
    both z = cc

none_not_some : {rs : List ResourceUpdate} → none ≡ some rs → ⊥
none_not_some q = cc

module _ (docs : Documents) (source : CommandSource) (targets : TargetMap) (forma : Forma)
    (all : List ResourceUpdate) where
  replace-NoUpdates :
      (a b : Resource) (t t' : Target) (rs : List ResourceUpdate)
      → new_resource_update_for_replace docs a b t t' source ≡ ok rs
      → NoUpdates rs
  replace-NoUpdates a b t t' rs e u m =
      let (d, c, made, o, _, p, _) = replace-resources docs source a b t t' rs e in
      elim (subst (In u) made m) [
        | inl i ↦ ap is_update_update i ∙ delete-is_update d o
        | inr (inl i) ↦ ap is_update_update i ∙ create-is_update c p
        | inr (inr n) ↦ absurd n
      ]

  converted-NoUpdates :
      (d : ResourceUpdate) (r : Option Resource) (rs : List ResourceUpdate)
      → converted docs source targets forma all d r ≡ ok (some rs)
      → NoUpdates rs
  unfolding converted
  converted-NoUpdates d none rs e = absurd (none_not_some (ok_injective e))
  converted-NoUpdates d (some r) rs e =
      elim (Bool-cases (has_update_or_create docs source targets forma all d)) [
        | inl q ↦ absurd (none_not_some (ok_injective (rw q at e)))
        | inr q ↦
            let (t, e1, e2) = bind-ok (target_of targets r.target) _ (rw q at e) in
            elim (Result-cases
              (new_resource_update_for_replace docs d.resource r d.resource_target t source)) [
                | inl (x, f) ↦ absurd (none_not_some (ok_injective (rw f at e2)))
                | inr (vs, f) ↦
                    subst NoUpdates (some_injective (ok_injective (rw f at e2)))
                      (replace-NoUpdates d.resource r d.resource_target t vs f)
              ]
      ]

  convert_deletes-NoUpdates :
      (ds : List ResourceUpdate) (p : List ResourceUpdate × List ResourceUpdate)
      → OnlyDeletes ds
      → convert_deletes docs source targets forma all ds ≡ ok p
      → NoUpdates p.0 × NoUpdates p.1
  unfolding convert_deletes
  convert_deletes-NoUpdates [] p h e =
      subst (λ (q : List ResourceUpdate × List ResourceUpdate). NoUpdates q.0 × NoUpdates q.1)
        (ok_injective e) ((λ u m. absurd m), λ u m. absurd m)
  convert_deletes-NoUpdates (d ∷ ds) p h e =
      let (c, e1, e2) =
        bind-ok
          (converted docs source targets forma all d
            (forma_resource docs source targets forma all d.resource forma.resources))
          _ e in
      let (rest, e3, e4) = bind-ok (convert_deletes docs source targets forma all ds) _ e2 in
      let (n, k) = convert_deletes-NoUpdates ds rest (λ u m. h u (inr m)) e3 in
      subst (λ (q : List ResourceUpdate × List ResourceUpdate). NoUpdates q.0 × NoUpdates q.1)
        (ok_injective e4) (chosen c e1 rest n k)
    where
      chosen :
          (c : Option (List ResourceUpdate))
          → converted docs source targets forma all d
              (forma_resource docs source targets forma all d.resource forma.resources)
            ≡ ok c
          → (rest : List ResourceUpdate × List ResourceUpdate) → NoUpdates rest.0
          → NoUpdates rest.1
          → let q : List ResourceUpdate × List ResourceUpdate = elim c [
            | none ↦ (rest.0, d ∷ rest.1)
            | some rs ↦ (rs ++ rest.0, rest.1)
          ] in
            NoUpdates q.0 × NoUpdates q.1
      chosen none f rest n k = (
        n,
        λ u m. elim m [
          | inl i ↦ ap is_update_update i ∙ delete-is_update d (h d (inl refl))
          | inr j ↦ k u j
        ],
      )
      chosen (some rs) f rest n k = (NoUpdates-append rs rest.0 (converted-NoUpdates d _ rs f) n, k)

  converted_deletes-NoUpdates :
      (ds us : List ResourceUpdate)
      → OnlyDeletes ds
      → convert_dependency_deletes_to_replacements docs source targets forma all ds ≡ ok us
      → NoUpdates us
  unfolding convert_dependency_deletes_to_replacements
  converted_deletes-NoUpdates ds us h e =
      let (p, e1, e2) = bind-ok (convert_deletes docs source targets forma all ds) _ e in
      let (n, k) = convert_deletes-NoUpdates ds p h e1 in
      subst NoUpdates (ok_injective e2) (NoUpdates-append p.0 p.1 n k)

-- When reconcile has made its lists without an error, take a resource that it deletes or replaces, and
-- a resource of an existing stack that refers to it. Then this one is deleted or replaced itself, or the
-- result has a delete of it. (Metadata can be read, and an update is for the resource that it changes.)
pub finish_reconcile-IsCovered :
    (docs : Documents) (lookup : Lookup) (targets : TargetMap) (source : CommandSource)
    (mode : ApplyMode) (all_stacks : List Forma) (forma : Forma) (b : Batch)
    (us : List ResourceUpdate) (u : ResourceUpdate) (s : Forma) (r : Resource)
    → ((x : Resource) → (m : Text) × (docs.metadata x ≡ some m))
    → KeepsResource (b.creates ++ (b.replaces ++ (b.updates ++ b.deletes)))
    → finish_reconcile docs lookup targets source mode all_stacks forma b ≡ ok us
    → In u (b.replaces ++ b.deletes)
    → is_delete_update u ≡ true
    → In s all_stacks
    → In r s.resources
    → depends_on docs u.resource r ≡ true
    → (any (λ x. same_triplet x.resource r) (b.replaces ++ b.deletes) ≡ true)
      ⊎ ((d : ResourceUpdate) × IsDeleteOf r d × IsCovered d us)
unfolding finish_reconcile
finish_reconcile-IsCovered docs lookup targets source mode all_stacks forma b us u s r documented
      keeps e m q i j k =
    let all = b.creates ++ (b.replaces ++ (b.updates ++ b.deletes)) in
    let (deps, e1, e2) =
      bind-ok (find_dependency_updates docs targets source (b.replaces ++ b.deletes) all_stacks) _
        e in
    let (more, e3, e4) =
      bind-ok (convert_dependency_deletes_to_replacements docs source targets forma all deps) _
        e2 in
    let (only, found) =
      find_dependency_updates-In docs targets source documented (b.replaces ++ b.deletes) all_stacks
        deps e1 in
    let keeps' =
      KeepsResource-append all more keeps
        (converted_deletes-NoUpdates docs source targets forma all deps more only e3) in
    elim (found u s r m q i j k) [
      | inl z ↦ inl z
      | inr (d, n, w) ↦ inr (
        d,
        w,
        subst (IsCovered d) (ok_injective e4) (
            convert_updates_to_replacements_for_dependencies-IsCovered docs source (all ++ more)
              deps d keeps' n (delete-is_delete d w.operation)),
      )
    ]
