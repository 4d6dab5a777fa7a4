-- ===== src/Tests/Generators.antt =====
-- The theorems on the generator at a stack with two buckets, where `b` refers to `a`.
use formae.Prelude.{
  ◌≡◌, ◌⊎◌, inl, inr, refl, Bool, true, false, none, some, List, ◌∷◌, [], Text, codes, In, any,
  text_discrete, if◌then◌else◌,
}
use formae.Prelude.Results.{ok, err}
use formae.Model.Uri.{new_formae_uri, stripped, ksuid}
use formae.Model.Resource.{Resource}
use formae.Model.Forma.{Forma, same}
use formae.ResourceUpdate.{OperationType, CommandSource, ResourceUpdate}
use formae.ResourceUpdate.Factory.{Documents, ApplyMode, PropertyValue, blank}
use formae.ResourceUpdate.Generator.{found, missing, Lookup, TargetMap, same_triplet}
use formae.ResourceUpdate.Generator.Dependencies.{depends_on}
use formae.ResourceUpdate.Generator.Dependencies.Covered.{IsCovered, KeepsResource}
use formae.ResourceUpdate.Generator.Dependencies.Dependents.{IsDeleteOf}
use formae.ResourceUpdate.Generator.Apply.{Batch, no_updates, reconcile_stack, finish_reconcile}
use formae.ResourceUpdate.Generator.Apply.Reconciled.{IsReconciled, reconcile_stack-IsReconciled}
use formae.ResourceUpdate.Generator.Apply.Covering.{finish_reconcile-IsCovered}
use formae.ResourceUpdate.Generator.Commands.{generate_for_destroy}
use formae.ResourceUpdate.Generator.Commands.Destroy.{IsNamed, Deletes, generate_for_destroy-In}
use formae.Tests.Samples.{bucket, aws}

abbrev named_a : Resource → Bool
named_a r = same r.label (codes "a")

-- Resources of one label do not differ, and every bucket but `a` refers to `a`.
abbrev plain : Documents
plain = record {
  same_resource = λ x y. same x.label y.label;
  same_json = λ x y. true;
  enforce_set_once_and_compare = λ x y. some (true, y.properties);
  to_plugin_format = λ t. some t;
  generate_patch = λ old new props fields create_only mode. some (some [], false);
  extract_resolvable_uris =
      λ r. if named_a r then [] else new_formae_uri (codes "a") (codes "Arn") ∷ [];
  metadata = λ r. some (codes "{}");
  property = λ r f. PropertyValue.other_value;
  load_resolvable_properties = λ r stacks. some [];
}

abbrev main_stack : Forma
main_stack = record {
  stacks = record { label = codes "main"; description = [] } ∷ [];
  targets = aws ∷ [];
  resources = bucket (codes "a") ∷ bucket (codes "b") ∷ [];
}

-- The forma keeps `b` only.
abbrev without_a : Forma
without_a = record main_stack { resources = bucket (codes "b") ∷ [] }

abbrev stored_main : Lookup
stored_main = record {
  load_stack = λ l. if same l (codes "main") then found main_stack else missing;
  load_all_stacks = some (main_stack ∷ []);
}

abbrev one_target : TargetMap
one_target l = if same l (codes "aws") then some aws else none

abbrev delete_a : ResourceUpdate
delete_a = record (blank OperationType.delete CommandSource.user) {
  existing_resource = bucket (codes "a");
  resource = bucket (codes "a");
  resource_target = aws;
  meta_data = codes "{}";
  stack_label = codes "main";
}

abbrev only_a : Batch
only_a = record no_updates { deletes = delete_a ∷ [] }

reconciled :
    reconcile_stack plain stored_main one_target CommandSource.user ApplyMode.reconcile
      (main_stack ∷ [])
      without_a
      (found main_stack)
    ≡ ok only_a
unfolding reconcile_stack text_discrete
reconciled = refl

reconcile_stack-IsReconciled_example : IsReconciled without_a.resources main_stack.resources only_a
reconcile_stack-IsReconciled_example =
    reconcile_stack-IsReconciled plain stored_main one_target CommandSource.user ApplyMode.reconcile
      (main_stack ∷ []) without_a main_stack only_a reconciled

abbrev all_updates : List ResourceUpdate
unfolding finish_reconcile text_discrete
all_updates =
    elim (finish_reconcile plain stored_main one_target CommandSource.user ApplyMode.reconcile
      (main_stack ∷ []) without_a only_a) [ err e ↦ [] | ok us ↦ us ]

finished :
    finish_reconcile plain stored_main one_target CommandSource.user ApplyMode.reconcile
      (main_stack ∷ [])
      without_a
      only_a
    ≡ ok all_updates
unfolding finish_reconcile text_discrete all_updates new_formae_uri ksuid
finished = refl

-- `b` is replaced, since it refers to `a`.
abbrev operations : List ResourceUpdate → List (Text × OperationType)
operations [] = []
operations (u ∷ us) = (u.resource.label, u.operation) ∷ operations us

operations_test : operations all_updates ≡ (
    (codes "a", OperationType.delete)
    ∷ (codes "b", OperationType.delete)
    ∷ (codes "b", OperationType.create)
    ∷ [])
unfolding finish_reconcile text_discrete all_updates new_formae_uri ksuid
operations_test = refl

-- If `b` refers to two resources that are deleted, it is replaced twice.
abbrev two_references : Documents
two_references = record plain {
  extract_resolvable_uris = λ r.
      if same r.label (codes "b")
      then new_formae_uri (codes "a") (codes "Arn") ∷ new_formae_uri (codes "c") (codes "Arn") ∷ []
      else [];
}

abbrev delete_c : ResourceUpdate
delete_c = record delete_a { existing_resource = bucket (codes "c"); resource = bucket (codes "c") }

abbrev replaced_twice : List (Text × OperationType)
unfolding finish_reconcile text_discrete new_formae_uri ksuid
replaced_twice =
    elim (finish_reconcile two_references stored_main one_target CommandSource.user
      ApplyMode.reconcile (main_stack ∷ []) without_a
      (record no_updates { deletes = delete_a ∷ delete_c ∷ [] })) [
        | err e ↦ []
        | ok us ↦ operations us
      ]

replaced_twice_test : replaced_twice ≡ (
    (codes "a", OperationType.delete)
    ∷ (codes "c", OperationType.delete)
    ∷ (codes "b", OperationType.delete)
    ∷ (codes "b", OperationType.create)
    ∷ (codes "b", OperationType.delete)
    ∷ (codes "b", OperationType.create)
    ∷ [])
unfolding replaced_twice finish_reconcile text_discrete new_formae_uri ksuid
replaced_twice_test = refl

finish_reconcile-IsCovered_example :
    (any (λ x. same_triplet x.resource (bucket (codes "b"))) (delete_a ∷ []) ≡ true)
    ⊎ ((d : ResourceUpdate) × IsDeleteOf (bucket (codes "b")) d × IsCovered d all_updates)
unfolding text_discrete stripped depends_on new_formae_uri ksuid
finish_reconcile-IsCovered_example =
    finish_reconcile-IsCovered plain stored_main one_target CommandSource.user ApplyMode.reconcile
      (main_stack ∷ []) without_a only_a all_updates delete_a main_stack (bucket (codes "b"))
      (λ x. (codes "{}", refl)) only_deletes finished (inl refl) refl (inl refl) (inr (inl refl))
      refl
  where
    only_deletes : KeepsResource (delete_a ∷ [])
    only_deletes u m q = refl_ksuid u m
      where
        refl_ksuid :
            (u : ResourceUpdate)
            → In u (delete_a ∷ [])
            → u.existing_resource.ksuid ≡ u.resource.ksuid
        refl_ksuid u (inl e) = cc
        refl_ksuid u (inr n) = absurd n

abbrev destroyed_b : List ResourceUpdate
unfolding generate_for_destroy text_discrete
destroyed_b =
    elim (generate_for_destroy plain stored_main one_target CommandSource.user (codes "main" ∷ [])
      without_a) [ err e ↦ [] | ok us ↦ us ]

destroyed :
    generate_for_destroy plain stored_main one_target CommandSource.user
      (codes "main" ∷ [])
      without_a
    ≡ ok destroyed_b
unfolding generate_for_destroy text_discrete destroyed_b
destroyed = refl

generate_for_destroy-In_example :
    ((u : ResourceUpdate)
      → In u destroyed_b
      → (u.operation ≡ OperationType.delete)
        × ((l : Text) × In l (codes "main" ∷ []) × IsNamed stored_main without_a l u.resource))
    × ((l : Text) (e : Resource)
        → In l (codes "main" ∷ [])
        → IsNamed stored_main without_a l e
        → (u : ResourceUpdate) × In u destroyed_b × Deletes u e)
generate_for_destroy-In_example =
    generate_for_destroy-In plain stored_main one_target CommandSource.user (codes "main" ∷ [])
      without_a destroyed_b destroyed
