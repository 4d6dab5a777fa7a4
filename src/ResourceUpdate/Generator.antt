-- ===== src/ResourceUpdate/Generator.antt =====
-- internal/metastructure/resource_update/resource_update_generator.go: the resource updates that a
-- command needs. Children have the dependencies between resources, the two modes of apply, and the
-- theorems. The forma is the one after the translation of its references.
pub mod Collect
pub mod Dependencies
pub mod Apply
pub mod Commands
use formae.Prelude.{
  Bool, true, false, ◌&&◌, Option, none, some, List, ◌++◌, ◌∷◌, [], Text, codes, if◌then◌else◌, any,
  find,
}
use formae.Prelude.Results.{Result, ok, err, ◌>>=◌}
use formae.Model.Resource.{Resource}
use formae.Model.Forma.{Target, Forma, same, single_stack_label}
use formae.ResourceUpdate.{OperationType, CommandSource, ResourceUpdate}
use formae.ResourceUpdate.Factory.{Generated, nil_pointer}

-- What the datastore answers for a stack: an error, no stack, or the stack.
pub data Loaded : Type 0 where
  failed missing : Loaded
  found : Forma → Loaded

pub record Lookup : Type 0 where
  pub load_stack : Text → Loaded
  pub load_all_stacks : Option (List Forma)

abbrev pub unmanaged_stack : Text
unmanaged_stack = codes "$unmanaged"

-- `targetMap`, and `*targetMap[label]`, which panics for a missing target.
abbrev pub TargetMap : Type 0
TargetMap = Text → Option Target

abbrev pub target_of : TargetMap → Text → Generated Target
target_of targets l = elim (targets l) [ none ↦ err nil_pointer | some t ↦ ok t ]

-- The same label, stack and type.
abbrev pub same_triplet : Resource → Resource → Bool
same_triplet a b = same a.label b.label && (same a.stack b.stack && same a.type b.type)

-- A loop that appends what each element gives, and returns the first error.
unfoldable pub collect : {A B : Type 0} → (A → Generated (List B)) → List A → Generated (List B)
collect f [] = ok []
collect f (x ∷ xs) = do bs ← f x; rest ← collect f xs; ok (bs ++ rest)

abbrev pub is_delete_update : ResourceUpdate → Bool
is_delete_update u = elim u.operation [ OperationType.delete ↦ true | _ ↦ false ]

abbrev pub is_update_update : ResourceUpdate → Bool
is_update_update u = elim u.operation [ OperationType.update ↦ true | _ ↦ false ]
