-- ===== src/Changeset/Init.antt =====
-- changeset.go: `Init` and the functions that build the links between the groups.
-- Go ranges over a map in an unspecified order; `Order` holds the orders in which the three maps of
-- the link builders are passed, as lists of their keys.
pub mod Operations
pub mod Wired
pub mod Dependencies
pub mod Sound
use formae.Prelude.{
  ℕ, Bool, true, false, ◌&&◌, ◌||◌, Option, none, some, List, ◌++◌, ◌∷◌, [], Text, text_discrete,
  dec_in, ite, if◌then◌else◌,
}
use formae.Model.Uri.{FormaeUri, stripped}
use formae.ResourceUpdate
use formae.ResourceUpdate.{OperationType, ResourceUpdate}
use formae.Changeset.Pipeline.{
  Group, Groups, Pipeline, put, create_operation_uri, operation_uri, link_with, same_text,
}
use formae.Changeset.Cycles.{has_cycles}

pub record Order : Type 0 where
  pub deletes : List FormaeUri
  pub changes : List FormaeUri
  pub replacements : List Text

abbrev expand : ResourceUpdate → List ResourceUpdate
expand u = elim u.operation [
  | OperationType.replace ↦
      record u { operation = OperationType.delete }
      ∷ record u { operation = OperationType.create }
      ∷ []
  | _ ↦ u ∷ []
]

-- Step 1 of `Init`: a replace becomes a delete and a create.
unfoldable pub split_replaces : List ResourceUpdate → List ResourceUpdate
split_replaces [] = []
split_replaces (u ∷ us) = expand u ++ split_replaces us

add_group : Pipeline → ResourceUpdate → Pipeline
add_group p u =
    let k = operation_uri u in
    record {
      groups = put p.groups k (record { updates = u ∷ []; downstream = []; upstream = [] });
      keys = ite (dec_in text_discrete k p.keys) p.keys (p.keys ++ k ∷ []);
    }

-- Step 2 of `Init`: a later operation with the same URI replaces the group of an earlier one.
unfoldable pub add_groups : Pipeline → List ResourceUpdate → Pipeline
unfolding add_group
add_groups p [] = p
add_groups p (u ∷ us) = add_groups (add_group p u) us

-- The entry of a map that is filled from the operations in order: the last one that passes.
unfoldable pub last_op : (ResourceUpdate → Bool) → List ResourceUpdate → Option ResourceUpdate
last_op test [] = none
last_op test (u ∷ us) = elim (last_op test us) [
  | some v ↦ some v
  | none ↦ if test u then some u else none
]

abbrev pub is_delete_op : ResourceUpdate → Bool
is_delete_op u = elim u.operation [ OperationType.delete ↦ true | _ ↦ false ]

abbrev pub is_create_op : ResourceUpdate → Bool
is_create_op u = elim u.operation [ OperationType.create ↦ true | _ ↦ false ]

abbrev pub is_change_op : ResourceUpdate → Bool
is_change_op u = elim u.operation [
  | OperationType.create ↦ true
  | OperationType.update ↦ true
  | _ ↦ false
]

-- fmt.Sprintf("%s/%s/%s", stack, label, type)
unfoldable pub resource_key : ResourceUpdate → Text
resource_key u = u.resource.stack ++ b'/' ∷ (u.resource.label ++ b'/' ∷ u.resource.type)

-- The maps `deleteOps` and `createUpdateOps` by URI, and `deleteOps` and `createOps` by resource key.
unfoldable pub delete_op : List ResourceUpdate → FormaeUri → Option ResourceUpdate
delete_op ops k = last_op (λ u. is_delete_op u && same_text (ResourceUpdate.uri u) k) ops

unfoldable pub change_op : List ResourceUpdate → FormaeUri → Option ResourceUpdate
change_op ops k = last_op (λ u. is_change_op u && same_text (ResourceUpdate.uri u) k) ops

unfoldable pub delete_of_key : List ResourceUpdate → Text → Option ResourceUpdate
delete_of_key ops k = last_op (λ u. is_delete_op u && same_text (resource_key u) k) ops

unfoldable pub create_of_key : List ResourceUpdate → Text → Option ResourceUpdate
create_of_key ops k = last_op (λ u. is_create_op u && same_text (resource_key u) k) ops

module _ (ops : List ResourceUpdate) where
  -- REVERSED: the delete of a dependency waits for the delete of its dependent.
  link_delete : FormaeUri → List FormaeUri → Groups → Groups
  link_delete dependent [] h = h
  link_delete dependent (r ∷ rs) h = link_delete dependent rs (elim (delete_op ops (stripped r)) [
    | none ↦ h
    | some _ ↦ link_with h (create_operation_uri (stripped r) OperationType.delete) dependent
  ])

  build_delete_dependencies : List FormaeUri → Groups → Groups
  unfolding link_delete
  build_delete_dependencies [] h = h
  build_delete_dependencies (k ∷ ks) h = build_delete_dependencies ks (elim (delete_op ops k) [
    | none ↦ h
    | some op ↦
        link_delete (create_operation_uri (ResourceUpdate.uri op) OperationType.delete)
          op.remaining_resolvables h
  ])

  -- NORMAL: a dependent waits for its dependency.
  link_change : FormaeUri → List FormaeUri → Groups → Groups
  link_change dependent [] h = h
  link_change dependent (r ∷ rs) h = link_change dependent rs (elim (change_op ops (stripped r)) [
    | none ↦ h
    | some op ↦ link_with h dependent (create_operation_uri (stripped r) op.operation)
  ])

  build_create_update_dependencies : List FormaeUri → Groups → Groups
  unfolding link_change
  build_create_update_dependencies [] h = h
  build_create_update_dependencies (k ∷ ks) h =
      build_create_update_dependencies ks (elim (change_op ops k) [
        | none ↦ h
        | some op ↦
            link_change (create_operation_uri (ResourceUpdate.uri op) op.operation)
              op.remaining_resolvables h
      ])

  connect : Option ResourceUpdate → Option ResourceUpdate → Groups → Groups
  connect (some d) (some c) h =
      link_with h (create_operation_uri (ResourceUpdate.uri c) OperationType.create)
        (create_operation_uri (ResourceUpdate.uri d) OperationType.delete)
  connect _ _ h = h

  connect_delete_to_create : List Text → Groups → Groups
  unfolding connect
  connect_delete_to_create [] h = h
  connect_delete_to_create (k ∷ ks) h =
      connect_delete_to_create ks (connect (delete_of_key ops k) (create_of_key ops k) h)

  unfoldable pub build_operation_relationships : Order → Groups → Groups
  unfolding build_delete_dependencies build_create_update_dependencies connect_delete_to_create
  build_operation_relationships order h =
      connect_delete_to_create order.replacements
        (build_create_update_dependencies order.changes (build_delete_dependencies order.deletes h))

pub data InitResult : Type 0 where
  built : Pipeline → InitResult
  cycles_detected : InitResult

abbrev pub empty_pipeline : Pipeline
empty_pipeline = record {
  groups = λ k. record { updates = []; downstream = []; upstream = [] };
  keys = [];
}

-- The pipeline before the check for cycles.
unfoldable pub assemble : Order → List ResourceUpdate → Pipeline
assemble order updates =
    let ops = split_replaces updates in
    let p = add_groups empty_pipeline ops in
    record p { groups = build_operation_relationships ops order p.groups }

abbrev checked : Pipeline → Option Bool → Option InitResult
checked p none = none
checked p (some true) = some cycles_detected
checked p (some false) = some (built p)

-- `NewChangesetFromResourceUpdates` and `Init`; `none` means that the search for cycles ran out of fuel.
unfoldable pub init : Order → List ResourceUpdate → Option InitResult
init order updates = let p = assemble order updates in checked p (has_cycles p)
