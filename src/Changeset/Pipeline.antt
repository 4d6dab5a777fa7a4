-- ===== src/Changeset/Pipeline.antt =====
-- internal/metastructure/changeset/changeset.go: groups of updates and the links between them.
-- A group is known by its URI: `Init` creates one object for each URI, so a pointer to a group is its
-- URI here, and comparing the `URI` fields of two groups is comparing the URIs. `groups` is the store
-- of these objects, and `keys` are the keys of the map `ResourceUpdateGroups`; an object whose key was
-- deleted is still in the store, as other groups may point to it.
pub mod Links
use formae.Prelude.{
  ℕ, zero, suc, Bool, true, false, not, ◌&&◌, ◌||◌, Option, none, some, List, ◌++◌, ◌∷◌, [], Text,
  codes, text_discrete, any, find, remove_first, erase, dec_in, without, ite, if◌then◌else◌,
}
use formae.Model.Uri.{FormaeUri, ksuid, property_path}
use formae.ResourceUpdate
use formae.ResourceUpdate.{OperationType, UpdateState, ResourceUpdate}

pub record Group : Type 0 where
  pub updates : List ResourceUpdate
  pub downstream : List FormaeUri
  pub upstream : List FormaeUri

abbrev pub Groups : Type 0
Groups = FormaeUri → Group

pub record Pipeline : Type 0 where
  pub groups : Groups
  pub keys : List FormaeUri

abbrev pub empty_group : Group
empty_group = record { updates = []; downstream = []; upstream = [] }

-- A write to the object that `k` stands for.
unfoldable pub put : Groups → FormaeUri → Group → Groups
put h k g = λ j. ite (text_discrete k j) g (h j)

unfoldable pub operation_text : OperationType → Text
operation_text OperationType.create = codes "create"
operation_text OperationType.update = codes "update"
operation_text OperationType.delete = codes "delete"
operation_text OperationType.read = codes "read"
operation_text OperationType.replace = codes "replace"

unfoldable pub create_operation_uri : FormaeUri → OperationType → FormaeUri
create_operation_uri base operation =
    ksuid base ++ b'/' ∷ (property_path base ++ b'/' ∷ operation_text operation)

-- The URI of the group that holds an update.
unfoldable pub operation_uri : ResourceUpdate → FormaeUri
operation_uri u = create_operation_uri (ResourceUpdate.uri u) u.operation

unfoldable pub get_resource_update_identifier : ResourceUpdate → Text
get_resource_update_identifier u = ResourceUpdate.uri u ++ b'-' ∷ operation_text u.operation

-- `rug.LinkWith(upstream)`: nothing if the link is there.
unfoldable pub link_with : Groups → (rug upstream : FormaeUri) → Groups
link_with h rug up = ite (dec_in text_discrete up (h rug).upstream) h (
    let h1 = put h rug (record (h rug) { upstream = (h rug).upstream ++ up ∷ [] }) in
    put h1 up (record (h1 up) { downstream = (h1 up).downstream ++ rug ∷ [] }))

unfoldable pub remove_upstream_group : Groups → (rug upstream : FormaeUri) → Groups
remove_upstream_group h rug up =
    put h rug (record (h rug) { upstream = erase text_discrete up (h rug).upstream })

unfoldable pub unlink_with : Groups → (rug upstream : FormaeUri) → Groups
unfolding remove_upstream_group
unlink_with h rug up =
    let h1 = remove_upstream_group h rug up in
    put h1 up (record (h1 up) { downstream = erase text_discrete rug (h1 up).downstream })

abbrev pub is_in_progress : ResourceUpdate → Bool
is_in_progress u = elim u.state [ UpdateState.in_progress ↦ true | _ ↦ false ]

abbrev pub is_not_started : ResourceUpdate → Bool
is_not_started u = elim u.state [ UpdateState.not_started ↦ true | _ ↦ false ]

unfoldable pub has_running_update : Group → Bool
has_running_update g = any is_in_progress g.updates

unfoldable pub get_running_update : Group → Option ResourceUpdate
get_running_update g = find is_in_progress g.updates

-- The update; its identifier is `get_resource_update_identifier` of it.
unfoldable pub next_update : Group → Option ResourceUpdate
next_update g = find is_not_started g.updates

abbrev pub same_operation_type : OperationType → OperationType → Bool
same_operation_type OperationType.create OperationType.create = true
same_operation_type OperationType.update OperationType.update = true
same_operation_type OperationType.delete OperationType.delete = true
same_operation_type OperationType.read OperationType.read = true
same_operation_type OperationType.replace OperationType.replace = true
same_operation_type _ _ = false

abbrev pub same_text : Text → Text → Bool
same_text a b = ite (text_discrete a b) true false

unfoldable pub pop : Groups → FormaeUri → ResourceUpdate → Groups
pop h k update = put h k (record (h k) {
  updates =
      remove_first
        (λ u.
          same_text (ResourceUpdate.uri u) (ResourceUpdate.uri update)
          && same_operation_type u.operation update.operation)
        (h k).updates;
})

unfoldable pub done : Group → Bool
done g = elim g.updates [ [] ↦ true | _ ∷ _ ↦ false ]
