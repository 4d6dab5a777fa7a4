-- ===== src/Datastore.antt =====
-- internal/metastructure/datastore/sqlite.go: the tables of resources and targets, and resourcesAreEqual of
-- datastore.go. A table is the list of its rows, a query a function on them: `ORDER BY version DESC LIMIT 1`
-- is the row with the greatest version. The column with the JSON of a resource holds the resource.
-- The database and the encoding of JSON are taken not to fail.
pub mod Loading
pub mod Storing
pub mod Deleting
pub mod Keys
use formae.Prelude.{
  ℕ, Bool, true, false, not, ◌&&◌, Option, none, some, List, ◌++◌, ◌∷◌, [], Text, ◌==◌, ltb, any,
  find, is_empty, if◌then◌else◌, codes,
}
use formae.Model.Uri.{FormaeUri}
use formae.Model.Resource
use formae.Model.Resource.{Resource}
use formae.Model.Forma.{Target, same, resources_in}

-- The operation in a row is update or delete. For a delete the column `data` has `{}`, here `none`.
pub record Row : Type 0 where
  pub uri : FormaeUri
  pub version : ℕ
  pub command_id : Text
  pub deleted : Bool
  pub native_id : Text
  pub stack : Text
  pub type : Text
  pub label : Text
  pub target : Text
  pub content : Option Resource
  pub managed : Bool
  pub ksuid : Text

abbrev pub Table : Type 0
Table = List Row

abbrev pub newer : Row → Option Row → Option Row
newer r none = some r
newer r (some s) = if ltb r.version s.version then some s else some r

-- The row with the greatest version among those that pass the test.
unfoldable pub latest : (Row → Bool) → Table → Option Row
latest test [] = none
latest test (r ∷ rs) = let rest = latest test rs in if test r then newer r rest else rest

unfoldable pub delete_where : (Row → Bool) → Table → Table
delete_where test [] = []
delete_where test (r ∷ rs) = let rest = delete_where test rs in if test r then rest else r ∷ rest

-- INSERT OR REPLACE, for the primary key of URI and version.
unfoldable pub insert_or_replace : Row → Table → Table
unfolding delete_where
insert_or_replace r t = r ∷ delete_where (λ x. same x.uri r.uri && x.version == r.version) t

-- The resource of a row, with the KSUID of its column.
abbrev pub resource_of : Option Row → Option Resource
resource_of none = none
resource_of (some r) = elim r.content [ none ↦ none | some d ↦ some (record d { ksuid = r.ksuid }) ]

abbrev pub is_at : FormaeUri → Row → Bool
is_at uri r = same r.uri uri && not r.deleted

-- `LoadResource`: the latest row for the URI that is not a delete.
unfoldable pub load_resource : FormaeUri → Table → Option Resource
unfolding latest
load_resource uri t = resource_of (latest (is_at uri) t)

unfoldable pub load_resource_by_id : Text → Table → Option Resource
unfolding latest
load_resource_by_id ksuid t = resource_of (latest (λ r. same r.ksuid ksuid && not r.deleted) t)

-- No row of the URI has a greater version.
abbrev pub is_current : Table → Row → Bool
is_current t r = not (any (λ s. same s.uri r.uri && ltb r.version s.version) t)

-- `LoadResourceByNativeID`: SQL leaves open which row comes first.
unfoldable pub load_resource_by_native_id : Text → Table → Option Resource
load_resource_by_native_id native_id t =
    resource_of (find (λ r. same r.native_id native_id && (is_current t r && not r.deleted)) t)

abbrev pub add_resource : Option Resource → List Resource → List Resource
add_resource none rs = rs
add_resource (some r) rs = r ∷ rs

-- The resources of the rows that pass the test, are current and no deletes.
unfoldable pub current_resources : (Row → Bool) → Table → Table → List Resource
current_resources test t [] = []
current_resources test t (r ∷ rs) =
    let rest = current_resources test t rs in
    if test r && (is_current t r && not r.deleted)
    then add_resource (resource_of (some r)) rest
    else rest

-- `LoadStack` before it builds a forma, and `LoadAllResources`.
unfoldable pub load_stack_resources : Text → Table → List Resource
unfolding current_resources
load_stack_resources label t = resources_in label (current_resources (λ r. same r.stack label) t t)

unfoldable pub load_all_resources : Table → List Resource
unfolding current_resources
load_all_resources t = current_resources (λ r. true) t t

unfoldable pub row_for : Resource → Text → Bool → ℕ → Row
unfolding Resource.uri
row_for r command_id deleted version = record {
  uri = Resource.uri r;
  version = version;
  command_id = command_id;
  deleted = deleted;
  native_id = r.native_id;
  stack = r.stack;
  type = r.type;
  label = r.label;
  target = r.target;
  content = if deleted then none else some r;
  managed = r.managed;
  ksuid = r.ksuid;
}

-- An unmanaged resource is removed first, unless it is being deleted.
abbrev pub without_unmanaged : Bool → Row → Table → Table
unfolding delete_where
without_unmanaged deleted row t =
    if not row.managed && not deleted then delete_where (λ x. same x.ksuid row.ksuid) t else t

abbrev pub has_identity : Resource → Row → Bool
has_identity r x = same x.native_id r.native_id && same x.type r.type

-- What the code takes from outside: `JsonEqualRaw`, a new KSUID and a new version.
pub record Ids : Type 0 where
  pub same_json : Text → Text → Bool
  pub new_id : Text
  pub new_version : ℕ

module _ (ids : Ids) where
  -- `resourcesAreEqual`: the properties that can be written, and the others. The resource of a deleted row
  -- has empty fields.
  abbrev pub same_fields : Resource → Resource → Bool
  same_fields a b =
      same a.native_id b.native_id
      && (same a.stack b.stack && (same a.type b.type && same a.label b.label))

  unfoldable pub read_write_equal : Resource → Option Resource → Bool
  read_write_equal r none =
      is_empty r.native_id
      && (is_empty r.stack
          && (is_empty r.type && (is_empty r.label && ids.same_json r.properties [])))
  read_write_equal r (some e) = same_fields r e && ids.same_json r.properties e.properties

  unfoldable pub read_only_equal : Resource → Option Resource → Bool
  read_only_equal r none = ids.same_json r.read_only_properties []
  read_only_equal r (some e) = ids.same_json r.read_only_properties e.read_only_properties

  -- A resource without KSUID gets the one that is stored, or a new one.
  abbrev pub with_ksuid : Resource → Table → Resource
  unfolding load_resource Resource.uri
  with_ksuid r t =
      if is_empty r.ksuid
      then (elim (load_resource (Resource.uri r) t) [
        | some e ↦ record r { ksuid = e.ksuid }
        | none ↦ record r { ksuid = ids.new_id }
      ])
      else r

  -- The new row, at the end of `storeResource`: the version is new unless only the other properties differ.
  abbrev pub next_version : Resource → Row → ℕ
  unfolding read_write_equal read_only_equal
  next_version r row =
      if read_write_equal r row.content && not (read_only_equal r row.content)
      then row.version
      else ids.new_version

  unfoldable pub put_row : Resource → Text → Bool → Row → Table → Table × (Text × ℕ)
  unfolding row_for next_version insert_or_replace
  put_row r command_id deleted row t =
      let version = next_version r row in
      (insert_or_replace (row_for r command_id deleted version) t, (row.ksuid, version))

  -- A delete of a resource whose latest version is a delete changes nothing; without any row there is an
  -- error.
  unfoldable pub delete_again :
      Resource → Text → Row → Table → Option Row → Option (Table × (Text × ℕ))
  unfolding put_row
  delete_again r command_id row t none = none
  delete_again r command_id row t (some last) =
      if last.deleted
      then some (t, (r.ksuid, row.version))
      else some (put_row r command_id true row t)

  -- The version as the pair of KSUID and number.
  unfoldable pub store_existing : Resource → Text → Bool → Row → Table → Option (Table × (Text × ℕ))
  unfolding without_unmanaged delete_again put_row read_write_equal read_only_equal latest
      Resource.uri
  store_existing r command_id true row t =
      delete_again r command_id row t (latest (λ x. same x.uri (Resource.uri r)) t)
  store_existing r command_id false row t =
      let t' = without_unmanaged false row t in
      if read_write_equal r row.content && read_only_equal r row.content
      then some (t', (r.ksuid, row.version))
      else some (put_row r command_id false row t')

  unfoldable pub store_with :
      Resource → Text → Bool → Table → Option Row → Option (Table × (Text × ℕ))
  unfolding store_existing row_for
  store_with r command_id deleted t none =
      some (row_for r command_id deleted ids.new_version ∷ t, (r.ksuid, ids.new_version))
  store_with r command_id deleted t (some row) = store_existing r command_id deleted row t

  -- `storeResource`.
  unfoldable pub store : Resource → Text → Bool → Table → Option (Table × (Text × ℕ))
  unfolding store_with with_ksuid latest
  store r command_id deleted t =
      let r' = with_ksuid r t in store_with r' command_id deleted t (latest (has_identity r') t)

  unfoldable pub store_resource : Resource → Text → Table → Option (Table × (Text × ℕ))
  unfolding store
  store_resource r command_id t = store r command_id false t

  unfoldable pub delete_resource : Resource → Text → Table → Option (Table × (Text × ℕ))
  unfolding store
  delete_resource r command_id t = store r command_id true t

-- The table of targets: `LoadTarget` and `StoreTarget`, which never changes a target.
unfoldable pub load_target : Text → List Target → Option Target
load_target label ts = find (λ t. same t.label label) ts

unfoldable pub store_target : Target → List Target → List Target
unfolding load_target
store_target t ts = elim (load_target t.label ts) [ some e ↦ ts | none ↦ t ∷ ts ]
