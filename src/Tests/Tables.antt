-- ===== src/Tests/Tables.antt =====
-- The theorems on the table of resources at a table with one bucket.
use formae.Prelude.{
  ◌≡◌, inl, inr, refl, sym, subst, true, false, not, ◌&&◌, Option, none, some, ◌∷◌, [], Text, ℕ,
  codes, In, some_injective, ltb, text_discrete,
}
use formae.Model.Uri.{new_formae_uri}
use formae.Model.Resource
use formae.Model.Resource.{Resource}
use formae.Model.Forma.{same}
use formae.Datastore.{
  Row, Table, Ids, row_for, latest, has_identity, load_resource, store_resource, delete_resource,
  load_resource_by_native_id, read_write_equal, read_only_equal,
}
use formae.Datastore.Storing.{IsStored, IsFresh, store_resource-load}
use formae.Datastore.Keys.{IsTable}
use formae.Datastore.Deleting.{IsStillLoaded, delete_resource-IsStillLoaded}
use formae.Tests.Samples.{bucket}

abbrev pub ids : Ids
ids = record { same_json = same; new_id = codes "n"; new_version = 5 }

abbrev pub first_row : Row
unfolding row_for
first_row = row_for (bucket (codes "a")) (codes "c0") false 3

abbrev pub table : Table
table = first_row ∷ []

abbrev changed : Resource
changed = record (bucket (codes "a")) { properties = codes "{1}" }

pub table-IsFresh : IsFresh ids table
unfolding first_row
table-IsFresh s (inl e) = subst (λ x. ltb x.version 5 ≡ true) (sym e) refl
table-IsFresh s (inr m) = elim m [ ]

pub table-IsTable : IsTable table
unfolding first_row IsTable Resource.uri
table-IsTable = (refl, (λ s m. elim m [ ]), tt)

pub table-identity :
    (s : Row)
    → In s table
    → same s.uri (Resource.uri changed) ≡ true
    → has_identity changed s ≡ true
unfolding first_row text_discrete
table-identity s (inl e) h = subst (λ x. has_identity changed x ≡ true) (sym e) refl
table-identity s (inr m) h = elim m [ ]

store_resource-load_example :
    IsStored ids changed table (store_resource ids changed (codes "c1") table)
store_resource-load_example =
    store_resource-load ids changed (codes "c1") table refl table-IsFresh table-identity

-- A resource that was stored is loaded, and one that was deleted is not loaded by its native id.
abbrev loads : Option (Table × (Text × ℕ)) → (Table → Option Resource) → Option Resource
loads none load = none
loads (some (t, v)) load = load t

stored_test :
    loads (store_resource ids changed (codes "c1") table) (load_resource (Resource.uri changed))
    ≡ some changed
unfolding first_row store_resource load_resource text_discrete new_formae_uri
stored_test = refl

deleted_test :
    loads (delete_resource ids changed (codes "c1") table) (load_resource_by_native_id []) ≡ none
unfolding first_row delete_resource load_resource_by_native_id text_discrete new_formae_uri
deleted_test = refl

abbrev after_delete : Table
unfolding row_for
after_delete = row_for (bucket (codes "a")) (codes "c1") true 5 ∷ table

delete_resource-IsStillLoaded_example :
    IsStillLoaded ids (bucket (codes "a")) (codes "c1") table after_delete
unfolding after_delete first_row delete_resource latest read_write_equal read_only_equal
    text_discrete new_formae_uri
delete_resource-IsStillLoaded_example =
    delete_resource-IsStillLoaded ids (bucket (codes "a")) (codes "c1") table after_delete
      (codes "a", 5) refl table-IsFresh
      (λ row e.
        subst
          (λ x.
            read_write_equal ids (bucket (codes "a")) x.content
              && not (read_only_equal ids (bucket (codes "a")) x.content)
            ≡ false)
          (some_injective e) refl)
      refl

-- An unmanaged resource that is stored twice, as the repository's test of the same name does.
abbrev unmanaged : Resource
unmanaged = record (bucket (codes "a")) { managed = false }

same_resource_twice_test :
    elim (store_resource ids unmanaged (codes "c1") []) as (λ x. Option (Table × (Text × ℕ))) [
      | none ↦ none
      | some s ↦ store_resource ids unmanaged (codes "c2") s.0
    ]
    ≡ some ([], (codes "a", 5))
unfolding store_resource text_discrete new_formae_uri
same_resource_twice_test = refl
