-- ===== src/Datastore/Keys.antt =====
-- The table of resources as a table: every row is keyed by the URI of its KSUID, and no two rows share a key.
use formae.Prelude.{
  ◌≡◌, refl, ap, subst, ℕ, Bool, true, false, not, ◌&&◌, Option, none, some, ◌∷◌, [], Text, In,
  ◌==◌, some_injective, if◌then◌else◌,
}
use formae.Model.Uri.{new_formae_uri}
use formae.Model.Resource
use formae.Model.Resource.{Resource}
use formae.Model.Forma.{same}
use formae.Datastore.{
  Row, Table, Ids, latest, delete_where, insert_or_replace, has_identity, row_for, next_version,
  put_row, delete_again, without_unmanaged, store_existing, store_with, with_ksuid, store,
  read_write_equal, read_only_equal,
}
use formae.Datastore.Loading.{delete_where-In, older_differs, and_false}
use formae.Datastore.Storing.{IsFresh}

abbrev pub has_key : Row → Row → Bool
has_key r s = same s.uri r.uri && s.version == r.version

abbrev pub IsKeyed : Row → Type 0
IsKeyed r = r.uri ≡ new_formae_uri r.ksuid []

unfoldable pub IsTable : Table → Type 0
IsTable [] = Unit
IsTable (r ∷ rs) = IsKeyed r × ((s : Row) → In s rs → has_key r s ≡ false) × IsTable rs

delete_where-IsTable : (test : Row → Bool) (t : Table) → IsTable t → IsTable (delete_where test t)
unfolding delete_where IsTable
delete_where-IsTable test [] h = h
delete_where-IsTable test (r ∷ rs) h = chosen (test r) (delete_where-IsTable test rs h.2)
  where
    chosen :
        (b : Bool)
        → IsTable (delete_where test rs)
        → IsTable (if b then delete_where test rs else r ∷ delete_where test rs)
    chosen true k = k
    chosen false k = (h.0, (λ s m. h.1 s (delete_where-In test rs s m).0), k)

insert_or_replace-IsTable :
    (r : Row) (t : Table) → IsKeyed r → IsTable t → IsTable (insert_or_replace r t)
unfolding insert_or_replace IsTable
insert_or_replace-IsTable r t k h =
    (k, (λ s m. (delete_where-In (has_key r) t s m).1), delete_where-IsTable (has_key r) t h)

row_for-IsKeyed :
    (r : Resource) (command_id : Text) (deleted : Bool) (version : ℕ)
    → IsKeyed (row_for r command_id deleted version)
unfolding row_for Resource.uri
row_for-IsKeyed r c d v = refl

without_unmanaged-IsTable :
    (deleted : Bool) (row : Row) (t : Table) → IsTable t → IsTable (without_unmanaged deleted row t)
unfolding without_unmanaged
without_unmanaged-IsTable deleted row t h = chosen (not row.managed && not deleted)
  where
    chosen : (b : Bool) → IsTable (if b then delete_where (λ x. same x.ksuid row.ksuid) t else t)
    chosen true = delete_where-IsTable (λ x. same x.ksuid row.ksuid) t h
    chosen false = h

module _ (ids : Ids) where
  -- What a call returns, when it returns, is a table.
  abbrev pub Keeps : Option (Table × (Text × ℕ)) → Type 0
  Keeps o = (t' : Table) (v : Text × ℕ) → o ≡ some (t', v) → IsTable t'

  keeps : (t : Table) (v : Text × ℕ) → IsTable t → Keeps (some (t, v))
  keeps t v h t' v' e = subst IsTable (ap (λ z. z.0) (some_injective e)) h

  put_row-IsTable :
      (r : Resource) (command_id : Text) (deleted : Bool) (row : Row) (t : Table)
      → IsTable t
      → IsTable (put_row ids r command_id deleted row t).0
  unfolding put_row
  put_row-IsTable r c d row t h =
      insert_or_replace-IsTable (row_for r c d (next_version ids r row)) t
        (row_for-IsKeyed r c d (next_version ids r row)) h

  delete_again-IsTable :
      (r : Resource) (command_id : Text) (row : Row) (t : Table) (o : Option Row)
      → IsTable t
      → Keeps (delete_again ids r command_id row t o)
  unfolding delete_again
  delete_again-IsTable r c row t none h = λ t' v e. cc
  delete_again-IsTable r c row t (some last) h = chosen last.deleted
    where
      chosen :
          (b : Bool)
          → Keeps
              (if b then some (t, (r.ksuid, row.version)) else some (put_row ids r c true row t))
      chosen true = keeps t (r.ksuid, row.version) h
      chosen false =
          keeps (put_row ids r c true row t).0 (put_row ids r c true row t).1
            (put_row-IsTable r c true row t h)

  store_existing-IsTable :
      (r : Resource) (command_id : Text) (deleted : Bool) (row : Row) (t : Table)
      → IsTable t
      → Keeps (store_existing ids r command_id deleted row t)
  unfolding store_existing
  store_existing-IsTable r c true row t h =
      delete_again-IsTable r c row t (latest (λ x. same x.uri (Resource.uri r)) t) h
  store_existing-IsTable r c false row t h =
      chosen (read_write_equal ids r row.content && read_only_equal ids r row.content)
    where
      from : Table
      from = without_unmanaged false row t

      chosen :
          (b : Bool)
          → Keeps (
              if b
              then some (from, (r.ksuid, row.version))
              else some (put_row ids r c false row from))
      chosen true = keeps from (r.ksuid, row.version) (without_unmanaged-IsTable false row t h)
      chosen false =
          keeps (put_row ids r c false row from).0 (put_row ids r c false row from).1
            (put_row-IsTable r c false row from (without_unmanaged-IsTable false row t h))

  store_with-IsTable :
      (r : Resource) (command_id : Text) (deleted : Bool) (t : Table) (o : Option Row)
      → IsFresh ids t
      → IsTable t
      → Keeps (store_with ids r command_id deleted t o)
  unfolding store_with IsTable row_for
  store_with-IsTable r c d t none f h =
      keeps (row_for r c d ids.new_version ∷ t) (r.ksuid, ids.new_version)
        (
          row_for-IsKeyed r c d ids.new_version,
          (λ s m.
              rw (older_differs s.version ids.new_version (f s m))
                (and_false (same s.uri (Resource.uri r)))),
          h,
        )
  store_with-IsTable r c d t (some row) f h = store_existing-IsTable r c d row t h

  pub store-IsTable :
      (r : Resource) (command_id : Text) (deleted : Bool) (t : Table)
      → IsFresh ids t
      → IsTable t
      → Keeps (store ids r command_id deleted t)
  unfolding store
  store-IsTable r c d t f h =
      store_with-IsTable (with_ksuid ids r t) c d t (latest (has_identity (with_ksuid ids r t)) t) f
        h
