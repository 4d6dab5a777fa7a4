-- ===== src/Datastore/Deleting.antt =====
-- What a deleted resource leaves.
use formae.Prelude.{
  ◌≡◌, refl, sym, ap, subst, ℕ, Bool, true, false, not, ◌&&◌, Option, none, some, ◌∷◌, Text, In,
  ◌==◌, some_injective, is_empty, if◌then◌else◌,
}
use formae.Model.Uri.{FormaeUri}
use formae.Model.Resource
use formae.Model.Resource.{Resource}
use formae.Model.Forma.{same}
use formae.Datastore.{
  Row, Table, Ids, latest, insert_or_replace, resource_of, is_at, load_resource,
  load_resource_by_id, has_identity, row_for, next_version, put_row, delete_again, store_existing,
  store_with, store, delete_resource, read_write_equal, read_only_equal,
}
use formae.Datastore.Loading.{
  latest-first, latest-skip, delete_where-none, ltb_asym, older_differs, and_false,
}
use formae.Datastore.Storing.{same_refl, IsFresh, with_ksuid-same}

module _ (ids : Ids) (r : Resource) (command_id : Text) (t : Table) where
  -- The latest row is a delete, and what is loaded has not changed.
  abbrev pub IsStillLoaded : Table → Type 0
  IsStillLoaded t' =
      ((last : Row) × (latest (λ x. same x.uri (Resource.uri r)) t' ≡ some last)
        × (last.deleted ≡ true))
      × ((u : FormaeUri) → load_resource u t' ≡ load_resource u t)
      × ((k : Text) → load_resource_by_id k t' ≡ load_resource_by_id k t)

  abbrev deleted_row : ℕ → Row
  unfolding row_for
  deleted_row v = row_for r command_id true v

  deleted_row-IsStillLoaded : IsFresh ids t → IsStillLoaded (deleted_row ids.new_version ∷ t)
  unfolding deleted_row load_resource load_resource_by_id
  deleted_row-IsStillLoaded f = (
    (
      deleted_row ids.new_version,
      latest-first (λ x. same x.uri (Resource.uri r)) (deleted_row ids.new_version) t
          (same_refl (Resource.uri r)) (λ s m q. ltb_asym s.version ids.new_version (f s m)),
      refl,
    ),
    λ u. ap resource_of (
        latest-skip (is_at u) (deleted_row ids.new_version) t
          (and_false (same (Resource.uri r) u))),
    λ k. ap resource_of (
        latest-skip (λ x. same x.ksuid k && not x.deleted) (deleted_row ids.new_version) t
          (and_false (same r.ksuid k))),
  )

  insert_deleted-IsStillLoaded :
      IsFresh ids t → IsStillLoaded (insert_or_replace (deleted_row ids.new_version) t)
  unfolding insert_or_replace deleted_row
  insert_deleted-IsStillLoaded f =
      subst (λ d. IsStillLoaded (deleted_row ids.new_version ∷ d))
        (sym (
          delete_where-none (λ x. same x.uri (Resource.uri r) && x.version == ids.new_version) t
            not_new))
        (deleted_row-IsStillLoaded f)
    where
      not_new :
          (s : Row) → In s t → same s.uri (Resource.uri r) && s.version == ids.new_version ≡ false
      not_new s m =
          rw (older_differs s.version ids.new_version (f s m))
            (and_false (same s.uri (Resource.uri r)))

  next_version-new :
      (row : Row)
      → read_write_equal ids r row.content && not (read_only_equal ids r row.content) ≡ false
      → next_version ids r row ≡ ids.new_version
  unfolding next_version
  next_version-new row e = rw e refl

  put_row-IsStillLoaded :
      (row : Row)
      → IsFresh ids t
      → (read_write_equal ids r row.content && not (read_only_equal ids r row.content) ≡ false)
      → IsStillLoaded (put_row ids r command_id true row t).0
  unfolding put_row deleted_row
  put_row-IsStillLoaded row f e =
      subst (λ v. IsStillLoaded (insert_or_replace (deleted_row v) t))
        (sym (next_version-new row e)) (insert_deleted-IsStillLoaded f)

  unchanged-IsStillLoaded :
      (last : Row)
      → latest (λ x. same x.uri (Resource.uri r)) t ≡ some last
      → last.deleted ≡ true
      → IsStillLoaded t
  unchanged-IsStillLoaded last e d = ((last, e, d), λ u. refl, λ k. refl)

  delete_again-IsStillLoaded :
      (row : Row) (o : Option Row) (t' : Table) (v : Text × ℕ)
      → latest (λ x. same x.uri (Resource.uri r)) t ≡ o
      → IsStillLoaded (put_row ids r command_id true row t).0
      → delete_again ids r command_id row t o ≡ some (t', v)
      → IsStillLoaded t'
  unfolding delete_again
  delete_again-IsStillLoaded row none t' v e p h = cc
  delete_again-IsStillLoaded row (some last) t' v e p h = given last.deleted refl h
    where
      given :
          (d : Bool)
          → last.deleted ≡ d
          → (if d
              then some (t, (r.ksuid, row.version))
              else some (put_row ids r command_id true row t))
            ≡ some (t', v)
          → IsStillLoaded t'
      given true q k =
          subst IsStillLoaded (ap (λ z. z.0) (some_injective k)) (unchanged-IsStillLoaded last e q)
      given false q k = subst IsStillLoaded (ap (λ z. z.0) (some_injective k)) p

  store_with-IsStillLoaded :
      (o : Option Row) (t' : Table) (v : Text × ℕ)
      → IsFresh ids t
      → ((row : Row)
          → o ≡ some row
          → read_write_equal ids r row.content && not (read_only_equal ids r row.content) ≡ false)
      → store_with ids r command_id true t o ≡ some (t', v)
      → IsStillLoaded t'
  unfolding store_with store_existing deleted_row
  store_with-IsStillLoaded none t' v f d h =
      subst IsStillLoaded (ap (λ z. z.0) (some_injective h)) (deleted_row-IsStillLoaded f)
  store_with-IsStillLoaded (some row) t' v f d h =
      delete_again-IsStillLoaded row (latest (λ x. same x.uri (Resource.uri r)) t) t' v refl
        (put_row-IsStillLoaded row f (d row refl)) h

  -- After `DeleteResource`, with a KSUID and a new version that is newer than all others, the latest row for
  -- the URI is a delete, and `LoadResource` and `LoadResourceById` give what they gave before. The stored
  -- resource must not differ from the deleted one in read-only properties alone.
  pub delete_resource-IsStillLoaded :
      (t' : Table) (v : Text × ℕ)
      → is_empty r.ksuid ≡ false
      → IsFresh ids t
      → ((row : Row)
          → latest (has_identity r) t ≡ some row
          → read_write_equal ids r row.content && not (read_only_equal ids r row.content) ≡ false)
      → delete_resource ids r command_id t ≡ some (t', v)
      → IsStillLoaded t'
  unfolding delete_resource store
  delete_resource-IsStillLoaded t' v n f d h =
      store_with-IsStillLoaded (latest (has_identity r) t) t' v f d (
        subst (λ x. store_with ids x command_id true t (latest (has_identity x) t) ≡ some (t', v))
          (with_ksuid-same ids r t n) h)
