-- ===== src/Datastore/Storing.antt =====
-- Storing and deleting a resource in the table of resources.
use formae.Prelude.{
  ◌≡◌, ◌⊎◌, inl, inr, refl, ap, ℕ, Bool, true, false, not, ◌&&◌, Option, none, some, ◌∷◌, Text, In,
  Included, ltb, ◌==◌, Bool-cases, is_empty, if◌then◌else◌, if_pos, text_discrete,
}
use formae.Model.Resource
use formae.Model.Resource.{Resource}
use formae.Model.Forma.{same}
use formae.Datastore.{
  Row, Table, Ids, latest, delete_where, insert_or_replace, resource_of, is_at, load_resource,
  has_identity, row_for, next_version, put_row, without_unmanaged, store_existing, store_with,
  with_ksuid, store, store_resource, read_write_equal, read_only_equal,
}
use formae.Datastore.Loading.{ltb_asym, latest-first, latest-max, delete_where-In}

pub same_refl : (a : Text) → same a a ≡ true
same_refl a = if_pos (text_discrete a a) refl true false

module _ (ids : Ids) where
  -- The version that a call makes is greater than those in the table.
  abbrev pub IsFresh : Table → Type 0
  IsFresh t = (s : Row) → In s t → ltb s.version ids.new_version ≡ true

  pub with_ksuid-same :
      (r : Resource) (t : Table) → is_empty r.ksuid ≡ false → with_ksuid ids r t ≡ r
  unfolding with_ksuid
  with_ksuid-same r t h = rw h refl

  -- No row of the resource has a greater version than the one that is written.
  pub next_version-max :
      (r : Resource) (row : Row) (t : Table) (s : Row)
      → IsFresh t
      → latest (has_identity r) t ≡ some row
      → In s t
      → has_identity r s ≡ true
      → ltb (next_version ids r row) s.version ≡ false
  unfolding next_version read_write_equal read_only_equal
  next_version-max r row t s f e m h =
      elim (Bool-cases
        (read_write_equal ids r row.content && not (read_only_equal ids r row.content))) [
          | inl p ↦ rw p (latest-max (has_identity r) t row s e m h)
          | inr p ↦ rw p (ltb_asym s.version ids.new_version (f s m))
        ]

  without_unmanaged-In :
      (deleted : Bool) (row : Row) (t : Table) (s : Row)
      → In s (without_unmanaged deleted row t)
      → In s t
  unfolding without_unmanaged
  without_unmanaged-In deleted row t s h = chosen (not row.managed && not deleted) h
    where
      chosen :
          (b : Bool) → In s (if b then delete_where (λ x. same x.ksuid row.ksuid) t else t) → In s t
      chosen true h = (delete_where-In (λ x. same x.ksuid row.ksuid) t s h).0
      chosen false h = h

  -- The row that is written is the one that is loaded.
  written-load :
      (r : Resource) (command_id : Text) (version : ℕ) (t : Table)
      → ((s : Row) → In s t → is_at (Resource.uri r) s ≡ true → ltb version s.version ≡ false)
      → load_resource (Resource.uri r) (row_for r command_id false version ∷ t) ≡ some r
  unfolding load_resource row_for
  written-load r c v t h = ap resource_of (
      latest-first (is_at (Resource.uri r)) (row_for r c false v) t
        (rw (same_refl (Resource.uri r)) refl) h)

  -- Either the row is written, and loaded, or the code takes the resource for the stored one.
  abbrev pub IsStored : Resource → Table → Option (Table × (Text × ℕ)) → Type 0
  IsStored r t o =
      (t' : Table) × (v : Text × ℕ) × (o ≡ some (t', v))
      × ((load_resource (Resource.uri r) t' ≡ some r)
          ⊎ ((row : Row) × (latest (has_identity r) t ≡ some row)
              × (read_write_equal ids r row.content && read_only_equal ids r row.content ≡ true)))

  put_row-load :
      (r : Resource) (command_id : Text) (row : Row) (t : Table) (from : Table)
      → IsFresh from
      → Included t from
      → latest (has_identity r) from ≡ some row
      → ((s : Row) → In s from → same s.uri (Resource.uri r) ≡ true → has_identity r s ≡ true)
      → load_resource (Resource.uri r) (put_row ids r command_id false row t).0 ≡ some r
  unfolding put_row insert_or_replace row_for
  put_row-load r c row t from f inc e h = written-load r c (next_version ids r row) _ below
    where
      below :
          (s : Row)
          → In s (
              delete_where
                (λ x. same x.uri (Resource.uri r) && x.version == next_version ids r row)
                t)
          → is_at (Resource.uri r) s ≡ true
          → ltb (next_version ids r row) s.version ≡ false
      below s m a =
          next_version-max r row from s f e inside
            (h s inside (at_uri s.deleted (same s.uri (Resource.uri r)) a))
        where
          inside : In s from
          inside = inc s (delete_where-In _ t s m).0

          at_uri : (d b : Bool) → b && not d ≡ true → b ≡ true
          at_uri d true q = refl
          at_uri d false q = q

  store_existing-load :
      (r : Resource) (command_id : Text) (row : Row) (t : Table)
      → IsFresh t
      → latest (has_identity r) t ≡ some row
      → ((s : Row) → In s t → same s.uri (Resource.uri r) ≡ true → has_identity r s ≡ true)
      → IsStored r t (store_existing ids r command_id false row t)
  unfolding store_existing
  store_existing-load r c row t f e h =
      elim (Bool-cases (read_write_equal ids r row.content && read_only_equal ids r row.content)) [
        | inl p ↦ rw p (_, _, refl, inr (row, e, p))
        | inr p ↦ rw p (
          _,
          _,
          refl,
          inl (
              put_row-load r c row (without_unmanaged false row t) t f
                (without_unmanaged-In false row t) e h),
        )
      ]

  store_with-load :
      (r : Resource) (command_id : Text) (t : Table) (o : Option Row)
      → latest (has_identity r) t ≡ o
      → IsFresh t
      → ((s : Row) → In s t → same s.uri (Resource.uri r) ≡ true → has_identity r s ≡ true)
      → IsStored r t (store_with ids r command_id false t o)
  unfolding store_with
  store_with-load r c t none e f h = (
    _,
    _,
    refl,
    inl (written-load r c ids.new_version t (λ s m q. ltb_asym s.version ids.new_version (f s m))),
  )
  store_with-load r c t (some row) e f h = store_existing-load r c row t f e h

  -- A resource with a KSUID, whose URI only its own rows have, is loaded as it was stored, when the version
  -- is newer than all others and the stored resource is not equal to it by `resourcesAreEqual`.
  pub store_resource-load :
      (r : Resource) (command_id : Text) (t : Table)
      → is_empty r.ksuid ≡ false
      → IsFresh t
      → ((s : Row) → In s t → same s.uri (Resource.uri r) ≡ true → has_identity r s ≡ true)
      → IsStored r t (store_resource ids r command_id t)
  unfolding store_resource store
  store_resource-load r c t n f h =
      rw (with_ksuid-same r t n) (store_with-load r c t (latest (has_identity r) t) refl f h)
