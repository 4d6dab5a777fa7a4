-- ===== src/ResourceUpdate/Factory/Laws.antt =====
-- What the updates of resource_update_factory.go are for.
use formae.Prelude.{◌≡◌, refl, sym, ap, true, List, ◌∷◌, [], Text}
use formae.Prelude.Results.{ok, bind-ok, ok_injective, err_not_ok}
use formae.Model.Resource.{Resource}
use formae.Model.Schema.{required_on_create_fields}
use formae.Model.Forma.{Target}
use formae.ResourceUpdate.{OperationType, CommandSource, ResourceUpdate}
use formae.ResourceUpdate.Factory.{
  Documents, document, created, missing_fields, new_resource_update_for_destroy,
  new_resource_update_for_create, new_resource_update_for_replace,
}

abbrev pub managed : Resource → Resource
managed r = record r { managed = true }

module _ (docs : Documents) (source : CommandSource) where
  pub destroy-resource :
      (r : Resource) (t : Target) (u : ResourceUpdate)
      → new_resource_update_for_destroy docs r t source ≡ ok u
      → (u.operation ≡ OperationType.delete) × (u.resource ≡ r)
  unfolding new_resource_update_for_destroy
  destroy-resource r t u e =
      let (m, e1, e2) = bind-ok (document (docs.metadata r)) _ e in
      (
        ap (λ (x : ResourceUpdate). x.operation) (sym (ok_injective e2)),
        ap (λ (x : ResourceUpdate). x.resource) (sym (ok_injective e2)),
      )

  pub create-resource :
      (r : Resource) (t : Target) (u : ResourceUpdate)
      → new_resource_update_for_create docs r t source ≡ ok u
      → (u.operation ≡ OperationType.create) × (u.resource ≡ managed r)
  unfolding new_resource_update_for_create
  create-resource r t u e = go (missing_fields docs r (required_on_create_fields r.schema)) e
    where
      go :
          (missing : List Text)
          → created docs r t source missing ≡ ok u
          → (u.operation ≡ OperationType.create) × (u.resource ≡ managed r)
      go (f ∷ fs) e = absurd (err_not_ok e)
      go [] e = (
        ap (λ (x : ResourceUpdate). x.operation) (sym (ok_injective e)),
        ap (λ (x : ResourceUpdate). x.resource) (sym (ok_injective e)),
      )

  -- A replacement is a delete of the existing resource and a create of the new one.
  pub replace-resources :
      (existing new : Resource) (t t' : Target) (us : List ResourceUpdate)
      → new_resource_update_for_replace docs existing new t t' source ≡ ok us
      → (d c : ResourceUpdate) × (us ≡ d ∷ c ∷ [])
        × (d.operation ≡ OperationType.delete)
        × (d.resource ≡ existing)
        × (c.operation ≡ OperationType.create)
        × (c.resource ≡ managed new)
  unfolding new_resource_update_for_replace
  replace-resources existing new t t' us e =
      let (d, e1, e2) = bind-ok (new_resource_update_for_destroy docs existing t source) _ e in
      let (m, e3, e4) = bind-ok (document (docs.metadata new)) _ e2 in
      let (o, r) = destroy-resource existing t d e1 in
      (d, _, sym (ok_injective e4), o, r, refl, refl)
