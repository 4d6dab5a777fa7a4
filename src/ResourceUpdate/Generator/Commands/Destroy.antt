-- ===== src/ResourceUpdate/Generator/Commands/Destroy.antt =====
-- What a destroy deletes (resource_update_generator.go).
use formae.Prelude.{
  ◌≡◌, inl, inr, refl, sym, ap, subst, ◌∙◌, true, false, List, ◌∷◌, [], Text, In, Bool-cases,
  if◌then◌else◌, arith,
}
use formae.Prelude.Results.{ok, ◌>>=◌, bind-ok, ok_injective}
use formae.Model.Resource.{Resource}
use formae.Model.Forma.{
  Forma, single_stack_label, split_by_stack, stack_part, single_stack_label-stack_part,
  split_by_stack-In, in-split_by_stack,
}
use formae.ResourceUpdate.{OperationType, CommandSource, ResourceUpdate}
use formae.ResourceUpdate.Factory.{Documents, Generated, new_resource_update_for_destroy}
use formae.ResourceUpdate.Factory.Laws.{destroy-resource}
use formae.ResourceUpdate.Generator.{Loaded, found, missing, failed, Lookup, TargetMap, target_of}
use formae.ResourceUpdate.Generator.Collect.{collect-In, in-collect}
use formae.ResourceUpdate.Generator.Commands.{
  is_meant, for_named, destroy_stack, generate_for_destroy,
}

pub record Names (l : Text) (e r : Resource) : Type 0 where
  pub stack : r.stack ≡ l
  pub label : r.label ≡ e.label
  pub type : r.type ≡ e.type

pub record Deletes (u : ResourceUpdate) (e : Resource) : Type 0 where
  pub operation : u.operation ≡ OperationType.delete
  pub resource : u.resource ≡ e

-- The datastore has the resource in the stack with the label, and the forma names it there.
pub record IsNamed (lookup : Lookup) (forma : Forma) (l : Text) (e : Resource) : Type 0 where
  pub stack : Forma
  pub stored : lookup.load_stack l ≡ found stack
  pub existing : In e stack.resources
  pub naming : Resource
  pub in_forma : In naming forma.resources
  pub meant : Names l e naming

-- `is_meant` as propositions.
is_meant-equals : (l : Text) (e r : Resource) → is_meant l e r ≡ true → Names l e r
is_meant-equals l e r h = record {
  stack = ground (arith, h);
  label = ground (arith, h);
  type = ground (arith, h);
}

is_meant-true : (l : Text) (e r : Resource) → Names l e r → is_meant l e r ≡ true
is_meant-true l e r h = ground (arith, h.stack, h.label, h.type)

module _ (docs : Documents) (lookup : Lookup) (targets : TargetMap) (source : CommandSource)
    (order : List Text) (forma : Forma) where
  abbrev destroy_one : Text → Resource → Generated (List ResourceUpdate)
  unfolding for_named new_resource_update_for_destroy
  destroy_one l e =
      for_named docs lookup targets source order (new_resource_update_for_destroy docs) l
        forma.resources e

  -- One resource of the forma, for one existing resource.
  abbrev named_update : Text → Resource → Resource → Generated (List ResourceUpdate)
  unfolding new_resource_update_for_destroy
  named_update l e r =
      if is_meant l e r
      then (do
        t ← target_of targets e.target
        u ← new_resource_update_for_destroy docs e t source
        ok (u ∷ []))
      else ok []

  named_update-made :
      (l : Text) (e r : Resource) (us : List ResourceUpdate)
      → named_update l e r ≡ ok us
      → (is_meant l e r ≡ true → (u : ResourceUpdate) × (us ≡ u ∷ []) × Deletes u e)
        × (is_meant l e r ≡ false → us ≡ [])
  unfolding named_update
  named_update-made l e r us q = (
    λ h.
        let (t, e1, e2) = bind-ok (target_of targets e.target) _ (rw h at q) in
        let (u, e3, e4) = bind-ok (new_resource_update_for_destroy docs e t source) _ e2 in
        let (o, s) = destroy-resource docs source e t u e3 in
        (u, sym (ok_injective e4), record { operation = o; resource = s }),
    λ h. sym (ok_injective (rw h at q)),
  )

  destroy_one_sound :
      (l : Text) (e : Resource) (us : List ResourceUpdate) (u : ResourceUpdate)
      → destroy_one l e ≡ ok us
      → In u us
      → Deletes u e × ((r : Resource) × In r forma.resources × Names l e r)
  unfolding destroy_one for_named named_update
  destroy_one_sound l e us u q m =
      let (r, i, (vs, f, k)) = collect-In (named_update l e) forma.resources u q m in
      let (yes_case, no_case) = named_update-made l e r vs f in
      elim (Bool-cases (is_meant l e r)) [
        | inl h ↦
            let (v, a, d) = yes_case h in
            elim (subst (In u) a k) [
              | inl w ↦ (subst (λ x. Deletes x e) (sym w) d, (r, i, is_meant-equals l e r h))
              | inr n ↦ absurd n
            ]
        | inr h ↦ absurd (subst (In u) (no_case h) k)
      ]

  destroy_one_complete :
      (l : Text) (e r : Resource) (us : List ResourceUpdate)
      → destroy_one l e ≡ ok us
      → In r forma.resources
      → Names l e r
      → (u : ResourceUpdate) × In u us × Deletes u e
  unfolding destroy_one for_named named_update
  destroy_one_complete l e r us q i meant =
      let (vs, f, into) = in-collect (named_update l e) forma.resources r q i in
      let (u, a, d) = (named_update-made l e r vs f).0 (is_meant-true l e r meant) in
      (u, into u (subst (In u) (sym a) (inl refl)), d)

  abbrev destroyed : Text → Loaded → Generated (List ResourceUpdate)
  unfolding destroy_stack
  destroyed l x = destroy_stack docs lookup targets source order forma.resources l x

  destroyed_sound :
      (l : Text) (x : Loaded) (us : List ResourceUpdate) (u : ResourceUpdate)
      → lookup.load_stack l ≡ x
      → destroyed l x ≡ ok us
      → In u us
      → (u.operation ≡ OperationType.delete) × IsNamed lookup forma l u.resource
  unfolding destroyed destroy_stack destroy_one
  destroyed_sound l failed us u p q m = absurd (subst (In u) (sym (ok_injective q)) m)
  destroyed_sound l missing us u p q m = absurd (subst (In u) (sym (ok_injective q)) m)
  destroyed_sound l (found s) us u p q m =
      let (e, i, (vs, f, k)) = collect-In (destroy_one l) s.resources u q m in
      let (d, (r, j, meant)) = destroy_one_sound l e vs u f k in
      (
        d.operation,
        subst (IsNamed lookup forma l) (sym d.resource) (record {
          stack = s;
          stored = p;
          existing = i;
          naming = r;
          in_forma = j;
          meant = meant;
        }),
      )

  destroyed_complete :
      (l : Text) (x : Loaded) (us : List ResourceUpdate) (e : Resource)
      → lookup.load_stack l ≡ x
      → destroyed l x ≡ ok us
      → IsNamed lookup forma l e
      → (u : ResourceUpdate) × In u us × Deletes u e
  unfolding destroyed destroy_stack destroy_one
  destroyed_complete l failed us e p q n = absurd (apart (sym p ∙ n.stored))
    where
      apart : {f : Forma} → failed ≡ found f → ⊥
      apart z = cc
  destroyed_complete l missing us e p q n = absurd (apart (sym p ∙ n.stored))
    where
      apart : {f : Forma} → missing ≡ found f → ⊥
      apart z = cc
  destroyed_complete l (found s) us e p q n =
      let here = subst (λ (f : Forma). In e f.resources) (inside (sym n.stored ∙ p)) n.existing in
      let (vs, f, into) = in-collect (destroy_one l) s.resources e q here in
      let (u, k, d) = destroy_one_complete l e n.naming vs f n.in_forma n.meant in (u, into u k, d)
    where
      inside : {f g : Forma} → found f ≡ found g → f ≡ g
      inside z = cc

  abbrev destroyed_part : Forma → Generated (List ResourceUpdate)
  unfolding destroyed single_stack_label
  destroyed_part x = destroyed (single_stack_label x) (lookup.load_stack (single_stack_label x))

  -- When a destroy is generated without an error, every update is the delete of a resource that the
  -- datastore has and the forma names, and every such resource gets a delete. A stack that cannot be loaded
  -- is skipped.
  pub generate_for_destroy-In :
      (us : List ResourceUpdate)
      → generate_for_destroy docs lookup targets source order forma ≡ ok us
      → ((u : ResourceUpdate)
          → In u us
          → (u.operation ≡ OperationType.delete)
            × ((l : Text) × In l order × IsNamed lookup forma l u.resource))
        × ((l : Text) (e : Resource)
            → In l order
            → IsNamed lookup forma l e
            → (u : ResourceUpdate) × In u us × Deletes u e)
  unfolding generate_for_destroy destroyed_part destroyed
  generate_for_destroy-In us q = (
    λ u m.
        let (x, i, (vs, f, k)) = collect-In destroyed_part (split_by_stack order forma) u q m in
        let (l, j, w) = split_by_stack-In order forma x i in
        let here = ap single_stack_label w ∙ single_stack_label-stack_part l forma in
        let (o, n) =
          destroyed_sound (single_stack_label x) (lookup.load_stack (single_stack_label x)) vs u
            refl f k in
        (o, (l, j, subst (λ y. IsNamed lookup forma y u.resource) here n)),
    λ l e j n.
        let x = stack_part l forma in
        let (vs, f, into) =
          in-collect destroyed_part (split_by_stack order forma) x q
            (in-split_by_stack order forma l j) in
        let (u, k, d) =
          destroyed_complete (single_stack_label x) (lookup.load_stack (single_stack_label x)) vs e
            refl f
            (subst (λ y. IsNamed lookup forma y e) (sym (single_stack_label-stack_part l forma))
              n) in
        (u, into u k, d),
  )
