-- ===== src/ResourceUpdate/Generator/Apply/Stacks.antt =====
-- What reconcile creates and deletes for one resource (resource_update_generator.go).
use formae.Prelude.{
  ◌≡◌, inl, inr, refl, sym, ap, subst, ◌∙◌, false, List, ◌∷◌, [], In, any, Bool-cases, arith,
}
use formae.Prelude.Results.{ok, bind-ok, ok_injective}
use formae.Model.Resource.{Resource}
use formae.Model.Forma.{Forma}
use formae.ResourceUpdate.{OperationType, CommandSource, ResourceUpdate}
use formae.ResourceUpdate.Factory.{Documents, ApplyMode, new_resource_update_for_destroy}
use formae.ResourceUpdate.Factory.Laws.{managed, destroy-resource, create-resource}
use formae.ResourceUpdate.Generator.{Lookup, TargetMap, target_of}
use formae.ResourceUpdate.Generator.Apply.{
  Batch, join_all, sort_updates, replaces_existing, exists_as, create_new, create_batch,
  delete_existing, update_if_replaced, updates_for_existing, reconcile_existing, create_if_new,
}
use formae.ResourceUpdate.Generator.Collect.{join_all-In, creates_field, deletes_field}

sort_updates-none :
    (us : List ResourceUpdate) → ((sort_updates us).creates ≡ []) × ((sort_updates us).deletes ≡ [])
unfolding sort_updates
sort_updates-none [] = (refl, refl)
sort_updates-none (u ∷ us) = ground (arith, sort_updates-none us)

module _ (docs : Documents) (lookup : Lookup) (targets : TargetMap) (source : CommandSource)
    (mode : ApplyMode) (all_stacks : List Forma) where
  -- What one resource adds to the creates and the deletes.
  record Adds (b : Batch) (cs ds : List ResourceUpdate) : Type 0 where
    creates : b.creates ≡ cs
    deletes : b.deletes ≡ ds

  create_batch-Adds :
      (n : Resource) (b : Batch)
      → create_batch docs lookup targets source mode all_stacks n ≡ ok b
      → (u : ResourceUpdate) × (u.operation ≡ OperationType.create)
        × (u.resource ≡ managed n)
        × Adds b (u ∷ []) []
  unfolding create_batch create_new
  create_batch-Adds n b e =
      let (u, e1, e2) = bind-ok (create_new docs lookup targets source mode all_stacks n) _ e in
      let (t, e3, e4) = bind-ok (target_of targets n.target) _ e1 in
      let (o, r) = create-resource docs source n t u e4 in
      (
        u,
        o,
        r,
        record {
          creates = ap (λ (x : Batch). x.creates) (sym (ok_injective e2));
          deletes = ap (λ (x : Batch). x.deletes) (sym (ok_injective e2));
        },
      )

  delete_existing-Adds :
      (x : Resource) (b : Batch)
      → delete_existing docs lookup targets source mode all_stacks x ≡ ok b
      → (u : ResourceUpdate) × (u.operation ≡ OperationType.delete)
        × (u.resource ≡ x)
        × Adds b [] (u ∷ [])
  unfolding delete_existing
  delete_existing-Adds x b e =
      let (t, e1, e2) = bind-ok (target_of targets x.target) _ e in
      let (u, e3, e4) = bind-ok (new_resource_update_for_destroy docs x t source) _ e2 in
      let (o, r) = destroy-resource docs source x t u e3 in
      (
        u,
        o,
        r,
        record {
          creates = ap (λ (y : Batch). y.creates) (sym (ok_injective e4));
          deletes = ap (λ (y : Batch). y.deletes) (sym (ok_injective e4));
        },
      )

  update_if_replaced-Adds :
      (x n : Resource) (b : Batch)
      → update_if_replaced docs lookup targets source mode all_stacks x n ≡ ok b
      → Adds b [] []
  unfolding update_if_replaced
  update_if_replaced-Adds x n b e = elim (Bool-cases (replaces_existing n x)) [
    | inl q ↦
        let (us, e1, e2) =
          bind-ok (updates_for_existing docs lookup targets source mode all_stacks x n) _
            (rw q at e) in
        let (c, d) = sort_updates-none us in
        record {
          creates = ap (λ (y : Batch). y.creates) (sym (ok_injective e2)) ∙ c;
          deletes = ap (λ (y : Batch). y.deletes) (sym (ok_injective e2)) ∙ d;
        }
    | inr q ↦ record {
      creates = ap (λ (y : Batch). y.creates) (sym (ok_injective (rw q at e)));
      deletes = ap (λ (y : Batch). y.deletes) (sym (ok_injective (rw q at e)));
    }
  ]

  -- Where an existing resource is replaced, it adds neither creates nor deletes.
  replaced-Adds :
      (news : List Resource) (x : Resource) (b : Batch) (u : ResourceUpdate)
      → join_all (update_if_replaced docs lookup targets source mode all_stacks x) news ≡ ok b
      → (¬ In u b.creates) × (¬ In u b.deletes)
  replaced-Adds news x b u e =
      let f = update_if_replaced docs lookup targets source mode all_stacks x in
      (
        λ c.
            let (n, i, (y, g, k)) = join_all-In f creates_field news u e c in
            subst (In u) (update_if_replaced-Adds x n y g).creates k,
        λ d.
            let (n, i, (y, g, k)) = join_all-In f deletes_field news u e d in
            subst (In u) (update_if_replaced-Adds x n y g).deletes k,
      )

  -- An existing resource adds no create, and a delete of itself exactly if nothing replaces it.
  pub reconcile_existing-kept :
      (news : List Resource) (x : Resource) (b : Batch) (u : ResourceUpdate)
      → reconcile_existing docs lookup targets source mode all_stacks news x ≡ ok b
      → (¬ In u b.creates)
        × (In u b.deletes
            → (any (λ n. replaces_existing n x) news ≡ false)
              × (u.operation ≡ OperationType.delete)
              × (u.resource ≡ x))
  unfolding reconcile_existing
  reconcile_existing-kept news x b u e = elim (Bool-cases (any (λ n. replaces_existing n x) news)) [
    | inl q ↦ let (c, d) = replaced-Adds news x b u (rw q at e) in (c, λ m. absurd (d m))
    | inr q ↦
        let (v, o, r, a) = delete_existing-Adds x b (rw q at e) in
        (
          λ m. subst (In u) a.creates m,
          λ m. elim (subst (In u) a.deletes m) [
            | inl i ↦ (
              q,
              ap (λ (y : ResourceUpdate). y.operation) i ∙ o,
              ap (λ (y : ResourceUpdate). y.resource) i ∙ r,
            )
            | inr n ↦ absurd n
          ],
        )
  ]

  pub reconcile_existing-deleted :
      (news : List Resource) (x : Resource) (b : Batch)
      → reconcile_existing docs lookup targets source mode all_stacks news x ≡ ok b
      → any (λ n. replaces_existing n x) news ≡ false
      → (u : ResourceUpdate) × In u b.deletes
        × (u.operation ≡ OperationType.delete)
        × (u.resource ≡ x)
  unfolding reconcile_existing
  reconcile_existing-deleted news x b e q =
      let (u, o, r, a) = delete_existing-Adds x b (rw q at e) in
      (u, subst (In u) (sym a.deletes) (inl refl), o, r)

  -- A new resource adds no delete, and a create of itself exactly if it does not exist.
  pub create_if_new-kept :
      (existing : List Resource) (n : Resource) (b : Batch) (u : ResourceUpdate)
      → create_if_new docs lookup targets source mode all_stacks existing n ≡ ok b
      → (¬ In u b.deletes)
        × (In u b.creates
            → (any (exists_as n) existing ≡ false)
              × (u.operation ≡ OperationType.create)
              × (u.resource ≡ managed n))
  unfolding create_if_new
  create_if_new-kept existing n b u e = elim (Bool-cases (any (exists_as n) existing)) [
    | inl q ↦
        let z = ok_injective (rw q at e) in
        (
          λ m. subst (λ (y : Batch). In u y.deletes) (sym z) m,
          λ m. absurd (subst (λ (y : Batch). In u y.creates) (sym z) m),
        )
    | inr q ↦
        let (v, o, r, a) = create_batch-Adds n b (rw q at e) in
        (
          λ m. subst (In u) a.deletes m,
          λ m. elim (subst (In u) a.creates m) [
            | inl i ↦ (
              q,
              ap (λ (y : ResourceUpdate). y.operation) i ∙ o,
              ap (λ (y : ResourceUpdate). y.resource) i ∙ r,
            )
            | inr k ↦ absurd k
          ],
        )
  ]

  pub create_if_new-created :
      (existing : List Resource) (n : Resource) (b : Batch)
      → create_if_new docs lookup targets source mode all_stacks existing n ≡ ok b
      → any (exists_as n) existing ≡ false
      → (u : ResourceUpdate) × In u b.creates
        × (u.operation ≡ OperationType.create)
        × (u.resource ≡ managed n)
  unfolding create_if_new
  create_if_new-created existing n b e q =
      let (u, o, r, a) = create_batch-Adds n b (rw q at e) in
      (u, subst (In u) (sym a.creates) (inl refl), o, r)
