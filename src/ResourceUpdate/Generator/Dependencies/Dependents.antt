-- ===== src/ResourceUpdate/Generator/Dependencies/Dependents.antt =====
-- The dependency deletes are for the resources that depend on a deleted one (resource_update_generator.go).
use formae.Prelude.{
  ◌≡◌, ◌⊎◌, inl, inr, refl, sym, ap, subst, ◌∙◌, true, false, some, List, ◌∷◌, [], Text, In, any,
  in-append, in-append_left, in-append_right, Bool-cases,
}
use formae.Prelude.Results.{ok, bind-ok, ok_injective, err_not_ok, Result-cases}
use formae.Model.Resource.{Resource}
use formae.Model.Forma.{Target, Forma}
use formae.ResourceUpdate.{OperationType, CommandSource, ResourceUpdate}
use formae.ResourceUpdate.Factory.{Documents, new_resource_update_for_destroy}
use formae.ResourceUpdate.Factory.Laws.{destroy-resource}
use formae.ResourceUpdate.Generator.{TargetMap, target_of, same_triplet, is_delete_update}
use formae.ResourceUpdate.Generator.Dependencies.{
  depends_on, dependents_among, find_resources_that_depend_on, add_delete, delete_dependents,
  dependency_updates, find_dependency_updates,
}

pub record IsDeleteOf (r : Resource) (u : ResourceUpdate) : Type 0 where
  pub operation : u.operation ≡ OperationType.delete
  pub resource : u.resource ≡ r

-- Every update is a delete.
abbrev pub OnlyDeletes : List ResourceUpdate → Type 0
OnlyDeletes us = (u : ResourceUpdate) → In u us → u.operation ≡ OperationType.delete

module _ (docs : Documents) where
  in-dependents_among :
      (target r : Resource) (rs : List Resource)
      → In r rs
      → depends_on docs target r ≡ true
      → In r (dependents_among docs target rs)
  unfolding dependents_among
  in-dependents_among target r [] m h = absurd m
  in-dependents_among target r (x ∷ rs) m h = elim (Bool-cases (depends_on docs target x)) [
    | inl q ↦ rw q (elim m [ inl e ↦ inl e | inr n ↦ inr (in-dependents_among target r rs n h) ])
    | inr q ↦ rw q (elim m [
      | inl e ↦ absurd (both (sym h ∙ ap (depends_on docs target) e ∙ q))
      | inr n ↦ in-dependents_among target r rs n h
    ])
  ]
    where
      both : true ≡ false → ⊥
      both z = cc

  in-find_resources :
      (target r : Resource) (stacks : List Forma) (s : Forma)
      → In s stacks
      → In r s.resources
      → depends_on docs target r ≡ true
      → In r (find_resources_that_depend_on docs target stacks)
  unfolding find_resources_that_depend_on
  in-find_resources target r [] s m i h = absurd m
  in-find_resources target r (x ∷ stacks) s (inl e) i h =
      in-append_left r (dependents_among docs target x.resources)
        (find_resources_that_depend_on docs target stacks)
        (in-dependents_among target r x.resources (subst (λ (y : Forma). In r y.resources) e i) h)
  in-find_resources target r (x ∷ stacks) s (inr m) i h =
      in-append_right r (dependents_among docs target x.resources)
        (find_resources_that_depend_on docs target stacks)
        (in-find_resources target r stacks s m i h)

  module _ (targets : TargetMap) (source : CommandSource)
      (documented : (r : Resource) → (m : Text) × (docs.metadata r ≡ some m)) where
    destroy-ok :
        (r : Resource) (t : Target)
        → (u : ResourceUpdate) × (new_resource_update_for_destroy docs r t source ≡ ok u)
    unfolding new_resource_update_for_destroy
    destroy-ok r t =
        let (m, e) = documented r in
        elim (Result-cases (new_resource_update_for_destroy docs r t source)) [
          | inl (x, q) ↦ absurd (err_not_ok (sym (rw e at q)))
          | inr (u, q) ↦ (u, q)
        ]

    add_delete-IsDeleteOf :
        (r : Resource) (t : Target) (rest : List ResourceUpdate)
        → (u : ResourceUpdate) × IsDeleteOf r u
          × (add_delete docs targets source r t rest ≡ u ∷ rest)
    unfolding add_delete
    add_delete-IsDeleteOf r t rest =
        let (u, e) = destroy-ok r t in
        let (o, s) = destroy-resource docs source r t u e in
        (u, record { operation = o; resource = s }, rw (e, add_delete) refl)

    -- What `delete_dependents` makes.
    pub delete_dependents-In :
        (already : List ResourceUpdate) (rs : List Resource) (us : List ResourceUpdate)
        → delete_dependents docs targets source already rs ≡ ok us
        → OnlyDeletes us
          × ((r : Resource)
              → In r rs
              → (any (λ u. same_triplet u.resource r) already ≡ true)
                ⊎ ((d : ResourceUpdate) × In d us × IsDeleteOf r d))
    unfolding delete_dependents
    delete_dependents-In already [] us e =
        (λ u m. absurd (subst (In u) (sym (ok_injective e)) m), λ r m. absurd m)
    delete_dependents-In already (x ∷ rs) us e =
        elim (Bool-cases (any (λ u. same_triplet u.resource x) already)) [
          | inl q ↦
              let (only, all) = delete_dependents-In already rs us (rw q at e) in
              (
                only,
                λ r m. elim m [
                  | inl i ↦
                      inl
                        (subst (λ y. any (λ u. same_triplet u.resource y) already ≡ true) (sym i) q)
                  | inr n ↦ all r n
                ],
              )
          | inr q ↦
              let (t, e1, e2) = bind-ok (target_of targets x.target) _ (rw q at e) in
              let (rest, e3, e4) =
                bind-ok (delete_dependents docs targets source already rs) _ e2 in
              let (only, all) = delete_dependents-In already rs rest e3 in
              let (v, is_delete, made) = add_delete-IsDeleteOf x t rest in
              let whole = sym made ∙ ok_injective e4 in
              (
                λ u m. elim (subst (In u) (sym whole) m) [
                  | inl i ↦ ap (λ (y : ResourceUpdate). y.operation) i ∙ is_delete.operation
                  | inr n ↦ only u n
                ],
                λ r m. elim m [
                  | inl i ↦ inr (
                    v,
                    subst (In v) whole (inl refl),
                    subst (λ y. IsDeleteOf y v) (sym i) is_delete,
                  )
                  | inr n ↦ elim (all r n) [
                    | inl k ↦ inl k
                    | inr (d, j, w) ↦ inr (d, subst (In d) whole (inr j), w)
                  ]
                ],
              )
        ]

    dependency_updates-In :
        (already : List ResourceUpdate) (stacks : List Forma) (us deps : List ResourceUpdate)
        → dependency_updates docs targets source already stacks us ≡ ok deps
        → OnlyDeletes deps
          × ((u : ResourceUpdate) (s : Forma) (r : Resource)
              → In u us
              → is_delete_update u ≡ true
              → In s stacks
              → In r s.resources
              → depends_on docs u.resource r ≡ true
              → (any (λ x. same_triplet x.resource r) already ≡ true)
                ⊎ ((d : ResourceUpdate) × In d deps × IsDeleteOf r d))
    unfolding dependency_updates
    dependency_updates-In already stacks [] deps e =
        (λ u m. absurd (subst (In u) (sym (ok_injective e)) m), λ u s r m. absurd m)
    dependency_updates-In already stacks (x ∷ us) deps e = elim (Bool-cases (is_delete_update x)) [
      | inr q ↦
          let (only, all) = dependency_updates-In already stacks us deps (rw q at e) in
          (
            only,
            λ u s r m h. elim m [
              | inl i ↦ absurd (both (sym h ∙ ap is_delete_update i ∙ q))
              | inr n ↦ all u s r n h
            ],
          )
      | inl q ↦
          let found = find_resources_that_depend_on docs x.resource stacks in
          let (ds, e1, e2) =
            bind-ok (delete_dependents docs targets source already found) _ (rw q at e) in
          let (more, e3, e4) =
            bind-ok (dependency_updates docs targets source already stacks us) _ e2 in
          let (only, all) = delete_dependents-In already found ds e1 in
          let (only', all') = dependency_updates-In already stacks us more e3 in
          let whole = ok_injective e4 in
          (
            λ u m. elim (in-append u ds more (subst (In u) (sym whole) m)) [
              | inl l ↦ only u l
              | inr n ↦ only' u n
            ],
            λ u s r m h j i k. elim m [
              | inl a ↦
                  elim (all r (
                    in-find_resources x.resource r stacks s j i
                      (subst (λ (y : ResourceUpdate). depends_on docs y.resource r ≡ true) a k))) [
                        | inl z ↦ inl z
                        | inr (d, n, w) ↦
                            inr (d, subst (In d) whole (in-append_left d ds more n), w)
                      ]
              | inr n ↦ elim (all' u s r n h j i k) [
                | inl z ↦ inl z
                | inr (d, o, w) ↦ inr (d, subst (In d) whole (in-append_right d ds more o), w)
              ]
            ],
          )
    ]
      where
        both : true ≡ false → ⊥
        both z = cc

    -- A resource of a stack that depends on a deleted one is deleted or replaced itself, or gets a
    -- dependency delete; and dependency deletes are deletes.
    pub find_dependency_updates-In :
        (all_deletes : List ResourceUpdate) (stacks : List Forma) (deps : List ResourceUpdate)
        → find_dependency_updates docs targets source all_deletes stacks ≡ ok deps
        → OnlyDeletes deps
          × ((u : ResourceUpdate) (s : Forma) (r : Resource)
              → In u all_deletes
              → is_delete_update u ≡ true
              → In s stacks
              → In r s.resources
              → depends_on docs u.resource r ≡ true
              → (any (λ x. same_triplet x.resource r) all_deletes ≡ true)
                ⊎ ((d : ResourceUpdate) × In d deps × IsDeleteOf r d))
    unfolding find_dependency_updates
    find_dependency_updates-In all_deletes stacks deps e =
        dependency_updates-In all_deletes stacks all_deletes deps e
