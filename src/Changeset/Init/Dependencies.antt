-- ===== src/Changeset/Init/Dependencies.antt =====
-- Which waits the pipeline of `Init` (changeset.go) enforces, and what `Init` returns.
use formae.Prelude.{
  ◌≡◌, ◌⊎◌, inl, inr, refl, subst, Option, none, some, List, ◌∷◌, [], Text, In, Option-cases,
}
use formae.Model.Uri.{FormaeUri, stripped}
use formae.ResourceUpdate
use formae.ResourceUpdate.{OperationType, ResourceUpdate}
use formae.Changeset.Pipeline.{Groups, create_operation_uri, link_with}
use formae.Changeset.Pipeline.Links.{IsWired, link_with-upstream}
use formae.Changeset.Cycles.Correct.{Cycle, has_cycles-decides}
use formae.Changeset.Init.{
  Order, delete_op, change_op, delete_of_key, create_of_key, link_delete, build_delete_dependencies,
  link_change, build_create_update_dependencies, connect, connect_delete_to_create,
  build_operation_relationships, assemble, split_replaces, built, cycles_detected, init,
}
use formae.Changeset.Init.Wired.{assemble-IsWired}

-- `Init` returns for every list of updates and every order of its maps: either a wired pipeline in
-- which no group leads back to itself, or the error for cycles, and then there is such a group.
pub init-decides :
    (order : Order) (updates : List ResourceUpdate)
    → let p = assemble order updates in
      ((init order updates ≡ some (built p))
        × IsWired p.groups p.keys
        × ((k : FormaeUri) → In k p.keys → ¬ Cycle p.groups k))
      ⊎ ((init order updates ≡ some cycles_detected) × ((v : FormaeUri) × Cycle p.groups v))
unfolding init
init-decides order updates =
    let p = assemble order updates in
    let (wired, _) = assemble-IsWired order updates in
    elim (has_cycles-decides p wired.down_live) [
      | inl (e, cycle) ↦ inr (rw e, cycle)
      | inr (e, acyclic) ↦ inl (rw e, wired, acyclic)
    ]

-- `k` waits for `u`.
abbrev Waits : Groups → (k u : FormaeUri) → Type 0
Waits h k u = In u (h k).upstream

-- Building further links drops no wait.
abbrev Extends : Groups → Groups → Type 0
Extends h h' = (k u : FormaeUri) → Waits h k u → Waits h' k u

link_with-Extends : (h : Groups) (rug up : FormaeUri) → Extends h (link_with h rug up)
link_with-Extends h rug up k u w = (link_with-upstream h rug up k u).1 (inl w)

link_with-Waits : (h : Groups) (rug up : FormaeUri) → Waits (link_with h rug up) rug up
link_with-Waits h rug up = (link_with-upstream h rug up rug up).1 (inr (refl, refl))

module _ (ops : List ResourceUpdate) where
  link_delete-Extends :
      (dependent : FormaeUri) (rs : List FormaeUri) (h : Groups)
      → Extends h (link_delete ops dependent rs h)
  unfolding link_delete
  link_delete-Extends dependent [] h k u w = w
  link_delete-Extends dependent (r ∷ rs) h k u w =
      link_delete-Extends dependent rs _ k u (elim (Option-cases (delete_op ops (stripped r))) [
        | inl n ↦ rw n w
        | inr (op, e) ↦ rw e (link_with-Extends h _ _ k u w)
      ])

  link_delete-Waits :
      (dependent : FormaeUri) (rs : List FormaeUri) (h : Groups) (r : FormaeUri)
      (op : ResourceUpdate)
      → In r rs
      → delete_op ops (stripped r) ≡ some op
      → Waits
          (link_delete ops dependent rs h)
          (create_operation_uri (stripped r) OperationType.delete)
          dependent
  unfolding link_delete
  link_delete-Waits dependent [] h r op m e = absurd m
  link_delete-Waits dependent (x ∷ rs) h r op (inr m) e = link_delete-Waits dependent rs _ r op m e
  link_delete-Waits dependent (x ∷ rs) h r op (inl q) e =
      let found = subst (λ y. delete_op ops (stripped y) ≡ some op) q e in
      rw q (
        link_delete-Extends dependent rs _ _ _ (
          rw found
            (link_with-Waits h (create_operation_uri (stripped x) OperationType.delete) dependent)))

  build_delete-Extends :
      (ks : List FormaeUri) (h : Groups) → Extends h (build_delete_dependencies ops ks h)
  unfolding build_delete_dependencies
  build_delete-Extends [] h k u w = w
  build_delete-Extends (x ∷ ks) h k u w =
      build_delete-Extends ks _ k u (elim (Option-cases (delete_op ops x)) [
        | inl n ↦ rw n w
        | inr (op, e) ↦ rw e (link_delete-Extends _ op.remaining_resolvables h k u w)
      ])

  build_delete-Waits :
      (ks : List FormaeUri) (h : Groups) (a : FormaeUri) (op dep : ResourceUpdate) (r : FormaeUri)
      → In a ks
      → delete_op ops a ≡ some op
      → In r op.remaining_resolvables
      → delete_op ops (stripped r) ≡ some dep
      → Waits
          (build_delete_dependencies ops ks h)
          (create_operation_uri (stripped r) OperationType.delete)
          (create_operation_uri (ResourceUpdate.uri op) OperationType.delete)
  unfolding build_delete_dependencies
  build_delete-Waits [] h a op dep r m e l f = absurd m
  build_delete-Waits (x ∷ ks) h a op dep r (inr m) e l f =
      build_delete-Waits ks _ a op dep r m e l f
  build_delete-Waits (x ∷ ks) h a op dep r (inl q) e l f =
      let found = subst (λ y. delete_op ops y ≡ some op) q e in
      build_delete-Extends ks _ _ _
        (rw found (link_delete-Waits _ op.remaining_resolvables h r dep l f))

  link_change-Extends :
      (dependent : FormaeUri) (rs : List FormaeUri) (h : Groups)
      → Extends h (link_change ops dependent rs h)
  unfolding link_change
  link_change-Extends dependent [] h k u w = w
  link_change-Extends dependent (r ∷ rs) h k u w =
      link_change-Extends dependent rs _ k u (elim (Option-cases (change_op ops (stripped r))) [
        | inl n ↦ rw n w
        | inr (op, e) ↦ rw e (link_with-Extends h _ _ k u w)
      ])

  link_change-Waits :
      (dependent : FormaeUri) (rs : List FormaeUri) (h : Groups) (r : FormaeUri)
      (op : ResourceUpdate)
      → In r rs
      → change_op ops (stripped r) ≡ some op
      → Waits
          (link_change ops dependent rs h)
          dependent
          (create_operation_uri (stripped r) op.operation)
  unfolding link_change
  link_change-Waits dependent [] h r op m e = absurd m
  link_change-Waits dependent (x ∷ rs) h r op (inr m) e = link_change-Waits dependent rs _ r op m e
  link_change-Waits dependent (x ∷ rs) h r op (inl q) e =
      let found = subst (λ y. change_op ops (stripped y) ≡ some op) q e in
      rw q (
        link_change-Extends dependent rs _ _ _
          (rw found (link_with-Waits h dependent (create_operation_uri (stripped x) op.operation))))

  build_change-Extends :
      (ks : List FormaeUri) (h : Groups) → Extends h (build_create_update_dependencies ops ks h)
  unfolding build_create_update_dependencies
  build_change-Extends [] h k u w = w
  build_change-Extends (x ∷ ks) h k u w =
      build_change-Extends ks _ k u (elim (Option-cases (change_op ops x)) [
        | inl n ↦ rw n w
        | inr (op, e) ↦ rw e (link_change-Extends _ op.remaining_resolvables h k u w)
      ])

  build_change-Waits :
      (ks : List FormaeUri) (h : Groups) (a : FormaeUri) (op dep : ResourceUpdate) (r : FormaeUri)
      → In a ks
      → change_op ops a ≡ some op
      → In r op.remaining_resolvables
      → change_op ops (stripped r) ≡ some dep
      → Waits
          (build_create_update_dependencies ops ks h)
          (create_operation_uri (ResourceUpdate.uri op) op.operation)
          (create_operation_uri (stripped r) dep.operation)
  unfolding build_create_update_dependencies
  build_change-Waits [] h a op dep r m e l f = absurd m
  build_change-Waits (x ∷ ks) h a op dep r (inr m) e l f =
      build_change-Waits ks _ a op dep r m e l f
  build_change-Waits (x ∷ ks) h a op dep r (inl q) e l f =
      let found = subst (λ y. change_op ops y ≡ some op) q e in
      build_change-Extends ks _ _ _
        (rw found (link_change-Waits _ op.remaining_resolvables h r dep l f))

  connect-Extends : (d c : Option ResourceUpdate) (h : Groups) → Extends h (connect ops d c h)
  unfolding connect
  connect-Extends (some d) (some c) h k u w = link_with-Extends h _ _ k u w
  connect-Extends (some d) none h k u w = w
  connect-Extends none c h k u w = w

  connect_delete-Extends :
      (ks : List Text) (h : Groups) → Extends h (connect_delete_to_create ops ks h)
  unfolding connect_delete_to_create
  connect_delete-Extends [] h k u w = w
  connect_delete-Extends (x ∷ ks) h k u w =
      connect_delete-Extends ks _ k u
        (connect-Extends (delete_of_key ops x) (create_of_key ops x) h k u w)

  connect_delete-Waits :
      (ks : List Text) (h : Groups) (key : Text) (d c : ResourceUpdate)
      → In key ks
      → delete_of_key ops key ≡ some d
      → create_of_key ops key ≡ some c
      → Waits
          (connect_delete_to_create ops ks h)
          (create_operation_uri (ResourceUpdate.uri c) OperationType.create)
          (create_operation_uri (ResourceUpdate.uri d) OperationType.delete)
  unfolding connect_delete_to_create connect
  connect_delete-Waits [] h key d c m e f = absurd m
  connect_delete-Waits (x ∷ ks) h key d c (inr m) e f = connect_delete-Waits ks _ key d c m e f
  connect_delete-Waits (x ∷ ks) h key d c (inl q) e f =
      let deleted = subst (λ y. delete_of_key ops y ≡ some d) q e in
      let created = subst (λ y. create_of_key ops y ≡ some c) q f in
      connect_delete-Extends ks _ _ _ (rw (deleted, created) (link_with-Waits h _ _))

-- The waits that the operations of a list of updates ask for.
pub data Required (ops : List ResourceUpdate) (order : Order) : (k u : FormaeUri) → Type 0 where
  delete_dependent_first :
      (a r : FormaeUri) (op dependency : ResourceUpdate)
      → In a order.deletes
      → delete_op ops a ≡ some op
      → In r op.remaining_resolvables
      → delete_op ops (stripped r) ≡ some dependency
      → Required ops order
          (create_operation_uri (stripped r) OperationType.delete)
          (create_operation_uri (ResourceUpdate.uri op) OperationType.delete)
  change_dependency_first :
      (a r : FormaeUri) (op dependency : ResourceUpdate)
      → In a order.changes
      → change_op ops a ≡ some op
      → In r op.remaining_resolvables
      → change_op ops (stripped r) ≡ some dependency
      → Required ops order
          (create_operation_uri (ResourceUpdate.uri op) op.operation)
          (create_operation_uri (stripped r) dependency.operation)
  delete_before_create :
      (key : Text) (deleted created : ResourceUpdate)
      → In key order.replacements
      → delete_of_key ops key ≡ some deleted
      → create_of_key ops key ≡ some created
      → Required ops order
          (create_operation_uri (ResourceUpdate.uri created) OperationType.create)
          (create_operation_uri (ResourceUpdate.uri deleted) OperationType.delete)

-- In the pipeline of `Init` the delete of a dependency waits for the delete of each of its dependents,
-- the create or update of a dependent waits for the create or update of each of its dependencies, and
-- the create of a resource waits for the delete of the same stack, label and type. An operation counts
-- if it is the one that its map holds under a key that the map's order contains.
pub assemble-Required :
    (order : Order) (updates : List ResourceUpdate) {k u : FormaeUri}
    → Required (split_replaces updates) order k u
    → In u ((assemble order updates).groups k).upstream
unfolding assemble build_operation_relationships
assemble-Required order updates (delete_dependent_first a r op dep m e l f) =
    let ops = split_replaces updates in
    connect_delete-Extends ops order.replacements _ _ _ (
      build_change-Extends ops order.changes _ _ _
        (build_delete-Waits ops order.deletes _ a op dep r m e l f))
assemble-Required order updates (change_dependency_first a r op dep m e l f) =
    let ops = split_replaces updates in
    connect_delete-Extends ops order.replacements _ _ _
      (build_change-Waits ops order.changes _ a op dep r m e l f)
assemble-Required order updates (delete_before_create key d c m e f) =
    connect_delete-Waits (split_replaces updates) order.replacements _ key d c m e f
