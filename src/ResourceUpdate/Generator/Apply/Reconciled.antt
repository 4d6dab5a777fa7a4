-- ===== src/ResourceUpdate/Generator/Apply/Reconciled.antt =====
-- What reconcile creates and deletes in a stack that exists (resource_update_generator.go).
use formae.Prelude.{
  ◌≡◌, inl, inr, subst, false, List, In, any, in-append, in-append_left, in-append_right,
}
use formae.Prelude.Results.{ok, bind-ok, ok_injective}
use formae.Model.Resource.{Resource}
use formae.Model.Forma.{Forma}
use formae.ResourceUpdate.{OperationType, CommandSource, ResourceUpdate}
use formae.ResourceUpdate.Factory.{Documents, ApplyMode}
use formae.ResourceUpdate.Factory.Laws.{managed}
use formae.ResourceUpdate.Generator.{found, Lookup, TargetMap}
use formae.ResourceUpdate.Generator.Apply.{
  Batch, join, join_all, replaces_existing, exists_as, reconcile_existing, create_if_new,
  reconcile_stack,
}
use formae.ResourceUpdate.Generator.Apply.Stacks.{
  reconcile_existing-kept, reconcile_existing-deleted, create_if_new-kept, create_if_new-created,
}
use formae.ResourceUpdate.Generator.Collect.{join_all-In, in-join_all, creates_field, deletes_field}

-- The creates are for the new resources that do not exist, and the deletes for the existing ones that no
-- new resource replaces, all of them and no others.
pub record IsReconciled (news existing : List Resource) (b : Batch) : Type 0 where
  pub created :
      (n : Resource)
      → In n news
      → any (exists_as n) existing ≡ false
      → (u : ResourceUpdate) × In u b.creates
        × (u.operation ≡ OperationType.create)
        × (u.resource ≡ managed n)
  pub only_created :
      (u : ResourceUpdate)
      → In u b.creates
      → (n : Resource) × In n news
        × (any (exists_as n) existing ≡ false)
        × (u.operation ≡ OperationType.create)
        × (u.resource ≡ managed n)
  pub deleted :
      (e : Resource)
      → In e existing
      → any (λ n. replaces_existing n e) news ≡ false
      → (u : ResourceUpdate) × In u b.deletes
        × (u.operation ≡ OperationType.delete)
        × (u.resource ≡ e)
  pub only_deleted :
      (u : ResourceUpdate)
      → In u b.deletes
      → (e : Resource) × In e existing
        × (any (λ n. replaces_existing n e) news ≡ false)
        × (u.operation ≡ OperationType.delete)
        × (u.resource ≡ e)

module _ (docs : Documents) (lookup : Lookup) (targets : TargetMap) (source : CommandSource)
    (mode : ApplyMode) (all_stacks : List Forma) (news existing : List Resource) where
  both_loops :
      (a b : Batch)
      → join_all (reconcile_existing docs lookup targets source mode all_stacks news) existing
        ≡ ok a
      → join_all (create_if_new docs lookup targets source mode all_stacks existing) news ≡ ok b
      → IsReconciled news existing (join a b)
  both_loops a b ea eb =
      let old = reconcile_existing docs lookup targets source mode all_stacks news in
      let new = create_if_new docs lookup targets source mode all_stacks existing in
      record {
        created = λ n m q.
            let (c, f, into) = in-join_all new creates_field news n eb m in
            let (u, k, o, r) =
              create_if_new-created docs lookup targets source mode all_stacks existing n c f q in
            (u, in-append_right u a.creates b.creates (into u k), o, r);
        only_created = λ u m. elim (in-append u a.creates b.creates m) [
          | inl l ↦
              let (x, i, (c, f, k)) = join_all-In old creates_field existing u ea l in
              absurd (
                (reconcile_existing-kept docs lookup targets source mode all_stacks news x c u f).0
                  k)
          | inr r ↦
              let (n, i, (c, f, k)) = join_all-In new creates_field news u eb r in
              let (q, o, s) =
                (create_if_new-kept docs lookup targets source mode all_stacks existing n c u f).1
                  k in
              (n, i, q, o, s)
        ];
        deleted = λ x m q.
            let (c, f, into) = in-join_all old deletes_field existing x ea m in
            let (u, k, o, r) =
              reconcile_existing-deleted docs lookup targets source mode all_stacks news x c f q in
            (u, in-append_left u a.deletes b.deletes (into u k), o, r);
        only_deleted = λ u m. elim (in-append u a.deletes b.deletes m) [
          | inl l ↦
              let (x, i, (c, f, k)) = join_all-In old deletes_field existing u ea l in
              let (q, o, s) =
                (reconcile_existing-kept docs lookup targets source mode all_stacks news x c u f).1
                  k in
              (x, i, q, o, s)
          | inr r ↦
              let (n, i, (c, f, k)) = join_all-In new deletes_field news u eb r in
              absurd (
                (create_if_new-kept docs lookup targets source mode all_stacks existing n c u f).0
                  k)
        ];
      }

-- When reconcile handles a stack that exists without an error, it creates exactly the new resources that
-- do not exist there, as managed ones, and deletes exactly the existing resources that no new
-- resource of the same label, type and target replaces. (What depends on a delete or a
-- replacement is added after all stacks are handled.)
pub reconcile_stack-IsReconciled :
    (docs : Documents) (lookup : Lookup) (targets : TargetMap) (source : CommandSource)
    (mode : ApplyMode) (all_stacks : List Forma) (stack old_stack : Forma) (b : Batch)
    → reconcile_stack docs lookup targets source mode all_stacks stack (found old_stack) ≡ ok b
    → IsReconciled stack.resources old_stack.resources b
unfolding reconcile_stack
reconcile_stack-IsReconciled docs lookup targets source mode all_stacks stack old_stack b e =
    let news = stack.resources in
    let existing = old_stack.resources in
    let (x, e1, e2) =
      bind-ok
        (join_all (reconcile_existing docs lookup targets source mode all_stacks news) existing) _
        e in
    let (y, e3, e4) =
      bind-ok (join_all (create_if_new docs lookup targets source mode all_stacks existing) news) _
        e2 in
    subst (IsReconciled news existing) (ok_injective e4)
      (both_loops docs lookup targets source mode all_stacks news existing x y e1 e3)
