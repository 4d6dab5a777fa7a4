-- ===== src/Changeset/Completion/Dropping.antt =====
-- A group that is done leaves the pipeline (the ends of UpdatePipeline, changeset.go).
use formae.Prelude.{
  ◌≡◌, ◌≢◌, refl, sym, subst, ◌∙◌, true, false, ◌&&◌, ◌∷◌, [], text_discrete, In, Distinct, without,
  in-without, remove_first, Text, if_pos, arith,
}
use formae.Model.Uri.{FormaeUri}
use formae.ResourceUpdate
use formae.ResourceUpdate.{OperationType, ResourceUpdate}
use formae.Changeset.Pipeline.{
  Groups, Pipeline, put, pop, done, operation_uri, same_text, same_operation_type,
}
use formae.Changeset.Pipeline.Links.{IsLinked}
use formae.Changeset.Invariant.{IsRemoved}
use formae.Changeset.Completion.{remove_from, remove_if_done}
use formae.Changeset.Completion.Removal.{
  Loosens, Loosens-trans, remove_from-Loosens, remove_from-clears,
}

-- `h` is `p` with the updates of `k` taken out.
pub record Emptied (k : FormaeUri) (p : Pipeline) (h : Groups) : Type 0 where
  pub no_updates : (h k).updates ≡ []
  pub updates_same : (j : FormaeUri) → k ≢ j → (h j).updates ≡ (p.groups j).updates
  pub upstream_same : (j : FormaeUri) → (h j).upstream ≡ (p.groups j).upstream
  pub downstream_same : (j : FormaeUri) → (h j).downstream ≡ (p.groups j).downstream

same_text_refl : (t : Text) → same_text t t ≡ true
same_text_refl t = if_pos (text_discrete t t) refl true false

same_operation_type_refl : (o : OperationType) → same_operation_type o o ≡ true
same_operation_type_refl OperationType.create = refl
same_operation_type_refl OperationType.update = refl
same_operation_type_refl OperationType.delete = refl
same_operation_type_refl OperationType.read = refl
same_operation_type_refl OperationType.replace = refl

-- `update` names the only update of its group: the same resource and operation.
pub record Names (p : Pipeline) (update : ResourceUpdate) : Type 0 where
  pub held : ResourceUpdate
  pub only : (p.groups (operation_uri update)).updates ≡ held ∷ []
  pub same_uri : ResourceUpdate.uri held ≡ ResourceUpdate.uri update
  pub same_operation : held.operation ≡ update.operation

module _ (p : Pipeline) (update : ResourceUpdate) (n : Names p update) where
  popped :
      remove_first
        (λ u.
          same_text (ResourceUpdate.uri u) (ResourceUpdate.uri update)
          && same_operation_type u.operation update.operation)
        (n.held ∷ [])
      ≡ []
  popped = rw (n.same_uri, n.same_operation) (rw (same_text_refl, same_operation_type_refl) refl)

pub pop-Emptied :
    (p : Pipeline) (update : ResourceUpdate)
    → Names p update
    → Emptied (operation_uri update) p (pop p.groups (operation_uri update) update)
unfolding pop put
pop-Emptied p update n =
    let k = operation_uri update in
    record {
      no_updates = ground (arith, n.only, popped p update n);
      updates_same = λ j ne. ground arith;
      upstream_same = λ j. ground arith;
      downstream_same = λ j. ground arith;
    }

-- Once it holds no update, taking the group out removes it from the map and from what waits for it,
-- also if some links to it were cut before.
pub remove_if_done-IsRemoved :
    (k : FormaeUri) (p : Pipeline) (h1 h2 : Groups)
    → IsLinked p.groups p.keys
    → Emptied k p h1
    → Loosens k h1 h2
    → IsRemoved k p (remove_if_done k (record p { groups = h2 }))
unfolding remove_if_done
remove_if_done-IsRemoved k p h1 h2 linked e l = rw is_done (record {
  keys_removed = refl;
  emptied = all.updates_same k ∙ e.no_updates;
  updates_same = λ j ne. all.updates_same j ∙ e.updates_same j ne;
  upstream_removed =
      λ j m x. (λ w. (old j x w, gone j x m w), λ w. all.up_keep j x w.1 (rw e.upstream_same w.0));
  downstream_same = λ j ne. all.down_other j ne ∙ e.downstream_same j;
  downstream_sub = downs;
  distinct_kept = λ du dd j. (all.up_distinct j (rw e.upstream_same (du j)), dist dd j);
})
  where
    all : Loosens k h1 (remove_from (h2 k).downstream k h2)
    all = Loosens-trans l (remove_from-Loosens (h2 k).downstream k h2)

    is_done : done (h2 k) ≡ true
    is_done = rw (l.updates_same k ∙ e.no_updates) refl

    old :
        (j x : FormaeUri)
        → In x (remove_from (h2 k).downstream k h2 j).upstream
        → In x (p.groups j).upstream
    old j x w = rw e.upstream_same at (all.up_sub j x w)

    downs :
        (j x : FormaeUri)
        → In x (remove_from (h2 k).downstream k h2 j).downstream
        → In x (p.groups j).downstream
    downs j x m = elim (text_discrete k j) [
      | yes q ↦ rw e.downstream_same at (
          subst (λ y. In x (h1 y).downstream) q
            (all.down_sub x
              (subst (λ y. In x (remove_from (h2 k).downstream k h2 y).downstream) (sym q) m)))
      | no ne ↦ rw (all.down_other j ne ∙ e.downstream_same j) at m
    ]

    dist :
        ((j : FormaeUri) → Distinct (p.groups j).downstream)
        → (j : FormaeUri) → Distinct (remove_from (h2 k).downstream k h2 j).downstream
    dist dd j = elim (text_discrete k j) [
      | yes q ↦
          subst (λ y. Distinct (remove_from (h2 k).downstream k h2 y).downstream) q
            (all.down_distinct (rw e.downstream_same (dd k)))
      | no ne ↦ rw (all.down_other j ne ∙ e.downstream_same j) (dd j)
    ]

    gone :
        (j x : FormaeUri)
        → In j (without text_discrete k p.keys)
        → In x (remove_from (h2 k).downstream k h2 j).upstream
        → k ≢ x
    gone j x m w q =
        let wk = subst (λ y. In y (remove_from (h2 k).downstream k h2 j).upstream) (sym q) w in
        let was = subst (λ y. In y (p.groups j).upstream) (sym q) (old j x w) in
        let mj = (in-without text_discrete k j p.keys m).0 in
        let below : In j (h1 k).downstream = rw e.downstream_same (linked.up_down j k mj was) in
        let dj : Distinct (h1 j).upstream = rw e.upstream_same (linked.up_distinct j) in
        let cut = (remove_from-Loosens (h2 k).downstream k h2).up_sub j k wk in
        remove_from-clears (h2 k).downstream k h2 j (l.up_distinct j dj) (l.still j dj below cut) wk
