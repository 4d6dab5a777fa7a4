-- ===== src/Changeset/Init/Wired.antt =====
-- The pipeline that `Init` (changeset.go) assembles is wired: every link joins groups of the map.
use formae.Prelude.{
  ◌≡◌, inl, inr, refl, Option, none, some, List, ◌∷◌, [], Text, In, arith, Option-cases, Distinct,
  subst,
}
use formae.Model.Uri.{FormaeUri, stripped}
use formae.ResourceUpdate
use formae.ResourceUpdate.{OperationType, ResourceUpdate}
use formae.Changeset.Pipeline.{Groups, Pipeline, create_operation_uri, operation_uri, put}
use formae.Changeset.Pipeline.Links.{IsWired, link_with-IsWired}
use formae.Changeset.Init.{
  Order, add_group, add_groups, delete_op, change_op, delete_of_key, create_of_key, link_delete,
  build_delete_dependencies, link_change, build_create_update_dependencies, connect,
  connect_delete_to_create, build_operation_relationships, assemble, split_replaces, empty_pipeline,
}
use formae.Changeset.Init.Operations.{
  add_groups-keys, add_groups-Distinct, IsEntry, delete_op-some, change_op-some, delete_of_key-some,
  create_of_key-some,
}

abbrev IsBare : Groups → Type 0
IsBare h = (k : FormaeUri) → ((h k).upstream ≡ []) × ((h k).downstream ≡ [])

add_groups-IsBare :
    (p : Pipeline) (ops : List ResourceUpdate) → IsBare p.groups → IsBare (add_groups p ops).groups
unfolding add_groups add_group put
add_groups-IsBare p [] b = b
add_groups-IsBare p (x ∷ xs) b = add_groups-IsBare (add_group p x) xs (λ k. ground (arith, b k))

IsBare→IsWired : (h : Groups) (keys : List FormaeUri) → IsBare h → IsWired h keys
IsBare→IsWired h keys b = record {
  linked = record {
    up_live = λ k u m l. absurd (subst (In u) (b k).0 l);
    up_down = λ k u m l. absurd (subst (In u) (b k).0 l);
    down_up = λ k d m n l. absurd (subst (In d) (b k).1 l);
    up_distinct = λ k. rw (b k).0 tt;
    down_distinct = λ k. rw (b k).1 tt;
  };
  down_live = λ k d m l. absurd (subst (In d) (b k).1 l);
}

module _ (ops : List ResourceUpdate) (keys : List FormaeUri)
    (known : (u : ResourceUpdate) → In u ops → In (operation_uri u) keys) where
  entry_key :
      (k : FormaeUri) (op : ResourceUpdate)
      → IsEntry ops k op
      → In (create_operation_uri k op.operation) keys
  unfolding operation_uri
  entry_key k op e = rw (← e.located) (known op e.listed)

  delete_key :
      (k : FormaeUri) (op : ResourceUpdate)
      → delete_op ops k ≡ some op
      → In (create_operation_uri k OperationType.delete) keys
        × In (create_operation_uri (ResourceUpdate.uri op) OperationType.delete) keys
  delete_key k op e =
      let (entry, d) = delete_op-some ops k op e in
      let key = subst (λ o. In (create_operation_uri k o) keys) d (entry_key k op entry) in
      (key, rw entry.located key)

  link_delete-IsWired :
      (dependent : FormaeUri) (rs : List FormaeUri) (h : Groups)
      → In dependent keys
      → IsWired h keys
      → IsWired (link_delete ops dependent rs h) keys
  unfolding link_delete
  link_delete-IsWired dependent [] h m w = w
  link_delete-IsWired dependent (r ∷ rs) h m w =
      link_delete-IsWired dependent rs _ m (elim (Option-cases (delete_op ops (stripped r))) [
        | inl n ↦ rw n w
        | inr (op, e) ↦
            rw e (link_with-IsWired h keys _ dependent (delete_key (stripped r) op e).0 m w)
      ])

  build_delete-IsWired :
      (ks : List FormaeUri) (h : Groups)
      → IsWired h keys
      → IsWired (build_delete_dependencies ops ks h) keys
  unfolding build_delete_dependencies
  build_delete-IsWired [] h w = w
  build_delete-IsWired (k ∷ ks) h w =
      build_delete-IsWired ks _ (elim (Option-cases (delete_op ops k)) [
        | inl n ↦ rw n w
        | inr (op, e) ↦
            rw e (link_delete-IsWired _ op.remaining_resolvables h (delete_key k op e).1 w)
      ])

  change_key :
      (k : FormaeUri) (op : ResourceUpdate)
      → change_op ops k ≡ some op
      → In (create_operation_uri k op.operation) keys
        × In (create_operation_uri (ResourceUpdate.uri op) op.operation) keys
  change_key k op e =
      let entry = change_op-some ops k op e in
      let key = entry_key k op entry in (key, rw entry.located key)

  link_change-IsWired :
      (dependent : FormaeUri) (rs : List FormaeUri) (h : Groups)
      → In dependent keys
      → IsWired h keys
      → IsWired (link_change ops dependent rs h) keys
  unfolding link_change
  link_change-IsWired dependent [] h m w = w
  link_change-IsWired dependent (r ∷ rs) h m w =
      link_change-IsWired dependent rs _ m (elim (Option-cases (change_op ops (stripped r))) [
        | inl n ↦ rw n w
        | inr (op, e) ↦
            rw e (link_with-IsWired h keys dependent _ m (change_key (stripped r) op e).0 w)
      ])

  build_change-IsWired :
      (ks : List FormaeUri) (h : Groups)
      → IsWired h keys
      → IsWired (build_create_update_dependencies ops ks h) keys
  unfolding build_create_update_dependencies
  build_change-IsWired [] h w = w
  build_change-IsWired (k ∷ ks) h w =
      build_change-IsWired ks _ (elim (Option-cases (change_op ops k)) [
        | inl n ↦ rw n w
        | inr (op, e) ↦
            rw e (link_change-IsWired _ op.remaining_resolvables h (change_key k op e).1 w)
      ])

  connect-IsWired :
      (d c : Option ResourceUpdate) (h : Groups)
      → ((op : ResourceUpdate)
          → d ≡ some op
          → In (create_operation_uri (ResourceUpdate.uri op) OperationType.delete) keys)
      → ((op : ResourceUpdate)
          → c ≡ some op
          → In (create_operation_uri (ResourceUpdate.uri op) OperationType.create) keys)
      → IsWired h keys
      → IsWired (connect ops d c h) keys
  unfolding connect
  connect-IsWired (some d) (some c) h kd kc w =
      link_with-IsWired h keys _ _ (kc c refl) (kd d refl) w
  connect-IsWired (some d) none h kd kc w = w
  connect-IsWired none c h kd kc w = w

  op_key :
      (op : ResourceUpdate) (o : OperationType)
      → In op ops
      → op.operation ≡ o
      → In (create_operation_uri (ResourceUpdate.uri op) o) keys
  unfolding operation_uri
  op_key op o m e =
      subst (λ x. In (create_operation_uri (ResourceUpdate.uri op) x) keys) e (known op m)

  connect_delete-IsWired :
      (ks : List Text) (h : Groups)
      → IsWired h keys
      → IsWired (connect_delete_to_create ops ks h) keys
  unfolding connect_delete_to_create
  connect_delete-IsWired [] h w = w
  connect_delete-IsWired (k ∷ ks) h w = connect_delete-IsWired ks _ (
      connect-IsWired (delete_of_key ops k) (create_of_key ops k) h
        (λ op e. let (m, d) = delete_of_key-some ops k op e in op_key op OperationType.delete m d)
        (λ op e. let (m, c) = create_of_key-some ops k op e in op_key op OperationType.create m c)
        w)

  build_operation_relationships-IsWired :
      (order : Order) (h : Groups)
      → IsWired h keys
      → IsWired (build_operation_relationships ops order h) keys
  unfolding build_operation_relationships
  build_operation_relationships-IsWired order h w =
      connect_delete-IsWired order.replacements _
        (build_change-IsWired order.changes _ (build_delete-IsWired order.deletes h w))

-- Whatever the updates are and in whatever order Go passes the maps, the links that `Init` builds join
-- only groups of the map, each link has its two ends, no link is built twice, and no key repeats.
pub assemble-IsWired :
    (order : Order) (updates : List ResourceUpdate)
    → let p = assemble order updates in IsWired p.groups p.keys × Distinct p.keys
unfolding assemble
assemble-IsWired order updates =
    let ops = split_replaces updates in
    let p = add_groups empty_pipeline ops in
    (
      build_operation_relationships-IsWired ops p.keys
          (λ u m. add_groups-keys empty_pipeline ops u (inr m)) order p.groups
          (IsBare→IsWired p.groups p.keys
            (add_groups-IsBare empty_pipeline ops (λ k. (refl, refl)))),
      add_groups-Distinct empty_pipeline ops tt,
    )
