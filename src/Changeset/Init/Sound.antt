-- ===== src/Changeset/Init/Sound.antt =====
-- The pipeline that `Init` (changeset.go) returns is sound.
use formae.Prelude.{
  ◌≡◌, ◌≢◌, inl, inr, refl, sym, ap, subst, ◌∙◌, false, Option, none, some, List, ◌++◌, ◌∷◌, [],
  Text, text_discrete, In, in-append, in-append_left, in-append_right, dec_in, if_pos, if_neg, ite,
  arith, Option-cases,
}
use formae.Model.Uri.{FormaeUri, stripped}
use formae.ResourceUpdate.{OperationType, UpdateState, ResourceUpdate}
use formae.Changeset.Pipeline.{Group, Groups, Pipeline, operation_uri, put, has_running_update}
use formae.Changeset.Pipeline.Links.{link_with-updates}
use formae.Changeset.Cycles.Correct.{Cycle}
use formae.Changeset.Invariant.{HoldsOne, HoldsOne-weaken, IsSound}
use formae.Changeset.Init.{
  Order, add_group, add_groups, delete_op, change_op, delete_of_key, create_of_key, link_delete,
  build_delete_dependencies, link_change, build_create_update_dependencies, connect, expand,
  connect_delete_to_create, build_operation_relationships, assemble, split_replaces, empty_pipeline,
  init, built, cycles_detected,
}
use formae.Changeset.Init.Wired.{assemble-IsWired}
use formae.Changeset.Init.Dependencies.{init-decides}

-- Building links changes no updates.
abbrev Keeps : Groups → Groups → Type 0
Keeps h h' = (j : FormaeUri) → (h' j).updates ≡ (h j).updates

module _ (ops : List ResourceUpdate) where
  link_delete-Keeps :
      (dependent : FormaeUri) (rs : List FormaeUri) (h : Groups)
      → Keeps h (link_delete ops dependent rs h)
  unfolding link_delete
  link_delete-Keeps dependent [] h j = refl
  link_delete-Keeps dependent (r ∷ rs) h j =
      link_delete-Keeps dependent rs _ j ∙ elim (Option-cases (delete_op ops (stripped r))) [
        | inl n ↦ rw n refl
        | inr (op, e) ↦ rw e (link_with-updates h _ dependent j)
      ]

  build_delete-Keeps :
      (ks : List FormaeUri) (h : Groups) → Keeps h (build_delete_dependencies ops ks h)
  unfolding build_delete_dependencies
  build_delete-Keeps [] h j = refl
  build_delete-Keeps (k ∷ ks) h j =
      build_delete-Keeps ks _ j ∙ elim (Option-cases (delete_op ops k)) [
        | inl n ↦ rw n refl
        | inr (op, e) ↦ rw e (link_delete-Keeps _ op.remaining_resolvables h j)
      ]

  link_change-Keeps :
      (dependent : FormaeUri) (rs : List FormaeUri) (h : Groups)
      → Keeps h (link_change ops dependent rs h)
  unfolding link_change
  link_change-Keeps dependent [] h j = refl
  link_change-Keeps dependent (r ∷ rs) h j =
      link_change-Keeps dependent rs _ j ∙ elim (Option-cases (change_op ops (stripped r))) [
        | inl n ↦ rw n refl
        | inr (op, e) ↦ rw e (link_with-updates h dependent _ j)
      ]

  build_change-Keeps :
      (ks : List FormaeUri) (h : Groups) → Keeps h (build_create_update_dependencies ops ks h)
  unfolding build_create_update_dependencies
  build_change-Keeps [] h j = refl
  build_change-Keeps (k ∷ ks) h j =
      build_change-Keeps ks _ j ∙ elim (Option-cases (change_op ops k)) [
        | inl n ↦ rw n refl
        | inr (op, e) ↦ rw e (link_change-Keeps _ op.remaining_resolvables h j)
      ]

  connect-Keeps : (d c : Option ResourceUpdate) (h : Groups) → Keeps h (connect ops d c h)
  unfolding connect
  connect-Keeps (some d) (some c) h j = link_with-updates h _ _ j
  connect-Keeps (some d) none h j = refl
  connect-Keeps none c h j = refl

  connect_delete-Keeps : (ks : List Text) (h : Groups) → Keeps h (connect_delete_to_create ops ks h)
  unfolding connect_delete_to_create
  connect_delete-Keeps [] h j = refl
  connect_delete-Keeps (k ∷ ks) h j =
      connect_delete-Keeps ks _ j ∙ connect-Keeps (delete_of_key ops k) (create_of_key ops k) h j

  build_operation_relationships-Keeps :
      (order : Order) (h : Groups) → Keeps h (build_operation_relationships ops order h)
  unfolding build_operation_relationships
  build_operation_relationships-Keeps order h j =
      connect_delete-Keeps order.replacements _ j
      ∙ (build_change-Keeps order.changes _ j ∙ build_delete-Keeps order.deletes h j)

abbrev Waiting : FormaeUri → UpdateState → Type 0
Waiting k s = s ≡ UpdateState.not_started

-- Every group of the map holds one update, which has not started, and every other is empty.
record IsFilled (h : Groups) (keys : List FormaeUri) : Type 0 where
  holds : (k : FormaeUri) → In k keys → HoldsOne Waiting k (h k).updates
  gone : (k : FormaeUri) → (¬ In k keys) → (h k).updates ≡ []

add_group-IsFilled :
    (p : Pipeline) (u : ResourceUpdate)
    → u.state ≡ UpdateState.not_started
    → IsFilled p.groups p.keys
    → IsFilled (add_group p u).groups (add_group p u).keys
unfolding add_group put
add_group-IsFilled p u s f = record {
  holds = λ k m. elim (text_discrete (operation_uri u) k) [
    | yes q ↦ record { update = u; only = at_key k q; located = q; allowed = s }
    | no ne ↦
        subst (HoldsOne Waiting k) (sym (elsewhere k ne))
          (f.holds k (ground (arith, m, ne, in-append k p.keys (operation_uri u ∷ []))))
  ];
  gone = λ k n. elim (text_discrete (operation_uri u) k) [
    | yes q ↦ absurd (
        n (
          subst
            (λ x. In x (
              ite (dec_in text_discrete (operation_uri u) p.keys) p.keys
                (p.keys ++ operation_uri u ∷ [])))
            q (ground (arith, in-append_right (operation_uri u) p.keys (operation_uri u ∷ [])))))
    | no ne ↦
        elsewhere k ne
        ∙ f.gone k (λ m. n (ground (arith, in-append_left k p.keys (operation_uri u ∷ []) m)))
  ];
}
  where
    new_group : Group
    new_group = record { updates = u ∷ []; downstream = []; upstream = [] }

    at_key :
        (k : FormaeUri)
        → operation_uri u ≡ k
        → (put p.groups (operation_uri u) new_group k).updates ≡ u ∷ []
    at_key k q =
        ap (λ (g : Group). g.updates)
          (if_pos (text_discrete (operation_uri u) k) q new_group (p.groups k))

    elsewhere :
        (k : FormaeUri)
        → operation_uri u ≢ k
        → (put p.groups (operation_uri u) new_group k).updates ≡ (p.groups k).updates
    elsewhere k ne =
        ap (λ (g : Group). g.updates)
          (if_neg (text_discrete (operation_uri u) k) ne new_group (p.groups k))

abbrev AllWaiting : List ResourceUpdate → Type 0
AllWaiting us = (u : ResourceUpdate) → In u us → u.state ≡ UpdateState.not_started

add_groups-IsFilled :
    (p : Pipeline) (ops : List ResourceUpdate)
    → AllWaiting ops
    → IsFilled p.groups p.keys
    → IsFilled (add_groups p ops).groups (add_groups p ops).keys
unfolding add_groups
add_groups-IsFilled p [] w f = f
add_groups-IsFilled p (u ∷ us) w f =
    add_groups-IsFilled (add_group p u) us (λ x m. w x (inr m))
      (add_group-IsFilled p u (w u (inl refl)) f)

expand-AllWaiting : (u : ResourceUpdate) → u.state ≡ UpdateState.not_started → AllWaiting (expand u)
expand-AllWaiting u s x m = go u.operation m
  where
    go :
        (o : OperationType)
        → In x (elim o as (λ _. List ResourceUpdate) [
          | OperationType.replace ↦
              record u { operation = OperationType.delete }
              ∷ record u { operation = OperationType.create }
              ∷ []
          | _ ↦ u ∷ []
        ])
        → x.state ≡ UpdateState.not_started
    go OperationType.replace (inl q) = ap (λ (y : ResourceUpdate). y.state) q ∙ s
    go OperationType.replace (inr (inl q)) = ap (λ (y : ResourceUpdate). y.state) q ∙ s
    go OperationType.replace (inr (inr n)) = absurd n
    go OperationType.create (inl q) = ap (λ (y : ResourceUpdate). y.state) q ∙ s
    go OperationType.create (inr n) = absurd n
    go OperationType.update (inl q) = ap (λ (y : ResourceUpdate). y.state) q ∙ s
    go OperationType.update (inr n) = absurd n
    go OperationType.delete (inl q) = ap (λ (y : ResourceUpdate). y.state) q ∙ s
    go OperationType.delete (inr n) = absurd n
    go OperationType.read (inl q) = ap (λ (y : ResourceUpdate). y.state) q ∙ s
    go OperationType.read (inr n) = absurd n

split_replaces-AllWaiting :
    (us : List ResourceUpdate) → AllWaiting us → AllWaiting (split_replaces us)
unfolding split_replaces
split_replaces-AllWaiting [] w x m = absurd m
split_replaces-AllWaiting (u ∷ us) w x m = elim (in-append x (expand u) (split_replaces us) m) [
  | inl l ↦ expand-AllWaiting u (w u (inl refl)) x l
  | inr r ↦ split_replaces-AllWaiting us (λ y n. w y (inr n)) x r
]

one_waiting :
    (g : Group) (u : ResourceUpdate)
    → g.updates ≡ u ∷ []
    → u.state ≡ UpdateState.not_started
    → has_running_update g ≡ false
unfolding has_running_update
one_waiting g u e s = rw e (rw s refl)

assemble-IsFilled :
    (order : Order) (updates : List ResourceUpdate)
    → AllWaiting updates
    → IsFilled (assemble order updates).groups (assemble order updates).keys
unfolding assemble
assemble-IsFilled order updates w =
    let ops = split_replaces updates in
    let p = add_groups empty_pipeline ops in
    let f =
      add_groups-IsFilled empty_pipeline ops (split_replaces-AllWaiting updates w)
        (record { holds = λ k m. absurd m; gone = λ k n. refl }) in
    let kept = build_operation_relationships-Keeps ops order p.groups in
    record {
      holds = λ k m. subst (HoldsOne Waiting k) (sym (kept k)) (f.holds k m);
      gone = λ k n. kept k ∙ f.gone k n;
    }

assembled-IsSound :
    (order : Order) (updates : List ResourceUpdate)
    → AllWaiting updates
    → ((k : FormaeUri)
        → In k (assemble order updates).keys
        → ¬ Cycle (assemble order updates).groups k)
    → IsSound (assemble order updates)
assembled-IsSound order updates w acyclic =
    let p = assemble order updates in
    let (wired, distinct) = assemble-IsWired order updates in
    let f = assemble-IsFilled order updates w in
    record {
      linked = wired.linked;
      distinct = distinct;
      holds = λ k m. HoldsOne-weaken (λ s e. inl e) (f.holds k m);
      gone = f.gone;
      blocked_idle =
          λ k u m l. let o = f.holds k m in one_waiting (p.groups k) o.update o.only o.allowed;
      acyclic = acyclic;
    }

-- When `Init` accepts updates none of which has started, the pipeline that it returns is sound.
pub init-IsSound :
    (order : Order) (updates : List ResourceUpdate) (p : Pipeline)
    → ((u : ResourceUpdate) → In u updates → u.state ≡ UpdateState.not_started)
    → init order updates ≡ some (built p)
    → IsSound p
init-IsSound order updates p w e = elim (init-decides order updates) [
  | inl (f, wired, acyclic) ↦
      subst IsSound (built_injective (sym f ∙ e)) (assembled-IsSound order updates w acyclic)
  | inr (f, cycle) ↦ absurd (apart (sym f ∙ e))
]
  where
    built_injective : {x y : Pipeline} → some (built x) ≡ some (built y) → x ≡ y
    built_injective q = cc

    apart : {x : Pipeline} → some cycles_detected ≡ some (built x) → ⊥
    apart q = cc
