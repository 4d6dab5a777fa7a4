-- ===== src/Changeset/Completion/Failure/Whole.antt =====
-- UpdatePipeline (changeset.go) for an update that failed or was rejected.
use formae.Prelude.{
  ◌≡◌, ◌≢◌, ◌⊎◌, ◌↔◌, inl, inr, refl, sym, ap, subst, ◌∙◌, false, some, List, ◌++◌, ◌∷◌, [],
  text_discrete, In, in-append, in-append_left, in-append_right,
}
use formae.Model.Uri.{FormaeUri}
use formae.ResourceUpdate.{UpdateState, ResourceUpdate}
use formae.Changeset.Pipeline.{Group, Groups, Pipeline, pop, operation_uri, has_running_update}
use formae.Changeset.Pipeline.Links.{IsLinked-same}
use formae.Changeset.Invariant.{
  HoldsOne, HoldsOne-weaken, IsSound, IsSoundFor, IsSoundWith, IsSoundWith-weaken, Open, Finishing,
  Walk-mono, IsRemoved, IsRemoved-IsSoundWith,
}
use formae.Changeset.Completion.{
  Failing, complete_failure, after_failing, pop_failed, pop_one, remove_if_done,
}
use formae.Changeset.Completion.Removal.{Loosens-refl}
use formae.Changeset.Completion.Dropping.{Emptied, Names, pop-Emptied, remove_if_done-IsRemoved}
use formae.Changeset.Completion.Cascade.{Descends, Descends-key, IsFailed}
use formae.Changeset.Completion.Failure.Search.{
  Descends-transport, not-Descends, IsSearched, fail_resource_update-IsSearched,
}
use formae.Changeset.Completion.Failure.Popping.{
  IsRemoved-keys, pop-Emptied_none, pop_one-Pops, pop_failed-Pops, pop_failed-append, Pops,
}

not_running :
    (g : Group) (u : ResourceUpdate)
    → g.updates ≡ u ∷ []
    → u.state ≡ UpdateState.failed
    → has_running_update g ≡ false
unfolding has_running_update
not_running g u e s = rw e (rw s refl)

running-same :
    (g g' : Group) → g.updates ≡ g'.updates → has_running_update g ≡ has_running_update g'
unfolding has_running_update
running-same g g' e = rw e refl

none_running : (g : Group) → g.updates ≡ [] → has_running_update g ≡ false
unfolding has_running_update
none_running g e = rw e refl

-- What a failure leaves: the groups that the source leads to are gone with it, the others are
-- untouched, and the list of failed updates has the source and those that fell with it.
pub record IsCutOff (update : ResourceUpdate) (p p' : Pipeline) (failed : List ResourceUpdate)
    : Type 0 where
  pub sound : IsSound p'
  pub keys_left :
      (j : FormaeUri)
      → In j p'.keys ↔ (
          In j p.keys
          × (operation_uri update ≢ j)
          × (¬ Descends p.groups p.keys (operation_uri update) j))
  pub updates_same : (j : FormaeUri) → In j p'.keys → (p'.groups j).updates ≡ (p.groups j).updates
  pub source_failed : In update failed
  pub fallen :
      (f : ResourceUpdate)
      → In f failed
      → (f ≡ update)
        ⊎ ((f.state ≡ UpdateState.failed)
            × Descends p.groups p.keys (operation_uri update) (operation_uri f))
  pub all_fallen :
      (j : FormaeUri)
      → Descends p.groups p.keys (operation_uri update) j
      → (f : ResourceUpdate) × In f failed × (operation_uri f ≡ j)

module _ (p : Pipeline) (update : ResourceUpdate) (h : Groups)
    (sound : IsSoundFor (Finishing (operation_uri update)) p) (m : In (operation_uri update) p.keys)
    (e : Emptied (operation_uri update) p h) (s : Failing)
    (searched : IsSearched p (operation_uri update) h sound m e s) where
  open searched use {inv, below_failed}

  abbrev k : FormaeUri
  k = operation_uri update

  abbrev Below : FormaeUri → Type 0
  Below = Descends h p.keys k

  -- What a group holds while the failed updates are popped.
  abbrev Holds : FormaeUri → List ResourceUpdate → Type 0
  Holds j us = ((k ≡ j) × (us ≡ [])) ⊎ Below j ⊎ HoldsOne Open j us

  abbrev found : Pipeline
  found = record p { groups = s.groups }

  failed-Below : (j : FormaeUri) → IsFailed s j → Below j
  failed-Below j f = subst Below f.located (inv.victims f.update f.recorded).descends

  source_empty : (s.groups k).updates ≡ []
  source_empty = elim (inv.updates_kept k) [
    | inl same ↦ same ∙ e.no_updates
    | inr f ↦ absurd (not-Descends p k h sound m e (failed-Below k f))
  ]

  found-Holds : (j : FormaeUri) → In j p.keys → Holds j (s.groups j).updates
  found-Holds j mj = elim (text_discrete k j) [
    | yes q ↦ inl (q, subst (λ x. (s.groups x).updates ≡ []) q source_empty)
    | no ne ↦ elim (inv.updates_kept j) [
      | inr f ↦ inr (inl (failed-Below j f))
      | inl same ↦ inr (
          inr (
            HoldsOne-weaken (λ st a. elim a [ inl q ↦ absurd (ne q) | inr o ↦ o ])
              (subst (HoldsOne (Finishing k) j) (sym (same ∙ e.updates_same j ne))
                (sound.holds j mj))))
    ]
  ]

  found_gone : (j : FormaeUri) → (¬ In j p.keys) → (s.groups j).updates ≡ []
  found_gone j n = elim (inv.updates_kept j) [
    | inr f ↦ absurd (n (Descends-key (failed-Below j f)))
    | inl same ↦ same ∙ (e.updates_same j (λ q. n (subst (λ x. In x p.keys) q m)) ∙ sound.gone j n)
  ]

  found_idle :
      (j u : FormaeUri)
      → In j p.keys
      → In u (p.groups j).upstream
      → has_running_update (s.groups j) ≡ false
  found_idle j u mj l = elim (inv.updates_kept j) [
    | inr f ↦ not_running (s.groups j) f.update f.only f.state_failed
    | inl same ↦ elim (text_discrete k j) [
      | yes q ↦ none_running (s.groups j) (subst (λ x. (s.groups x).updates ≡ []) q source_empty)
      | no ne ↦
          running-same (s.groups j) (p.groups j) (same ∙ e.updates_same j ne)
          ∙ sound.blocked_idle j u mj l
    ]
  ]

  down : (j : FormaeUri) → (s.groups j).downstream ≡ (p.groups j).downstream
  down j = inv.downstream_same j ∙ e.downstream_same j

  up : (j : FormaeUri) → (s.groups j).upstream ≡ (p.groups j).upstream
  up j = inv.upstream_same j ∙ e.upstream_same j

  found-IsSoundWith : IsSoundWith Holds found
  found-IsSoundWith = record {
    linked = IsLinked-same up down sound.linked;
    distinct = sound.distinct;
    holds = found-Holds;
    gone = found_gone;
    blocked_idle = λ j u mj l. found_idle j u mj (subst (In u) (up j) l);
    acyclic = λ j mj c. sound.acyclic j mj (record {
      child = c.child;
      linked = subst (In c.child) (down j) c.linked;
      back = Walk-mono (λ x y l. subst (In y) (down x) l) c.back;
    });
  }

  abbrev emptied : Pipeline
  emptied = pop_one update (pop_failed s.failed found)

  abbrev last : Pipeline
  last = remove_if_done k emptied

  victims_popped : Pops Holds s.failed found (pop_failed s.failed found)
  victims_popped =
      pop_failed-Pops Holds s.failed found (λ u l n. (inv.victims u l).fell) found-IsSoundWith

  source_popped : Pops Holds (update ∷ []) (pop_failed s.failed found) emptied
  source_popped =
      pop_one-Pops Holds update (pop_failed s.failed found)
        (λ n.
          pop-Emptied_none (pop_failed s.failed found) update
            (victims_popped.1.updates_same k n ∙ source_empty))
        victims_popped.0

  last-IsRemoved : IsRemoved k emptied last
  last-IsRemoved =
      remove_if_done-IsRemoved k emptied emptied.groups emptied.groups source_popped.0.linked
        (record {
          no_updates =
              source_popped.0.gone k
                (λ n. ((source_popped.1.keys_popped k).0 n).1 update (inl refl) refl);
          updates_same = λ j ne. refl;
          upstream_same = λ j. refl;
          downstream_same = λ j. refl;
        })
        (Loosens-refl emptied.groups)

  last_keys :
      (j : FormaeUri)
      → In j last.keys
      → In j emptied.keys
        × In j (pop_failed s.failed found).keys
        × In j p.keys
        × (k ≢ j)
        × ((u : ResourceUpdate) → In u s.failed → operation_uri u ≢ j)
  last_keys j n =
      let (n1, ne) = (IsRemoved-keys last-IsRemoved j).0 n in
      let n2 = ((source_popped.1.keys_popped j).0 n1).0 in
      let (n3, others) = (victims_popped.1.keys_popped j).0 n2 in (n1, n2, n3, ne, others)

  last_kept :
      (j : FormaeUri)
      → In j p.keys
      → k ≢ j
      → ((u : ResourceUpdate) → In u s.failed → operation_uri u ≢ j)
      → In j last.keys
  last_kept j n ne others = (IsRemoved-keys last-IsRemoved j).1 (
    (source_popped.1.keys_popped j).1 (
      (victims_popped.1.keys_popped j).1 (n, others),
      λ u l. elim l [ inl q ↦ subst (λ x. operation_uri x ≢ j) (sym q) ne | inr o ↦ absurd o ],
    ),
    ne,
  )

  not_victim :
      (j : FormaeUri) → ((u : ResourceUpdate) → In u s.failed → operation_uri u ≢ j) → ¬ Below j
  not_victim j others d = let f = below_failed j d in others f.update f.recorded f.located

  last-IsSound : IsSound last
  last-IsSound =
      IsSoundWith-weaken
        (λ j us n a.
          let (n1, n2, n3, ne, others) = last_keys j n in
          elim a [
            | inl (q, none_left) ↦ absurd (ne q)
            | inr (inl d) ↦ absurd (not_victim j others d)
            | inr (inr o) ↦ o
          ])
        (IsRemoved-IsSoundWith k emptied last last-IsRemoved source_popped.0)

  last_updates : (j : FormaeUri) → In j last.keys → (last.groups j).updates ≡ (p.groups j).updates
  last_updates j n =
      let (n1, n2, n3, ne, others) = last_keys j n in
      last-IsRemoved.updates_same j ne
      ∙ (source_popped.1.updates_same j n1
          ∙ (victims_popped.1.updates_same j n2 ∙ elim (inv.updates_kept j) [
            | inl same ↦ same ∙ e.updates_same j ne
            | inr f ↦ absurd (others f.update f.recorded f.located)
          ]))

  above : (j : FormaeUri) → Descends p.groups p.keys k j → Below j
  above j d = Descends-transport (λ x. sym (e.downstream_same x)) d

  last-IsCutOff : IsCutOff update p last (s.failed ++ update ∷ [])
  last-IsCutOff = record {
    sound = last-IsSound;
    keys_left = λ j. (
      λ n.
          let (n1, n2, n3, ne, others) = last_keys j n in
          (n3, ne, λ d. not_victim j others (above j d)),
      λ (n, ne, free). last_kept j n ne (λ u l q.
          free (Descends-transport e.downstream_same (subst Below q (inv.victims u l).descends))),
    );
    updates_same = last_updates;
    source_failed = in-append_right update s.failed _ (inl refl);
    fallen = λ f l. elim (in-append f s.failed (update ∷ []) l) [
      | inl old ↦
          inr (
            inv.all_failed f old,
            Descends-transport e.downstream_same (inv.victims f old).descends,
          )
      | inr (inl q) ↦ inl q
      | inr (inr o) ↦ absurd o
    ];
    all_fallen = λ j d.
        let f = below_failed j (above j d) in
        (f.update, in-append_left f.update s.failed _ f.recorded, f.located);
  }

-- When the update of a group of a pipeline that is otherwise sound fails or is rejected, the search for
-- its dependents ends, and the groups that leave the pipeline are exactly its own and those that its
-- downstream links lead to. The other groups keep their updates, and the pipeline is sound again. The
-- reported updates are the failed update itself and, marked as failed, one of each group that fell.
pub complete_failure-IsCutOff :
    (update : ResourceUpdate) (p : Pipeline)
    → IsSoundFor (Finishing (operation_uri update)) p
    → In (operation_uri update) p.keys
    → Names p update
    → (p' : Pipeline) × (failed : List ResourceUpdate) × (complete_failure update
          (operation_uri update)
          p
        ≡ some (p', failed))
      × IsCutOff update p p' failed
unfolding complete_failure pop_failed
complete_failure-IsCutOff update p sound m n =
    let k = operation_uri update in
    let h = pop p.groups k update in
    let e = pop-Emptied p update n in
    let (s, ran, searched) = fail_resource_update-IsSearched p k h sound m e update refl in
    let all = s.failed ++ update ∷ [] in
    (
      last p update h sound m e s searched,
      all,
      ap (after_failing k (record p { groups = h })) ran
          ∙ ap (λ q. some (remove_if_done k q, all))
              (pop_failed-append s.failed (update ∷ []) (record p { groups = s.groups })),
      last-IsCutOff p update h sound m e s searched,
    )
