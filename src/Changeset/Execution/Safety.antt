-- ===== src/Changeset/Execution/Safety.antt =====
-- What GetExecutableUpdates (changeset.go) hands out.
use formae.Prelude.{
  ℕ, ◌≤◌, ◌<◌, ◌≡◌, ◌≢◌, ◌⊎◌, inl, inr, refl, sym, subst, ◌∙◌, Bool, true, false, not, ◌&&◌, some,
  List, ◌∷◌, [], Text, text_discrete, ltb, length, length-append, any, find, if_neg, In, in-append,
  arith, Bool-cases, Option-cases,
}
use formae.Model.Uri.{FormaeUri}
use formae.Model.Resource
use formae.ResourceUpdate.{UpdateState, ResourceUpdate}
use formae.Changeset.Pipeline.{
  Groups, put, has_running_update, next_update, is_not_started, is_in_progress, same_text,
  get_resource_update_identifier,
}
use formae.Changeset.Execution.{
  Changeset, Choice, is_tracked, is_ready, start_next, choose, visit, choose_all, first_choice,
  get_executable_updates,
}
use formae.Changeset.Execution.Sorting.{
  IsSorted, sort_by_uri-IsSorted, in-sort_by_uri, length-sort_by_uri,
}

-- Why an update may be handed out: it was the next one of a group of the map that waits for no other
-- group and in which nothing ran, it belongs to the namespace and was never handed out before. It is
-- handed out in progress.
pub record IsChosen (c : Changeset) (namespace : Text) (order : List FormaeUri) (u : ResourceUpdate)
    : Type 0 where
  pub key : FormaeUri
  pub ranged : In key order
  pub unblocked : (c.pipeline.groups key).upstream ≡ []
  pub idle : has_running_update (c.pipeline.groups key) ≡ false
  pub next : ResourceUpdate
  pub is_next : next_update (c.pipeline.groups key) ≡ some next
  pub not_started : next.state ≡ UpdateState.not_started
  pub started : u ≡ record next { state = UpdateState.in_progress }
  pub located : Resource.namespace next.resource ≡ namespace
  pub fresh : ¬ In (get_resource_update_identifier next) c.tracked

running-start_next :
    (us : List ResourceUpdate) (u : ResourceUpdate)
    → find is_not_started us ≡ some u
    → any is_in_progress (start_next us) ≡ true
unfolding start_next
running-start_next [] u e = cc
running-start_next (x ∷ xs) u e = ground (arith, running-start_next xs u)

find-not_started :
    (us : List ResourceUpdate) (u : ResourceUpdate)
    → find is_not_started us ≡ some u
    → u.state ≡ UpdateState.not_started
find-not_started [] u e = cc
find-not_started (x ∷ xs) u e = ground (arith, find-not_started xs u)

module _ (c : Changeset) (namespace : Text) (max : ℕ) (order : List FormaeUri) where
  -- The state of the loop: a group is untouched, or one of its updates now runs.
  record Inv (r : Choice) : Type 0 where
    touched :
        (k : FormaeUri)
        → (r.groups k ≡ c.pipeline.groups k) ⊎ (has_running_update (r.groups k) ≡ true)
    links :
        (k : FormaeUri)
        → ((r.groups k).upstream ≡ (c.pipeline.groups k).upstream)
          × ((r.groups k).downstream ≡ (c.pipeline.groups k).downstream)
    kept : (t : Text) → In t c.tracked → In t r.tracked
    counted : length r.executable ≡ r.total
    bounded : r.total ≤ max
    chosen : (u : ResourceUpdate) → In u r.executable → IsChosen c namespace order u

  first_choice-Inv : Inv (first_choice c)
  first_choice-Inv = record {
    touched = λ k. inl refl;
    links = λ k. (refl, refl);
    kept = λ t m. m;
    counted = refl;
    bounded = omega arith;
    chosen = λ u m. absurd m;
  }

  module _ (k : FormaeUri) (m : In k order) (r : Choice) (inv : Inv r) where
    same_group : is_ready (r.groups k) ≡ true → r.groups k ≡ c.pipeline.groups k
    unfolding is_ready
    same_group e = elim (inv.touched k) [ inl s ↦ s | inr t ↦ absurd (ground arith) ]

    ready_unblocked :
        is_ready (r.groups k) ≡ true
        → ((r.groups k).upstream ≡ []) × (has_running_update (r.groups k) ≡ false)
    unfolding is_ready
    ready_unblocked e = ground arith

    module _ (u : ResourceUpdate) (ready : is_ready (r.groups k) ≡ true)
        (n : next_update (r.groups k) ≡ some u) where
      abbrev test : Bool
      test =
          ltb r.total max
          && (same_text (Resource.namespace u.resource) namespace
              && (is_not_started u
                  && not (is_tracked r.tracked (get_resource_update_identifier u))))

      abbrev started_groups : Groups
      started_groups =
          put r.groups k (record (r.groups k) { updates = start_next (r.groups k).updates })

      started_running : has_running_update (started_groups k) ≡ true
      unfolding put has_running_update next_update
      started_running = ground (arith, running-start_next (r.groups k).updates u)

      started_ne : (j : FormaeUri) → k ≢ j → started_groups j ≡ r.groups j
      unfolding put
      started_ne j ne = if_neg (text_discrete k j) ne _ (r.groups j)

      started_links :
          (j : FormaeUri)
          → ((started_groups j).upstream ≡ (r.groups j).upstream)
            × ((started_groups j).downstream ≡ (r.groups j).downstream)
      unfolding put
      started_links j = ground arith

      test-true :
          test ≡ true
          → (r.total < max)
            × (Resource.namespace u.resource ≡ namespace)
            × (¬ In (get_resource_update_identifier u) r.tracked)
      test-true t = ground arith

      u-IsChosen :
          test ≡ true → IsChosen c namespace order (record u { state = UpdateState.in_progress })
      unfolding next_update
      u-IsChosen t = record {
        key = k;
        ranged = m;
        unblocked = rw (← same_group ready) (ready_unblocked ready).0;
        idle = rw (← same_group ready) (ready_unblocked ready).1;
        next = u;
        is_next = rw (← same_group ready) n;
        not_started = find-not_started (r.groups k).updates u n;
        started = refl;
        located = (test-true t).1;
        fresh = λ old. (test-true t).2 (inv.kept _ old);
      }

      choose-Inv : Inv (choose namespace max k (some u) r)
      unfolding choose
      choose-Inv = elim (Bool-cases test) [
        | inr e ↦ rw e inv
        | inl e ↦ rw e (record {
          touched = λ j. elim (text_discrete k j) [
            | yes q ↦
                inr (subst (λ x. has_running_update (started_groups x) ≡ true) q started_running)
            | no ne ↦ elim (inv.touched j) [
              | inl s ↦ inl (started_ne j ne ∙ s)
              | inr s ↦ inr (rw (started_ne j ne) s)
            ]
          ];
          links =
              λ j. ((started_links j).0 ∙ (inv.links j).0, (started_links j).1 ∙ (inv.links j).1);
          kept = λ t old. inr (inv.kept t old);
          counted = omega (
            arith,
            length-append r.executable (record u { state = UpdateState.in_progress } ∷ []),
            inv.counted,
          );
          bounded = (test-true e).0;
          chosen = λ v l.
              elim (in-append v r.executable (record u { state = UpdateState.in_progress } ∷ [])
                l) [
                  | inl old ↦ inv.chosen v old
                  | inr (inl q) ↦ subst (IsChosen c namespace order) (sym q) (u-IsChosen e)
                  | inr (inr none_left) ↦ absurd none_left
                ];
        })
      ]

    visit-Inv : Inv (visit namespace max k r)
    unfolding visit choose
    visit-Inv = elim (Bool-cases (is_ready (r.groups k))) [
      | inr e ↦ rw e inv
      | inl e ↦ elim (Option-cases (next_update (r.groups k))) [
        | inl n ↦ rw (e, n) inv
        | inr (u, n) ↦ rw (e, n) (choose-Inv u e n)
      ]
    ]

  choose_all-Inv :
      (ks : List FormaeUri) (r : Choice)
      → ((k : FormaeUri) → In k ks → In k order)
      → Inv r
      → Inv (choose_all namespace max ks r)
  unfolding choose_all
  choose_all-Inv [] r sub inv = inv
  choose_all-Inv (k ∷ ks) r sub inv =
      choose_all-Inv ks (visit namespace max k r) (λ j m. sub j (inr m))
        (visit-Inv k (sub k (inl refl)) r inv)

  chosen-Inv : Inv (choose_all namespace max order (first_choice c))
  chosen-Inv = choose_all-Inv order (first_choice c) (λ k m. m) first_choice-Inv

-- `GetExecutableUpdates` hands out at most `max` updates, sorted by URI. Each was the next one of a
-- group that the loop passes, which waits for no other group and in which nothing ran; it is of the
-- asked namespace, was not started nor handed out before, and is now in progress.
pub get_executable_updates-IsChosen :
    (namespace : Text) (max : ℕ) (order : List FormaeUri) (c : Changeset)
    → let us = (get_executable_updates namespace max order c).1 in
      (length us ≤ max)
      × IsSorted us
      × ((u : ResourceUpdate) → In u us → IsChosen c namespace order u)
unfolding get_executable_updates
get_executable_updates-IsChosen namespace max order c =
    let inv = chosen-Inv c namespace max order in
    let us = (choose_all namespace max order (first_choice c)).executable in
    (
      omega (arith, length-sort_by_uri us, inv.counted, inv.bounded),
      sort_by_uri-IsSorted us,
      λ u m. inv.chosen u (in-sort_by_uri u us m),
    )
