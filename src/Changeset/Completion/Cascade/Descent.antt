-- ===== src/Changeset/Completion/Cascade/Descent.antt =====
-- One update of a downstream group fails (`recursivelyFailDependencies`, changeset.go).
use formae.Prelude.{
  ◌≡◌, ◌≢◌, ◌⊎◌, inl, inr, refl, sym, ap, subst, ◌∙◌, List, ◌++◌, ◌∷◌, [], text_discrete, In,
  in-append, in-append_left, in-append_right, set, arith, if_pos, if_neg,
}
use formae.Model.Uri.{FormaeUri}
use formae.ResourceUpdate
use formae.ResourceUpdate.{UpdateState, ResourceUpdate}
use formae.Changeset.Pipeline.{Group, Groups, put, operation_uri}
use formae.Changeset.Completion.{Failing, fail_at}
use formae.Changeset.Completion.Cascade.{Descends, IsFailed, IsVictim, Inv}

abbrev pub failed_version : ResourceUpdate → ResourceUpdate
failed_version u = record u { state = UpdateState.failed }

failed_version-uri : (u : ResourceUpdate) → operation_uri (failed_version u) ≡ operation_uri u
unfolding operation_uri ResourceUpdate.uri
failed_version-uri u = refl

module _ (h : Groups) (keys : List FormaeUri) (k d : FormaeUri) (s : Failing) (u : ResourceUpdate)
    (inv : Inv h keys k s) (only : (s.groups d).updates ≡ u ∷ []) (located : operation_uri u ≡ d)
    (waiting : u.state ≡ UpdateState.not_started) (below : Descends h keys k d) where
  abbrev pub hit : Failing
  hit = record s { groups = fail_at s.groups d 0 u; failed = s.failed ++ failed_version u ∷ [] }

  hit_ne : (j : FormaeUri) → d ≢ j → hit.groups j ≡ s.groups j
  unfolding put
  hit_ne j ne = if_neg (text_discrete d j) ne _ (s.groups j)

  hit_self : (hit.groups d).updates ≡ failed_version u ∷ []
  unfolding put
  hit_self =
      ap (λ (g : Group). g.updates) (if_pos (text_discrete d d) refl _ (s.groups d))
      ∙ ap (λ us. set us 0 (failed_version u)) only

  hit_links :
      (j : FormaeUri)
      → ((hit.groups j).upstream ≡ (s.groups j).upstream)
        × ((hit.groups j).downstream ≡ (s.groups j).downstream)
  unfolding put
  hit_links j = ground arith

  pub hit_uri : operation_uri (failed_version u) ≡ d
  hit_uri = failed_version-uri u ∙ located

  pub hit-IsFailed : IsFailed hit d
  hit-IsFailed = record {
    update = failed_version u;
    only = hit_self;
    located = hit_uri;
    state_failed = refl;
    recorded = in-append_right _ s.failed _ (inl refl);
  }

  -- The group was not failed before.
  not-IsFailed : ¬ IsFailed s d
  not-IsFailed f =
      let same : f.update ∷ [] ≡ u ∷ [] = sym f.only ∙ only in
      let one : f.update ≡ u = cc in
      let st : UpdateState.failed ≡ UpdateState.not_started =
        sym f.state_failed ∙ (ap (λ (x : ResourceUpdate). x.state) one ∙ waiting) in
      cc

  pub hit-IsFailed_kept : (j : FormaeUri) → IsFailed s j → IsFailed hit j
  hit-IsFailed_kept j f = elim (text_discrete d j) [
    | yes q ↦ absurd (not-IsFailed (subst (IsFailed s) (sym q) f))
    | no ne ↦ record {
      update = f.update;
      only = ap (λ (g : Group). g.updates) (hit_ne j ne) ∙ f.only;
      located = f.located;
      state_failed = f.state_failed;
      recorded = in-append_left f.update s.failed _ f.recorded;
    }
  ]

  hit-victims : (f : ResourceUpdate) → In f hit.failed → IsVictim h keys k hit f
  hit-victims f m = elim (in-append f s.failed (failed_version u ∷ []) m) [
    | inl old ↦
        let v = inv.victims f old in
        let kept = hit-IsFailed_kept (operation_uri f) (record {
          update = f;
          only = v.fell;
          located = refl;
          state_failed = inv.all_failed f old;
          recorded = old;
        }) in
        record { descends = v.descends; fell = fell_kept f old v }
    | inr (inl q) ↦ subst (IsVictim h keys k hit) (sym q) (record {
      descends = subst (Descends h keys k) (sym hit_uri) below;
      fell = subst (λ x. (hit.groups x).updates ≡ failed_version u ∷ []) (sym hit_uri) hit_self;
    })
    | inr (inr n) ↦ absurd n
  ]
    where
      fell_kept :
          (g : ResourceUpdate)
          → In g s.failed
          → IsVictim h keys k s g
          → (hit.groups (operation_uri g)).updates ≡ g ∷ []
      fell_kept g old v = elim (text_discrete d (operation_uri g)) [
        | yes q ↦ absurd (
            not-IsFailed (
              subst (IsFailed s) (sym q) (record {
                update = g;
                only = v.fell;
                located = refl;
                state_failed = inv.all_failed g old;
                recorded = old;
              })))
        | no ne ↦ ap (λ (x : Group). x.updates) (hit_ne (operation_uri g) ne) ∙ v.fell
      ]

  pub hit-Inv : Inv h keys k hit
  hit-Inv = record {
    upstream_same = λ j. (hit_links j).0 ∙ inv.upstream_same j;
    downstream_same = λ j. (hit_links j).1 ∙ inv.downstream_same j;
    updates_kept = λ j. elim (text_discrete d j) [
      | yes q ↦ inr (subst (IsFailed hit) q hit-IsFailed)
      | no ne ↦ elim (inv.updates_kept j) [
        | inl e ↦ inl (ap (λ (g : Group). g.updates) (hit_ne j ne) ∙ e)
        | inr f ↦ inr (hit-IsFailed_kept j f)
      ]
    ];
    victims = hit-victims;
    all_failed = λ f m. elim (in-append f s.failed (failed_version u ∷ []) m) [
      | inl old ↦ inv.all_failed f old
      | inr (inl q) ↦ ap (λ (x : ResourceUpdate). x.state) q
      | inr (inr n) ↦ absurd n
    ];
    visited_reached = inv.visited_reached;
    visited_distinct = inv.visited_distinct;
  }

  -- Only the group `d` is failed anew.
  pub hit-IsFailed_iff : (j : FormaeUri) → IsFailed hit j → (d ≡ j) ⊎ IsFailed s j
  hit-IsFailed_iff j f = elim (text_discrete d j) [
    | yes q ↦ inl q
    | no ne ↦ inr (record {
      update = f.update;
      only = sym (ap (λ (g : Group). g.updates) (hit_ne j ne)) ∙ f.only;
      located = f.located;
      state_failed = f.state_failed;
      recorded = was f ne;
    })
  ]
    where
      was : (f' : IsFailed hit j) → d ≢ j → In f'.update s.failed
      was f' ne = elim (in-append f'.update s.failed (failed_version u ∷ []) f'.recorded) [
        | inl old ↦ old
        | inr (inl q) ↦ absurd (ne (sym hit_uri ∙ (sym (ap operation_uri q) ∙ f'.located)))
        | inr (inr n) ↦ absurd n
      ]
