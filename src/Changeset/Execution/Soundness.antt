-- ===== src/Changeset/Execution/Soundness.antt =====
-- GetExecutableUpdates (changeset.go) keeps the pipeline sound.
use formae.Prelude.{
  ℕ, ◌≡◌, ◌≢◌, inl, inr, refl, sym, ap, subst, ◌∙◌, true, not, ◌&&◌, ltb, Option, none, some, List,
  ◌∷◌, [], Text, text_discrete, In, if_pos, if_neg, arith, Bool-cases,
}
use formae.Model.Uri.{FormaeUri}
use formae.Model.Resource
use formae.ResourceUpdate
use formae.ResourceUpdate.{UpdateState, ResourceUpdate}
use formae.Changeset.Pipeline.{
  Group, Groups, Pipeline, put, has_running_update, next_update, operation_uri, same_text,
  is_not_started, get_resource_update_identifier,
}
use formae.Changeset.Pipeline.Links.{IsLinked-same}
use formae.Changeset.Invariant.{HoldsOne, IsSound, Open, Walk-mono}
use formae.Changeset.Execution.{
  Changeset, Choice, is_tracked, is_ready, start_next, choose, visit, choose_all, first_choice,
  get_executable_updates,
}

started_uri :
    (u : ResourceUpdate)
    → operation_uri (record u { state = UpdateState.in_progress }) ≡ operation_uri u
unfolding operation_uri ResourceUpdate.uri
started_uri u = refl

start_next-HoldsOne :
    (k : FormaeUri) (us : List ResourceUpdate)
    → HoldsOne Open k us
    → HoldsOne Open k (start_next us)
unfolding start_next
start_next-HoldsOne k us o = elim (Bool-cases (is_not_started o.update)) [
  | inl e ↦ record {
    update = record (o.update) { state = UpdateState.in_progress };
    only = rw o.only (rw e refl);
    located = started_uri o.update ∙ o.located;
    allowed = inr refl;
  }
  | inr e ↦ record {
    update = o.update;
    only = rw o.only (rw e refl);
    located = o.located;
    allowed = o.allowed;
  }
]

module _ (p : Pipeline) (k : FormaeUri) (sound : IsSound p) (top : (p.groups k).upstream ≡ []) where
  abbrev started : Groups
  started = put p.groups k (record (p.groups k) { updates = start_next (p.groups k).updates })

  started_other : (j : FormaeUri) → k ≢ j → started j ≡ p.groups j
  unfolding put
  started_other j ne = if_neg (text_discrete k j) ne _ (p.groups j)

  started_self : (started k).updates ≡ start_next (p.groups k).updates
  unfolding put
  started_self = ap (λ (g : Group). g.updates) (if_pos (text_discrete k k) refl _ (p.groups k))

  up : (j : FormaeUri) → (started j).upstream ≡ (p.groups j).upstream
  unfolding put
  up j = ground arith

  down : (j : FormaeUri) → (started j).downstream ≡ (p.groups j).downstream
  unfolding put
  down j = ground arith

  started_none : (us : List ResourceUpdate) → us ≡ [] → start_next us ≡ []
  unfolding start_next
  started_none us e = rw e refl

  started-IsSound : IsSound (record p { groups = started })
  started-IsSound = record {
    linked = IsLinked-same up down sound.linked;
    distinct = sound.distinct;
    holds = λ j m. elim (text_discrete k j) [
      | yes q ↦
          subst (λ x. HoldsOne Open x (started x).updates) q
            (subst (HoldsOne Open k) (sym started_self) (
              start_next-HoldsOne k (p.groups k).updates
                (sound.holds k (subst (λ x. In x p.keys) (sym q) m))))
      | no ne ↦ subst (λ g. HoldsOne Open j g.updates) (sym (started_other j ne)) (sound.holds j m)
    ];
    gone = λ j n. elim (text_discrete k j) [
      | yes q ↦
          subst (λ x. (started x).updates ≡ []) q
            (started_self
              ∙ started_none (p.groups k).updates
                  (sound.gone k (λ m. n (subst (λ x. In x p.keys) q m))))
      | no ne ↦ ap (λ (g : Group). g.updates) (started_other j ne) ∙ sound.gone j n
    ];
    blocked_idle = λ j u m l. elim (text_discrete k j) [
      | yes q ↦
          absurd
            (subst (In u) (subst (λ x. (p.groups x).upstream ≡ []) q top) (subst (In u) (up j) l))
      | no ne ↦
          ap has_running_update (started_other j ne)
          ∙ sound.blocked_idle j u m (subst (In u) (up j) l)
    ];
    acyclic = λ j m c. sound.acyclic j m (record {
      child = c.child;
      linked = subst (In c.child) (down j) c.linked;
      back = Walk-mono (λ x y l. subst (In y) (down x) l) c.back;
    });
  }

module _ (keys : List FormaeUri) (namespace : Text) (max : ℕ) where
  abbrev Sound : Groups → Type 0
  Sound h = IsSound (record { groups = h; keys = keys })

  is_ready-top : (g : Group) → is_ready g ≡ true → g.upstream ≡ []
  unfolding is_ready
  is_ready-top g e = ground arith

  choose-IsSound :
      (k : FormaeUri) (o : Option ResourceUpdate) (r : Choice)
      → (r.groups k).upstream ≡ []
      → Sound r.groups
      → Sound (choose namespace max k o r).groups
  unfolding choose
  choose-IsSound k none r top s = s
  choose-IsSound k (some u) r top s =
      elim (Bool-cases (
        ltb r.total max
        && (same_text (Resource.namespace u.resource) namespace
            && (is_not_started u
                && not (is_tracked r.tracked (get_resource_update_identifier u)))))) [
                  | inl e ↦
                      rw e (started-IsSound (record { groups = r.groups; keys = keys }) k s top)
                  | inr e ↦ rw e s
                ]

  visit-IsSound :
      (k : FormaeUri) (r : Choice) → Sound r.groups → Sound (visit namespace max k r).groups
  unfolding visit
  visit-IsSound k r s = elim (Bool-cases (is_ready (r.groups k))) [
    | inl e ↦ rw e (choose-IsSound k (next_update (r.groups k)) r (is_ready-top (r.groups k) e) s)
    | inr e ↦ rw e s
  ]

  choose_all-IsSound :
      (ks : List FormaeUri) (r : Choice)
      → Sound r.groups
      → Sound (choose_all namespace max ks r).groups
  unfolding choose_all
  choose_all-IsSound [] r s = s
  choose_all-IsSound (k ∷ ks) r s =
      choose_all-IsSound ks (visit namespace max k r) (visit-IsSound k r s)

-- `GetExecutableUpdates` keeps a sound pipeline sound, whatever the namespace, the bound and the order.
pub get_executable_updates-IsSound :
    (namespace : Text) (max : ℕ) (order : List FormaeUri) (c : Changeset)
    → IsSound c.pipeline
    → IsSound (get_executable_updates namespace max order c).0.pipeline
unfolding get_executable_updates
get_executable_updates-IsSound namespace max order c s =
    choose_all-IsSound c.pipeline.keys namespace max order (first_choice c) s
