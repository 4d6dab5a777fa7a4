-- ===== src/Changeset/Invariant.antt =====
-- What holds of the pipeline of a changeset (changeset.go) between two calls.
use formae.Prelude.{
  ◌≡◌, ◌≢◌, ◌⊎◌, ◌↔◌, inl, inr, sym, subst, ◌∙◌, List, ◌∷◌, [], text_discrete, In, Distinct,
  without, in-without, in-without_ne, without-Distinct, false,
}
use formae.Model.Uri.{FormaeUri}
use formae.ResourceUpdate.{UpdateState, ResourceUpdate}
use formae.Changeset.Pipeline.{Groups, Pipeline, operation_uri, has_running_update}
use formae.Changeset.Pipeline.Links.{IsLinked}
use formae.Changeset.Cycles.Correct.{Walk, here, step, Cycle}

-- The updates of the group `k` are one update of that group, in an allowed state.
pub record HoldsOne (Allowed : FormaeUri → UpdateState → Type 0) (k : FormaeUri)
    (us : List ResourceUpdate) : Type 0 where
  pub update : ResourceUpdate
  pub only : us ≡ update ∷ []
  pub located : operation_uri update ≡ k
  pub allowed : Allowed k update.state

-- `Holds k us` says which updates `us` the group `k` of the map may have.
pub record IsSoundWith (Holds : FormaeUri → List ResourceUpdate → Type 0) (p : Pipeline)
    : Type 0 where
  pub linked : IsLinked p.groups p.keys
  pub distinct : Distinct p.keys
  pub holds : (k : FormaeUri) → In k p.keys → Holds k (p.groups k).updates
  pub gone : (k : FormaeUri) → (¬ In k p.keys) → (p.groups k).updates ≡ []
  pub blocked_idle :
      (k u : FormaeUri)
      → In k p.keys
      → In u (p.groups k).upstream
      → has_running_update (p.groups k) ≡ false
  pub acyclic : (k : FormaeUri) → In k p.keys → ¬ Cycle p.groups k

abbrev pub IsSoundFor : (FormaeUri → UpdateState → Type 0) → Pipeline → Type 0
IsSoundFor Allowed = IsSoundWith (HoldsOne Allowed)

-- Between two calls an update in the pipeline has not started or is in progress.
abbrev pub Open : FormaeUri → UpdateState → Type 0
Open k s = (s ≡ UpdateState.not_started) ⊎ (s ≡ UpdateState.in_progress)

abbrev pub IsSound : Pipeline → Type 0
IsSound = IsSoundFor Open

-- The one update of the group `k` has just been given its final state.
abbrev pub Finishing : FormaeUri → FormaeUri → UpdateState → Type 0
Finishing k j s = (k ≡ j) ⊎ Open j s

pub IsSoundWith-weaken :
    {A B : FormaeUri → List ResourceUpdate → Type 0} {p : Pipeline}
    → ((k : FormaeUri) (us : List ResourceUpdate) → In k p.keys → A k us → B k us)
    → IsSoundWith A p
    → IsSoundWith B p
IsSoundWith-weaken {p = p} f s = record {
  linked = s.linked;
  distinct = s.distinct;
  holds = λ k m. f k (p.groups k).updates m (s.holds k m);
  gone = s.gone;
  blocked_idle = s.blocked_idle;
  acyclic = s.acyclic;
}

pub HoldsOne-weaken :
    {A B : FormaeUri → UpdateState → Type 0} {k : FormaeUri} {us : List ResourceUpdate}
    → ((s : UpdateState) → A k s → B k s)
    → HoldsOne A k us
    → HoldsOne B k us
HoldsOne-weaken f o = record {
  update = o.update;
  only = o.only;
  located = o.located;
  allowed = f o.update.state o.allowed;
}

-- `p'` is `p` less the group `k`: nothing waits for it any more, and all else is as before.
pub record IsRemoved (k : FormaeUri) (p p' : Pipeline) : Type 0 where
  pub keys_removed : p'.keys ≡ without text_discrete k p.keys
  pub emptied : (p'.groups k).updates ≡ []
  pub updates_same : (j : FormaeUri) → k ≢ j → (p'.groups j).updates ≡ (p.groups j).updates
  pub upstream_removed :
      (j : FormaeUri)
      → In j p'.keys
      → (x : FormaeUri) → In x (p'.groups j).upstream ↔ (In x (p.groups j).upstream × (k ≢ x))
  pub downstream_same : (j : FormaeUri) → k ≢ j → (p'.groups j).downstream ≡ (p.groups j).downstream
  pub downstream_sub :
      (j x : FormaeUri) → In x (p'.groups j).downstream → In x (p.groups j).downstream
  pub distinct_kept :
      ((j : FormaeUri) → Distinct (p.groups j).upstream)
      → ((j : FormaeUri) → Distinct (p.groups j).downstream)
      → (j : FormaeUri) → Distinct (p'.groups j).upstream × Distinct (p'.groups j).downstream

pub Walk-mono :
    {h h' : Groups} {a b : FormaeUri}
    → ((j x : FormaeUri) → In x (h' j).downstream → In x (h j).downstream)
    → Walk h' a b
    → Walk h a b
Walk-mono sub here = here
Walk-mono sub (step {g} {c} l w) = step (sub g c l) (Walk-mono sub w)

-- A pipeline in which a group has finished and that group is then removed is sound.
pub IsRemoved-IsSoundWith :
    {A : FormaeUri → List ResourceUpdate → Type 0} (k : FormaeUri) (p p' : Pipeline)
    → IsRemoved k p p'
    → IsSoundWith A p
    → IsSoundWith A p'
unfolding has_running_update
IsRemoved-IsSoundWith {A} k p p' r s = record {
  linked = record {
    up_live = λ j u m l.
        let (old, ne) = (upstream_removed j m u).0 l in
        later u ne (s.linked.up_live j u (earlier j m).0 old);
    up_down = λ j u m l.
        let (old, ne) = (upstream_removed j m u).0 l in
        rw (downstream_same u ne) (s.linked.up_down j u (earlier j m).0 old);
    down_up = λ j d mj md l.
        let (mj', ne) = earlier j mj in
        (upstream_removed d md j).1
          (s.linked.down_up j d mj' (earlier d md).0 (downstream_sub j d l), ne);
    up_distinct = λ j. (distinct_kept s.linked.up_distinct s.linked.down_distinct j).0;
    down_distinct = λ j. (distinct_kept s.linked.up_distinct s.linked.down_distinct j).1;
  };
  distinct = rw keys_removed (without-Distinct text_discrete k p.keys s.distinct);
  holds = λ j m. let (m', ne) = earlier j m in subst (A j) (sym (updates_same j ne)) (s.holds j m');
  gone = λ j n. elim (text_discrete k j) [
    | yes q ↦ subst (λ x. (p'.groups x).updates ≡ []) q emptied
    | no ne ↦ updates_same j ne ∙ s.gone j (λ m. n (later j ne m))
  ];
  blocked_idle = λ j u m l.
      let (m', ne) = earlier j m in
      rw (updates_same j ne) (s.blocked_idle j u m' ((upstream_removed j m u).0 l).0);
  acyclic = λ j m c. s.acyclic j (earlier j m).0 (record {
    child = c.child;
    linked = downstream_sub j c.child c.linked;
    back = Walk-mono downstream_sub c.back;
  });
}
  where
    open r use {
      keys_removed, emptied, updates_same, upstream_removed, downstream_same, downstream_sub,
      distinct_kept,
    }

    earlier : (j : FormaeUri) → In j p'.keys → In j p.keys × (k ≢ j)
    earlier j m = in-without text_discrete k j p.keys (subst (In j) keys_removed m)

    later : (j : FormaeUri) → k ≢ j → In j p.keys → In j p'.keys
    later j ne m = rw keys_removed (in-without_ne text_discrete k j p.keys ne m)

pub IsRemoved-IsSound :
    (k : FormaeUri) (p p' : Pipeline) → IsRemoved k p p' → IsSoundFor (Finishing k) p → IsSound p'
IsRemoved-IsSound k p p' r s =
    IsSoundWith-weaken
      (λ j us m. HoldsOne-weaken (λ st a. elim a [
        | inl q ↦ absurd ((in-without text_discrete k j p.keys (subst (In j) r.keys_removed m)).1 q)
        | inr o ↦ o
      ]))
      (IsRemoved-IsSoundWith k p p' r s)
