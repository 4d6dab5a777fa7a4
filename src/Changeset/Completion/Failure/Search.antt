-- ===== src/Changeset/Completion/Failure/Search.antt =====
-- `failResourceUpdate` (changeset.go) on a sound pipeline.
use formae.Prelude.{
  suc, ◌≡◌, ◌≢◌, inl, inr, refl, ap, subst, ◌∙◌, true, false, some, List, ◌++◌, ◌∷◌, [],
  text_discrete, In, length, arith,
}
use formae.Model.Uri.{FormaeUri}
use formae.ResourceUpdate.{UpdateState, ResourceUpdate}
use formae.Changeset.Pipeline.{Group, Groups, Pipeline, operation_uri, has_running_update}
use formae.Changeset.Cycles.Correct.{Walk, here, step, Cycle, Walk-snoc}
use formae.Changeset.Invariant.{IsSoundFor, Finishing}
use formae.Changeset.Completion.{Failing, with_source, fail_resource_update}
use formae.Changeset.Completion.Dropping.{Emptied}
use formae.Changeset.Completion.Cascade.{Descends, child, further, IsBase, IsFailed, Inv, Grows}
use formae.Changeset.Completion.Cascade.Recursion.{fail_dependencies-Works}

pub Descends-Walk :
    {h : Groups} {keys : List FormaeUri} {k v : FormaeUri} → Descends h keys k v → Walk h k v
Descends-Walk (child l m) = step l here
Descends-Walk (further r l m) = Walk-snoc (Descends-Walk r) l

Walk-Cycle : {h : Groups} {k v : FormaeUri} → Walk h k v → In k (h v).downstream → Cycle h k
Walk-Cycle here l = record { child = _; linked = l; back = here }
Walk-Cycle (step l' w) l = record { child = _; linked = l'; back = Walk-snoc w l }

pub Descends-transport :
    {h h' : Groups} {keys : List FormaeUri} {k v : FormaeUri}
    → ((j : FormaeUri) → (h j).downstream ≡ (h' j).downstream)
    → Descends h keys k v
    → Descends h' keys k v
Descends-transport {k = k} e (child {d} l m) = child (subst (In d) (e k) l) m
Descends-transport e (further {v} {d} r l m) =
    further (Descends-transport e r) (subst (In d) (e v) l) m

running_one :
    (g : Group) (u : ResourceUpdate)
    → g.updates ≡ u ∷ []
    → u.state ≡ UpdateState.in_progress
    → has_running_update g ≡ true
unfolding has_running_update
running_one g u e s = rw e (rw s refl)

module _ (p : Pipeline) (k : FormaeUri) (h : Groups) (sound : IsSoundFor (Finishing k) p)
    (m : In k p.keys) (e : Emptied k p h) where
  -- A group that waits for a group of the map holds one update, which has not started.
  waiting :
      (v d : FormaeUri)
      → In v p.keys
      → In d (h v).downstream
      → In d p.keys
      → k ≢ d
      → (u : ResourceUpdate) × ((h d).updates ≡ u ∷ [])
        × (operation_uri u ≡ d)
        × (u.state ≡ UpdateState.not_started)
  waiting v d mv l md ne =
      let o = sound.holds d md in
      let up = sound.linked.down_up v d mv md (subst (In d) (e.downstream_same v) l) in
      (
        o.update,
        e.updates_same d ne ∙ o.only,
        o.located,
        elim o.allowed [
          | inl q ↦ absurd (ne q)
          | inr (inl ns) ↦ ns
          | inr (inr busy) ↦ absurd (
              idle o.update (running_one (p.groups d) o.update o.only busy)
                (sound.blocked_idle d v md up))
        ],
      )
    where
      idle :
          ResourceUpdate
          → has_running_update (p.groups d) ≡ true
          → has_running_update (p.groups d) ≡ false
          → ⊥
      idle u a b = cc

  no_way_back : (v : FormaeUri) → Descends h p.keys k v → ¬ In k (h v).downstream
  no_way_back v r l = sound.acyclic k m (
      Walk-Cycle (Descends-Walk (Descends-transport e.downstream_same r))
        (subst (In k) (e.downstream_same v) l))

  no_self : ¬ In k (h k).downstream
  no_self l = sound.acyclic k m (Walk-Cycle here (subst (In k) (e.downstream_same k) l))

  pub not-Descends : ¬ Descends h p.keys k k
  not-Descends r =
      sound.acyclic k m (around (Descends-Walk (Descends-transport e.downstream_same r)) r)
    where
      around : Walk p.groups k k → Descends h p.keys k k → Cycle p.groups k
      around w (child l n) = absurd (no_self l)
      around w (further {v} r' l n) = absurd (no_way_back v r' l)

  search-IsBase : IsBase h p.keys k
  search-IsBase = record {
    source = m;
    popped = e.no_updates;
    gone = λ j n. elim (text_discrete k j) [
      | yes q ↦ absurd (n (subst (λ x. In x p.keys) q m))
      | no ne ↦ e.updates_same j ne ∙ sound.gone j n
    ];
    blocked = waiting;
    no_return = λ v r. elim r [
      | inl q ↦ subst (λ x. ¬ In k (h x).downstream) q no_self
      | inr d ↦ no_way_back v d
    ];
  }

  abbrev start : Failing
  start = record { groups = h; failed = []; visited = [] }

  start-Inv : Inv h p.keys k start
  start-Inv = record {
    upstream_same = λ j. refl;
    downstream_same = λ j. refl;
    updates_kept = λ j. inl refl;
    victims = λ f n. absurd n;
    all_failed = λ f n. absurd n;
    visited_reached = λ v n. absurd n;
    visited_distinct = tt;
  }

  start_unfailed : (j : FormaeUri) → ¬ IsFailed start j
  start_unfailed j f = f.recorded

  -- Where everything visited has failed children, everything downstream has failed.
  all_below :
      (s : Failing)
      → Grows h p.keys k start s
      → In k s.visited
      → (j : FormaeUri) → Descends h p.keys k j
      → IsFailed s j
  all_below s g seen_k j (child l n) = elim (g.closed k seen_k) [
    | inl old ↦ absurd old
    | inr all ↦ all j l n
  ]
  all_below s g seen_k j (further {v} r l n) = elim (g.seen v (all_below s g seen_k v r)) [
    | inl f ↦ absurd (start_unfailed v f)
    | inr mv ↦ elim (g.closed v mv) [ inl old ↦ absurd old | inr all ↦ all j l n ]
  ]

  -- The search ends within the fuel, and fails what is downstream of the source and nothing else.
  pub record IsSearched (s : Failing) : Type 0 where
    pub inv : Inv h p.keys k s
    pub below_failed : (j : FormaeUri) → Descends h p.keys k j → IsFailed s j

  pub fail_resource_update-IsSearched :
      (update : ResourceUpdate)
      → operation_uri update ≡ k
      → (s : Failing) × (fail_resource_update (record p { groups = h }) update
          ≡ some (record s { failed = s.failed ++ update ∷ [] }))
        × IsSearched s
  unfolding fail_resource_update
  fail_resource_update-IsSearched update q =
      let (s, ran, g, seen_k) =
        fail_dependencies-Works h p.keys k search-IsBase (suc (suc (length p.keys))) update start k
          q start-Inv (inl refl) (omega arith) in
      (s, ap (with_source update) ran, record { inv = g.inv; below_failed = all_below s g seen_k })
