-- ===== src/Changeset/Liveness.antt =====
-- A sound pipeline that is not empty can go on (changeset.go).
use formae.Prelude.{
  ℕ, zero, suc, ◌+◌, ◌<◌, ◌≡◌, ◌≢◌, ◌⊎◌, ◌↔◌, inl, inr, refl, sym, subst, true, not, some, List,
  ◌∷◌, [], Text, text_discrete, length, In, Distinct, Included, length-le_of_Included, arith, any,
}
use formae.Model.Uri.{FormaeUri}
use formae.Model.Resource
use formae.ResourceUpdate.{UpdateState, ResourceUpdate}
use formae.Changeset.Pipeline.{
  Group, Pipeline, has_running_update, next_update, done, is_not_started,
  get_resource_update_identifier,
}
use formae.Changeset.Cycles.Correct.{Walk, here, step}
use formae.Changeset.Invariant.{IsSound}
use formae.Changeset.Execution.{Changeset, is_ready, available_executable_updates}
use formae.Changeset.Execution.Counting.{Counts, available-Counts}
use formae.Changeset.Completion.{is_complete, all_dead, is_dead}

upstream_cases : (us : List FormaeUri) → (us ≡ []) ⊎ ((u : FormaeUri) × In u us)
upstream_cases [] = inl refl
upstream_cases (u ∷ us) = inr (u, inl refl)

module _ (p : Pipeline) (sound : IsSound p) where
  -- A way of at least one step leads from `k` to `v`.
  abbrev Leads : FormaeUri → FormaeUri → Type 0
  Leads k v = (c : FormaeUri) × In c (p.groups k).downstream × Walk p.groups c v

  abbrev Source : Type 0
  Source = (k : FormaeUri) × In k p.keys × ((p.groups k).upstream ≡ [])

  -- Going upstream from `k` meets no group twice, so it ends.
  go_upstream :
      (fuel : ℕ) (k : FormaeUri) (passed : List FormaeUri)
      → In k p.keys
      → Included passed p.keys
      → Distinct passed
      → ((v : FormaeUri) → In v passed → Leads k v)
      → length p.keys < fuel + length passed
      → Source
  go_upstream zero k passed m sub apart leads enough =
      absurd (omega (arith, enough, length-le_of_Included text_discrete passed p.keys apart sub))
  go_upstream (suc fuel) k passed m sub apart leads enough =
      elim (upstream_cases (p.groups k).upstream) [
        | inl e ↦ (k, m, e)
        | inr (u, l) ↦
            go_upstream fuel u (k ∷ passed) (sound.linked.up_live k u m l)
              (λ v n. elim n [ inl q ↦ subst (λ x. In x p.keys) (sym q) m | inr o ↦ sub v o ])
              (new, apart)
              (λ v n. elim n [
                | inl q ↦ subst (Leads u) (sym q) (k, sound.linked.up_down k u m l, here)
                | inr o ↦ let (c, d, w) = leads v o in (k, sound.linked.up_down k u m l, step d w)
              ])
              (omega (arith, enough))
      ]
    where
      new : ¬ In k passed
      new n =
          let (c, d, w) = leads k n in
          sound.acyclic k m (record { child = c; linked = d; back = w })

  key_cases : (ks : List FormaeUri) → (ks ≡ []) ⊎ ((k : FormaeUri) × In k ks)
  key_cases = upstream_cases

  pub source_of : p.keys ≢ [] → Source
  source_of ne = elim (key_cases p.keys) [
    | inl e ↦ absurd (ne e)
    | inr (k, m) ↦
        go_upstream (suc (length p.keys)) k [] m (λ v n. absurd n) tt (λ v n. absurd n)
          (omega arith)
  ]

-- A group that holds one update which has not started, and which waits for no group, is ready.
ready_one :
    (g : Group) (u : ResourceUpdate)
    → g.updates ≡ u ∷ []
    → g.upstream ≡ []
    → u.state ≡ UpdateState.not_started
    → (is_ready g ≡ true) × (next_update g ≡ some u) × (is_not_started u ≡ true)
unfolding is_ready next_update has_running_update done
ready_one g u e f s = rw (e, f) (rw s (refl, refl, refl))

running_one :
    (g : Group) (u : ResourceUpdate)
    → g.updates ≡ u ∷ []
    → u.state ≡ UpdateState.in_progress
    → has_running_update g ≡ true
unfolding has_running_update
running_one g u e s = rw e (rw s refl)

-- In a sound pipeline with a group left either an update is in progress, or AvailableExecutableUpdates
-- counts at least one update that can start, provided it passes every group and no update that has not
-- started is tracked.
pub available-IsSound :
    (c : Changeset) (order : List FormaeUri)
    → IsSound c.pipeline
    → c.pipeline.keys ≢ []
    → Included c.pipeline.keys order
    → ((k : FormaeUri) (u : ResourceUpdate)
        → next_update (c.pipeline.groups k) ≡ some u
        → ¬ In (get_resource_update_identifier u) c.tracked)
    → ((k : FormaeUri) × In k c.pipeline.keys × (has_running_update (c.pipeline.groups k) ≡ true))
      ⊎ ((ns : Text) × Counts ns (available_executable_updates order c))
available-IsSound c order sound ne all fresh =
    let (k, m, top) = source_of c.pipeline sound ne in
    let o = sound.holds k m in
    elim o.allowed [
      | inr busy ↦ inl (k, m, running_one (c.pipeline.groups k) o.update o.only busy)
      | inl waits ↦
          let (ready, is_next, idle) = ready_one (c.pipeline.groups k) o.update o.only top waits in
          inr (
            Resource.namespace o.update.resource,
            available-Counts c order k o.update (all k m) ready is_next idle
                (fresh k o.update is_next),
          )
    ]

open_not_dead :
    (us : List ResourceUpdate) (u : ResourceUpdate)
    → us ≡ u ∷ []
    → (u.state ≡ UpdateState.not_started) ⊎ (u.state ≡ UpdateState.in_progress)
    → any (λ x. not (is_dead x)) us ≡ true
open_not_dead us u e (inl s) = rw e (rw s refl)
open_not_dead us u e (inr s) = rw e (rw s refl)

all_dead-none :
    (p : Pipeline) (ks : List FormaeUri)
    → IsSound p
    → Included ks p.keys
    → all_dead p.groups ks ≡ true
    → ks ≡ []
all_dead-none p [] sound sub e = refl
all_dead-none p (k ∷ ks) sound sub e =
    let o = sound.holds k (sub k (inl refl)) in
    absurd (alive (open_not_dead (p.groups k).updates o.update o.only o.allowed))
  where
    alive : any (λ x. not (is_dead x)) (p.groups k).updates ≡ true → ⊥
    alive f = ground (arith, f, e)

-- A sound pipeline is complete exactly when no group is left.
pub is_complete-IsSound :
    (c : Changeset) → IsSound c.pipeline → (is_complete c ≡ true) ↔ (c.pipeline.keys ≡ [])
unfolding is_complete
is_complete-IsSound c sound =
    (λ e. all_dead-none c.pipeline c.pipeline.keys sound (λ k m. m) e, λ e. rw e refl)
