-- ===== src/Changeset/Executor/Soundness.antt =====
-- The executor (changeset_executor.go) keeps the pipeline of its changeset sound.
use formae.Prelude.{
  ℕ, ◌≡◌, ◌≢◌, ◌⊎◌, inl, inr, refl, sym, ap, subst, ◌∙◌, true, Option, none, some, List, ◌∷◌, [],
  Text, In, Included, find, Bool-cases,
}
use formae.Model.Uri.{FormaeUri}
use formae.ResourceUpdate
use formae.ResourceUpdate.{UpdateState, ResourceUpdate}
use formae.Changeset.Pipeline.{operation_uri}
use formae.Changeset.Invariant.{IsSound, IsSoundFor, Finishing}
use formae.Changeset.Completion.Final.{IsFinal, update_pipeline-ReturnsSound}
use formae.Changeset.Liveness.{is_complete-IsSound}
use formae.Changeset.Execution.{Changeset, available_executable_updates}
use formae.Changeset.Execution.Soundness.{get_executable_updates-IsSound}
use formae.Changeset.Completion.{updated, is_complete}
use formae.Changeset.Executor.InProgress.{mark_finished-same, update_pipeline-in_progress}
use formae.Changeset.Executor.{
  State, Answers, Outcome, Round, grant, rounds, resume, round_outcome, start, go_to, find_finished,
  is_finished_one, mark_finished, after_pipeline, finish_found, resource_update_finished,
}
use formae.Changeset.Executor.Marked.{
  find_finished-some, one_found, ended, ended_located, marked-IsSoundFor, marked-Names,
}

module _ (a : Answers) where
  grant-IsSound :
      (ns : Text) (updates : ℕ) (o : Option ℕ) (r : Round)
      → IsSound r.changeset.pipeline
      → IsSound (grant a ns updates o r).changeset.pipeline
  unfolding grant
  grant-IsSound ns updates none r s = s
  grant-IsSound ns updates (some n) r s =
      get_executable_updates-IsSound ns n (a.choose_order ns) r.changeset s

  rounds-IsSound :
      (todo : List (Text × ℕ)) (r : Round)
      → IsSound r.changeset.pipeline
      → IsSound (rounds a todo r).changeset.pipeline
  unfolding rounds
  rounds-IsSound [] r s = s
  rounds-IsSound ((ns, updates) ∷ rest) r s =
      let r' = grant a ns updates (a.tokens ns updates) r in
      let s' = grant-IsSound ns updates (a.tokens ns updates) r s in
      elim (Bool-cases r'.ok) [ inl e ↦ rw e (rounds-IsSound rest r' s') | inr e ↦ rw e s' ]

  resume-IsSound : (c : Changeset) → IsSound c.pipeline → IsSound (resume a c).changeset.pipeline
  unfolding resume
  resume-IsSound c s = rounds-IsSound (available_executable_updates a.available_order c) _ s

  start-IsSound : (c : Changeset) → IsSound c.pipeline → IsSound (start a c).changeset.pipeline
  unfolding start
  start-IsSound c s = elim (Bool-cases a.cache_started) [
    | inr e ↦ rw e s
    | inl e ↦ elim (Bool-cases (is_complete c)) [
      | inl f ↦ rw (e, f) s
      | inr f ↦ rw (e, f) (resume-IsSound c s)
    ]
  ]

-- The handler ends, with a sound pipeline; the executor reports success only with no group left.
abbrev pub Continues : Option Outcome → Type 0
Continues r =
    (o : Outcome) × (r ≡ some o)
    × IsSound o.changeset.pipeline
    × (o.state ≡ State.finished_successfully → o.changeset.pipeline.keys ≡ [])

round_state : (r : Round) → (round_outcome r).state ≢ State.finished_successfully
round_state r e = elim (Bool-cases r.ok) [
  | inl q ↦ processing_apart (rw q at e)
  | inr q ↦ error_apart (rw q at e)
]
  where
    processing_apart : State.processing ≢ State.finished_successfully
    processing_apart x = cc

    error_apart : State.finished_with_error ≢ State.finished_successfully
    error_apart x = cc

resume_state : (a : Answers) (c : Changeset) → (resume a c).state ≢ State.finished_successfully
unfolding resume
resume_state a c e =
    round_state
      (rounds a (available_executable_updates a.available_order c)
        (record { changeset = c; sent = []; finished = true; ok = true }))
      e

after_pipeline-Continues :
    (a : Answers) (c c' : Changeset) (failed : List ResourceUpdate)
    → IsSound c'.pipeline
    → Continues (after_pipeline a c (some (updated c' failed)))
unfolding after_pipeline
after_pipeline-Continues a c c' failed s = elim (Bool-cases (is_complete c')) [
  | inl e ↦ rw e (_, refl, s, λ q. (is_complete-IsSound c' s).0 e)
  | inr e ↦ rw e (_, refl, resume-IsSound a c' s, λ q. absurd (resume_state a c' q))
]

-- A report InProgress leaves the pipeline as it is.
finish_found-in_progress :
    (a : Answers) (uri : FormaeUri) (c : Changeset) (k : FormaeUri) (u : ResourceUpdate)
    → IsSound c.pipeline
    → In (operation_uri u) c.pipeline.keys
    → Continues (finish_found a UpdateState.in_progress uri c (some (k, u)))
unfolding finish_found operation_uri ResourceUpdate.uri
finish_found-in_progress a uri c k u sound m =
    subst (λ r. Continues (after_pipeline a c' r))
      (sym (update_pipeline-in_progress c' (record u { state = UpdateState.in_progress }) m refl))
      (after_pipeline-Continues a c' c' [] (
        subst (λ h. IsSound (record (c.pipeline) { groups = h }))
          (sym (mark_finished-same uri k c.pipeline.groups)) sound))
  where
    c' : Changeset
    c' = record c {
      pipeline = record (c.pipeline) {
        groups = mark_finished uri UpdateState.in_progress k c.pipeline.groups;
      };
    }

-- What an updater reports at its end: a final state, or InProgress when it was cut short.
abbrev pub IsReported : UpdateState → Type 0
IsReported s = IsFinal s ⊎ (s ≡ UpdateState.in_progress)

finish_found-Continues :
    (a : Answers) (s : UpdateState) (uri : FormaeUri) (c : Changeset)
    (found : Option (FormaeUri × ResourceUpdate))
    → ((k : FormaeUri) (u : ResourceUpdate)
        → found ≡ some (k, u)
        → In k c.pipeline.keys
          × (find (is_finished_one uri) (c.pipeline.groups k).updates ≡ some u))
    → IsSound c.pipeline
    → IsReported s
    → Continues (finish_found a s uri c found)
unfolding finish_found
finish_found-Continues a s uri c none hit sound reported =
    (go_to State.processing c, refl, sound, λ q. absurd (apart q))
  where
    apart : State.processing ≢ State.finished_successfully
    apart x = cc
finish_found-Continues a s uri c (some (k, u)) hit sound (inl final) =
    let (m, f) = hit k u refl in
    let o = sound.holds k m in
    let (q, e) = one_found uri o.update u (ap (find (is_finished_one uri)) (sym o.only) ∙ f) in
    let only : (c.pipeline.groups k).updates ≡ u ∷ [] = o.only ∙ ap (λ x. x ∷ []) q in
    let located : operation_uri u ≡ k = sym (ap operation_uri q) ∙ o.located in
    let v = ended c.pipeline k uri s u sound m only located e final in
    let here = ended_located c.pipeline k uri s u sound m only located e final in
    let c' : Changeset = record c {
      pipeline = record (c.pipeline) { groups = mark_finished uri s k c.pipeline.groups };
    } in
    let (c'', failed, ran, sound'') =
      update_pipeline-ReturnsSound c' v
        (subst (λ x. IsSoundFor (Finishing x) c'.pipeline) (sym here)
          (marked-IsSoundFor c.pipeline k uri s u sound m only located e final))
        (subst (λ x. In x c.pipeline.keys) (sym here) m)
        (marked-Names c.pipeline k uri s u sound m only located e final) final in
    subst (λ r. Continues (after_pipeline a c' r)) (sym ran)
      (after_pipeline-Continues a c' c'' failed sound'')
finish_found-Continues a s uri c (some (k, u)) hit sound (inr e) =
    let (m, f) = hit k u refl in
    let o = sound.holds k m in
    let (q, found) = one_found uri o.update u (ap (find (is_finished_one uri)) (sym o.only) ∙ f) in
    subst (λ x. Continues (finish_found a x uri c (some (k, u)))) (sym e)
      (finish_found-in_progress a uri c k u sound
        (subst (λ x. In x c.pipeline.keys) (sym (sym (ap operation_uri q) ∙ o.located)) m))

-- When an update is reported as succeeded, failed, rejected or still in progress, whatever the limiter, the
-- supervisors and the persister answer, the executor with a sound pipeline handles the message: the
-- pipeline stays sound, and the executor goes to FinishedSuccessfully only with no group left. The search
-- for the update ranges over groups of the map.
pub resource_update_finished-Continues :
    (a : Answers) (uri : FormaeUri) (s : UpdateState) (c : Changeset)
    → IsSound c.pipeline
    → Included a.search_order c.pipeline.keys
    → IsReported s
    → Continues (resource_update_finished a uri s c)
unfolding resource_update_finished
resource_update_finished-Continues a uri s c sound sub reported =
    finish_found-Continues a s uri c (find_finished uri c.pipeline.groups a.search_order)
      (λ k u e.
        let (m, f) = find_finished-some uri c.pipeline.groups a.search_order e in (sub k m, f))
      sound reported
