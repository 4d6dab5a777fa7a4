-- ===== src/Changeset/Completion/Final.antt =====
-- UpdatePipeline (changeset.go) for an update in any of its final states.
use formae.Prelude.{
  ◌≡◌, ◌⊎◌, inl, inr, refl, sym, ap, subst, Option, some, List, [], In, dec_in, text_discrete,
  if_pos,
}
use formae.ResourceUpdate.{UpdateState, ResourceUpdate}
use formae.Changeset.Pipeline.{operation_uri}
use formae.Changeset.Invariant.{IsSound, IsSoundFor, Finishing}
use formae.Changeset.Execution.{Changeset}
use formae.Changeset.Completion.{
  PipelineResult, updated, update_pipeline, complete, with_failed, with_pipeline, complete_success,
}
use formae.Changeset.Completion.Dropping.{Names}
use formae.Changeset.Completion.Success.{complete_success-IsRemoved}
use formae.Changeset.Completion.Failure.Whole.{complete_failure-IsCutOff}

abbrev pub IsFinal : UpdateState → Type 0
IsFinal s = (s ≡ UpdateState.success) ⊎ (s ≡ UpdateState.failed) ⊎ (s ≡ UpdateState.rejected)

-- The update pipeline returns a changeset with a sound pipeline.
abbrev pub ReturnsSound : Option PipelineResult → Type 0
ReturnsSound r =
    (c : Changeset) × (failed : List ResourceUpdate) × (r ≡ some (updated c failed))
    × IsSound c.pipeline

complete-ReturnsSound :
    (c : Changeset) (update : ResourceUpdate) (s : UpdateState)
    → IsSoundFor (Finishing (operation_uri update)) c.pipeline
    → In (operation_uri update) c.pipeline.keys
    → Names c.pipeline update
    → IsFinal s
    → ReturnsSound (complete c update (operation_uri update) s)
unfolding complete
complete-ReturnsSound c update s sound m n (inl q) =
    subst (λ x. ReturnsSound (complete c update (operation_uri update) x)) (sym q)
      (
        with_pipeline c (complete_success update (operation_uri update) c.pipeline),
        [],
        refl,
        (complete_success-IsRemoved update c.pipeline sound m n).1,
      )
complete-ReturnsSound c update s sound m n (inr (inl q)) =
    let (p, failed, ran, cut) = complete_failure-IsCutOff update c.pipeline sound m n in
    subst (λ x. ReturnsSound (complete c update (operation_uri update) x)) (sym q)
      (with_pipeline c p, failed, ap (with_failed c) ran, cut.sound)
complete-ReturnsSound c update s sound m n (inr (inr q)) =
    let (p, failed, ran, cut) = complete_failure-IsCutOff update c.pipeline sound m n in
    subst (λ x. ReturnsSound (complete c update (operation_uri update) x)) (sym q)
      (with_pipeline c p, failed, ap (with_failed c) ran, cut.sound)

pub update_pipeline-ReturnsSound :
    (c : Changeset) (update : ResourceUpdate)
    → IsSoundFor (Finishing (operation_uri update)) c.pipeline
    → In (operation_uri update) c.pipeline.keys
    → Names c.pipeline update
    → IsFinal update.state
    → ReturnsSound (update_pipeline c update)
unfolding update_pipeline
update_pipeline-ReturnsSound c update sound m n final =
    subst ReturnsSound
      (sym (if_pos (dec_in text_discrete (operation_uri update) c.pipeline.keys) m _ _))
      (complete-ReturnsSound c update update.state sound m n final)
