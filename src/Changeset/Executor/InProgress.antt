-- ===== src/Changeset/Executor/InProgress.antt =====
-- A report InProgress of an update in progress (changeset_executor.go) writes the state that is there.
use formae.Prelude.{
  ◌≡◌, refl, sym, ap, ◌∙◌, inl, inr, true, false, some, List, ◌∷◌, In, dec_in, [], text_discrete,
  if_pos, if_neg, Bool-cases, arith, ◌&&◌, Bool,
}
use mathlib.Core.Path.{fun_ext}
use formae.Model.Uri.{FormaeUri}
use formae.ResourceUpdate.{UpdateState, ResourceUpdate}
use formae.Changeset.Pipeline.{Groups, put, operation_uri, is_in_progress}
use formae.Changeset.Execution.{Changeset}
use formae.Changeset.Completion.{updated, update_pipeline, complete, group_not_found}
use formae.Changeset.Executor.{is_finished_one, set_finished, mark_finished}

in_progress_state :
    (u : ResourceUpdate) → is_in_progress u ≡ true → u.state ≡ UpdateState.in_progress
in_progress_state u e = ground arith

and_right : (a b : Bool) → a && b ≡ true → b ≡ true
and_right true b e = e
and_right false b e = cc

set_finished-same :
    (uri : FormaeUri) (us : List ResourceUpdate) → set_finished uri UpdateState.in_progress us ≡ us
unfolding set_finished
set_finished-same uri [] = refl
set_finished-same uri (u ∷ us) = elim (Bool-cases (is_finished_one uri u)) [
  | inl e ↦
      rw e (ap (λ s. record u { state = s } ∷ us) (sym (in_progress_state u (and_right _ _ e))))
  | inr e ↦ rw e (ap (λ vs. u ∷ vs) (set_finished-same uri us))
]

pub mark_finished-same :
    (uri k : FormaeUri) (h : Groups) → mark_finished uri UpdateState.in_progress k h ≡ h
unfolding mark_finished put
mark_finished-same uri k h = fun_ext (λ j. elim (text_discrete k j) [
  | yes q ↦
      if_pos (text_discrete k j) q _ (h j)
      ∙ (ap (λ us. record (h k) { updates = us }) (set_finished-same uri (h k).updates) ∙ ap h q)
  | no n ↦ if_neg (text_discrete k j) n _ (h j)
])

pub update_pipeline-in_progress :
    (c : Changeset) (u : ResourceUpdate)
    → In (operation_uri u) c.pipeline.keys
    → u.state ≡ UpdateState.in_progress
    → update_pipeline c u ≡ some (updated c [])
unfolding update_pipeline complete
update_pipeline-in_progress c u m e =
    if_pos (dec_in text_discrete (operation_uri u) c.pipeline.keys) m
      (complete c u (operation_uri u) u.state) (some (group_not_found (operation_uri u)))
    ∙ rw e refl
