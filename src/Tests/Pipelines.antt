-- ===== src/Tests/Pipelines.antt =====
-- The properties of the changeset at two buckets, of which the second waits for the first.
use formae.Prelude.{
  ℕ, length, ◌≤◌, true, false, some, List, ◌∷◌, [], Text, codes, text_discrete, In, Distinct,
  dec_in, inl, inr, ◌⊎◌, refl, sym, subst, ◌≡◌, ◌≢◌, ◌∙◌, ite, if_neg, ap, arith,
}
use formae.Model.Uri.{FormaeUri, stripped}
use formae.ResourceUpdate.{OperationType, UpdateState, ResourceUpdate}
use formae.Changeset.Pipeline.{
  Group, Groups, Pipeline, empty_group, operation_uri, create_operation_uri, has_running_update,
}
use formae.Changeset.Cycles.Correct.{Walk, here, step, Cycle}
use formae.Changeset.Invariant.{HoldsOne, IsSound, IsSoundFor, Finishing, IsRemoved}
use formae.Changeset.Completion.Dropping.{Names}
use formae.Changeset.Completion.{complete_success, complete_failure}
use formae.Changeset.Completion.Success.{complete_success-IsRemoved}
use formae.Changeset.Completion.Failure.Whole.{IsCutOff, complete_failure-IsCutOff}
use formae.Changeset.Cycles.{has_cycles}
use formae.Changeset.Cycles.Correct.{IsClosed, has_cycles-decides}
use formae.Changeset.Pipeline.Links.{IsWired}
use formae.Changeset.Init.{Order, assemble, init, built, cycles_detected, split_replaces}
use formae.Changeset.Init.Wired.{assemble-IsWired}
use formae.Changeset.Init.Dependencies.{
  init-decides, Required, change_dependency_first, assemble-Required,
}
use formae.Changeset.Execution.{Changeset, get_executable_updates}
use formae.Changeset.Init.Sound.{init-IsSound}
use formae.Changeset.Execution.Sorting.{IsSorted}
use formae.Changeset.Execution.Safety.{IsChosen, get_executable_updates-IsChosen}
use formae.Tests.Samples.{update_of}

abbrev pub a_key : FormaeUri
a_key = codes "a//create"

abbrev pub b_key : FormaeUri
b_key = codes "b//create"

-- The first bucket in a given state, and its dependent.
abbrev pub two : UpdateState → Groups
two st = λ j.
    ite (text_discrete a_key j)
      (record {
        updates = update_of (codes "a") OperationType.create st [] ∷ [];
        downstream = b_key ∷ [];
        upstream = [];
      })
      (ite (text_discrete b_key j)
        (record {
          updates =
              update_of (codes "b") OperationType.create UpdateState.not_started (codes "a" ∷ [])
              ∷ [];
          downstream = [];
          upstream = a_key ∷ [];
        })
        empty_group)

abbrev pub two_buckets : UpdateState → Pipeline
two_buckets st = record { groups = two st; keys = a_key ∷ b_key ∷ [] }

two_keys :
    (P : FormaeUri → Type 0) → P a_key → P b_key → (j : FormaeUri) → In j (a_key ∷ b_key ∷ []) → P j
two_keys P pa pb j (inl q) = subst P (sym q) pa
two_keys P pa pb j (inr (inl q)) = subst P (sym q) pb
two_keys P pa pb j (inr (inr n)) = absurd n

two_else :
    (st : UpdateState) (j : FormaeUri) → (¬ In j (a_key ∷ b_key ∷ [])) → two st j ≡ empty_group
two_else st j n =
    if_neg (text_discrete a_key j) (λ q. n (inl (sym q))) _ _
    ∙ if_neg (text_discrete b_key j) (λ q. n (inr (inl (sym q)))) _ _

all_keys :
    (st : UpdateState) (P : FormaeUri → Group → Type 0)
    → P a_key (two st a_key)
    → P b_key (two st b_key)
    → ((j : FormaeUri) → P j empty_group)
    → (j : FormaeUri) → P j (two st j)
all_keys st P pa pb pe j = elim (dec_in text_discrete j (a_key ∷ b_key ∷ [])) [
  | yes m ↦ two_keys (λ x. P x (two st x)) pa pb j m
  | no n ↦ subst (P j) (sym (two_else st j n)) (pe j)
]

from_b : (st : UpdateState) (j : FormaeUri) → Walk (two st) b_key j → b_key ≡ j
unfolding text_discrete
from_b st j here = refl
from_b st j (step l w) = absurd l

abbrev first_code : Text → ℕ
first_code [] = 0
first_code (c ∷ s) = c

a_not_b : a_key ≢ b_key
a_not_b q = omega (arith, ap first_code q)

a_located :
    (st : UpdateState) → operation_uri (update_of (codes "a") OperationType.create st []) ≡ a_key
unfolding operation_uri formae.ResourceUpdate.uri formae.Model.Resource.uri
    formae.Changeset.Pipeline.create_operation_uri formae.Model.Uri.ksuid
    formae.Model.Uri.new_formae_uri formae.Model.Uri.property_path
    formae.Changeset.Pipeline.operation_text
a_located st = refl

b_located :
    (st : UpdateState)
    → operation_uri (update_of (codes "b") OperationType.create st (codes "a" ∷ [])) ≡ b_key
unfolding operation_uri formae.ResourceUpdate.uri formae.Model.Resource.uri
    formae.Changeset.Pipeline.create_operation_uri formae.Model.Uri.ksuid
    formae.Model.Uri.new_formae_uri formae.Model.Uri.property_path
    formae.Changeset.Pipeline.operation_text
b_located st = refl

pub two-IsSoundFor :
    (A : FormaeUri → UpdateState → Type 0) (st : UpdateState)
    → A a_key st
    → A b_key UpdateState.not_started
    → IsSoundFor A (two_buckets st)
unfolding has_running_update text_discrete
two-IsSoundFor A st at_a at_b = record {
  linked = record {
    up_live = λ k u m l.
        two_keys (λ x. In u (two st x).upstream → In u (a_key ∷ b_key ∷ [])) (λ n. absurd n)
          (λ n. elim n [ inl q ↦ inl q | inr o ↦ absurd o ]) k m l;
    up_down = λ k u m l.
        two_keys (λ x. In u (two st x).upstream → In x (two st u).downstream) (λ n. absurd n)
          (λ n. elim n [
            | inl q ↦ subst (λ y. In b_key (two st y).downstream) (sym q) (inl refl)
            | inr o ↦ absurd o
          ])
          k m l;
    down_up = λ k d m md l.
        two_keys (λ x. In d (two st x).downstream → In x (two st d).upstream)
          (λ n. elim n [
            | inl q ↦ subst (λ y. In a_key (two st y).upstream) (sym q) (inl refl)
            | inr o ↦ absurd o
          ])
          (λ n. absurd n) k m l;
    up_distinct = all_keys st (λ j g. Distinct g.upstream) tt (λ n. n, tt) (λ j. tt);
    down_distinct = all_keys st (λ j g. Distinct g.downstream) (λ n. n, tt) tt (λ j. tt);
  };
  distinct = (λ m. elim m [ inl q ↦ a_not_b q | inr n ↦ n ], (λ n. n, tt));
  holds =
      two_keys (λ j. HoldsOne A j (two st j).updates)
        (record { update = _; only = refl; located = a_located st; allowed = at_a })
        (record {
          update = _;
          only = refl;
          located = b_located UpdateState.not_started;
          allowed = at_b;
        });
  gone = λ j n. subst (λ g. g.updates ≡ []) (sym (two_else st j n)) refl;
  blocked_idle = λ k u m l.
      two_keys (λ x. In u (two st x).upstream → has_running_update (two st x) ≡ false)
        (λ n. absurd n) (λ n. refl) k m l;
  acyclic =
      two_keys (λ j. ¬ Cycle (two st) j)
        (λ c. elim c.linked [
          | inl q ↦ a_not_b (sym (from_b st a_key (subst (λ x. Walk (two st) x a_key) q c.back)))
          | inr o ↦ absurd o
        ])
        (λ c. absurd c.linked);
}

two-Names :
    (st st' : UpdateState)
    → Names (two_buckets st) (update_of (codes "a") OperationType.create st' [])
unfolding operation_uri text_discrete formae.Changeset.Pipeline.create_operation_uri
    formae.Model.Uri.ksuid formae.ResourceUpdate.uri formae.Model.Resource.uri
    formae.Model.Uri.new_formae_uri formae.Model.Uri.property_path
    formae.Changeset.Pipeline.operation_text
two-Names st st' = record {
  held = update_of (codes "a") OperationType.create st [];
  only = refl;
  same_uri = refl;
  same_operation = refl;
}

abbrev created : ResourceUpdate
created = update_of (codes "a") OperationType.create UpdateState.success []

complete_success-IsRemoved_example :
    IsRemoved
      (operation_uri created)
      (two_buckets UpdateState.success)
      (complete_success created (operation_uri created) (two_buckets UpdateState.success))
    × IsSound (complete_success created (operation_uri created) (two_buckets UpdateState.success))
complete_success-IsRemoved_example =
    complete_success-IsRemoved created (two_buckets UpdateState.success)
      (subst (λ k. IsSoundFor (Finishing k) (two_buckets UpdateState.success))
        (sym (a_located UpdateState.success))
        (two-IsSoundFor (Finishing a_key) UpdateState.success (inl refl) (inr (inl refl))))
      (inl (a_located UpdateState.success)) (two-Names UpdateState.success UpdateState.success)

abbrev broken : ResourceUpdate
broken = update_of (codes "a") OperationType.create UpdateState.failed []

complete_failure-IsCutOff_example :
    (p' : Pipeline) × (failed : List ResourceUpdate) × (complete_failure broken
        (operation_uri broken)
        (two_buckets UpdateState.failed)
      ≡ some (p', failed))
    × IsCutOff broken (two_buckets UpdateState.failed) p' failed
complete_failure-IsCutOff_example =
    complete_failure-IsCutOff broken (two_buckets UpdateState.failed)
      (subst (λ k. IsSoundFor (Finishing k) (two_buckets UpdateState.failed))
        (sym (a_located UpdateState.failed))
        (two-IsSoundFor (Finishing a_key) UpdateState.failed (inl refl) (inr (inl refl))))
      (inl (a_located UpdateState.failed)) (two-Names UpdateState.failed UpdateState.failed)

two-IsClosed : (st : UpdateState) → IsClosed (two_buckets st)
unfolding text_discrete
two-IsClosed st k c m l =
    two_keys (λ x. In c (two st x).downstream → In c (a_key ∷ b_key ∷ []))
      (λ n. elim n [ inl q ↦ inr (inl q) | inr o ↦ absurd o ]) (λ n. absurd n) k m l

has_cycles-decides_example :
    ((has_cycles (two_buckets UpdateState.not_started) ≡ some true)
      × ((v : FormaeUri) × Cycle (two UpdateState.not_started) v))
    ⊎ ((has_cycles (two_buckets UpdateState.not_started) ≡ some false)
        × ((k : FormaeUri) → In k (a_key ∷ b_key ∷ []) → ¬ Cycle (two UpdateState.not_started) k))
has_cycles-decides_example =
    has_cycles-decides (two_buckets UpdateState.not_started) (two-IsClosed UpdateState.not_started)

abbrev a_created : ResourceUpdate
a_created = update_of (codes "a") OperationType.create UpdateState.not_started []

abbrev b_created : ResourceUpdate
b_created = update_of (codes "b") OperationType.create UpdateState.not_started (codes "a" ∷ [])

abbrev two_updates : List ResourceUpdate
two_updates = a_created ∷ b_created ∷ []

get_executable_updates-IsChosen_example :
    let c : Changeset = record {
      command_id = [];
      pipeline = two_buckets UpdateState.not_started;
      tracked = [];
    } in
    let us = (get_executable_updates (codes "AWS") 5 (b_key ∷ a_key ∷ []) c).1 in
    (length us ≤ 5)
    × IsSorted us
    × ((u : ResourceUpdate) → In u us → IsChosen c (codes "AWS") (b_key ∷ a_key ∷ []) u)
get_executable_updates-IsChosen_example =
    get_executable_updates-IsChosen (codes "AWS") 5 (b_key ∷ a_key ∷ [])
      (record { command_id = []; pipeline = two_buckets UpdateState.not_started; tracked = [] })

-- The maps in one of the orders that Go may take.
abbrev two_order : Order
two_order = record {
  deletes = [];
  changes = codes "formae://b#" ∷ codes "formae://a#" ∷ [];
  replacements = [];
}

init-decides_example :
    let p = assemble two_order two_updates in
    ((init two_order two_updates ≡ some (built p))
      × IsWired p.groups p.keys
      × ((k : FormaeUri) → In k p.keys → ¬ Cycle p.groups k))
    ⊎ ((init two_order two_updates ≡ some cycles_detected) × ((v : FormaeUri) × Cycle p.groups v))
init-decides_example = init-decides two_order two_updates

assemble-IsWired_example :
    let p = assemble two_order two_updates in IsWired p.groups p.keys × Distinct p.keys
assemble-IsWired_example = assemble-IsWired two_order two_updates

abbrev b_needs : FormaeUri
b_needs = codes "formae://a#/Arn"

two-Required :
    Required
      (split_replaces two_updates)
      two_order
      (create_operation_uri (formae.ResourceUpdate.uri b_created) OperationType.create)
      (create_operation_uri (stripped b_needs) OperationType.create)
unfolding formae.ResourceUpdate.uri formae.Changeset.Init.change_op formae.Changeset.Init.last_op
    split_replaces text_discrete formae.Model.Resource.uri formae.Model.Uri.new_formae_uri stripped
    formae.Model.Uri.ksuid
two-Required =
    change_dependency_first (codes "formae://b#") b_needs b_created a_created (inl refl) refl
      (inl refl) refl

assemble-Required_example :
    In
      (create_operation_uri (stripped b_needs) OperationType.create)
      ((assemble two_order two_updates).groups
        (create_operation_uri (formae.ResourceUpdate.uri b_created) OperationType.create)).upstream
assemble-Required_example = assemble-Required two_order two_updates two-Required

two_idle : (u : ResourceUpdate) → In u two_updates → u.state ≡ UpdateState.not_started
two_idle u (inl q) = ap (λ (x : ResourceUpdate). x.state) q
two_idle u (inr (inl q)) = ap (λ (x : ResourceUpdate). x.state) q
two_idle u (inr (inr n)) = absurd n

two_accepted : init two_order two_updates ≡ some (built (assemble two_order two_updates))
unfolding init has_cycles assemble formae.Changeset.Init.add_groups split_replaces dec_in
    text_discrete operation_uri create_operation_uri formae.Model.Uri.ksuid
    formae.ResourceUpdate.uri formae.Model.Resource.uri formae.Model.Uri.new_formae_uri
    formae.Changeset.Init.build_operation_relationships formae.Changeset.Init.change_op
    formae.Changeset.Init.last_op stripped formae.Changeset.Pipeline.link_with
    formae.Changeset.Init.create_of_key formae.Changeset.Init.delete_of_key
    formae.Changeset.Init.delete_op formae.Changeset.Init.resource_key
    formae.Changeset.Pipeline.operation_text formae.Changeset.Pipeline.put
    formae.Model.Uri.property_path
two_accepted = refl

init-IsSound_example : IsSound (assemble two_order two_updates)
init-IsSound_example =
    init-IsSound two_order two_updates (assemble two_order two_updates) two_idle two_accepted
