-- ===== src/Changeset/Executor/Marked.antt =====
-- The update that is reported to the executor (changeset_executor.go), and the pipeline with its new state.
use formae.Prelude.{
  ◌≡◌, ◌≢◌, ◌⊎◌, inl, inr, refl, sym, ap, subst, ◌∙◌, true, false, Option, none, some, List, ◌∷◌,
  [], text_discrete, In, find, any, if_pos, if_neg, arith, Bool-cases,
}
use formae.Model.Uri.{FormaeUri}
use formae.ResourceUpdate
use formae.ResourceUpdate.{UpdateState, ResourceUpdate}
use formae.Changeset.Pipeline.{
  Group, Groups, Pipeline, put, operation_uri, has_running_update, is_in_progress,
}
use formae.Changeset.Pipeline.Links.{IsLinked-same}
use formae.Changeset.Invariant.{
  HoldsOne, HoldsOne-weaken, IsSound, IsSoundFor, Finishing, Walk-mono,
}
use formae.Changeset.Completion.Dropping.{Names}
use formae.Changeset.Completion.Final.{IsFinal}
use formae.Changeset.Executor.{
  find_finished, found_in, is_finished_one, set_finished, mark_finished,
}

found_in-some :
    (x : FormaeUri) (o : Option ResourceUpdate) (rest : Option (FormaeUri × ResourceUpdate))
    {k : FormaeUri} {u : ResourceUpdate}
    → found_in x o rest ≡ some (k, u)
    → ((k ≡ x) × (o ≡ some u)) ⊎ (rest ≡ some (k, u))
found_in-some x none rest e = inr e
found_in-some x (some v) rest {k} {u} e =
    let both : (x, v) ≡ (k, u) = some_injective e in
    inl (
      sym (ap (λ (y : FormaeUri × ResourceUpdate). y.0) both),
      ap (λ (y : FormaeUri × ResourceUpdate). some y.1) both,
    )
  where
    some_injective : {y z : FormaeUri × ResourceUpdate} → some y ≡ some z → y ≡ z
    some_injective q = cc

pub find_finished-some :
    (uri : FormaeUri) (h : Groups) (ks : List FormaeUri) {k : FormaeUri} {u : ResourceUpdate}
    → find_finished uri h ks ≡ some (k, u)
    → In k ks × (find (is_finished_one uri) (h k).updates ≡ some u)
unfolding find_finished
find_finished-some uri h [] e = cc
find_finished-some uri h (x ∷ ks) {k} {u} e =
    elim (found_in-some x (find (is_finished_one uri) (h x).updates) (find_finished uri h ks) e) [
      | inl (q, f) ↦
          (inl q, subst (λ y. find (is_finished_one uri) (h y).updates ≡ some u) (sym q) f)
      | inr f ↦ let (m, g) = find_finished-some uri h ks f in (inr m, g)
    ]

pub one_found :
    (uri : FormaeUri) (v u : ResourceUpdate)
    → find (is_finished_one uri) (v ∷ []) ≡ some u
    → (v ≡ u) × (is_finished_one uri u ≡ true)
one_found uri v u f = elim (Bool-cases (is_finished_one uri v)) [
  | inl e ↦
      let q : v ≡ u = first_found (rw e at f) in (q, subst (λ x. is_finished_one uri x ≡ true) q e)
  | inr e ↦ absurd (not_found (rw e at f))
]
  where
    first_found : some v ≡ some u → v ≡ u
    first_found q = cc

    not_found : none ≡ some u → ⊥
    not_found q = cc

set_finished-one :
    (uri : FormaeUri) (s : UpdateState) (u : ResourceUpdate)
    → is_finished_one uri u ≡ true
    → set_finished uri s (u ∷ []) ≡ record u { state = s } ∷ []
unfolding set_finished
set_finished-one uri s u e = rw e refl

-- The pipeline once the update of the group `k` has its final state.
module _ (p : Pipeline) (k uri : FormaeUri) (s : UpdateState) (u : ResourceUpdate)
    (sound : IsSound p) (m : In k p.keys) (only : (p.groups k).updates ≡ u ∷ [])
    (located : operation_uri u ≡ k) (hit : is_finished_one uri u ≡ true) (final : IsFinal s) where
  abbrev pub marked : Groups
  marked = mark_finished uri s k p.groups

  abbrev pub ended : ResourceUpdate
  ended = record u { state = s }

  pub ended_located : operation_uri ended ≡ k
  unfolding operation_uri ResourceUpdate.uri
  ended_located = located

  marked_other : (j : FormaeUri) → k ≢ j → marked j ≡ p.groups j
  unfolding mark_finished put
  marked_other j ne = if_neg (text_discrete k j) ne _ (p.groups j)

  marked_self : (marked k).updates ≡ ended ∷ []
  unfolding mark_finished put
  marked_self =
      ap (λ (g : Group). g.updates) (if_pos (text_discrete k k) refl _ (p.groups k))
      ∙ (ap (set_finished uri s) only ∙ set_finished-one uri s u hit)

  up : (j : FormaeUri) → (marked j).upstream ≡ (p.groups j).upstream
  unfolding mark_finished put
  up j = ground arith

  down : (j : FormaeUri) → (marked j).downstream ≡ (p.groups j).downstream
  unfolding mark_finished put
  down j = ground arith

  ended_idle : has_running_update (marked k) ≡ false
  unfolding has_running_update
  ended_idle =
      ap (any is_in_progress) marked_self
      ∙ elim final [ inl q ↦ rw q refl | inr (inl q) ↦ rw q refl | inr (inr q) ↦ rw q refl ]

  pub marked-IsSoundFor : IsSoundFor (Finishing k) (record p { groups = marked })
  marked-IsSoundFor = record {
    linked = IsLinked-same up down sound.linked;
    distinct = sound.distinct;
    holds = λ j mj. elim (text_discrete k j) [
      | yes q ↦
          subst (λ x. HoldsOne (Finishing k) x (marked x).updates) q
            (record {
              update = ended;
              only = marked_self;
              located = ended_located;
              allowed = inl refl;
            })
      | no ne ↦
          subst (λ g. HoldsOne (Finishing k) j g.updates) (sym (marked_other j ne))
            (HoldsOne-weaken (λ st o. inr o) (sound.holds j mj))
    ];
    gone = λ j n. elim (text_discrete k j) [
      | yes q ↦ absurd (n (subst (λ x. In x p.keys) q m))
      | no ne ↦ ap (λ (g : Group). g.updates) (marked_other j ne) ∙ sound.gone j n
    ];
    blocked_idle = λ j x mj l. elim (text_discrete k j) [
      | yes q ↦ subst (λ y. has_running_update (marked y) ≡ false) q ended_idle
      | no ne ↦
          ap has_running_update (marked_other j ne)
          ∙ sound.blocked_idle j x mj (subst (In x) (up j) l)
    ];
    acyclic = λ j mj c. sound.acyclic j mj (record {
      child = c.child;
      linked = subst (In c.child) (down j) c.linked;
      back = Walk-mono (λ x y l. subst (In y) (down x) l) c.back;
    });
  }

  pub marked-Names : Names (record p { groups = marked }) ended
  marked-Names = record {
    held = ended;
    only = subst (λ x. (marked x).updates ≡ ended ∷ []) (sym ended_located) marked_self;
    same_uri = refl;
    same_operation = refl;
  }
