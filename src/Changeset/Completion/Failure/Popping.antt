-- ===== src/Changeset/Completion/Failure/Popping.antt =====
-- The failed updates leave the pipeline one by one (UpdatePipeline, changeset.go).
use formae.Prelude.{
  ◌≡◌, ◌≢◌, ◌↔◌, inl, inr, refl, sym, ap, subst, ◌∙◌, List, ◌++◌, ◌∷◌, [], text_discrete, In,
  in-without, in-without_ne, dec_in, if_pos, if_neg, arith,
}
use formae.Model.Uri.{FormaeUri}
use formae.ResourceUpdate.{ResourceUpdate}
use formae.Changeset.Pipeline.{Pipeline, put, pop, operation_uri}
use formae.Changeset.Invariant.{IsSoundWith, IsRemoved, IsRemoved-IsSoundWith}
use formae.Changeset.Completion.{pop_one, pop_failed, remove_if_done}
use formae.Changeset.Completion.Removal.{Loosens-refl}
use formae.Changeset.Completion.Dropping.{Emptied, pop-Emptied, remove_if_done-IsRemoved}

-- From `q` to `q'` the groups of the updates `us` have gone, and the other groups keep their updates.
pub record IsPopped (us : List ResourceUpdate) (q q' : Pipeline) : Type 0 where
  pub keys_popped :
      (j : FormaeUri)
      → In j q'.keys ↔ (In j q.keys × ((u : ResourceUpdate) → In u us → operation_uri u ≢ j))
  pub updates_same : (j : FormaeUri) → In j q'.keys → (q'.groups j).updates ≡ (q.groups j).updates

-- A group that holds no update is not changed by a pop.
pub pop-Emptied_none :
    (q : Pipeline) (update : ResourceUpdate)
    → (q.groups (operation_uri update)).updates ≡ []
    → Emptied (operation_uri update) q (pop q.groups (operation_uri update) update)
unfolding pop put
pop-Emptied_none q update e = record {
  no_updates = ground (arith, e);
  updates_same = λ j ne. ground arith;
  upstream_same = λ j. ground arith;
  downstream_same = λ j. ground arith;
}

pub IsRemoved-keys :
    {k : FormaeUri} {q q' : Pipeline}
    → IsRemoved k q q'
    → (j : FormaeUri) → In j q'.keys ↔ (In j q.keys × (k ≢ j))
IsRemoved-keys {k} {q} r j = (
  λ m. in-without text_discrete k j q.keys (subst (In j) r.keys_removed m),
  λ (m, ne). subst (In j) (sym r.keys_removed) (in-without_ne text_discrete k j q.keys ne m),
)

IsRemoved-IsPopped :
    (u : ResourceUpdate) (q q' : Pipeline)
    → IsRemoved (operation_uri u) q q'
    → IsPopped (u ∷ []) q q'
IsRemoved-IsPopped u q q' r = record {
  keys_popped = λ j. (
    λ m.
        let (m', ne) = (IsRemoved-keys r j).0 m in
        (
          m',
          λ v l. elim l [ inl e ↦ subst (λ x. operation_uri x ≢ j) (sym e) ne | inr n ↦ absurd n ],
        ),
    λ (m, ne). (IsRemoved-keys r j).1 (m, ne u (inl refl)),
  );
  updates_same = λ j m. r.updates_same j ((IsRemoved-keys r j).0 m).1;
}

IsPopped-trans :
    {u : ResourceUpdate} {us : List ResourceUpdate} {q q' q'' : Pipeline}
    → IsPopped (u ∷ []) q q'
    → IsPopped us q' q''
    → IsPopped (u ∷ us) q q''
IsPopped-trans {u} {us} a b = record {
  keys_popped = λ j. (
    λ m.
        let (m', ne') = (b.keys_popped j).0 m in
        let (m0, ne) = (a.keys_popped j).0 m' in
        (m0, λ v l. elim l [ inl e ↦ ne v (inl e) | inr n ↦ ne' v n ]),
    λ (m, ne). (b.keys_popped j).1 (
      (a.keys_popped j).1 (m, λ v l. elim l [ inl e ↦ ne v (inl e) | inr n ↦ absurd n ]),
      λ v l. ne v (inr l),
    ),
  );
  updates_same = λ j m. b.updates_same j m ∙ a.updates_same j ((b.keys_popped j).0 m).0;
}

module _ (Holds : FormaeUri → List ResourceUpdate → Type 0) where
  abbrev pub Pops : List ResourceUpdate → Pipeline → Pipeline → Type 0
  Pops us q q' = IsSoundWith Holds q' × IsPopped us q q'

  pub pop_one-Pops :
      (u : ResourceUpdate) (q : Pipeline)
      → (In (operation_uri u) q.keys
          → Emptied (operation_uri u) q (pop q.groups (operation_uri u) u))
      → IsSoundWith Holds q
      → Pops (u ∷ []) q (pop_one u q)
  unfolding pop_one
  pop_one-Pops u q emptied sound =
      let k = operation_uri u in
      let after = remove_if_done k (record q { groups = pop q.groups k u }) in
      elim (dec_in text_discrete k q.keys) [
        | yes m ↦
            let r =
              remove_if_done-IsRemoved k q (pop q.groups k u) (pop q.groups k u) sound.linked
                (emptied m) (Loosens-refl (pop q.groups k u)) in
            subst (Pops (u ∷ []) q) (sym (if_pos (dec_in text_discrete k q.keys) m after q))
              (IsRemoved-IsSoundWith k q after r sound, IsRemoved-IsPopped u q after r)
        | no n ↦ subst (Pops (u ∷ []) q) (sym (if_neg (dec_in text_discrete k q.keys) n after q)) (
          sound,
          record {
            keys_popped = λ j. (
              λ m. (
                m,
                λ v l. elim l [
                  | inl e ↦ λ w. n (subst (λ x. In x q.keys) (sym (sym (ap operation_uri e) ∙ w)) m)
                  | inr o ↦ absurd o
                ],
              ),
              λ (m, ne). m,
            );
            updates_same = λ j m. refl;
          },
        )
      ]

  pub pop_failed-Pops :
      (us : List ResourceUpdate) (q : Pipeline)
      → ((u : ResourceUpdate)
          → In u us
          → In (operation_uri u) q.keys
          → (q.groups (operation_uri u)).updates ≡ u ∷ [])
      → IsSoundWith Holds q
      → Pops us q (pop_failed us q)
  unfolding pop_failed
  pop_failed-Pops [] q only sound = (
    sound,
    record {
      keys_popped = λ j. (λ m. (m, λ u l. absurd l), λ (m, ne). m);
      updates_same = λ j m. refl;
    },
  )
  pop_failed-Pops (u ∷ us) q only sound =
      let (sound1, popped1) =
        pop_one-Pops u q
          (λ m. pop-Emptied q u (record {
            held = u;
            only = only u (inl refl) m;
            same_uri = refl;
            same_operation = refl;
          }))
          sound in
      let (sound2, popped2) =
        pop_failed-Pops us (pop_one u q)
          (λ v l m.
            popped1.updates_same (operation_uri v) m
            ∙ only v (inr l) ((popped1.keys_popped (operation_uri v)).0 m).0)
          sound1 in
      (sound2, IsPopped-trans popped1 popped2)

pub pop_failed-append :
    (us vs : List ResourceUpdate) (q : Pipeline)
    → pop_failed (us ++ vs) q ≡ pop_failed vs (pop_failed us q)
unfolding pop_failed
pop_failed-append [] vs q = refl
pop_failed-append (u ∷ us) vs q = pop_failed-append us vs (pop_one u q)
