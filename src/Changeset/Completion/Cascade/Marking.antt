-- ===== src/Changeset/Completion/Cascade/Marking.antt =====
-- The group that a call of `recursivelyFailDependencies` (changeset.go) marks as visited.
use formae.Prelude.{inl, inr, refl, sym, subst, List, ◌∷◌, In, arith}
use formae.Model.Uri.{FormaeUri}
use formae.Changeset.Pipeline.{Groups}
use formae.Changeset.Completion.{Failing}
use formae.Changeset.Completion.Cascade.{Reached, IsFailed, Inv, Grows, AllChildrenFailed}

abbrev pub mark : Failing → FormaeUri → Failing
mark s v = record s { visited = v ∷ s.visited }

mark-IsFailed : (s : Failing) (v j : FormaeUri) → IsFailed s j → IsFailed (mark s v) j
mark-IsFailed s v j f = record {
  update = f.update;
  only = f.only;
  located = f.located;
  state_failed = f.state_failed;
  recorded = f.recorded;
}

unmark-IsFailed : (s : Failing) (v j : FormaeUri) → IsFailed (mark s v) j → IsFailed s j
unmark-IsFailed s v j f = record {
  update = f.update;
  only = f.only;
  located = f.located;
  state_failed = f.state_failed;
  recorded = f.recorded;
}

module _ (h : Groups) (keys : List FormaeUri) (k : FormaeUri) where
  pub mark-Inv :
      (s : Failing) (v : FormaeUri)
      → Inv h keys k s
      → Reached h keys k v
      → (¬ In v s.visited)
      → Inv h keys k (mark s v)
  mark-Inv s v inv reached new = record {
    upstream_same = inv.upstream_same;
    downstream_same = inv.downstream_same;
    updates_kept =
        λ j. elim (inv.updates_kept j) [ inl e ↦ inl e | inr f ↦ inr (mark-IsFailed s v j f) ];
    victims = λ f m. let x = inv.victims f m in record { descends = x.descends; fell = x.fell };
    all_failed = inv.all_failed;
    visited_reached = λ x m. elim m [
      | inl q ↦ subst (Reached h keys k) (sym q) reached
      | inr n ↦ inv.visited_reached x n
    ];
    visited_distinct = (new, inv.visited_distinct);
  }

  -- From the marked state to the end of the loop over the downstream groups.
  pub unmark-Step :
      (s s' : Failing) (v : FormaeUri)
      → Grows h keys k (mark s v) s'
      → AllChildrenFailed h keys k s' v
      → Grows h keys k s s' × In v s'.visited
  unmark-Step s s' v g all = (
    record {
      inv = g.inv;
      visited_kept = λ x m. g.visited_kept x (inr m);
      longer = omega (arith, g.longer);
      failed_kept = λ j f. g.failed_kept j (mark-IsFailed s v j f);
      closed = λ x m. elim (g.closed x m) [
        | inl (inl q) ↦ inr (subst (AllChildrenFailed h keys k s') (sym q) all)
        | inl (inr old) ↦ inl old
        | inr a ↦ inr a
      ];
      seen = λ j f. elim (g.seen j f) [ inl f0 ↦ inl (unmark-IsFailed s v j f0) | inr m ↦ inr m ];
    },
    g.visited_kept v (inl refl),
  )
