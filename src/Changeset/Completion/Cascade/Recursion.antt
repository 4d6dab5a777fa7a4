-- ===== src/Changeset/Completion/Cascade/Recursion.antt =====
-- The recursion of `recursivelyFailDependencies` (changeset.go) has enough fuel, and fails every group
-- of the map that the source leads to.
use formae.Prelude.{
  ℕ, zero, suc, ◌+◌, ◌<◌, ◌≡◌, ◌≢◌, inl, inr, refl, sym, subst, ◌∙◌, Option, some, List, ◌∷◌, [],
  text_discrete, dec_in, In, Included, length-le_of_Included, length, arith, if_pos, if_neg, ite,
}
use formae.Model.Uri.{FormaeUri}
use formae.ResourceUpdate.{UpdateState, ResourceUpdate}
use formae.Changeset.Pipeline.{Groups, operation_uri}
use formae.Changeset.Completion.{Failing, fail_updates, fail_groups, fail_dependencies}
use formae.Changeset.Completion.Cascade.{
  Descends, Reached, Reached-step, Descends-key, IsBase, IsFailed, Inv, Grows, Grows-refl,
  Grows-trans, AllChildrenFailed,
}
use formae.Changeset.Completion.Cascade.Descent.{
  failed_version, hit, hit_uri, hit-IsFailed, hit-IsFailed_kept, hit-Inv, hit-IsFailed_iff,
}
use formae.Changeset.Completion.Cascade.Single.{
  Rec, fail_updates-none, fail_updates-one, fail_update-waiting, fail_update-failed, and_then-some,
}
use formae.Changeset.Completion.Cascade.Marking.{mark, mark-Inv, unmark-Step}

module _ (h : Groups) (keys : List FormaeUri) (k : FormaeUri) (base : IsBase h keys k) where
  abbrev pub Step : Failing → Failing → Type 0
  Step = Grows h keys k

  abbrev pub Enough : ℕ → Failing → Type 0
  Enough fuel s = length keys < fuel + length s.visited

  -- What a call of `recursivelyFailDependencies` for an update of the group `v` does.
  abbrev pub Returns : Option Failing → FormaeUri → Failing → Type 0
  Returns r v s = (s' : Failing) × (r ≡ some s') × Step s s' × In v s'.visited

  abbrev pub Works : Rec → ℕ → Type 0
  Works rec fuel =
      (u : ResourceUpdate) (s : Failing) (v : FormaeUri)
      → operation_uri u ≡ v
      → Inv h keys k s
      → Reached h keys k v
      → Enough fuel s
      → Returns (rec u s) v s

  reached_key : (v : FormaeUri) → Reached h keys k v → In v keys
  reached_key v (inl q) = subst (λ x. In x keys) q base.source
  reached_key v (inr r) = Descends-key r

  not_source : (v d : FormaeUri) → Reached h keys k v → In d (h v).downstream → k ≢ d
  not_source v d r l q = base.no_return v r (subst (λ x. In x (h v).downstream) (sym q) l)

  module _ (rec : Rec) (fuel : ℕ) (works : Works rec fuel) where
    abbrev FailsOne : FormaeUri → Failing → Type 0
    FailsOne d s =
        (s' : Failing) × (fail_updates rec d (length (s.groups d).updates) 0 s ≡ some s')
        × Step s s'
        × (In d keys → IsFailed s' d)

    -- An update that has not started fails, and what is downstream of it after it.
    fail_waiting :
        (d : FormaeUri) (s : Failing) (u : ResourceUpdate)
        → Inv h keys k s
        → Enough fuel s
        → (s.groups d).updates ≡ u ∷ []
        → operation_uri u ≡ d
        → u.state ≡ UpdateState.not_started
        → Descends h keys k d
        → FailsOne d s
    unfolding fail_updates
    fail_waiting d s u inv enough only located waiting below =
        let s1 = hit h keys k d s u inv only located waiting below in
        let (s', ran, grows, there) =
          works (failed_version u) s1 d (hit_uri h keys k d s u inv only located waiting below)
            (hit-Inv h keys k d s u inv only located waiting below) (inr below) enough in
        let kept = hit-IsFailed_kept h keys k d s u inv only located waiting below in
        let anew = hit-IsFailed_iff h keys k d s u inv only located waiting below in
        (
          s',
          fail_updates-one rec d s u only
              ∙ and_then-some (fail_updates rec d 0 1)
                  (fail_update-waiting rec d 0 u s waiting ∙ ran),
          record {
            inv = grows.inv;
            visited_kept = grows.visited_kept;
            longer = grows.longer;
            failed_kept = λ j f. grows.failed_kept j (kept j f);
            closed = grows.closed;
            seen = λ j f. elim (grows.seen j f) [
              | inr m ↦ inr m
              | inl f1 ↦ elim (anew j f1) [
                | inl q ↦ inr (subst (λ x. In x s'.visited) q there)
                | inr f0 ↦ inl f0
              ]
            ];
          },
          λ m. grows.failed_kept d (hit-IsFailed h keys k d s u inv only located waiting below),
        )

    fail_one :
        (v d : FormaeUri) (s : Failing)
        → Reached h keys k v
        → In d (h v).downstream
        → Inv h keys k s
        → Enough fuel s
        → FailsOne d s
    unfolding fail_updates
    fail_one v d s reached l inv enough = elim (dec_in text_discrete d keys) [
      | no out ↦ elim (inv.updates_kept d) [
        | inl same ↦ (
          s,
          fail_updates-none rec d s (same ∙ base.gone d out),
          Grows-refl h keys k s inv,
          λ m. absurd (out m),
        )
        | inr f ↦ absurd (
            out (
              subst (λ x. In x keys) f.located
                (Descends-key (inv.victims f.update f.recorded).descends)))
      ]
      | yes m ↦ elim (inv.updates_kept d) [
        | inr f ↦ (
          s,
          fail_updates-one rec d s f.update f.only
              ∙ and_then-some (fail_updates rec d 0 1)
                  (fail_update-failed rec d 0 f.update s f.state_failed),
          Grows-refl h keys k s inv,
          λ m'. f,
        )
        | inl same ↦
            let (u, only, located, waiting) =
              base.blocked v d (reached_key v reached) l m (not_source v d reached l) in
            fail_waiting d s u inv enough (same ∙ only) located waiting (Reached-step reached l m)
      ]
    ]

    fail_all :
        (v : FormaeUri) (ds : List FormaeUri) (s : Failing)
        → Reached h keys k v
        → Included ds (h v).downstream
        → Inv h keys k s
        → Enough fuel s
        → (s' : Failing) × (fail_groups rec ds s ≡ some s')
          × Step s s'
          × ((d : FormaeUri) → In d ds → In d keys → IsFailed s' d)
    unfolding fail_groups
    fail_all v [] s reached sub inv enough = (s, refl, Grows-refl h keys k s inv, λ d m. absurd m)
    fail_all v (d ∷ ds) s reached sub inv enough =
        let (s1, ran1, grows1, failed1) = fail_one v d s reached (sub d (inl refl)) inv enough in
        let (s2, ran2, grows2, failed2) =
          fail_all v ds s1 reached (λ x m. sub x (inr m)) grows1.inv
            (omega (arith, enough, grows1.longer)) in
        (
          s2,
          and_then-some (fail_groups rec ds) ran1 ∙ ran2,
          Grows-trans h keys k grows1 grows2,
          λ x m mk. elim m [
            | inl q ↦
                subst (IsFailed s2) (sym q)
                  (grows2.failed_kept d (failed1 (subst (λ y. In y keys) q mk)))
            | inr n ↦ failed2 x n mk
          ],
        )

  -- The visited groups are different groups of the map, so the fuel does not run out.
  not_exhausted : (s : Failing) → Inv h keys k s → ¬ Enough zero s
  not_exhausted s inv enough = omega (
    arith,
    enough,
    length-le_of_Included text_discrete s.visited keys inv.visited_distinct
        (λ v m. reached_key v (inv.visited_reached v m)),
  )

  module _ (fuel : ℕ) (u : ResourceUpdate) (s : Failing) where
    abbrev at : FormaeUri
    at = operation_uri u

    abbrev onward : Option Failing
    onward =
        ite (dec_in text_discrete at keys)
          (fail_groups (fail_dependencies fuel keys) (s.groups at).downstream (mark s at))
          (some (mark s at))

    visited_before : In at s.visited → fail_dependencies (suc fuel) keys u s ≡ some s
    unfolding fail_dependencies
    visited_before m = if_pos (dec_in text_discrete at s.visited) m (some s) onward

    first_visit :
        (¬ In at s.visited)
        → In at keys
        → fail_dependencies (suc fuel) keys u s
          ≡ fail_groups (fail_dependencies fuel keys) (s.groups at).downstream (mark s at)
    unfolding fail_dependencies
    first_visit n m =
        if_neg (dec_in text_discrete at s.visited) n (some s) onward
        ∙ if_pos (dec_in text_discrete at keys) m _ (some (mark s at))

  pub fail_dependencies-Works : (fuel : ℕ) → Works (fail_dependencies fuel keys) fuel
  fail_dependencies-Works zero u s v e inv reached enough = absurd (not_exhausted s inv enough)
  fail_dependencies-Works (suc fuel) u s v e inv reached enough =
      elim (dec_in text_discrete (operation_uri u) s.visited) [
        | yes m ↦ (
          s,
          visited_before fuel u s m,
          Grows-refl h keys k s inv,
          subst (λ x. In x s.visited) e m,
        )
        | no n ↦
            let at_u : Reached h keys k (operation_uri u) =
              subst (Reached h keys k) (sym e) reached in
            let (s', ran, grows, all) =
              fail_all (fail_dependencies fuel keys) fuel (fail_dependencies-Works fuel)
                (operation_uri u) (s.groups (operation_uri u)).downstream (mark s (operation_uri u))
                at_u (λ d m. subst (In d) (inv.downstream_same (operation_uri u)) m)
                (mark-Inv h keys k s (operation_uri u) inv at_u n) (omega (arith, enough)) in
            let children : AllChildrenFailed h keys k s' (operation_uri u) =
              λ d l m. all d (subst (In d) (sym (inv.downstream_same (operation_uri u))) l) m in
            let (step, there) = unmark-Step h keys k s s' (operation_uri u) grows children in
            (
              s',
              first_visit fuel u s n (reached_key (operation_uri u) at_u) ∙ ran,
              step,
              subst (λ x. In x s'.visited) e there,
            )
      ]
