-- ===== src/Changeset/Execution/Counting.antt =====
-- What AvailableExecutableUpdates (changeset.go) counts.
use formae.Prelude.{
  ℕ, suc, ◌≡◌, ◌≢◌, inl, inr, refl, sym, ap, subst, ◌∙◌, true, false, not, ◌&&◌, Option, none, some,
  List, ◌∷◌, [], Text, text_discrete, dec_in, In, if_neg, if◌then◌else◌, Bool-cases,
}
use formae.Model.Uri.{FormaeUri}
use formae.Model.Resource
use formae.ResourceUpdate.{ResourceUpdate}
use formae.Changeset.Pipeline.{
  next_update, same_text, is_not_started, get_resource_update_identifier,
}
use formae.Changeset.Execution.{
  Changeset, is_ready, is_tracked, count_namespace, count_next, available_from,
  available_executable_updates,
}

-- The map has an entry that is not zero for the namespace.
abbrev pub Counts : Text → List (Text × ℕ) → Type 0
Counts ns acc = (n : ℕ) × In (ns, suc n) acc

same_text-true : (a b : Text) → same_text a b ≡ true → a ≡ b
same_text-true a b e = elim (text_discrete a b) [ yes q ↦ q | no ne ↦ absurd (differs ne) ]
  where
    differs : a ≢ b → ⊥
    differs ne =
        let f = if_neg (text_discrete a b) ne true false in let g : true ≡ false = sym e ∙ f in cc

Counts-count_namespace : (ns : Text) (acc : List (Text × ℕ)) → Counts ns (count_namespace ns acc)
unfolding count_namespace
Counts-count_namespace ns [] = (0, inl refl)
Counts-count_namespace ns ((m, n) ∷ rest) = elim (Bool-cases (same_text m ns)) [
  | inl e ↦ rw e (n, inl (ap (λ x. (x, suc n)) (sym (same_text-true m ns e))))
  | inr e ↦ rw e (let (k, i) = Counts-count_namespace ns rest in (k, inr i))
]

Counts-kept :
    (ns other : Text) (acc : List (Text × ℕ))
    → Counts ns acc
    → Counts ns (count_namespace other acc)
unfolding count_namespace
Counts-kept ns other [] (k, i) = absurd i
Counts-kept ns other ((m, n) ∷ rest) (k, i) = elim (Bool-cases (same_text m other)) [
  | inl e ↦ rw e (elim i [
    | inl q ↦ (suc k, inl (ap (λ (x : Text × ℕ). (x.0, suc x.1)) q))
    | inr o ↦ (k, inr o)
  ])
  | inr e ↦ rw e (elim i [
    | inl q ↦ (k, inl q)
    | inr o ↦ let (k', i') = Counts-kept ns other rest (k, o) in (k', inr i')
  ])
]

Counts-count_next :
    (ns : Text) (tracked : List Text) (o : Option ResourceUpdate) (acc : List (Text × ℕ))
    → Counts ns acc
    → Counts ns (count_next tracked o acc)
unfolding count_next
Counts-count_next ns tracked none acc c = c
Counts-count_next ns tracked (some u) acc c =
    elim (Bool-cases
      (is_not_started u && not (is_tracked tracked (get_resource_update_identifier u)))) [
        | inl e ↦ rw e (Counts-kept ns (Resource.namespace u.resource) acc c)
        | inr e ↦ rw e c
      ]

Counts-available_from :
    (c : Changeset) (ns : Text) (ks : List FormaeUri) (acc : List (Text × ℕ))
    → Counts ns acc
    → Counts ns (available_from c ks acc)
unfolding available_from
Counts-available_from c ns [] acc h = h
Counts-available_from c ns (k ∷ ks) acc h = elim (Bool-cases (is_ready (c.pipeline.groups k))) [
  | inl e ↦ rw e (
      Counts-available_from c ns ks _
        (Counts-count_next ns c.tracked (next_update (c.pipeline.groups k)) acc h))
  | inr e ↦ rw e (Counts-available_from c ns ks acc h)
]

module _ (c : Changeset) (k : FormaeUri) (u : ResourceUpdate)
    (ready : is_ready (c.pipeline.groups k) ≡ true)
    (is_next : next_update (c.pipeline.groups k) ≡ some u) (idle : is_not_started u ≡ true)
    (fresh : ¬ In (get_resource_update_identifier u) c.tracked) where
  count_next-Counts :
      (acc : List (Text × ℕ))
      → Counts (Resource.namespace u.resource) (count_next c.tracked (some u) acc)
  unfolding count_next
  count_next-Counts acc =
      let untracked =
        if_neg (dec_in text_discrete (get_resource_update_identifier u) c.tracked) fresh true
          false in
      rw (idle, untracked) (Counts-count_namespace (Resource.namespace u.resource) acc)

  available_from-Counts :
      (ks : List FormaeUri) (acc : List (Text × ℕ))
      → In k ks
      → Counts (Resource.namespace u.resource) (available_from c ks acc)
  unfolding available_from
  available_from-Counts [] acc m = absurd m
  available_from-Counts (x ∷ ks) acc (inr m) = available_from-Counts ks _ m
  available_from-Counts (x ∷ ks) acc (inl q) =
      Counts-available_from c (Resource.namespace u.resource) ks _ (
        subst
          (λ y. Counts (Resource.namespace u.resource) (
            if is_ready (c.pipeline.groups y)
            then count_next c.tracked (next_update (c.pipeline.groups y)) acc
            else acc))
          q (rw ready (rw is_next (count_next-Counts acc))))

pub available-Counts :
    (c : Changeset) (order : List FormaeUri) (k : FormaeUri) (u : ResourceUpdate)
    → In k order
    → is_ready (c.pipeline.groups k) ≡ true
    → next_update (c.pipeline.groups k) ≡ some u
    → is_not_started u ≡ true
    → (¬ In (get_resource_update_identifier u) c.tracked)
    → Counts (Resource.namespace u.resource) (available_executable_updates order c)
unfolding available_executable_updates
available-Counts c order k u m ready is_next idle fresh =
    available_from-Counts c k u ready is_next idle fresh order [] m
