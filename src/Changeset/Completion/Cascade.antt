-- ===== src/Changeset/Completion/Cascade.antt =====
-- `recursivelyFailDependencies` (changeset.go) ends and fails everything downstream.
pub mod Descent
pub mod Single
pub mod Marking
pub mod Recursion
use formae.Prelude.{
  ℕ, zero, suc, ◌+◌, ◌≤◌, ◌<◌, ◌≡◌, ◌≢◌, ◌⊎◌, inl, inr, refl, sym, ap, subst, ◌∙◌, Bool, true,
  false, Option, none, some, List, ◌++◌, ◌∷◌, [], text_discrete, In, Distinct, Included, in-append,
  in-append_left, in-append_right, length, arith,
}
use formae.Model.Uri.{FormaeUri}
use formae.ResourceUpdate.{UpdateState, ResourceUpdate}
use formae.Changeset.Pipeline.{Groups, operation_uri}
use formae.Changeset.Completion.{Failing}

-- The groups of the map that `k` leads to along downstream links.
pub data Descends (h : Groups) (keys : List FormaeUri) (k : FormaeUri) : FormaeUri → Type 0 where
  child : {d : FormaeUri} → In d (h k).downstream → In d keys → Descends h keys k d
  further :
      {v d : FormaeUri}
      → Descends h keys k v
      → In d (h v).downstream
      → In d keys
      → Descends h keys k d

-- The source of a failure, or a group that it leads to.
abbrev pub Reached : Groups → List FormaeUri → FormaeUri → FormaeUri → Type 0
Reached h keys k v = (k ≡ v) ⊎ Descends h keys k v

pub Reached-step :
    {h : Groups} {keys : List FormaeUri} {k v d : FormaeUri}
    → Reached h keys k v
    → In d (h v).downstream
    → In d keys
    → Descends h keys k d
Reached-step {h} {keys} {k} {v} {d} (inl q) l m =
    child (subst (λ x. In d (h x).downstream) (sym q) l) m
Reached-step (inr r) l m = further r l m

pub Descends-key :
    {h : Groups} {keys : List FormaeUri} {k v : FormaeUri} → Descends h keys k v → In v keys
Descends-key (child l m) = m
Descends-key (further r l m) = m

-- What the search starts from: the source of the failure has been popped, every other group of the map
-- holds one update, and a group that waits for another has not started.
pub record IsBase (h : Groups) (keys : List FormaeUri) (k : FormaeUri) : Type 0 where
  pub source : In k keys
  pub popped : (h k).updates ≡ []
  pub gone : (j : FormaeUri) → (¬ In j keys) → (h j).updates ≡ []
  pub blocked :
      (v d : FormaeUri)
      → In v keys
      → In d (h v).downstream
      → In d keys
      → k ≢ d
      → (u : ResourceUpdate) × ((h d).updates ≡ u ∷ [])
        × (operation_uri u ≡ d)
        × (u.state ≡ UpdateState.not_started)
  pub no_return : (v : FormaeUri) → Reached h keys k v → ¬ In k (h v).downstream

-- The group holds one update, which is failed and in the list of failed updates.
pub record IsFailed (s : Failing) (j : FormaeUri) : Type 0 where
  pub update : ResourceUpdate
  pub only : (s.groups j).updates ≡ update ∷ []
  pub located : operation_uri update ≡ j
  pub state_failed : update.state ≡ UpdateState.failed
  pub recorded : In update s.failed

-- What a failed update in the list stands for.
pub record IsVictim (h : Groups) (keys : List FormaeUri) (k : FormaeUri) (s : Failing)
    (f : ResourceUpdate) : Type 0 where
  pub descends : Descends h keys k (operation_uri f)
  pub fell : (s.groups (operation_uri f)).updates ≡ f ∷ []

module _ (h : Groups) (keys : List FormaeUri) (k : FormaeUri) where
  -- The state of the search.
  pub record Inv (s : Failing) : Type 0 where
    pub upstream_same : (j : FormaeUri) → (s.groups j).upstream ≡ (h j).upstream
    pub downstream_same : (j : FormaeUri) → (s.groups j).downstream ≡ (h j).downstream
    pub updates_kept : (j : FormaeUri) → ((s.groups j).updates ≡ (h j).updates) ⊎ IsFailed s j
    pub victims : (f : ResourceUpdate) → In f s.failed → IsVictim h keys k s f
    pub all_failed : (f : ResourceUpdate) → In f s.failed → f.state ≡ UpdateState.failed
    pub visited_reached : (v : FormaeUri) → In v s.visited → Reached h keys k v
    pub visited_distinct : Distinct s.visited

  abbrev pub AllChildrenFailed : Failing → FormaeUri → Type 0
  AllChildrenFailed s v = (d : FormaeUri) → In d (h v).downstream → In d keys → IsFailed s d

  -- From `s` to `s'` the search has gone on, and has finished all that it began.
  pub record Grows (s s' : Failing) : Type 0 where
    pub inv : Inv s'
    pub visited_kept : Included s.visited s'.visited
    pub longer : length s.visited ≤ length s'.visited
    pub failed_kept : (j : FormaeUri) → IsFailed s j → IsFailed s' j
    pub closed : (v : FormaeUri) → In v s'.visited → In v s.visited ⊎ AllChildrenFailed s' v
    pub seen : (j : FormaeUri) → IsFailed s' j → IsFailed s j ⊎ In j s'.visited

  pub Grows-refl : (s : Failing) → Inv s → Grows s s
  Grows-refl s inv = record {
    inv = inv;
    visited_kept = λ v m. m;
    longer = omega arith;
    failed_kept = λ j f. f;
    closed = λ v m. inl m;
    seen = λ j f. inl f;
  }

  pub Grows-trans : {s s' s'' : Failing} → Grows s s' → Grows s' s'' → Grows s s''
  Grows-trans a b = record {
    inv = b.inv;
    visited_kept = λ v m. b.visited_kept v (a.visited_kept v m);
    longer = omega (arith, a.longer, b.longer);
    failed_kept = λ j f. b.failed_kept j (a.failed_kept j f);
    closed = λ v m. elim (b.closed v m) [
      | inr all ↦ inr all
      | inl m' ↦ elim (a.closed v m') [
        | inl old ↦ inl old
        | inr all ↦ inr (λ d l n. b.failed_kept d (all d l n))
      ]
    ];
    seen = λ j f. elim (b.seen j f) [
      | inr m ↦ inr m
      | inl f' ↦ elim (a.seen j f') [ inl f0 ↦ inl f0 | inr m ↦ inr (b.visited_kept j m) ]
    ];
  }
