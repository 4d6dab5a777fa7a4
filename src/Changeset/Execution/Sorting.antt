-- ===== src/Changeset/Execution/Sorting.antt =====
-- The insertion sort that stands for `sort.Slice` by URI (changeset.go).
use formae.Prelude.{
  suc, ◌≡◌, ◌⊎◌, inl, inr, refl, ap, ◌∙◌, true, false, List, ◌∷◌, [], Text, less_text, length, In,
  arith,
}
use formae.ResourceUpdate
use formae.ResourceUpdate.{ResourceUpdate}
use formae.Changeset.Execution.{insert_by_uri, sort_by_uri}

less_text-asym : (s t : Text) → less_text s t ≡ true → less_text t s ≡ false
less_text-asym [] [] h = cc
less_text-asym [] (d ∷ t) h = refl
less_text-asym (c ∷ s) [] h = cc
less_text-asym (c ∷ s) (d ∷ t) h = ground (arith, less_text-asym s t)

-- No update stands before one whose URI is smaller.
abbrev pub IsSortedFrom : ResourceUpdate → List ResourceUpdate → Type 0
IsSortedFrom u [] = Unit
IsSortedFrom u (v ∷ vs) =
    (less_text (ResourceUpdate.uri v) (ResourceUpdate.uri u) ≡ false) × IsSortedFrom v vs

abbrev pub IsSorted : List ResourceUpdate → Type 0
IsSorted [] = Unit
IsSorted (u ∷ us) = IsSortedFrom u us

in-insert :
    (u x : ResourceUpdate) (us : List ResourceUpdate)
    → In x (insert_by_uri u us)
    → (x ≡ u) ⊎ In x us
unfolding insert_by_uri
in-insert u x [] m = m
in-insert u x (v ∷ vs) m = ground (arith, in-insert u x vs)

length-insert :
    (u : ResourceUpdate) (us : List ResourceUpdate) → length (insert_by_uri u us) ≡ suc (length us)
unfolding insert_by_uri
length-insert u [] = refl
length-insert u (v ∷ vs) = ground (arith, length-insert u vs)

insert-IsSortedFrom :
    (w u : ResourceUpdate) (us : List ResourceUpdate)
    → less_text (ResourceUpdate.uri u) (ResourceUpdate.uri w) ≡ false
    → IsSortedFrom w us
    → IsSortedFrom w (insert_by_uri u us)
unfolding insert_by_uri
insert-IsSortedFrom w u [] h s = (h, tt)
insert-IsSortedFrom w u (v ∷ vs) h s = ground (
  arith,
  less_text-asym (ResourceUpdate.uri v) (ResourceUpdate.uri u),
  insert-IsSortedFrom v u vs,
)

insert-IsSorted :
    (u : ResourceUpdate) (us : List ResourceUpdate) → IsSorted us → IsSorted (insert_by_uri u us)
unfolding insert_by_uri
insert-IsSorted u [] s = tt
insert-IsSorted u (v ∷ vs) s = ground (
  arith,
  less_text-asym (ResourceUpdate.uri v) (ResourceUpdate.uri u),
  insert-IsSortedFrom v u vs,
)

pub sort_by_uri-IsSorted : (us : List ResourceUpdate) → IsSorted (sort_by_uri us)
unfolding sort_by_uri
sort_by_uri-IsSorted [] = tt
sort_by_uri-IsSorted (u ∷ us) = insert-IsSorted u (sort_by_uri us) (sort_by_uri-IsSorted us)

pub in-sort_by_uri :
    (x : ResourceUpdate) (us : List ResourceUpdate) → In x (sort_by_uri us) → In x us
unfolding sort_by_uri
in-sort_by_uri x [] m = m
in-sort_by_uri x (u ∷ us) m = elim (in-insert u x (sort_by_uri us) m) [
  | inl e ↦ inl e
  | inr n ↦ inr (in-sort_by_uri x us n)
]

pub length-sort_by_uri : (us : List ResourceUpdate) → length (sort_by_uri us) ≡ length us
unfolding sort_by_uri
length-sort_by_uri [] = refl
length-sort_by_uri (u ∷ us) = length-insert u (sort_by_uri us) ∙ ap suc (length-sort_by_uri us)
