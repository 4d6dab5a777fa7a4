-- ===== src/Changeset/Cycles.antt =====
-- changeset.go: `HasCycles` and `dfs`.
pub mod Correct
use formae.Prelude.{
  ℕ, zero, suc, Bool, true, false, Option, none, some, List, ◌∷◌, [], length, text_discrete, dec_in,
  ite,
}
use formae.Model.Uri.{FormaeUri}
use formae.Changeset.Pipeline.{Groups, Pipeline}

-- A `for` loop that returns true at the first element that passes; `none` means that the fuel of a
-- test ran out.
pub first_true : (FormaeUri → Option Bool) → List FormaeUri → Option Bool
first_true test [] = some false
first_true test (g ∷ gs) = elim (test g) [
  | none ↦ none
  | some true ↦ some true
  | some false ↦ first_true test gs
]

-- Every child gets a copy of the visited set, so `visited` holds the groups on the way to `g`. The
-- fuel bounds the length of that way.
dfs : ℕ → Groups → FormaeUri → List FormaeUri → Option Bool
unfolding first_true
dfs zero h g visited = none
dfs (suc fuel) h g visited =
    ite (dec_in text_discrete g visited) (some true)
      (first_true (λ c. dfs fuel h c (g ∷ visited)) (h g).downstream)

unfoldable pub has_cycles : Pipeline → Option Bool
unfolding dfs
has_cycles p = first_true (λ k. dfs (suc (length p.keys)) p.groups k []) p.keys
