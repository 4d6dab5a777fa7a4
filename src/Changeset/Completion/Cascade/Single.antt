-- ===== src/Changeset/Completion/Cascade/Single.antt =====
-- One update of a group in the loops of `recursivelyFailDependencies` (changeset.go).
use formae.Prelude.{ℕ, ◌≡◌, ap, ◌∙◌, Option, some, ◌++◌, ◌∷◌, [], length, get_elem?, arith}
use formae.Model.Uri.{FormaeUri}
use formae.ResourceUpdate.{UpdateState, ResourceUpdate}
use formae.Changeset.Completion.{Failing, fail_at, fail_update, fail_updates, and_then}
use formae.Changeset.Completion.Cascade.Descent.{failed_version}

abbrev pub Rec : Type 0
Rec = ResourceUpdate → Failing → Option Failing

pub fail_updates-none :
    (rec : Rec) (d : FormaeUri) (s : Failing)
    → (s.groups d).updates ≡ []
    → fail_updates rec d (length (s.groups d).updates) 0 s ≡ some s
unfolding fail_updates
fail_updates-none rec d s e = ap (λ us. fail_updates rec d (length us) 0 s) e

pub fail_updates-one :
    (rec : Rec) (d : FormaeUri) (s : Failing) (u : ResourceUpdate)
    → (s.groups d).updates ≡ u ∷ []
    → fail_updates rec d (length (s.groups d).updates) 0 s
      ≡ and_then (fail_update rec d 0 (some u) s) (fail_updates rec d 0 1)
unfolding fail_updates
fail_updates-one rec d s u e =
    ap (λ us. fail_updates rec d (length us) 0 s) e
    ∙ ap (λ us. and_then (fail_update rec d 0 (get_elem? us 0) s) (fail_updates rec d 0 1)) e

pub fail_update-waiting :
    (rec : Rec) (d : FormaeUri) (i : ℕ) (u : ResourceUpdate) (s : Failing)
    → u.state ≡ UpdateState.not_started
    → fail_update rec d i (some u) s
      ≡ rec
          (failed_version u)
          (record s { groups = fail_at s.groups d i u; failed = s.failed ++ failed_version u ∷ [] })
unfolding fail_update
fail_update-waiting rec d i u s e = ground arith

pub fail_update-failed :
    (rec : Rec) (d : FormaeUri) (i : ℕ) (u : ResourceUpdate) (s : Failing)
    → u.state ≡ UpdateState.failed
    → fail_update rec d i (some u) s ≡ some s
unfolding fail_update
fail_update-failed rec d i u s e = ground arith

pub and_then-some :
    {m : Option Failing} {s : Failing} (f : Failing → Option Failing)
    → m ≡ some s
    → and_then m f ≡ f s
and_then-some f e = ap (λ m. and_then m f) e
