-- ===== src/Prelude/Strings.antt =====
-- Go strings as lists of their bytes, and the functions of package strings that the code calls.
use Prim.Native.Nat.{ℕ}
use Prim.Native.Char.{code}
use Prim.Native.String.{String}
use mathlib.Core.Path.{◌≡◌, refl, sym, ap, ap₂, subst, ◌∙◌}
use mathlib.Core.Logic.{inr}
use mathlib.Core.Bool.{Bool, true, false, ◌&&◌}
use mathlib.Core.Option.{Option, none, some}
use mathlib.Core.List.{List, [], ◌∷◌, ◌++◌}
use native.Mathlib.Omega.{arith}
use formae.Prelude.Tests.{◌==◌, ltb, if◌then◌else◌}
use formae.Prelude.Lists.{length, drop}
use formae.Prelude.Finite.{In}
use native.Mathlib.Decide.{ℕ_discrete}

abbrev pub Text : Type 0
Text = List ℕ

-- The bytes of an ASCII literal. `String` has its own `[]` and `∷`.
abbrev pub codes : String → Text
codes String.[] = []
codes (String.◌∷◌ c s) = code c ∷ codes s

pub cons_head : {c d : ℕ} {s t : Text} → c ∷ s ≡ d ∷ t → c ≡ d
cons_head p = cc

pub cons_tail : {c d : ℕ} {s t : Text} → c ∷ s ≡ d ∷ t → s ≡ t
cons_tail p = cc

pub nil_cons : {d : ℕ} {t : Text} → ◌≡◌ {A = Text} [] (d ∷ t) → ⊥
nil_cons p = cc

heads_discrete : {c d : ℕ} {s t : Text} → Dec (c ≡ d) → Dec (s ≡ t) → Dec (c ∷ s ≡ d ∷ t)
heads_discrete (yes e) (yes f) = yes (ap₂ ◌∷◌ e f)
heads_discrete (yes e) (no n) = no (λ p. n (cons_tail p))
heads_discrete (no n) f = no (λ p. n (cons_head p))

unfoldable pub text_discrete : Discrete Text
unfolding ℕ_discrete heads_discrete
text_discrete [] [] = yes refl
text_discrete [] (d ∷ t) = no (λ p. nil_cons p)
text_discrete (c ∷ s) [] = no (λ p. nil_cons (sym p))
text_discrete (c ∷ s) (d ∷ t) = heads_discrete (ℕ_discrete c d) (text_discrete s t)

abbrev pub is_empty : Text → Bool
is_empty [] = true
is_empty (_ ∷ _) = false

-- strings.HasPrefix(s, prefix), with the prefix first.
abbrev pub has_prefix : Text → Text → Bool
has_prefix [] s = true
has_prefix (c ∷ p) [] = false
has_prefix (c ∷ p) (d ∷ s) = c == d && has_prefix p s

-- strings.SplitN(s, sep, 2) for a separator of one byte: the part before the first separator, and
-- the part behind it if there is a separator.
abbrev pub split_2 : ℕ → Text → Text × Option Text
split_2 sep [] = ([], none)
split_2 sep (c ∷ s) =
    let (before, after) = split_2 sep s in if c == sep then ([], some s) else (c ∷ before, after)

pub split_2-append :
    (sep : ℕ) (s t : Text) → (¬ In sep s) → split_2 sep (s ++ sep ∷ t) ≡ (s, some t)
split_2-append sep [] t h = ground arith
split_2-append sep (c ∷ s) t h = ground (arith, split_2-append sep s t (λ m. h (inr m)))

abbrev joined : ℕ → Text → Option Text → Text
joined sep before none = before
joined sep before (some after) = before ++ sep ∷ after

split_2-joined : (sep : ℕ) (s : Text) → s ≡ joined sep (split_2 sep s).0 (split_2 sep s).1
split_2-joined sep [] = refl
split_2-joined sep (c ∷ s) = ground (arith, split_2-joined sep s)

split_2-free : (sep : ℕ) (s : Text) → ¬ In sep (split_2 sep s).0
split_2-free sep [] h = h
split_2-free sep (c ∷ s) h = ground (arith, split_2-free sep s)

-- The parts around the first separator make up the text, and the first part is free of it.
pub split_2-some :
    (sep : ℕ) (s before after : Text)
    → split_2 sep s ≡ (before, some after)
    → (s ≡ before ++ sep ∷ after) × (¬ In sep before)
split_2-some sep s before after h = (
  split_2-joined sep s ∙ ap (λ (r : Text × Option Text). joined sep r.0 r.1) h,
  λ m. split_2-free sep s (subst (λ (r : Text × Option Text). In sep r.0) (sym h) m),
)

pub drop-append : (s t : Text) → drop (length s) (s ++ t) ≡ t
drop-append [] t = refl
drop-append (c ∷ s) t = drop-append s t

pub has_prefix-append : (s t : Text) → has_prefix s (s ++ t) ≡ true
has_prefix-append [] t = refl
has_prefix-append (c ∷ s) t = ground (arith, has_prefix-append s t)

pub has_prefix-drop : (p s : Text) → has_prefix p s ≡ true → s ≡ p ++ drop (length p) s
has_prefix-drop [] s h = refl
has_prefix-drop (c ∷ p) [] h = cc
has_prefix-drop (c ∷ p) (d ∷ s) h = ground (arith, has_prefix-drop p s)

-- A text free of the separator is determined by what stands before the separator.
pub separated_injective :
    (sep : ℕ) (s s' t t' : Text)
    → (¬ In sep s)
    → (¬ In sep s')
    → s ++ sep ∷ t ≡ s' ++ sep ∷ t'
    → (s ≡ s') × (t ≡ t')
separated_injective sep s s' t t' h h' e =
    let parts : ◌≡◌ {A = Text × Option Text} (s, some t) (s', some t') =
      sym (split_2-append sep s t h) ∙ (ap (split_2 sep) e ∙ split_2-append sep s' t' h') in
    (cc, cc)

-- The order of Go strings: by bytes, and a prefix before the longer text.
abbrev pub less_text : Text → Text → Bool
less_text s [] = false
less_text [] (d ∷ t) = true
less_text (c ∷ s) (d ∷ t) = if c == d then less_text s t else ltb c d
