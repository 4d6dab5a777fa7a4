-- ===== src/Changeset/Cycles/Correct.antt =====
-- HasCycles (changeset.go) decides whether the downstream links form a cycle.
use formae.Prelude.{
  ℕ, zero, suc, ◌+◌, ◌<◌, ◌≡◌, ◌≢◌, refl, sym, subst, ◌∙◌, Bool, true, false, Option, none, some,
  List, ◌∷◌, [], length, text_discrete, dec_in, if_pos, if_neg, In, Distinct, Included,
  length-le_of_Included, inl, inr, ◌⊎◌, arith, Option-cases,
}
use formae.Model.Uri.{FormaeUri}
use formae.Changeset.Pipeline.{Groups, Pipeline}
use formae.Changeset.Cycles.{first_true, dfs, has_cycles}

-- The ways along downstream links.
pub data Walk (h : Groups) : FormaeUri → FormaeUri → Type 0 where
  here : {g : FormaeUri} → Walk h g g
  step : {g c v : FormaeUri} → In c (h g).downstream → Walk h c v → Walk h g v

pub record Cycle (h : Groups) (g : FormaeUri) : Type 0 where
  pub child : FormaeUri
  pub linked : In child (h g).downstream
  pub back : Walk h child g

abbrev pub IsClosed : Pipeline → Type 0
IsClosed p = (k c : FormaeUri) → In k p.keys → In c (p.groups k).downstream → In c p.keys

pub Walk-snoc : {h : Groups} {g v c : FormaeUri} → Walk h g v → In c (h v).downstream → Walk h g c
Walk-snoc here l = step l here
Walk-snoc (step l' w) l = step l' (Walk-snoc w l)

first_true-none :
    (test : FormaeUri → Option Bool) (gs : List FormaeUri)
    → ((g : FormaeUri) → In g gs → test g ≢ none)
    → first_true test gs ≢ none
unfolding first_true
first_true-none test [] h e = cc
first_true-none test (g ∷ gs) h e =
    ground (arith, h g (inl refl), first_true-none test gs (λ x m. h x (inr m)))

first_true-true :
    (test : FormaeUri → Option Bool) (gs : List FormaeUri)
    → first_true test gs ≡ some true
    → (g : FormaeUri) × In g gs × (test g ≡ some true)
unfolding first_true
first_true-true test [] e = cc
first_true-true test (g ∷ gs) e = elim (Option-cases (test g)) [
  | inl q ↦ absurd (ground arith)
  | inr (true, q) ↦ (g, inl refl, q)
  | inr (false, q) ↦ let (x, m, t) = first_true-true test gs (ground arith) in (x, inr m, t)
]

first_true-false :
    (test : FormaeUri → Option Bool) (gs : List FormaeUri) (g : FormaeUri)
    → first_true test gs ≡ some false
    → In g gs
    → test g ≡ some false
unfolding first_true
first_true-false test [] g e m = elim m [ ]
first_true-false test (x ∷ gs) g e m = ground (arith, first_true-false test gs g)

module _ (fuel : ℕ) (h : Groups) (g : FormaeUri) (visited : List FormaeUri) where
  abbrev children : Option Bool
  children = first_true (λ c. dfs fuel h c (g ∷ visited)) (h g).downstream

  dfs-seen : In g visited → dfs (suc fuel) h g visited ≡ some true
  unfolding dfs
  dfs-seen m = if_pos (dec_in text_discrete g visited) m (some true) children

  dfs-fresh : (¬ In g visited) → dfs (suc fuel) h g visited ≡ children
  unfolding dfs
  dfs-fresh n = if_neg (dec_in text_discrete g visited) n (some true) children

-- Nothing on the way to `g` can be reached from `g`.
dfs-false :
    (fuel : ℕ) {h : Groups} {g v : FormaeUri} (visited : List FormaeUri)
    → dfs fuel h g visited ≡ some false
    → Walk h g v
    → ¬ In v visited
dfs-false zero {h} {g} visited e w m = unfold dfs in cc
dfs-false (suc fuel) {h} {g} visited e here m = cc (dfs-seen fuel h g visited m)
dfs-false (suc fuel) {h} {g} visited e (step {c} l w) m = elim (dec_in text_discrete g visited) [
  | yes seen ↦ cc (dfs-seen fuel h g visited seen)
  | no n ↦
      dfs-false fuel (g ∷ visited)
        (first_true-false _ (h g).downstream c (sym (dfs-fresh fuel h g visited n) ∙ e) l) w (inr m)
]

-- Without a cycle the search has ended with false at every group.
not-Cycle :
    (p : Pipeline) (k : FormaeUri) → has_cycles p ≡ some false → In k p.keys → ¬ Cycle p.groups k
unfolding has_cycles
not-Cycle p k e m c =
    let h = p.groups in
    let started = first_true-false _ p.keys k e m in
    dfs-false (length p.keys) (k ∷ [])
      (first_true-false _ (h k).downstream c.child
        (sym (dfs-fresh (length p.keys) h k [] (λ n. n)) ∙ started) c.linked)
      c.back (inl refl)

-- Every group of the way to `g` leads to `g`.
abbrev LeadsTo : Groups → List FormaeUri → FormaeUri → Type 0
LeadsTo h visited g =
    (v : FormaeUri) → In v visited → (c : FormaeUri) × In c (h v).downstream × Walk h c g

dfs-true :
    (fuel : ℕ) (h : Groups) (g : FormaeUri) (visited : List FormaeUri)
    → LeadsTo h visited g
    → dfs fuel h g visited ≡ some true
    → (v : FormaeUri) × Cycle h v
dfs-true zero h g visited way e = unfold dfs in cc
dfs-true (suc fuel) h g visited way e = elim (dec_in text_discrete g visited) [
  | yes seen ↦ let (c, l, w) = way g seen in (g, record { child = c; linked = l; back = w })
  | no n ↦
      let (c, l, t) = first_true-true _ (h g).downstream (sym (dfs-fresh fuel h g visited n) ∙ e) in
      dfs-true fuel h c (g ∷ visited) (longer c l) t
]
  where
    longer : (c : FormaeUri) → In c (h g).downstream → LeadsTo h (g ∷ visited) c
    longer c l v (inl q) = (c, subst (λ x. In c (h x).downstream) (sym q) l, here)
    longer c l v (inr m) = let (b, k, w) = way v m in (b, k, Walk-snoc w l)

-- With the groups of the way among the keys, fuel for one more than those not on the way suffices.
dfs-ends :
    (p : Pipeline)
    → IsClosed p
    → (fuel : ℕ) (g : FormaeUri) (visited : List FormaeUri) → In g p.keys
    → Included visited p.keys
    → Distinct visited
    → length p.keys < fuel + length visited
    → dfs fuel p.groups g visited ≢ none
dfs-ends p closed zero g visited m sub d lt e =
    absurd (omega (arith, length-le_of_Included text_discrete visited p.keys d sub))
dfs-ends p closed (suc fuel) g visited m sub d lt e = elim (dec_in text_discrete g visited) [
  | yes seen ↦ cc (dfs-seen fuel p.groups g visited seen)
  | no n ↦
      first_true-none _ (p.groups g).downstream
        (λ c l.
          dfs-ends p closed fuel c (g ∷ visited) (closed g c m l) (longer n) (n, d) (omega arith))
        (sym (dfs-fresh fuel p.groups g visited n) ∙ e)
]
  where
    longer : (¬ In g visited) → Included (g ∷ visited) p.keys
    longer n v (inl q) = subst (λ x. In x p.keys) (sym q) m
    longer n v (inr k) = sub v k

has_cycles-ends : (p : Pipeline) → IsClosed p → has_cycles p ≢ none
unfolding has_cycles
has_cycles-ends p closed =
    first_true-none _ p.keys
      (λ k m. dfs-ends p closed (suc (length p.keys)) k [] m (λ a n. absurd n) tt (omega arith))

has_cycles-true : (p : Pipeline) → has_cycles p ≡ some true → (v : FormaeUri) × Cycle p.groups v
unfolding has_cycles
has_cycles-true p e =
    let (k, m, t) = first_true-true _ p.keys e in
    dfs-true (suc (length p.keys)) p.groups k [] (λ v n. absurd n) t

-- On a pipeline whose links stay among its groups `HasCycles` returns: true only if some group leads
-- back to itself along downstream links, and false only if no group of the pipeline does.
pub has_cycles-decides :
    (p : Pipeline)
    → IsClosed p
    → ((has_cycles p ≡ some true) × ((v : FormaeUri) × Cycle p.groups v))
      ⊎ ((has_cycles p ≡ some false) × ((k : FormaeUri) → In k p.keys → ¬ Cycle p.groups k))
has_cycles-decides p closed = elim (Option-cases (has_cycles p)) [
  | inl e ↦ absurd (has_cycles-ends p closed e)
  | inr (true, e) ↦ inl (e, has_cycles-true p e)
  | inr (false, e) ↦ inr (e, λ k m. not-Cycle p k e m)
]
