-- ===== src/Datastore/Loading.antt =====
-- The latest row of a table, and the rows that a DELETE leaves.
use formae.Prelude.{
  ℕ, ◌≡◌, ◌≢◌, ◌⊎◌, inl, inr, refl, sym, ap, subst, ◌∙◌, Bool, true, false, Option, none, some, ◌∷◌,
  [], In, ltb, ◌==◌, ◌&&◌, arith, Bool-cases, Option-cases, some_injective, if◌then◌else◌,
}
use formae.Datastore.{Row, Table, newer, latest, delete_where}

newer-cases : (r : Row) (o : Option Row) → (newer r o ≡ some r) ⊎ (newer r o ≡ o)
newer-cases r none = inl refl
newer-cases r (some s) = elim (Bool-cases (ltb r.version s.version)) [
  | inl p ↦ inr (rw p refl)
  | inr p ↦ inl (rw p refl)
]

pub latest-skip :
    (test : Row → Bool) (r : Row) (t : Table) → test r ≡ false → latest test (r ∷ t) ≡ latest test t
unfolding latest
latest-skip test r t p = rw p refl

newer_not_none : (r : Row) (o : Option Row) → newer r o ≢ none
newer_not_none r o e = elim (newer-cases r o) [ inl h ↦ cc | inr h ↦ given o (sym h ∙ e) e ]
  where
    given : (o : Option Row) → o ≡ none → newer r o ≡ none → ⊥
    given none h e = cc
    given (some s) h e = cc

latest-hit :
    (test : Row → Bool) (r : Row) (t : Table)
    → test r ≡ true
    → latest test (r ∷ t) ≡ newer r (latest test t)
unfolding latest
latest-hit test r t p = rw p refl

-- The latest row is in the table and passes the test.
pub latest-In :
    (test : Row → Bool) (t : Table) (s : Row) → latest test t ≡ some s → In s t × (test s ≡ true)
unfolding latest
latest-In test [] s e = cc
latest-In test (r ∷ rs) s e = elim (Bool-cases (test r)) [
  | inr p ↦ behind (latest-In test rs s (sym (latest-skip test r rs p) ∙ e))
  | inl p ↦ first (latest-In test rs s) p (sym (latest-hit test r rs p) ∙ e)
]
  where
    behind : In s rs × (test s ≡ true) → In s (r ∷ rs) × (test s ≡ true)
    behind h = (inr h.0, h.1)

    first :
        (latest test rs ≡ some s → In s rs × (test s ≡ true))
        → test r ≡ true
        → newer r (latest test rs) ≡ some s
        → In s (r ∷ rs) × (test s ≡ true)
    first rec p q = elim (newer-cases r (latest test rs)) [
      | inl n ↦
          (let same_row = some_injective (sym n ∙ q) in
            (inl (sym same_row), subst (λ x. test x ≡ true) same_row p))
      | inr n ↦ behind (rec (sym n ∙ q))
    ]

-- A row that passes the test and is newer than the others that do is the latest one.
pub latest-first :
    (test : Row → Bool) (r : Row) (t : Table)
    → test r ≡ true
    → ((s : Row) → In s t → test s ≡ true → ltb r.version s.version ≡ false)
    → latest test (r ∷ t) ≡ some r
unfolding latest
latest-first test r t p h = rw p (elim (Option-cases (latest test t)) [
  | inl e ↦ rw e refl
  | inr (s, e) ↦ (let (m, q) = latest-In test t s e in rw e (rw (h s m q) refl))
])

-- What a DELETE leaves was there and did not pass the test.
pub delete_where-In :
    (test : Row → Bool) (t : Table) (s : Row)
    → In s (delete_where test t)
    → In s t × (test s ≡ false)
unfolding delete_where
delete_where-In test [] s h = elim h [ ]
delete_where-In test (r ∷ rs) s h = elim (Bool-cases (test r)) [
  | inl p ↦ behind (
      delete_where-In test rs s
        (subst (λ b. In s (if b then delete_where test rs else r ∷ delete_where test rs)) p h))
  | inr p ↦
      elim (subst (λ b. In s (if b then delete_where test rs else r ∷ delete_where test rs)) p h) [
        | inl e ↦ (inl e, subst (λ x. test x ≡ false) (sym e) p)
        | inr m ↦ behind (delete_where-In test rs s m)
      ]
]
  where
    behind : In s rs × (test s ≡ false) → In s (r ∷ rs) × (test s ≡ false)
    behind q = (inr q.0, q.1)

-- A DELETE that finds nothing changes nothing.
pub delete_where-none :
    (test : Row → Bool) (t : Table)
    → ((s : Row) → In s t → test s ≡ false)
    → delete_where test t ≡ t
unfolding delete_where
delete_where-none test [] h = refl
delete_where-none test (r ∷ rs) h =
    rw (h r (inl refl)) (ap (λ x. r ∷ x) (delete_where-none test rs (λ s m. h s (inr m))))

ltb_irrefl : (a : ℕ) → ltb a a ≡ false
ltb_irrefl a = ground arith

pub ltb_asym : (a b : ℕ) → ltb a b ≡ true → ltb b a ≡ false
ltb_asym a b h = ground arith

pub older_differs : (a b : ℕ) → ltb a b ≡ true → a == b ≡ false
older_differs a b h = ground arith

pub and_false : (b : Bool) → b && false ≡ false
and_false true = refl
and_false false = refl

ltb_not_trans : (a b c : ℕ) → ltb a b ≡ false → ltb b c ≡ false → ltb a c ≡ false
ltb_not_trans a b c h k = ground arith

-- The newer of two rows is at least as new as each.
newer-max :
    (r s : Row) (o : Option Row)
    → newer r o ≡ some s
    → (ltb s.version r.version ≡ false)
      × ((s' : Row) → o ≡ some s' → ltb s.version s'.version ≡ false)
newer-max r s none e =
    (subst (λ x. ltb x.version r.version ≡ false) (some_injective e) (ltb_irrefl r.version), cc)
newer-max r s (some s') e = elim (Bool-cases (ltb r.version s'.version)) [
  | inl p ↦ is_old p (subst (λ b. (if b then some s' else some r) ≡ some s) p e)
  | inr p ↦ is_new p (subst (λ b. (if b then some s' else some r) ≡ some s) p e)
]
  where
    Newest : Type 0
    Newest =
        (ltb s.version r.version ≡ false)
        × ((z : Row) → some s' ≡ some z → ltb s.version z.version ≡ false)

    is_old : ltb r.version s'.version ≡ true → some s' ≡ some s → Newest
    is_old p q =
        subst
          (λ x.
            (ltb x.version r.version ≡ false)
            × ((z : Row) → some s' ≡ some z → ltb x.version z.version ≡ false))
          (some_injective q)
          (
            ltb_asym r.version s'.version p,
            λ z k.
                subst (λ y. ltb s'.version y.version ≡ false) (some_injective k)
                  (ltb_irrefl s'.version),
          )

    is_new : ltb r.version s'.version ≡ false → some r ≡ some s → Newest
    is_new p q =
        subst
          (λ x.
            (ltb x.version r.version ≡ false)
            × ((z : Row) → some s' ≡ some z → ltb x.version z.version ≡ false))
          (some_injective q)
          (
            ltb_irrefl r.version,
            λ z k. subst (λ y. ltb r.version y.version ≡ false) (some_injective k) p,
          )

-- Without a latest row no row passes the test.
pub latest-none :
    (test : Row → Bool) (t : Table) (x : Row) → latest test t ≡ none → In x t → test x ≡ false
unfolding latest
latest-none test [] x e h = elim h [ ]
latest-none test (r ∷ rs) x e h = elim (Bool-cases (test r)) [
  | inl p ↦ elim (newer_not_none r (latest test rs) (sym (latest-hit test r rs p) ∙ e)) [ ]
  | inr p ↦ among p h (λ m. latest-none test rs x (sym (latest-skip test r rs p) ∙ e) m)
]
  where
    among : test r ≡ false → In x (r ∷ rs) → (In x rs → test x ≡ false) → test x ≡ false
    among p (inl q) rec = subst (λ y. test y ≡ false) (sym q) p
    among p (inr m) rec = rec m

-- The latest row has the greatest version.
pub latest-max :
    (test : Row → Bool) (t : Table) (s x : Row)
    → latest test t ≡ some s
    → In x t
    → test x ≡ true
    → ltb s.version x.version ≡ false
unfolding latest
latest-max test [] s x e h p = elim h [ ]
latest-max test (r ∷ rs) s x e (inl h) p =
    subst (λ y. ltb s.version y.version ≡ false) (sym h)
      (newer-max r s (latest test rs)
        (sym (latest-hit test r rs (subst (λ y. test y ≡ true) h p)) ∙ e)).0
latest-max test (r ∷ rs) s x e (inr m) p = elim (Bool-cases (test r)) [
  | inr q ↦ latest-max test rs s x (sym (latest-skip test r rs q) ∙ e) m p
  | inl q ↦ elim (Option-cases (latest test rs)) [
    | inl n ↦ cc (latest-none test rs x n m)
    | inr (s', n) ↦
        ltb_not_trans s.version s'.version x.version
          ((newer-max r s (latest test rs) (sym (latest-hit test r rs q) ∙ e)).1 s' n)
          (latest-max test rs s' x n m p)
  ]
]
