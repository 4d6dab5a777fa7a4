-- ===== src/ResourceUpdate/Generator/Collect.antt =====
-- What is in the lists that the loops of the generator (resource_update_generator.go) append.
use formae.Prelude.{
  ◌≡◌, inl, inr, refl, sym, ap, subst, ◌∙◌, List, ◌++◌, ◌∷◌, [], In, in-append, in-append_left,
  in-append_right,
}
use formae.Prelude.Results.{ok, bind-ok, ok_injective}
use formae.ResourceUpdate.{ResourceUpdate}
use formae.ResourceUpdate.Factory.{Generated}
use formae.ResourceUpdate.Generator.{collect}
use formae.ResourceUpdate.Generator.Apply.{Batch, no_updates, join, join_all}

module _ {A B : Type 0} (f : A → Generated (List B)) where
  pub collect-In :
      (xs : List A) {ys : List B} (y : B)
      → collect f xs ≡ ok ys
      → In y ys
      → (x : A) × In x xs × ((bs : List B) × (f x ≡ ok bs) × In y bs)
  unfolding collect
  collect-In [] y e m = absurd (subst (In y) (sym (ok_injective e)) m)
  collect-In (x ∷ xs) y e m =
      let (bs, e1, e2) = bind-ok (f x) _ e in
      let (rest, e3, e4) = bind-ok (collect f xs) _ e2 in
      elim (in-append y bs rest (subst (In y) (sym (ok_injective e4)) m)) [
        | inl l ↦ (x, inl refl, (bs, e1, l))
        | inr r ↦ let (z, n, found) = collect-In xs y e3 r in (z, inr n, found)
      ]

  pub in-collect :
      (xs : List A) {ys : List B} (x : A)
      → collect f xs ≡ ok ys
      → In x xs
      → (bs : List B) × (f x ≡ ok bs) × ((y : B) → In y bs → In y ys)
  unfolding collect
  in-collect [] x e m = absurd m
  in-collect (z ∷ xs) x e m =
      let (bs, e1, e2) = bind-ok (f z) _ e in
      let (rest, e3, e4) = bind-ok (collect f xs) _ e2 in
      elim m [
        | inl q ↦
            (bs, ap f q ∙ e1, λ y n. subst (In y) (ok_injective e4) (in-append_left y bs rest n))
        | inr n ↦
            let (cs, e5, h) = in-collect xs x e3 n in
            (cs, e5, λ y k. subst (In y) (ok_injective e4) (in-append_right y bs rest (h y k)))
      ]

-- One of the lists of a batch, which `join` appends.
pub record Field : Type 0 where
  pub list : Batch → List ResourceUpdate
  pub empty : list no_updates ≡ []
  pub joins : (a b : Batch) → list (join a b) ≡ list a ++ list b

module _ {A : Type 0} (f : A → Generated Batch) (field : Field) where
  pub join_all-In :
      (xs : List A) {b : Batch} (y : ResourceUpdate)
      → join_all f xs ≡ ok b
      → In y (field.list b)
      → (x : A) × In x xs × ((c : Batch) × (f x ≡ ok c) × In y (field.list c))
  unfolding join_all
  join_all-In [] y e m =
      absurd (subst (In y) (ap field.list (sym (ok_injective e)) ∙ field.empty) m)
  join_all-In (x ∷ xs) y e m =
      let (c, e1, e2) = bind-ok (f x) _ e in
      let (rest, e3, e4) = bind-ok (join_all f xs) _ e2 in
      elim (in-append y (field.list c) (field.list rest)
        (subst (In y) (ap field.list (sym (ok_injective e4)) ∙ field.joins c rest) m)) [
          | inl l ↦ (x, inl refl, (c, e1, l))
          | inr r ↦ let (z, n, found) = join_all-In xs y e3 r in (z, inr n, found)
        ]

  pub in-join_all :
      (xs : List A) {b : Batch} (x : A)
      → join_all f xs ≡ ok b
      → In x xs
      → (c : Batch) × (f x ≡ ok c)
        × ((y : ResourceUpdate) → In y (field.list c) → In y (field.list b))
  unfolding join_all
  in-join_all [] x e m = absurd m
  in-join_all (z ∷ xs) x e m =
      let (c, e1, e2) = bind-ok (f z) _ e in
      let (rest, e3, e4) = bind-ok (join_all f xs) _ e2 in
      let whole = sym (field.joins c rest) ∙ ap field.list (ok_injective e4) in
      elim m [
        | inl q ↦ (
          c,
          ap f q ∙ e1,
          λ y n. subst (In y) whole (in-append_left y (field.list c) (field.list rest) n),
        )
        | inr n ↦
            let (d, e5, h) = in-join_all xs x e3 n in
            (
              d,
              e5,
              λ y k.
                  subst (In y) whole (in-append_right y (field.list c) (field.list rest) (h y k)),
            )
      ]

abbrev pub creates_field : Field
creates_field = record { list = λ b. b.creates; empty = refl; joins = λ a b. refl }

abbrev pub deletes_field : Field
deletes_field = record { list = λ b. b.deletes; empty = refl; joins = λ a b. refl }
