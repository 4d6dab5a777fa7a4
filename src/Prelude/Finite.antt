-- ===== src/Prelude/Finite.antt =====
-- Membership by recursion, lists without repetition, and the pigeonhole principle.
use Prim.Native.Nat.{suc, ◌≤◌}
use mathlib.Core.Path.{◌≡◌, refl, sym, subst}
use mathlib.Core.Logic.{◌≢◌, ◌⊎◌, inl, inr, ite}
use mathlib.Core.List.{List, [], ◌∷◌, ◌++◌}
use native.Mathlib.Omega.{arith}
use formae.Prelude.Lists.{length}

module _ {A : Type 0} where
  abbrev pub In : A → List A → Type 0
  In a [] = ⊥
  In a (x ∷ xs) = (a ≡ x) ⊎ In a xs

  abbrev pub Distinct : List A → Type 0
  Distinct [] = Unit
  Distinct (x ∷ xs) = (¬ In x xs) × Distinct xs

  abbrev pub Included : List A → List A → Type 0
  Included xs ys = (a : A) → In a xs → In a ys

  pub in-append_left : (a : A) (xs ys : List A) → In a xs → In a (xs ++ ys)
  in-append_left a [] ys h = elim h [ ]
  in-append_left a (x ∷ xs) ys (inl e) = inl e
  in-append_left a (x ∷ xs) ys (inr h) = inr (in-append_left a xs ys h)

  pub in-append_right : (a : A) (xs ys : List A) → In a ys → In a (xs ++ ys)
  in-append_right a [] ys h = h
  in-append_right a (x ∷ xs) ys h = inr (in-append_right a xs ys h)

  pub in-append : (a : A) (xs ys : List A) → In a (xs ++ ys) → In a xs ⊎ In a ys
  in-append a [] ys h = inr h
  in-append a (x ∷ xs) ys (inl e) = inl (inl e)
  in-append a (x ∷ xs) ys (inr h) = elim (in-append a xs ys h) [
    | inl l ↦ inl (inr l)
    | inr r ↦ inr r
  ]

  pub Distinct-snoc : (a : A) (xs : List A) → Distinct xs → (¬ In a xs) → Distinct (xs ++ a ∷ [])
  Distinct-snoc a [] d h = ground arith
  Distinct-snoc a (x ∷ xs) d h = (
    λ m. elim (in-append x xs (a ∷ []) m) [
      | inl l ↦ d.0 l
      | inr r ↦ elim r [ inl e ↦ h (inl (sym e)) | inr n ↦ n ]
    ],
    Distinct-snoc a xs d.1 (λ m. h (inr m)),
  )

  module _ (dec : Discrete A) where
    unfoldable pub dec_in : (a : A) (xs : List A) → Dec (In a xs)
    dec_in a [] = no (λ h. h)
    dec_in a (x ∷ xs) = elim (dec a x) [
      | yes e ↦ yes (inl e)
      | no ne ↦ elim (dec_in a xs) [
        | yes h ↦ yes (inr h)
        | no nh ↦ no (λ m. elim m [ inl e ↦ ne e | inr h ↦ nh h ])
      ]
    ]

    -- The list without any occurrence of `a`, as `delete(m, a)` leaves the keys of a map.
    unfoldable pub without : A → List A → List A
    without a [] = []
    without a (x ∷ xs) = ite (dec a x) (without a xs) (x ∷ without a xs)

    pub in-without : (a b : A) (xs : List A) → In b (without a xs) → In b xs × (a ≢ b)
    unfolding without
    in-without a b [] h = elim h [ ]
    in-without a b (x ∷ xs) h = ground (arith, in-without a b xs)

    pub in-without_ne : (a b : A) (xs : List A) → a ≢ b → In b xs → In b (without a xs)
    unfolding without
    in-without_ne a b [] ne h = h
    in-without_ne a b (x ∷ xs) ne h = ground (arith, in-without_ne a b xs ne)

    pub without-Distinct : (a : A) (xs : List A) → Distinct xs → Distinct (without a xs)
    unfolding without
    without-Distinct a [] d = tt
    without-Distinct a (x ∷ xs) d = ground (arith, without-Distinct a xs d.1, in-without a x xs)

    length-without-le : (a : A) (xs : List A) → length (without a xs) ≤ length xs
    unfolding without
    length-without-le a [] = omega arith
    length-without-le a (x ∷ xs) = ground (arith, length-without-le a xs)

    pub length-without-lt :
        (a : A) (xs : List A) → In a xs → suc (length (without a xs)) ≤ length xs
    unfolding without
    length-without-lt a [] h = elim h [ ]
    length-without-lt a (x ∷ xs) h = ground (arith, length-without-le a xs, length-without-lt a xs)

    -- A list without repetition is no longer than a list that holds all of its elements.
    pub length-le_of_Included :
        (xs ys : List A) → Distinct xs → Included xs ys → length xs ≤ length ys
    length-le_of_Included [] ys d h = omega arith
    length-le_of_Included (x ∷ xs) ys d h = omega (
      arith,
      length-without-lt x ys (h x (inl refl)),
      length-le_of_Included xs (without x ys) d.1
          (λ a m. in-without_ne x a ys (λ e. d.0 (subst (λ z. In z xs) (sym e) m)) (h a (inr m))),
    )

    -- The list without the first occurrence of `a`.
    unfoldable pub erase : A → List A → List A
    erase a [] = []
    erase a (x ∷ xs) = ite (dec a x) xs (x ∷ erase a xs)

    pub in-erase : (a b : A) (xs : List A) → In b (erase a xs) → In b xs
    unfolding erase
    in-erase a b [] h = h
    in-erase a b (x ∷ xs) h = ground (arith, in-erase a b xs)

    pub in-erase_ne : (a b : A) (xs : List A) → a ≢ b → In b xs → In b (erase a xs)
    unfolding erase
    in-erase_ne a b [] ne h = h
    in-erase_ne a b (x ∷ xs) ne h = ground (arith, in-erase_ne a b xs ne)

    pub not-in-erase : (a : A) (xs : List A) → Distinct xs → ¬ In a (erase a xs)
    unfolding erase
    not-in-erase a [] d h = h
    not-in-erase a (x ∷ xs) d h = ground (arith, not-in-erase a xs d.1)

    pub erase-Distinct : (a : A) (xs : List A) → Distinct xs → Distinct (erase a xs)
    unfolding erase
    erase-Distinct a [] d = tt
    erase-Distinct a (x ∷ xs) d = ground (arith, erase-Distinct a xs d.1, in-erase a x xs)

    pub erase_absent : (a : A) (xs : List A) → (¬ In a xs) → erase a xs ≡ xs
    unfolding erase
    erase_absent a [] h = refl
    erase_absent a (x ∷ xs) h = ground (arith, erase_absent a xs)
