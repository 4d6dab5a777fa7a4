-- ===== src/FormaPersister/Hashing.antt =====
-- The hashing of opaque values at the end of a command (markFormaCommandAsComplete).
use formae.Prelude.{
  ℕ, ◌≡◌, inl, inr, refl, sym, ap, subst, ◌∙◌, Bool, true, false, not, Option, none, some, List,
  ◌+◌, ltb, ◌∷◌, [], Text, any, if_pos, if_neg, ◌≢◌, text_discrete, arith, Bool-cases, Option-cases,
  bind-some, some_injective, ◌||◌,
}
use formae.Model.Resource.{Resource}
use formae.ResourceUpdate.{UpdateState, ResourceUpdate}
use formae.FormaPersister.{FormaCommand, overall_command_state, is_final, is_unsuccessful}
use formae.FormaPersister.States.{IsConsistent}
use formae.FormaPersister.Calls.{
  Datastore, Answer, store_forma_command, store, has_opaque_values, hash_one, hash_resources,
  hash_updates, hash_command, store_hashed, mark_forma_command_complete, get_forma_command,
  handle_call, mark_forma_command_as_complete,
}

module _ (hash : Resource → Option Resource) where
  -- A resource with opaque values becomes what the transformer makes of it; any other stays as it is.
  abbrev pub IsHashed : Resource → Resource → Type 0
  IsHashed r r' =
      (has_opaque_values r.properties ≡ true → hash r ≡ some r')
      × (has_opaque_values r.properties ≡ false → r' ≡ r)

  -- The resources of the first list are hashed, one by one, to those of the second.
  abbrev pub AllHashed : List Resource → List Resource → Type 0
  AllHashed [] [] = Unit {0}
  AllHashed (r ∷ rs) (r' ∷ rs') = IsHashed r r' × AllHashed rs rs'
  AllHashed _ _ = ⊥

  -- The resource of each update is hashed, and its other fields stay.
  abbrev pub UpdatesHashed : List ResourceUpdate → List ResourceUpdate → Type 0
  UpdatesHashed [] [] = Unit {0}
  UpdatesHashed (u ∷ us) (u' ∷ us') =
      ((r' : Resource) × IsHashed u.resource r' × (u' ≡ record u { resource = r' }))
      × UpdatesHashed us us'
  UpdatesHashed _ _ = ⊥

  abbrev pub CommandHashed : FormaCommand → FormaCommand → Type 0
  CommandHashed c c' =
      (rs : List Resource) × (us : List ResourceUpdate) × AllHashed c.resources rs
      × UpdatesHashed c.resource_updates us
      × (c' ≡ record c { resources = rs; resource_updates = us })

sum_left : (a b : ℕ) → a + b ≡ 0 → a ≡ 0
sum_left a b q = omega (arith, q)

sum_right : (a b : ℕ) → a + b ≡ 0 → b ≡ 0
sum_right a b q = omega (arith, q)

module _ (hash : Resource → Option Resource) where
  hash_updates-any :
      (f : UpdateState → Bool) (us us' : List ResourceUpdate) (n : ℕ)
      → hash_updates hash us ≡ some (us', n)
      → any (λ u. f u.state) us' ≡ any (λ u. f u.state) us
  unfolding hash_updates
  hash_updates-any f [] us' n e =
      ap (λ (p : List ResourceUpdate × ℕ). any (λ u. f u.state) p.0) (sym (some_injective e))
  hash_updates-any f (u ∷ us) us' n e =
      let (x, e1, e2) = bind-some (hash_one hash u.resource) _ e in
      let (y, e3, e4) = bind-some (hash_updates hash us) _ e2 in
      ap (λ (p : List ResourceUpdate × ℕ). any (λ u. f u.state) p.0) (sym (some_injective e4))
      ∙ ap (λ b. f u.state || b) (hash_updates-any f us y.0 y.1 e3)

  pub hash_updates-state :
      (us us' : List ResourceUpdate) (n : ℕ)
      → hash_updates hash us ≡ some (us', n)
      → overall_command_state us' ≡ overall_command_state us
  unfolding overall_command_state
  hash_updates-state us us' n e =
      rw
        (
          hash_updates-any (λ s. not (is_final s)) us us' n e,
          hash_updates-any is_unsuccessful us us' n e,
        )
        refl

  -- What the hashing of a command leaves as it was.
  pub hash_command-same :
      (c c' : FormaCommand) (n : ℕ)
      → hash_command hash c ≡ some (c', n)
      → (c'.id ≡ c.id)
        × (c'.state ≡ c.state)
        × (overall_command_state c'.resource_updates ≡ overall_command_state c.resource_updates)
  unfolding hash_command
  hash_command-same c c' n e =
      let (x, e1, e2) = bind-some (hash_resources hash c.resources) _ e in
      let (y, e3, e4) = bind-some (hash_updates hash c.resource_updates) _ e2 in
      let q = some_injective e4 in
      (
        ap (λ (p : FormaCommand × ℕ). p.0.id) (sym q),
        ap (λ (p : FormaCommand × ℕ). p.0.state) (sym q),
        ap (λ (p : FormaCommand × ℕ). overall_command_state p.0.resource_updates) (sym q)
            ∙ hash_updates-state c.resource_updates y.0 y.1 e3,
      )

  hash_one-IsHashed :
      (r r' : Resource) (n : ℕ) → hash_one hash r ≡ some (r', n) → IsHashed hash r r'
  unfolding hash_one
  hash_one-IsHashed r r' n e = (
    λ o. elim (Option-cases (hash r)) [
      | inl h ↦ absurd (nothing (rw (o, h) at e))
      | inr (r'', h) ↦ h ∙ ap (λ (p : Resource × ℕ). some p.0) (some_injective (rw (o, h) at e))
    ],
    λ o. sym (ap (λ (p : Resource × ℕ). p.0) (some_injective (rw o at e))),
  )
    where
      nothing : {x : Resource × ℕ} → none ≡ some x → ⊥
      nothing q = cc

  -- Where nothing was counted, nothing has changed.
  hash_one-zero : (r r' : Resource) (n : ℕ) → hash_one hash r ≡ some (r', n) → n ≡ 0 → r' ≡ r
  unfolding hash_one
  hash_one-zero r r' n e z = elim (Bool-cases (has_opaque_values r.properties)) [
    | inr o ↦ (hash_one-IsHashed r r' n e).1 o
    | inl o ↦ elim (Option-cases (hash r)) [
      | inl h ↦ absurd (nothing (rw (o, h) at e))
      | inr (r'', h) ↦
          absurd (one (ap (λ (p : Resource × ℕ). p.1) (some_injective (rw (o, h) at e)) ∙ z))
    ]
  ]
    where
      nothing : {x : Resource × ℕ} → none ≡ some x → ⊥
      nothing q = cc

      one : ◌≡◌ {A = ℕ} 1 0 → ⊥
      one q = omega (arith, q)

  hash_resources-AllHashed :
      (rs rs' : List Resource) (n : ℕ)
      → hash_resources hash rs ≡ some (rs', n)
      → AllHashed hash rs rs' × (n ≡ 0 → rs' ≡ rs)
  unfolding hash_resources
  hash_resources-AllHashed [] rs' n e =
      let q = some_injective e in
      (
        subst (λ (p : List Resource × ℕ). AllHashed hash [] p.0) q tt,
        λ z. sym (ap (λ (p : List Resource × ℕ). p.0) q),
      )
  hash_resources-AllHashed (r ∷ rs) rs' n e =
      let (x, e1, e2) = bind-some (hash_one hash r) _ e in
      let (y, e3, e4) = bind-some (hash_resources hash rs) _ e2 in
      let q = some_injective e4 in
      let (h, same) = hash_resources-AllHashed rs y.0 y.1 e3 in
      (
        subst (λ (p : List Resource × ℕ). AllHashed hash (r ∷ rs) p.0) q
            (hash_one-IsHashed r x.0 x.1 e1, h),
        λ z.
            let t = ap (λ (p : List Resource × ℕ). p.1) q ∙ z in
            sym (ap (λ (p : List Resource × ℕ). p.0) q)
            ∙ (ap (λ a. a ∷ y.0) (hash_one-zero r x.0 x.1 e1 (sum_left x.1 y.1 t))
                ∙ ap (λ a. r ∷ a) (same (sum_right x.1 y.1 t))),
      )

  hash_updates-UpdatesHashed :
      (us us' : List ResourceUpdate) (n : ℕ)
      → hash_updates hash us ≡ some (us', n)
      → UpdatesHashed hash us us' × (n ≡ 0 → us' ≡ us)
  unfolding hash_updates
  hash_updates-UpdatesHashed [] us' n e =
      let q = some_injective e in
      (
        subst (λ (p : List ResourceUpdate × ℕ). UpdatesHashed hash [] p.0) q tt,
        λ z. sym (ap (λ (p : List ResourceUpdate × ℕ). p.0) q),
      )
  hash_updates-UpdatesHashed (u ∷ us) us' n e =
      let (x, e1, e2) = bind-some (hash_one hash u.resource) _ e in
      let (y, e3, e4) = bind-some (hash_updates hash us) _ e2 in
      let q = some_injective e4 in
      let (h, same) = hash_updates-UpdatesHashed us y.0 y.1 e3 in
      (
        subst (λ (p : List ResourceUpdate × ℕ). UpdatesHashed hash (u ∷ us) p.0) q
            ((x.0, hash_one-IsHashed u.resource x.0 x.1 e1, refl), h),
        λ z.
            let t = ap (λ (p : List ResourceUpdate × ℕ). p.1) q ∙ z in
            sym (ap (λ (p : List ResourceUpdate × ℕ). p.0) q)
            ∙ (ap (λ a. record u { resource = a } ∷ y.0)
                  (hash_one-zero u.resource x.0 x.1 e1 (sum_left x.1 y.1 t))
                ∙ ap (λ a. u ∷ a) (same (sum_right x.1 y.1 t))),
      )

  hash_command-CommandHashed :
      (c c' : FormaCommand) (n : ℕ)
      → hash_command hash c ≡ some (c', n)
      → CommandHashed hash c c' × (n ≡ 0 → c' ≡ c)
  unfolding hash_command
  hash_command-CommandHashed c c' n e =
      let (x, e1, e2) = bind-some (hash_resources hash c.resources) _ e in
      let (y, e3, e4) = bind-some (hash_updates hash c.resource_updates) _ e2 in
      let q = some_injective e4 in
      let (h, same) = hash_resources-AllHashed c.resources x.0 x.1 e1 in
      let (k, same') = hash_updates-UpdatesHashed c.resource_updates y.0 y.1 e3 in
      (
        (x.0, y.0, h, k, sym (ap (λ (p : FormaCommand × ℕ). p.0) q)),
        λ z.
            let t = ap (λ (p : FormaCommand × ℕ). p.1) q ∙ z in
            sym (ap (λ (p : FormaCommand × ℕ). p.0) q)
            ∙ (ap (λ a. record c { resources = a; resource_updates = y.0 })
                  (same (sum_left x.1 y.1 t))
                ∙ ap (λ a. record c { resource_updates = a }) (same' (sum_right x.1 y.1 t))),
      )

  -- The command at the id is hashed from the first datastore to the second, and no other command changes.
  abbrev pub StoredHashed : Text → Datastore → Datastore → Type 0
  StoredHashed id d d' =
      (c : FormaCommand) × (c' : FormaCommand) × (d id ≡ some c)
      × (d' id ≡ some c')
      × CommandHashed hash c c'
      × ((k : Text) → id ≢ k → d' k ≡ d k)

  store-StoredHashed :
      (writable : Bool) (id : Text) (c c' : FormaCommand) (d : Datastore)
      → d id ≡ some c
      → c'.id ≡ id
      → CommandHashed hash c c'
      → (store writable c' d).1 ≡ Answer.done
      → StoredHashed id d (store writable c' d).0
  unfolding store store_forma_command
  store-StoredHashed false id c c' d l at h a = cc
  store-StoredHashed true id c c' d l at h a = (
    c,
    c',
    l,
    if_pos (text_discrete c'.id id) at (some c') (d id),
    h,
    λ k n. if_neg (text_discrete c'.id k) (λ e. n (sym at ∙ e)) (some c') (d k),
  )

  store_hashed-StoredHashed :
      (writable : Bool) (id : Text) (c : FormaCommand) (d : Datastore)
      (r : Option (FormaCommand × ℕ))
      → hash_command hash c ≡ r
      → d id ≡ some c
      → c.id ≡ id
      → (store_hashed writable r d).1 ≡ Answer.done
      → StoredHashed id d (store_hashed writable r d).0
  unfolding store_hashed
  store_hashed-StoredHashed writable id c d none h l at a = cc
  store_hashed-StoredHashed writable id c d (some (c', n)) h l at a =
      let (hashed, zero_same) = hash_command-CommandHashed c c' n h in
      elim (Bool-cases (ltb 0 n)) [
        | inl e ↦ rw e (
            store-StoredHashed writable id c c' d l ((hash_command-same c c' n h).0 ∙ at) hashed
              (rw e at a))
        | inr e ↦
            rw e (
              c,
              c,
              l,
              l,
              subst (CommandHashed hash c) (zero_same (is_zero n e)) hashed,
              λ k m. refl,
            )
      ]
    where
      is_zero : (n : ℕ) → ltb 0 n ≡ false → n ≡ 0
      is_zero n e = ground (arith, e)

  mark_complete-StoredHashed :
      (writable : Bool) (id : Text) (d : Datastore)
      → IsConsistent d
      → (o : Option FormaCommand) → d id ≡ o
      → (mark_forma_command_complete hash writable o d).1 ≡ Answer.done
      → StoredHashed id d (mark_forma_command_complete hash writable o d).0
  unfolding mark_forma_command_complete
  mark_complete-StoredHashed writable id d s none e a = cc
  mark_complete-StoredHashed writable id d s (some c) e a =
      store_hashed-StoredHashed writable id c d (hash_command hash c) refl e (s.at_its_id id c e) a

  -- When the persister, with consistent commands, answers MarkFormaCommandAsComplete without an error, the
  -- command was stored, and is now stored with each resource of its forma and of its updates that has
  -- opaque values replaced by what the transformer makes of it. The other resources, the other fields of
  -- the updates and the command, and the other commands are as before.
  pub handle_call-StoredHashed :
      (readable writable : Bool) (id : Text) (d : Datastore)
      → IsConsistent d
      → (handle_call hash readable writable (mark_forma_command_as_complete id) d).1 ≡ Answer.done
      → StoredHashed id d
          (handle_call hash readable writable (mark_forma_command_as_complete id) d).0
  unfolding handle_call get_forma_command
  handle_call-StoredHashed false writable id d s a = cc
  handle_call-StoredHashed true writable id d s a =
      mark_complete-StoredHashed writable id d s (d id) refl a
