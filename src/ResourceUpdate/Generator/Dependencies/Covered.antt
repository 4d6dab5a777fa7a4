-- ===== src/ResourceUpdate/Generator/Dependencies/Covered.antt =====
-- Every dependency delete is carried out in the end (resource_update_generator.go).
use formae.Prelude.{
  ◌≡◌, ◌⊎◌, inl, inr, refl, sym, ap, subst, ◌∙◌, Bool, true, ◌&&◌, List, ◌++◌, ◌∷◌, [], Text, In,
  any, in-append_left, in-append_right, remove_first, Bool-cases, arith,
}
use formae.Prelude.Results.{ok, Result-cases}
use formae.Model.Uri.{stripped, new_formae_uri}
use formae.Model.Resource
use formae.Model.Resource.{Resource}
use formae.Model.Forma.{same}
use formae.ResourceUpdate
use formae.ResourceUpdate.{OperationType, CommandSource, ResourceUpdate}
use formae.ResourceUpdate.Factory.{Documents}
use formae.ResourceUpdate.Factory.Laws.{replace-resources}
use formae.ResourceUpdate.Generator.{is_delete_update, is_update_update}
use formae.ResourceUpdate.Generator.Dependencies.{
  same_uri, replacement, convert_updates, add_missing_deletes,
  convert_updates_to_replacements_for_dependencies,
}

same-equal : (a b : Text) → same a b ≡ true → a ≡ b
same-equal a b h = ground (arith, h)

equal-same : (a b : Text) → a ≡ b → same a b ≡ true
equal-same a b h = ground (arith, h)

abbrev stripped_uri : ResourceUpdate → Text
unfolding ResourceUpdate.uri stripped
stripped_uri u = stripped (ResourceUpdate.uri u)

-- The list deletes the resource of the update.
pub record IsCovered (d : ResourceUpdate) (us : List ResourceUpdate) : Type 0 where
  pub by : ResourceUpdate
  pub listed : In by us
  pub same_resource : same_uri by d ≡ true
  pub deletes : is_delete_update by ≡ true

IsCovered-weaken :
    (d : ResourceUpdate) (us vs : List ResourceUpdate)
    → ((u : ResourceUpdate) → In u us → In u vs)
    → IsCovered d us
    → IsCovered d vs
IsCovered-weaken d us vs h c = record {
  by = c.by;
  listed = h c.by c.listed;
  same_resource = c.same_resource;
  deletes = c.deletes;
}

any-IsCovered :
    (d : ResourceUpdate) (us : List ResourceUpdate)
    → any (λ u. same_uri u d && is_delete_update u) us ≡ true
    → IsCovered d us
any-IsCovered d [] h = cc
any-IsCovered d (u ∷ us) h = elim (Bool-cases (same_uri u d && is_delete_update u)) [
  | inl q ↦ record {
    by = u;
    listed = inl refl;
    same_resource = ground (arith, q);
    deletes = ground (arith, q);
  }
  | inr q ↦ IsCovered-weaken d us (u ∷ us) (λ v m. inr m) (any-IsCovered d us (rw q at h))
]

self-IsCovered :
    (d : ResourceUpdate) (us : List ResourceUpdate)
    → is_delete_update d ≡ true
    → In d us
    → IsCovered d us
unfolding same_uri
self-IsCovered d us h m = record {
  by = d;
  listed = m;
  same_resource = equal-same (stripped_uri d) (stripped_uri d) refl;
  deletes = h;
}

add_missing_deletes-IsCovered :
    (d : ResourceUpdate) (out ds : List ResourceUpdate)
    → is_delete_update d ≡ true
    → IsCovered d out ⊎ In d ds
    → IsCovered d (add_missing_deletes out ds)
unfolding add_missing_deletes
add_missing_deletes-IsCovered d out [] h (inl c) = c
add_missing_deletes-IsCovered d out [] h (inr n) = absurd n
add_missing_deletes-IsCovered d out (x ∷ ds) h m =
    elim (Bool-cases (any (λ u. same_uri u x && is_delete_update u) out)) [
      | inl q ↦ rw q (
          add_missing_deletes-IsCovered d out ds h (elim m [
            | inl c ↦ inl c
            | inr (inl e) ↦ inl (
                any-IsCovered d out
                  (subst (λ y. any (λ u. same_uri u y && is_delete_update u) out ≡ true) (sym e) q))
            | inr (inr n) ↦ inr n
          ]))
      | inr q ↦ rw q (
          add_missing_deletes-IsCovered d (out ++ x ∷ []) ds h (elim m [
            | inl c ↦
                inl (
                  IsCovered-weaken d out (out ++ x ∷ []) (λ u n. in-append_left u out (x ∷ []) n) c)
            | inr (inl e) ↦
                inl (self-IsCovered d (out ++ x ∷ []) h (in-append_right d out (x ∷ []) (inl e)))
            | inr (inr n) ↦ inr n
          ]))
    ]

in-remove_first :
    (test : ResourceUpdate → Bool) (d : ResourceUpdate) (ds : List ResourceUpdate)
    → In d ds
    → In d (remove_first test ds) ⊎ (test d ≡ true)
in-remove_first test d [] m = absurd m
in-remove_first test d (x ∷ ds) m = elim (Bool-cases (test x)) [
  | inl q ↦ rw q (elim m [ inl e ↦ inr (ap test e ∙ q) | inr n ↦ inl n ])
  | inr q ↦ rw q (elim m [
    | inl e ↦ inl (inl e)
    | inr n ↦ elim (in-remove_first test d ds n) [ inl k ↦ inl (inr k) | inr k ↦ inr k ]
  ])
]

-- The resource of an update is the one that it changes.
abbrev pub KeepsResource : List ResourceUpdate → Type 0
KeepsResource us =
    (u : ResourceUpdate)
    → In u us
    → is_update_update u ≡ true
    → u.existing_resource.ksuid ≡ u.resource.ksuid

module _ (docs : Documents) (source : CommandSource) where
  replacement-IsCovered :
      (u d : ResourceUpdate) (rs : List ResourceUpdate)
      → replacement docs source u ≡ ok rs
      → u.existing_resource.ksuid ≡ u.resource.ksuid
      → same_uri d u ≡ true
      → IsCovered d rs
  unfolding replacement same_uri ResourceUpdate.uri Resource.uri
  replacement-IsCovered u d rs e k s =
      let (x, c, made, o, r, _, _) =
        replace-resources docs source u.existing_resource u.resource u.existing_target
          u.resource_target rs e in
      record {
        by = x;
        listed = subst (In x) (sym made) (inl refl);
        same_resource = equal-same (stripped_uri x) (stripped_uri d) (
            ap (λ (y : Resource). stripped (Resource.uri y)) r
            ∙ ap (λ y. stripped (new_formae_uri y [])) k
            ∙ sym (same-equal (stripped_uri d) (stripped_uri u) s));
        deletes = is_delete-delete x o;
      }
    where
      is_delete-delete :
          (x : ResourceUpdate) → x.operation ≡ OperationType.delete → is_delete_update x ≡ true
      is_delete-delete x o = ground (arith, o)

  convert_updates-IsCovered :
      (us deps : List ResourceUpdate) (d : ResourceUpdate)
      → KeepsResource us
      → In d deps
      → IsCovered d (convert_updates docs source us deps).0
        ⊎ In d (convert_updates docs source us deps).1
  unfolding convert_updates
  convert_updates-IsCovered [] deps d k m = inr m
  convert_updates-IsCovered (u ∷ us) deps d k m =
      elim (Bool-cases (is_update_update u && any (λ x. same_uri u x) deps)) [
        | inr q ↦
            rw (q, convert_updates)
              (elim (convert_updates-IsCovered us deps d later m) [
                | inl c ↦ inl (IsCovered-weaken d _ _ (λ v n. inr n) c)
                | inr n ↦ inr n
              ])
        | inl q ↦
            let same = k u (inl refl) (is_update-and q) in
            elim (Result-cases (replacement docs source u)) [
              | inl (x, e) ↦
                  rw (q, e, convert_updates) (convert_updates-IsCovered us deps d later m)
              | inr (rs, e) ↦
                  rw (q, e, convert_updates)
                    (elim (in-remove_first (λ x. same_uri x u) d deps m) [
                      | inl n ↦
                          elim (convert_updates-IsCovered us (remove_first (λ x. same_uri x u) deps)
                            d later n) [
                              | inl c ↦
                                  inl (IsCovered-weaken d _ _ (λ v i. in-append_right v rs _ i) c)
                              | inr i ↦ inr i
                            ]
                      | inr s ↦ inl (
                          IsCovered-weaken d _ _ (λ v i. in-append_left v rs _ i)
                            (replacement-IsCovered u d rs e same s))
                    ])
            ]
      ]
    where
      later : KeepsResource us
      later v n = k v (inr n)

      is_update-and :
          is_update_update u && any (λ x. same_uri u x) deps ≡ true → is_update_update u ≡ true
      is_update-and q = ground (arith, q)

  -- Every dependency delete is covered in the result: a delete of its resource is there, be it the first half of
  -- the replacement of an update or the dependency delete. An update in the list changes the resource
  -- that it is for.
  pub convert_updates_to_replacements_for_dependencies-IsCovered :
      (us deps : List ResourceUpdate) (d : ResourceUpdate)
      → KeepsResource us
      → In d deps
      → is_delete_update d ≡ true
      → IsCovered d (convert_updates_to_replacements_for_dependencies docs source us deps)
  unfolding convert_updates_to_replacements_for_dependencies
  convert_updates_to_replacements_for_dependencies-IsCovered us deps d k m h =
      add_missing_deletes-IsCovered d (convert_updates docs source us deps).0
        (convert_updates docs source us deps).1 h (convert_updates-IsCovered us deps d k m)
