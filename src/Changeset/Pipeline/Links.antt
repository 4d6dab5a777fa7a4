-- ===== src/Changeset/Pipeline/Links.antt =====
-- LinkWith, UnlinkWith and RemoveUpstreamGroup (changeset.go) keep both ends of a link in step.
use formae.Prelude.{
  subst, sym, ◌≡◌, ◌≢◌, ◌⊎◌, ◌↔◌, inl, inr, refl, List, ◌++◌, ◌∷◌, [], In, Distinct, Distinct-snoc,
  in-append, in-append_left, in-append_right, erase, text_discrete, if_pos, if_neg, arith,
}
use formae.Model.Uri.{FormaeUri}
use formae.Changeset.Pipeline.{Group, Groups, put, link_with, remove_upstream_group}

-- Between the groups of the map every link has its two ends, each once, and a group of the map waits
-- only for groups of the map. A group may still point downstream to one that was deleted.
pub record IsLinked (h : Groups) (keys : List FormaeUri) : Type 0 where
  pub up_live : (k u : FormaeUri) → In k keys → In u (h k).upstream → In u keys
  pub up_down : (k u : FormaeUri) → In k keys → In u (h k).upstream → In k (h u).downstream
  pub down_up :
      (k d : FormaeUri) → In k keys → In d keys → In d (h k).downstream → In k (h d).upstream
  pub up_distinct : (k : FormaeUri) → Distinct (h k).upstream
  pub down_distinct : (k : FormaeUri) → Distinct (h k).downstream

put_self : (h : Groups) (k : FormaeUri) (g : Group) → put h k g k ≡ g
unfolding put
put_self h k g = if_pos (text_discrete k k) refl g (h k)

put_ne : (h : Groups) (k j : FormaeUri) (g : Group) → k ≢ j → put h k g j ≡ h j
unfolding put
put_ne h k j g ne = if_neg (text_discrete k j) ne g (h j)

in-snoc : (x a : FormaeUri) (xs : List FormaeUri) → In x (xs ++ a ∷ []) ↔ (In x xs ⊎ (x ≡ a))
in-snoc x a xs = (
  λ m. elim (in-append x xs (a ∷ []) m) [
    | inl l ↦ inl l
    | inr r ↦ elim r [ inl e ↦ inr e | inr n ↦ absurd n ]
  ],
  λ m. elim m [ inl l ↦ in-append_left x xs _ l | inr e ↦ in-append_right x xs _ (inl e) ],
)

module _ (h : Groups) (rug up : FormaeUri) where
  pub link_with-updates : (k : FormaeUri) → (link_with h rug up k).updates ≡ (h k).updates
  unfolding link_with put
  link_with-updates k = ground arith

  -- Which upstream links there are after `LinkWith`.
  pub link_with-upstream :
      (k x : FormaeUri)
      → In x (link_with h rug up k).upstream ↔ (In x (h k).upstream ⊎ ((k ≡ rug) × (x ≡ up)))
  unfolding link_with put
  link_with-upstream k x =
      ground (arith, in-snoc x up (h rug).upstream, in-snoc x up (h k).upstream)

  -- Which downstream links there are, if a link that is there already has its other end.
  pub link_with-downstream :
      (In up (h rug).upstream → In rug (h up).downstream)
      → (k x : FormaeUri)
      → In x (link_with h rug up k).downstream ↔ (In x (h k).downstream ⊎ ((k ≡ up) × (x ≡ rug)))
  unfolding link_with put
  link_with-downstream both k x =
      ground (arith, in-snoc x rug (h up).downstream, in-snoc x rug (h rug).downstream)

  link_with-Distinct :
      ((k : FormaeUri) → Distinct (h k).upstream)
      → ((k : FormaeUri) → Distinct (h k).downstream)
      → (In rug (h up).downstream → In up (h rug).upstream)
      → (k : FormaeUri)
      → Distinct (link_with h rug up k).upstream × Distinct (link_with h rug up k).downstream
  unfolding link_with put
  link_with-Distinct du dd back k = ground (
    arith,
    du k,
    dd k,
    Distinct-snoc up (h rug).upstream (du rug),
    Distinct-snoc rug (h up).downstream (dd up),
  )

-- Linked, and no group of the map points to a group outside.
pub record IsWired (h : Groups) (keys : List FormaeUri) : Type 0 where
  pub linked : IsLinked h keys
  pub down_live : (k d : FormaeUri) → In k keys → In d (h k).downstream → In d keys

pub link_with-IsWired :
    (h : Groups) (keys : List FormaeUri) (rug up : FormaeUri)
    → In rug keys
    → In up keys
    → IsWired h keys
    → IsWired (link_with h rug up) keys
link_with-IsWired h keys rug up mr mu w = record {
  linked = record {
    up_live = λ k u mk m. elim ((ups k u).0 m) [ inl l ↦ up_live k u mk l | inr (a, b) ↦ rw b mu ];
    up_down = λ k u mk m. elim ((ups k u).0 m) [
      | inl l ↦ (downs u k).1 (inl (up_down k u mk l))
      | inr (a, b) ↦ (downs u k).1 (inr (b, a))
    ];
    down_up = λ k d mk md m. elim ((downs k d).0 m) [
      | inl l ↦ (ups d k).1 (inl (down_up k d mk md l))
      | inr (a, b) ↦ (ups d k).1 (inr (b, a))
    ];
    up_distinct = λ k. (dist k).0;
    down_distinct = λ k. (dist k).1;
  };
  down_live =
      λ k d mk m. elim ((downs k d).0 m) [ inl l ↦ down_live k d mk l | inr (a, b) ↦ rw b mr ];
}
  where
    open w use {down_live, linked.{up_live, up_down, down_up, up_distinct, down_distinct}}

    ups :
        (k x : FormaeUri)
        → In x (link_with h rug up k).upstream ↔ (In x (h k).upstream ⊎ ((k ≡ rug) × (x ≡ up)))
    ups = link_with-upstream h rug up

    downs :
        (k x : FormaeUri)
        → In x (link_with h rug up k).downstream ↔ (In x (h k).downstream ⊎ ((k ≡ up) × (x ≡ rug)))
    downs = link_with-downstream h rug up (up_down rug up mr)

    dist :
        (k : FormaeUri)
        → Distinct (link_with h rug up k).upstream × Distinct (link_with h rug up k).downstream
    dist = link_with-Distinct h rug up up_distinct down_distinct (down_up up rug mu mr)

-- Dropping a group from the map, once every group that waits for it has dropped it, in the way of
-- RemoveUpstreamGroup.
module _ (h : Groups) (d u : FormaeUri) where
  remove_upstream_group_self :
      (remove_upstream_group h d u d).upstream ≡ erase text_discrete u (h d).upstream
  unfolding remove_upstream_group put
  remove_upstream_group_self = ground arith

-- Links do not depend on the updates.
pub IsLinked-same :
    {h h' : Groups} {keys : List FormaeUri}
    → ((j : FormaeUri) → (h' j).upstream ≡ (h j).upstream)
    → ((j : FormaeUri) → (h' j).downstream ≡ (h j).downstream)
    → IsLinked h keys
    → IsLinked h' keys
IsLinked-same up down l = record {
  up_live = λ j u m w. l.up_live j u m (subst (In u) (up j) w);
  up_down = λ j u m w. subst (In j) (sym (down u)) (l.up_down j u m (subst (In u) (up j) w));
  down_up =
      λ j d mj md w. subst (In j) (sym (up d)) (l.down_up j d mj md (subst (In d) (down j) w));
  up_distinct = λ j. subst Distinct (sym (up j)) (l.up_distinct j);
  down_distinct = λ j. subst Distinct (sym (down j)) (l.down_distinct j);
}
