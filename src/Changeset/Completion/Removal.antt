-- ===== src/Changeset/Completion/Removal.antt =====
-- What UnlinkWith and RemoveUpstreamGroup (changeset.go) do to the links of one upstream group.
use formae.Prelude.{
  ℕ, zero, suc, ◌≡◌, ◌≢◌, inl, inr, refl, sym, subst, ◌∙◌, Bool, true, false, Option, none, some,
  List, ◌∷◌, [], text_discrete, In, Distinct, in-erase, in-erase_ne, not-in-erase, erase-Distinct,
  length, get_elem?, any, if◌then◌else◌, arith, Bool-cases,
}
use formae.Model.Uri.{FormaeUri, stripped}
use formae.ResourceUpdate.{ResourceUpdate}
use formae.Changeset.Pipeline.{Groups, put, remove_upstream_group, unlink_with, same_text}
use formae.Changeset.Completion.{
  remove_from, Unblocking, unlink_updates, unblock_at, unblock_from, unblock_downstream, is_change,
}

-- From `h` to `h'` only links to `up` are taken away. A group that still waits for `up` is still
-- downstream of it.
pub record Loosens (up : FormaeUri) (h h' : Groups) : Type 0 where
  pub updates_same : (j : FormaeUri) → (h' j).updates ≡ (h j).updates
  pub down_other : (j : FormaeUri) → up ≢ j → (h' j).downstream ≡ (h j).downstream
  pub down_sub : (j : FormaeUri) → In j (h' up).downstream → In j (h up).downstream
  pub down_distinct : Distinct (h up).downstream → Distinct (h' up).downstream
  pub up_sub : (j x : FormaeUri) → In x (h' j).upstream → In x (h j).upstream
  pub up_keep : (j x : FormaeUri) → up ≢ x → In x (h j).upstream → In x (h' j).upstream
  pub up_distinct : (j : FormaeUri) → Distinct (h j).upstream → Distinct (h' j).upstream
  pub still :
      (j : FormaeUri)
      → Distinct (h j).upstream
      → In j (h up).downstream
      → In up (h' j).upstream
      → In j (h' up).downstream

pub Loosens-refl : {up : FormaeUri} (h : Groups) → Loosens up h h
Loosens-refl h = record {
  updates_same = λ j. refl;
  down_other = λ j n. refl;
  down_sub = λ j m. m;
  down_distinct = λ d. d;
  up_sub = λ j x m. m;
  up_keep = λ j x n m. m;
  up_distinct = λ j d. d;
  still = λ j d m w. m;
}

pub Loosens-trans :
    {up : FormaeUri} {h h' h'' : Groups} → Loosens up h h' → Loosens up h' h'' → Loosens up h h''
Loosens-trans a b = record {
  updates_same = λ j. b.updates_same j ∙ a.updates_same j;
  down_other = λ j n. b.down_other j n ∙ a.down_other j n;
  down_sub = λ j m. a.down_sub j (b.down_sub j m);
  down_distinct = λ d. b.down_distinct (a.down_distinct d);
  up_sub = λ j x m. a.up_sub j x (b.up_sub j x m);
  up_keep = λ j x n m. b.up_keep j x n (a.up_keep j x n m);
  up_distinct = λ j d. b.up_distinct j (a.up_distinct j d);
  still = λ j d m w. b.still j (a.up_distinct j d) (a.still j d m (b.up_sub j _ w)) w;
}

module _ (h : Groups) (d up : FormaeUri) where
  remove_upstream_group-Loosens : Loosens up h (remove_upstream_group h d up)
  unfolding remove_upstream_group put
  remove_upstream_group-Loosens = record {
    updates_same = λ j. ground arith;
    down_other = λ j n. ground arith;
    down_sub = λ j m. ground arith;
    down_distinct = λ e. ground arith;
    up_sub = λ j x m. ground (arith, in-erase text_discrete up x (h d).upstream);
    up_keep = λ j x n m. ground (arith, in-erase_ne text_discrete up x (h d).upstream);
    up_distinct = λ j e. ground (arith, erase-Distinct text_discrete up (h d).upstream);
    still = λ j e m w. ground arith;
  }

  remove_upstream_group-clears :
      Distinct (h d).upstream → ¬ In up (remove_upstream_group h d up d).upstream
  unfolding remove_upstream_group put
  remove_upstream_group-clears e m = ground (arith, not-in-erase text_discrete up (h d).upstream e)

  unlink_with-Loosens : Loosens up h (unlink_with h d up)
  unfolding unlink_with put
  unlink_with-Loosens = record {
    updates_same = λ j. ground arith;
    down_other = λ j n. ground arith;
    down_sub = λ j m. ground (
      arith,
      in-erase text_discrete d j (h up).downstream,
      in-erase text_discrete d j (h d).downstream,
    );
    down_distinct = λ e. ground (
      arith,
      erase-Distinct text_discrete d (h up).downstream,
      erase-Distinct text_discrete d (h d).downstream,
    );
    up_sub = λ j x m. ground (arith, in-erase text_discrete up x (h d).upstream);
    up_keep = λ j x n m. ground (arith, in-erase_ne text_discrete up x (h d).upstream);
    up_distinct = λ j e. ground (arith, erase-Distinct text_discrete up (h d).upstream);
    still = λ j e m w. elim (text_discrete d j) [
      | yes q ↦ absurd (gone j q e w)
      | no ne ↦ ground (
        arith,
        in-erase_ne text_discrete d j (h up).downstream,
        in-erase_ne text_discrete d j (h d).downstream,
      )
    ];
  }
    where
      gone :
          (j : FormaeUri)
          → d ≡ j
          → Distinct (h j).upstream
          → ¬ In up (unlink_with h d up j).upstream
      gone j q e w =
          let e' = subst (λ x. Distinct (h x).upstream) (sym q) e in
          let w' = subst (λ x. In up (unlink_with h d up x).upstream) (sym q) w in
          ground (arith, not-in-erase text_discrete up (h d).upstream e')

-- A pass of RemoveUpstreamGroup over a list of groups.
pub remove_from-Loosens :
    (ds : List FormaeUri) (up : FormaeUri) (h : Groups) → Loosens up h (remove_from ds up h)
unfolding remove_from
remove_from-Loosens [] up h = Loosens-refl h
remove_from-Loosens (d ∷ ds) up h =
    Loosens-trans (remove_upstream_group-Loosens h d up)
      (remove_from-Loosens ds up (remove_upstream_group h d up))

pub remove_from-clears :
    (ds : List FormaeUri) (up : FormaeUri) (h : Groups) (d : FormaeUri)
    → Distinct (h d).upstream
    → In d ds
    → ¬ In up (remove_from ds up h d).upstream
unfolding remove_from
remove_from-clears [] up h d e m w = m
remove_from-clears (x ∷ ds) up h d e (inl q) w =
    let e' = subst (λ y. Distinct (h y).upstream) q e in
    let kept = (remove_from-Loosens ds up (remove_upstream_group h x up)).up_sub d up w in
    remove_upstream_group-clears h x up e'
      (subst (λ y. In up (remove_upstream_group h x up y).upstream) q kept)
remove_from-clears (x ∷ ds) up h d e (inr m) w =
    remove_from-clears ds up (remove_upstream_group h x up) d
      ((remove_upstream_group-Loosens h x up).up_distinct d e) m w

Loosens-if :
    {up : FormaeUri} (b : Bool) (s t : Unblocking)
    → Loosens up s.groups t.groups
    → Loosens up s.groups (if b then t else s).groups
Loosens-if true s t l = l
Loosens-if false s t l = Loosens-refl s.groups

unlink_updates-Loosens :
    (uri up d : FormaeUri) (us : List ResourceUpdate) (s : Unblocking)
    → Loosens up s.groups (unlink_updates uri up d us s).groups
unfolding unlink_updates
unlink_updates-Loosens uri up d [] s = Loosens-refl s.groups
unlink_updates-Loosens uri up d (u ∷ us) s =
    Loosens-trans
      (Loosens-if (any (λ r. same_text (stripped r) uri) u.remaining_resolvables) s _
        (unlink_with-Loosens s.groups d up))
      (unlink_updates-Loosens uri up d us _)

unblock_at-Loosens :
    (uri up : FormaeUri) (o : Option FormaeUri) (s : Unblocking)
    → Loosens up s.groups (unblock_at uri up o s).groups
unfolding unblock_at
unblock_at-Loosens uri up none s = Loosens-refl s.groups
unblock_at-Loosens uri up (some d) s = unlink_updates-Loosens uri up d (s.groups d).updates s

-- Whichever groups the loop of UpdatePipeline meets, each of its steps only unlinks from `up`.
unblock_from-Loosens :
    (uri up : FormaeUri) (left i : ℕ) (s : Unblocking)
    → Loosens up s.groups (unblock_from uri up left i s).groups
unfolding unblock_from
unblock_from-Loosens uri up zero i s = Loosens-refl s.groups
unblock_from-Loosens uri up (suc left) i s =
    Loosens-trans (unblock_at-Loosens uri up (get_elem? s.array i) s)
      (unblock_from-Loosens uri up left (suc i) (unblock_at uri up (get_elem? s.array i) s))

pub unblock_downstream-Loosens :
    (update : ResourceUpdate) (k : FormaeUri) (h : Groups)
    → Loosens k h (unblock_downstream update k h)
unfolding unblock_downstream
unblock_downstream-Loosens update k h = elim (Bool-cases (is_change update.operation)) [
  | inl e ↦ rw e (unblock_from-Loosens _ k (length (h k).downstream) 0 _)
  | inr e ↦ rw e (Loosens-refl h)
]
