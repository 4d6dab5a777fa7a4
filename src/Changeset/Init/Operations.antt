-- ===== src/Changeset/Init/Operations.antt =====
-- What the maps of the link builders (changeset.go) hold.
use formae.Prelude.{
  ◌≡◌, ◌⊎◌, inl, inr, ap, Bool, true, some, List, ◌∷◌, [], Text, text_discrete, In, in-append_right,
  in-append_left, arith, Option-cases, Distinct, Distinct-snoc, dec_in, if_pos, if_neg,
}
use formae.Model.Uri.{FormaeUri}
use formae.ResourceUpdate
use formae.ResourceUpdate.{OperationType, ResourceUpdate}
use formae.Changeset.Pipeline.{Pipeline, operation_uri}
use formae.Changeset.Init.{
  add_group, add_groups, last_op, delete_op, change_op, delete_of_key, create_of_key,
}

pub last_op-some :
    (test : ResourceUpdate → Bool) (ops : List ResourceUpdate) (u : ResourceUpdate)
    → last_op test ops ≡ some u
    → In u ops × (test u ≡ true)
unfolding last_op
last_op-some test [] u e = cc
last_op-some test (x ∷ xs) u e = elim (Option-cases (last_op test xs)) [
  | inl n ↦ ground arith
  | inr (v, s) ↦ ground (arith, last_op-some test xs u)
]

pub add_groups-keys :
    (p : Pipeline) (ops : List ResourceUpdate) (u : ResourceUpdate)
    → In (operation_uri u) p.keys ⊎ In u ops
    → In (operation_uri u) (add_groups p ops).keys
unfolding add_groups add_group
add_groups-keys p [] u m = ground arith
add_groups-keys p (x ∷ xs) u m = add_groups-keys (add_group p x) xs u (next m)
  where
    next :
        In (operation_uri u) p.keys ⊎ In u (x ∷ xs)
        → In (operation_uri u) (add_group p x).keys ⊎ In u xs
    next (inl k) = ground (arith, in-append_left (operation_uri u) p.keys (operation_uri x ∷ []))
    next (inr (inl e)) = elim (dec_in text_discrete (operation_uri x) p.keys) [
      | yes old ↦ inl (rw (if_pos (dec_in text_discrete (operation_uri x) p.keys) old) (rw e old))
      | no new ↦ inl (
          rw (if_neg (dec_in text_discrete (operation_uri x) p.keys) new)
            (in-append_right _ p.keys _ (inl (ap operation_uri e))))
    ]
    next (inr (inr n)) = inr n

-- The keys of the map repeat nothing.
pub add_groups-Distinct :
    (p : Pipeline) (ops : List ResourceUpdate) → Distinct p.keys → Distinct (add_groups p ops).keys
unfolding add_groups add_group
add_groups-Distinct p [] d = d
add_groups-Distinct p (x ∷ xs) d =
    add_groups-Distinct (add_group p x) xs
      (ground (arith, Distinct-snoc (operation_uri x) p.keys d))

-- What an entry of one of the maps is.
pub record IsEntry (ops : List ResourceUpdate) (uri : FormaeUri) (op : ResourceUpdate)
    : Type 0 where
  pub listed : In op ops
  pub located : ResourceUpdate.uri op ≡ uri

pub delete_op-some :
    (ops : List ResourceUpdate) (k : FormaeUri) (op : ResourceUpdate)
    → delete_op ops k ≡ some op
    → IsEntry ops k op × (op.operation ≡ OperationType.delete)
unfolding delete_op
delete_op-some ops k op e =
    let (m, t) = last_op-some _ ops op e in
    (record { listed = m; located = ground arith }, ground arith)

pub change_op-some :
    (ops : List ResourceUpdate) (k : FormaeUri) (op : ResourceUpdate)
    → change_op ops k ≡ some op
    → IsEntry ops k op
unfolding change_op
change_op-some ops k op e =
    let (m, t) = last_op-some _ ops op e in record { listed = m; located = ground arith }

pub delete_of_key-some :
    (ops : List ResourceUpdate) (k : Text) (op : ResourceUpdate)
    → delete_of_key ops k ≡ some op
    → In op ops × (op.operation ≡ OperationType.delete)
unfolding delete_of_key
delete_of_key-some ops k op e = let (m, t) = last_op-some _ ops op e in (m, ground arith)

pub create_of_key-some :
    (ops : List ResourceUpdate) (k : Text) (op : ResourceUpdate)
    → create_of_key ops k ≡ some op
    → In op ops × (op.operation ≡ OperationType.create)
unfolding create_of_key
create_of_key-some ops k op e = let (m, t) = last_op-some _ ops op e in (m, ground arith)
