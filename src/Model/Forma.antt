-- ===== src/Model/Forma.antt =====
-- pkg/model/forma.go, target.go and stack.go: a forma, and its split into stacks.
use formae.Prelude.{
  Bool, true, false, List, ◌∷◌, [], Text, codes, text_discrete, ite, if◌then◌else◌, In, ◌≡◌, refl,
  ap, inl, inr, arith,
}
use formae.Model.Resource.{Resource}

-- The configuration of a target is a JSON document, kept as its text.
pub record Target : Type 0 where
  pub label : Text
  pub namespace : Text
  pub config : Text

pub record Stack : Type 0 where
  pub label : Text
  pub description : Text

-- The description and the properties of a forma are not read by the modelled code.
pub record Forma : Type 0 where
  pub stacks : List Stack
  pub targets : List Target
  pub resources : List Resource

unfoldable pub single_stack_label : Forma → Text
single_stack_label f = label_of f.stacks
  where
    label_of : List Stack → Text
    label_of (s ∷ []) = s.label
    label_of _ = codes "default"

abbrev pub same : Text → Text → Bool
same a b = ite (text_discrete a b) true false

abbrev is_stack_in : Text → List Stack → Bool
is_stack_in l [] = false
is_stack_in l (s ∷ ss) = if same s.label l then true else is_stack_in l ss

-- The last stack of the forma with the label, or a minimal one.
unfoldable pub stack_named : Text → List Stack → Stack
stack_named l [] = record { label = l; description = [] }
stack_named l (s ∷ ss) =
    let rest = stack_named l ss in
    if is_stack_in l ss then rest else if same s.label l then s else rest

unfoldable pub resources_in : Text → List Resource → List Resource
resources_in l [] = []
resources_in l (r ∷ rs) = let rest = resources_in l rs in if same r.stack l then r ∷ rest else rest

unfoldable pub stack_part : Text → Forma → Forma
unfolding stack_named resources_in
stack_part l f = record {
  stacks = stack_named l f.stacks ∷ [];
  targets = [];
  resources = resources_in l f.resources;
}

-- `SplitByStack`. Go ranges over a map from the labels of the resources' stacks: `order` is the order in
-- which it does.
unfoldable pub split_by_stack : (order : List Text) → Forma → List Forma
unfolding stack_part
split_by_stack [] f = []
split_by_stack (l ∷ ls) f = stack_part l f ∷ split_by_stack ls f

stack_named-label : (l : Text) (ss : List Stack) → (stack_named l ss).label ≡ l
unfolding stack_named
stack_named-label l [] = refl
stack_named-label l (s ∷ ss) = ground (arith, stack_named-label l ss)

pub single_stack_label-stack_part : (l : Text) (f : Forma) → single_stack_label (stack_part l f) ≡ l
unfolding single_stack_label stack_part
single_stack_label-stack_part l f = stack_named-label l f.stacks

pub split_by_stack-In :
    (order : List Text) (f x : Forma)
    → In x (split_by_stack order f)
    → (l : Text) × In l order × (x ≡ stack_part l f)
unfolding split_by_stack
split_by_stack-In [] f x m = absurd m
split_by_stack-In (l ∷ ls) f x (inl e) = (l, inl refl, e)
split_by_stack-In (l ∷ ls) f x (inr m) = let (k, n, e) = split_by_stack-In ls f x m in (k, inr n, e)

pub in-split_by_stack :
    (order : List Text) (f : Forma) (l : Text)
    → In l order
    → In (stack_part l f) (split_by_stack order f)
unfolding split_by_stack
in-split_by_stack [] f l m = absurd m
in-split_by_stack (k ∷ ls) f l (inl e) = inl (ap (λ x. stack_part x f) e)
in-split_by_stack (k ∷ ls) f l (inr m) = inr (in-split_by_stack ls f l m)
