-- ===== src/Model/Uri/Laws.antt =====
-- Round trips of the constructor and the accessors of FormaeURI (pkg/model/uri.go).
use formae.Prelude.{
  ◌≡◌, ◌≢◌, refl, ap, ◌∙◌, ◌⊎◌, inl, inr, true, false, Option, none, some, ◌++◌, ◌∷◌, [], drop, In,
  Text, codes, is_empty, has_prefix, split_2-append, split_2-some, has_prefix-drop, if◌then◌else◌,
  arith, Bool-cases,
}
use formae.Model.Uri.{
  FormaeUri, scheme, parts, valid_parts, path_of_fragment, new_formae_uri, is_valid, ksuid,
  property_path, stripped,
}

-- A KSUID is made of letters and digits: it holds no `#`.
abbrev pub IsKsuid : Text → Type 0
IsKsuid k = ¬ In b'#' k

module _ (k p : Text) (h : IsKsuid k) where
  abbrev new_fragment : Text
  new_fragment = if is_empty p then [] else b'/' ∷ p

  new-scheme : has_prefix scheme (new_formae_uri k p) ≡ true
  unfolding new_formae_uri
  new-scheme = elim (Bool-cases (is_empty p)) [ inl e ↦ rw e | inr e ↦ rw e ]

  new-parts : parts (new_formae_uri k p) ≡ (k, some new_fragment)
  unfolding new_formae_uri
  new-parts = elim (Bool-cases (is_empty p)) [
    | inl e ↦ rw e (split_2-append b'#' k [] h)
    | inr e ↦ rw e (split_2-append b'#' k (b'/' ∷ p) h)
  ]

pub ksuid-new_formae_uri : (k p : Text) → IsKsuid k → ksuid (new_formae_uri k p) ≡ k
unfolding ksuid
ksuid-new_formae_uri k p h = ground (arith, new-scheme k p h, new-parts k p h)

pub property_path-new_formae_uri : (k p : Text) → IsKsuid k → property_path (new_formae_uri k p) ≡ p
unfolding property_path
property_path-new_formae_uri k [] h = ground (arith, new-scheme k [] h, new-parts k [] h)
property_path-new_formae_uri k (c ∷ p) h =
    ground (arith, new-scheme k (c ∷ p) h, new-parts k (c ∷ p) h)

is_valid-new_formae_uri :
    (k p : Text) → IsKsuid k → is_valid (new_formae_uri k p) ≡ (if is_empty k then false else true)
unfolding is_valid
is_valid-new_formae_uri k [] h = ground (arith, new-scheme k [] h, new-parts k [] h)
is_valid-new_formae_uri k (c ∷ p) h = ground (arith, new-scheme k (c ∷ p) h, new-parts k (c ∷ p) h)

-- From any KSUID and any property path, `NewFormaeURI` builds a URI from which `KSUID` and
-- `PropertyPath` read both back; `IsValid` accepts it exactly when the KSUID is not empty.
pub new_formae_uri_round_trip :
    (k p : Text)
    → IsKsuid k
    → (ksuid (new_formae_uri k p) ≡ k)
      × (property_path (new_formae_uri k p) ≡ p)
      × (is_valid (new_formae_uri k p) ≡ (if is_empty k then false else true))
new_formae_uri_round_trip k p h =
    (ksuid-new_formae_uri k p h, property_path-new_formae_uri k p h, is_valid-new_formae_uri k p h)

-- The three shapes of what stands behind the first `#` of a valid URI.
valid_fragment :
    (before fragment : Text)
    → valid_parts before (some fragment) ≡ true
    → (before ≢ []) × ((fragment ≡ []) ⊎ ((rest : Text) × (fragment ≡ b'/' ∷ rest)))
valid_fragment [] fragment h = cc
valid_fragment (c ∷ b) [] h = ((λ e. cc), inl refl)
valid_fragment (c ∷ b) (d ∷ rest) h = ((λ e. cc), inr (rest, ground arith))

valid_split :
    (f : FormaeUri) (after : Option Text)
    → (parts f).1 ≡ after
    → valid_parts (parts f).0 after ≡ true
    → (fragment : Text) × ((parts f).1 ≡ some fragment)
valid_split f none e h = cc
valid_split f (some fragment) e h = (fragment, e)

record Form (f : FormaeUri) : Type 0 where
  prefixed : has_prefix scheme f ≡ true
  before : Text
  fragment : Text
  split : parts f ≡ (before, some fragment)
  named : before ≢ []
  slash : (fragment ≡ []) ⊎ ((rest : Text) × (fragment ≡ b'/' ∷ rest))

valid→Form : (f : FormaeUri) → is_valid f ≡ true → Form f
unfolding is_valid
valid→Form f h = elim (Bool-cases (has_prefix scheme f)) [
  | inr e ↦ absurd (ground arith)
  | inl e ↦
      let valid : valid_parts (parts f).0 (parts f).1 ≡ true = ground arith in
      let (fragment, s) = valid_split f (parts f).1 refl valid in
      let (named, slash) = valid_fragment (parts f).0 fragment (ground arith) in
      record {
        prefixed = e;
        before = (parts f).0;
        fragment = fragment;
        split = ground arith;
        named = named;
        slash = slash;
      }
]

module _ (f : FormaeUri) (form : Form f) where
  open form use {prefixed, before, fragment, split, named, slash}

  Form-ksuid : ksuid f ≡ before
  unfolding ksuid
  Form-ksuid = ground arith

  Form-text : (f ≡ scheme ++ (before ++ b'#' ∷ fragment)) × IsKsuid before
  Form-text =
      let (e, free) = split_2-some b'#' (drop 9 f) before fragment split in
      (has_prefix-drop scheme f prefixed ∙ ap (λ t. scheme ++ t) e, free)

  Form-path : property_path f ≡ path_of_fragment fragment
  unfolding property_path
  Form-path = ground arith

  Form-new :
      (f ≡ new_formae_uri before (path_of_fragment fragment))
      ⊎ (f ≡ scheme ++ (before ++ codes "#/"))
  unfolding new_formae_uri
  Form-new = elim slash [
    | inl e ↦ inl (rw e (rw e at Form-text.0))
    | inr ([], e) ↦ inr (rw e at Form-text.0)
    | inr (c ∷ rest, e) ↦ inl (rw e (rw e at Form-text.0))
  ]

-- Every URI that `IsValid` accepts is what `NewFormaeURI` builds from its KSUID and its property
-- path, but for the one form that ends in `#/`; its KSUID is not empty and holds no `#`.
pub is_valid_form :
    (f : FormaeUri)
    → is_valid f ≡ true
    → (ksuid f ≢ [])
      × IsKsuid (ksuid f)
      × ((f ≡ new_formae_uri (ksuid f) (property_path f)) ⊎ (f ≡ scheme ++ (ksuid f ++ codes "#/")))
is_valid_form f h =
    let form = valid→Form f h in
    rw (Form-ksuid f form, Form-path f form) (form.named, (Form-text f form).1, Form-new f form)

-- `Stripped` forgets the property path and nothing else, and stripping twice changes nothing.
pub stripped-new_formae_uri :
    (k p : Text) → IsKsuid k → stripped (new_formae_uri k p) ≡ new_formae_uri k []
unfolding stripped
stripped-new_formae_uri k p h = ap (λ t. new_formae_uri t []) (ksuid-new_formae_uri k p h)
