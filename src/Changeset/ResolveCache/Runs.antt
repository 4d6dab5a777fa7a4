-- ===== src/Changeset/ResolveCache/Runs.antt =====
-- The first read of a resource in the resolve cache, and the later requests for its values.
use formae.Prelude.{
  ◌≡◌, ◌≢◌, refl, ap, ◌∙◌, Bool, true, false, Option, none, some, List, ◌∷◌, [], Text,
  text_discrete, if_pos, if_neg, if◌then◌else◌,
}
use formae.Model.Uri.{FormaeUri, stripped, property_path}
use formae.Model.Resource.{Resource}
use formae.Model.Forma.{Target}
use formae.Plugin.Progress.{ProgressResult}
use formae.Changeset.ResolveCache.{
  Cache, lookup, World, Message, Reply, resolve_value, shutdown, other, preserve_ref_metadata,
  remember, read, resolve_from, resolve_value_of, response, handle_message,
}

lookup-here : (u : FormaeUri) (d : Text) (c : Cache) → lookup u ((u, d) ∷ c) ≡ some d
unfolding lookup
lookup-here u d c =
    ap (λ b. if b then some d else lookup u c) (if_pos (text_discrete u u) refl true false)

lookup-skip : (k u : FormaeUri) (d : Text) (c : Cache) → k ≢ u → lookup u ((k, d) ∷ c) ≡ lookup u c
unfolding lookup
lookup-skip k u d c n =
    ap (λ b. if b then some d else lookup u c) (if_neg (text_discrete k u) n true false)

-- What is found for a URI in the first cache is found in the second one.
abbrev IsExtended : Cache → Cache → Type 0
IsExtended c c' = (u : FormaeUri) (d : Text) → lookup u c ≡ some d → lookup u c' ≡ some d

-- An entry for a URI that has none.
added-IsExtended :
    (u : FormaeUri) (d : Text) (c : Cache) → lookup u c ≡ none → IsExtended c ((u, d) ∷ c)
unfolding lookup
added-IsExtended u d c n v e q = elim (text_discrete u v) [
  | yes p ↦ cc
  | no np ↦ lookup-skip u v d c np ∙ q
]

same-IsExtended : (c : Cache) → IsExtended c c
same-IsExtended c u d q = q

module _ (get : Text → Text → Option Text) (with_metadata : Text → Text → Text) where
  read-IsExtended :
      (w : World) (u : FormaeUri) (o : Option (Resource × Target)) (c : Cache)
      → lookup (stripped u) c ≡ none
      → IsExtended c (read get with_metadata w u o c).0
  unfolding read
  read-IsExtended w u none c n = same-IsExtended c
  read-IsExtended w u (some (r, t)) c n = chosen (w.ensure_plugin_operator (stripped u))
    where
      remembered : (o : Option ProgressResult) → IsExtended c (remember get with_metadata u r o c).0
      remembered none = same-IsExtended c
      remembered (some p) =
          added-IsExtended (stripped u)
            (preserve_ref_metadata get with_metadata r p.resource_properties) c n

      chosen :
          (b : Bool)
          → IsExtended c
              (if b then remember get with_metadata u r (w.read_resource r t) c else (c, none)).0
      chosen true = remembered (w.read_resource r t)
      chosen false = same-IsExtended c

  handle_message-IsExtended :
      (w : World) (m : Message) (c : Cache)
      → IsExtended c (handle_message get with_metadata w m c).0
  unfolding handle_message resolve_value_of
  handle_message-IsExtended w shutdown c = same-IsExtended c
  handle_message-IsExtended w other c = same-IsExtended c
  handle_message-IsExtended w (resolve_value u) c = chosen (lookup (stripped u) c) refl
    where
      chosen :
          (o : Option Text)
          → lookup (stripped u) c ≡ o
          → IsExtended c (resolve_from get with_metadata w u o c).0
      chosen (some d) e = same-IsExtended c
      chosen none e = read-IsExtended w u (w.load_resource (stripped u)) c e

  -- A run: each message comes with what the other actors answer at that time.
  abbrev pub run : List (World × Message) → Cache → Cache
  unfolding handle_message
  run [] c = c
  run ((w, m) ∷ steps) c = run steps (handle_message get with_metadata w m c).0

  run-IsExtended : (steps : List (World × Message)) (c : Cache) → IsExtended c (run steps c)
  unfolding run
  run-IsExtended [] c u d q = q
  run-IsExtended ((w, m) ∷ steps) c u d q =
      run-IsExtended steps (handle_message get with_metadata w m c).0 u d
        (handle_message-IsExtended w m c u d q)

  -- A request for a value when the cache has no entry for the resource, and the operator answers to the read.
  pub record IsRead (w : World) (u : FormaeUri) (c : Cache) (document : Text) : Type 0 where
    pub resource : Resource
    pub target : Target
    pub progress : ProgressResult
    pub unread : lookup (stripped u) c ≡ none
    pub was_loaded : w.load_resource (stripped u) ≡ some (resource, target)
    pub ensured : w.ensure_plugin_operator (stripped u) ≡ true
    pub answered : w.read_resource resource target ≡ some progress
    pub kept :
        document ≡ preserve_ref_metadata get with_metadata resource progress.resource_properties

  resolve_value_of-IsRead :
      (w : World) (u : FormaeUri) (c : Cache) (document : Text)
      → IsRead w u c document
      → resolve_value_of get with_metadata w u c
        ≡ ((stripped u, document) ∷ c, get document (property_path u))
  unfolding resolve_value_of
  resolve_value_of-IsRead w u c document h =
      rw h.unread (rw h.was_loaded (rw h.ensured (rw h.answered (rw h.kept refl))))

  resolve_value_of-found :
      (w : World) (u : FormaeUri) (c : Cache) (document : Text)
      → lookup (stripped u) c ≡ some document
      → resolve_value_of get with_metadata w u c ≡ (c, get document (property_path u))
  unfolding resolve_value_of
  resolve_value_of-found w u c document h = rw h refl

  -- The first read of a resource that the operator answers, whatever the status of its progress, gives the
  -- reply to the request. After any later messages, whatever the other actors answer to them, a request
  -- for a value of the resource is answered from that read, and changes nothing in the cache.
  pub run-IsAnswered :
      (steps : List (World × Message)) (c : Cache) (w later : World) (u v : FormaeUri)
      (document : Text)
      → IsRead w u c document
      → stripped v ≡ stripped u
      → ((handle_message get with_metadata w (resolve_value u) c).1
          ≡ response get with_metadata u (get document (property_path u)))
        × (let c' = run steps (handle_message get with_metadata w (resolve_value u) c).0 in
            handle_message get with_metadata later (resolve_value v) c'
            ≡ (c', response get with_metadata v (get document (property_path v))))
  unfolding handle_message
  run-IsAnswered steps c w later u v document h e = rw (resolve_value_of-IsRead w u c document h) (
    refl,
    ap reply (
        resolve_value_of-found later v (run steps first) document (
          rw e (
            run-IsExtended steps first (stripped u) document
              (lookup-here (stripped u) document c)))),
  )
    where
      first : Cache
      first = (stripped u, document) ∷ c

      reply : Cache × Option Text → Cache × Reply
      reply (c', o) = (c', response get with_metadata v o)
