-- ===== src/Changeset/ResolveCache.antt =====
-- internal/metastructure/changeset/resolve_cache.go: the actor that resolves the values of a changeset
-- and keeps the properties that it has read.
pub mod Runs
use formae.Prelude.{Bool, true, false, Option, none, some, List, ◌∷◌, [], Text, if◌then◌else◌}
use formae.Model.Uri.{FormaeUri, stripped, property_path}
use formae.Model.Resource.{Resource}
use formae.Model.Forma.{Target, same}
use formae.Plugin.Progress.{ProgressResult}
use formae.FormaPersister.Calls.{has_opaque_values}

-- The map from stripped URIs to JSON documents, the last entry first.
abbrev pub Cache : Type 0
Cache = List (FormaeUri × Text)

unfoldable pub lookup : FormaeUri → Cache → Option Text
lookup u [] = none
lookup u ((k, d) ∷ c) = if same k u then some d else lookup u c

-- What the other actors answer: the resource persister, the supervisor of the plugin operators, and the
-- operator; an error, or an answer of another type, is `none` or false.
pub record World : Type 0 where
  pub load_resource : FormaeUri → Option (Resource × Target)
  pub ensure_plugin_operator : FormaeUri → Bool
  pub read_resource : Resource → Target → Option ProgressResult

pub data Message : Type 0 where
  resolve_value : FormaeUri → Message
  shutdown : Message
  other : Message

pub data Reply : Type 0 where
  value_resolved : FormaeUri → Text → Reply
  failed_to_resolve_value : FormaeUri → Reply
  terminated : Reply
  nothing : Reply

-- JSON: the value at a path, and the properties that a plugin read with the metadata of opaque values that
-- the stored ones have.
module _ (get : Text → Text → Option Text) (with_metadata : Text → Text → Text) where
  unfoldable pub preserve_ref_metadata : Resource → Text → Text
  unfolding has_opaque_values
  preserve_ref_metadata original properties =
      if has_opaque_values original.properties
      then with_metadata original.properties properties
      else properties

  -- The rest of `resolveValue`, from what the persister and the operator answered. The status of the
  -- progress is not looked at.
  abbrev pub remember : FormaeUri → Resource → Option ProgressResult → Cache → Cache × Option Text
  unfolding preserve_ref_metadata
  remember u r none c = (c, none)
  remember u r (some p) c =
      let document = preserve_ref_metadata r p.resource_properties in
      ((stripped u, document) ∷ c, get document (property_path u))

  abbrev pub read : World → FormaeUri → Option (Resource × Target) → Cache → Cache × Option Text
  unfolding remember
  read w u none c = (c, none)
  read w u (some (r, t)) c =
      if w.ensure_plugin_operator (stripped u)
      then remember u r (w.read_resource r t) c
      else (c, none)

  abbrev pub resolve_from : World → FormaeUri → Option Text → Cache → Cache × Option Text
  unfolding read property_path
  resolve_from w u (some document) c = (c, get document (property_path u))
  resolve_from w u none c = read w u (w.load_resource (stripped u)) c

  unfoldable pub resolve_value_of : World → FormaeUri → Cache → Cache × Option Text
  unfolding resolve_from lookup stripped
  resolve_value_of w u c = resolve_from w u (lookup (stripped u) c) c

  abbrev pub response : FormaeUri → Option Text → Reply
  response u none = failed_to_resolve_value u
  response u (some v) = value_resolved u v

  unfoldable pub handle_message : World → Message → Cache → Cache × Reply
  unfolding resolve_value_of
  handle_message w (resolve_value u) c = let (c', o) = resolve_value_of w u c in (c', response u o)
  handle_message w shutdown c = (c, terminated)
  handle_message w other c = (c, nothing)
