-- ===== src/Tracker/Alias.antt =====
-- Source-port aliases: `LearnSourceAlias`.
use sip_exporter.Prelude.{
  Bool, true, false, not, ◌&&◌, ◌||◌, String, List, [], ◌∷◌, Option, none, some, some_or, is_some,
  ite, ◌==◌, if◌then◌else◌, length, string_key, String-discrete,
}
use sip_exporter.Prelude.Assoc.{lookup, insert, lookup_list}
use sip_exporter.Tracker.{
  Endpoint, Endpoint-discrete, endpoint_key, same_ip, Tracker, alias_endpoint_count,
}
use sip_exporter.Tracker.Media.{no_labels}

-- The peer of the matched endpoint, where there are two and one of them is matched.
unfoldable pub peer_of : Endpoint → List Endpoint → Option Endpoint
peer_of matched (first ∷ second ∷ []) =
    ite (Endpoint-discrete first matched) (some second)
      (ite (Endpoint-discrete second matched) (some first) none)
peer_of matched other = none

-- `len(owners) == 1 && owners[0] == callID`
abbrev pub sole_owner : String → List String → Bool
sole_owner c [] = false
sole_owner c (o ∷ []) = ite (String-discrete o c) true false
sole_owner c (o ∷ p ∷ owners) = false

module _ {F : Type 0} where
  unfoldable pub can_learn_source_alias : Tracker F → String → Endpoint → Bool
  can_learn_source_alias t c matched = sole_owner c (lookup_list matched t.media_owners)

  -- The tests on the peer and the source.
  unfoldable pub may_alias : Tracker F → String → Endpoint → Endpoint → Bool
  may_alias t c peer source =
      same_ip peer source
      && (not (peer.port == source.port)
          && (not (is_some (lookup source t.media))
              && (not (is_some (lookup source t.media_aliases))
                  && not (is_some (lookup peer (lookup_list c t.source_aliases))))))

  unfoldable pub add_alias : Tracker F → String → Endpoint → Endpoint → Tracker F
  add_alias t c peer source = record t {
    source_aliases =
        insert c (insert peer source (lookup_list c t.source_aliases)) t.source_aliases;
    media_aliases =
        insert source (some_or (lookup peer (lookup_list c t.call_media)) no_labels)
          t.media_aliases;
  }

  -- `learnSourceAlias`: the alias is the source.
  unfoldable pub learn_source_alias :
      Tracker F → String → Endpoint → Endpoint → Tracker F × Option Endpoint
  unfolding peer_of can_learn_source_alias may_alias add_alias
  learn_source_alias t c matched source =
      let endpoints = lookup_list c t.call_media_order in
      if not (length endpoints == alias_endpoint_count) || not (can_learn_source_alias t c matched)
      then (t, none)
      else elim (peer_of matched endpoints) [
        | none ↦ (t, none)
        | some peer ↦
            if may_alias t c peer source
            then (add_alias t c peer source, some source)
            else (t, none)
      ]
