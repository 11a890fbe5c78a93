-- ===== src/Tracker/Resolution.antt =====
-- What endpoints resolve to when a source alias is learned.
use sip_exporter.Prelude.{
  ◌≡◌, ◌≢◌, ◌∙◌, ap, refl, true, String, none, some, some_or, ite, arith, Option-cases, inl, inr,
  string_key,
}
use sip_exporter.Prelude.Assoc.{lookup, lookup_list, lookup-insert}
use sip_exporter.Tracker.{
  Endpoint, Endpoint-discrete, endpoint_key, same_ip, MediaLabels, stream_key, Tracker,
}
use sip_exporter.Tracker.Media.{no_labels}
use sip_exporter.Tracker.Alias.{peer_of, may_alias, add_alias, learn_source_alias}
use sip_exporter.Tracker.Rtp.{lookup_endpoint}

module _ {F : Type 0} where
  pub same_lookup :
      (t u : Tracker F) (k : Endpoint)
      → u.media ≡ t.media
      → u.media_aliases ≡ t.media_aliases
      → lookup_endpoint u k ≡ lookup_endpoint t k
  unfolding lookup_endpoint
  same_lookup t u k media aliases = rw (media, aliases) refl

  -- What a learned alias is: the source of the packet, an address that resolved to nothing before, at
  -- the address of the other of the dialog's two endpoints with another port.
  pub record LearnedAlias (t : Tracker F) (c : String) (matched source a : Endpoint) : Type 0 where
    pub is_source : a ≡ source
    pub was_free : lookup_endpoint t source ≡ none
    pub peer : Endpoint
    pub is_peer : peer_of matched (lookup_list c t.call_media_order) ≡ some peer
    pub at_peer : same_ip peer source ≡ true
    pub other_port : peer.port ≢ source.port
    pub resolves_as :
        lookup_endpoint (learn_source_alias t c matched source).0 source
        ≡ some (some_or (lookup peer (lookup_list c t.call_media)) no_labels)

  free_source :
      (t : Tracker F) (c : String) (peer source : Endpoint)
      → may_alias t c peer source ≡ true
      → (lookup source t.media ≡ none)
        × (lookup source t.media_aliases ≡ none)
        × (same_ip peer source ≡ true)
        × (peer.port ≢ source.port)
  unfolding may_alias
  free_source t c peer source h =
      (ground (arith, h), ground (arith, h), ground (arith, h), ground (arith, h))

  learned_iff :
      (t : Tracker F) (c : String) (matched source a : Endpoint)
      → (learn_source_alias t c matched source).1 ≡ some a
      → (peer : Endpoint) × (peer_of matched (lookup_list c t.call_media_order) ≡ some peer)
        × (may_alias t c peer source ≡ true)
        × (a ≡ source)
        × ((learn_source_alias t c matched source).0 ≡ add_alias t c peer source)
  unfolding learn_source_alias
  learned_iff t c matched source a h =
      elim (Option-cases (peer_of matched (lookup_list c t.call_media_order))) [
        | inl unknown ↦ absurd (ground (arith, h, unknown))
        | inr (peer, known) ↦
            let allowed : may_alias t c peer source ≡ true = ground (arith, h, known) in
            (peer, known, allowed, ground (arith, h, known), ground (arith, h, known))
      ]

  unlearned :
      (t : Tracker F) (c : String) (matched source : Endpoint)
      → (learn_source_alias t c matched source).1 ≡ none
      → (learn_source_alias t c matched source).0 ≡ t
  unfolding learn_source_alias
  unlearned t c matched source h =
      elim (Option-cases (peer_of matched (lookup_list c t.call_media_order))) [
        | inl unknown ↦ ground (arith, unknown)
        | inr (peer, known) ↦ ground (arith, h, known)
      ]

  lookup_endpoint-add_alias :
      (t : Tracker F) (c : String) (peer source k : Endpoint)
      → lookup_endpoint t source ≡ none
      → lookup_endpoint (add_alias t c peer source) k
        ≡ ite
            (Endpoint-discrete source k)
            (some (some_or (lookup peer (lookup_list c t.call_media)) no_labels))
            (lookup_endpoint t k)
  unfolding lookup_endpoint add_alias
  lookup_endpoint-add_alias t c peer source k free = ground (
    arith,
    free,
    lookup-insert source k (some_or (lookup peer (lookup_list c t.call_media)) no_labels)
        t.media_aliases,
  )

  free_endpoint :
      (t : Tracker F) (c : String) (peer source : Endpoint)
      → may_alias t c peer source ≡ true
      → lookup_endpoint t source ≡ none
  unfolding lookup_endpoint
  free_endpoint t c peer source h =
      let (free, free_alias, address, port) = free_source t c peer source h in
      ground (arith, free, free_alias)

  pub lookup_endpoint-kept :
      (t : Tracker F) (c : String) (matched source k : Endpoint) (l : MediaLabels)
      → lookup_endpoint t k ≡ some l
      → lookup_endpoint (learn_source_alias t c matched source).0 k ≡ some l
  lookup_endpoint-kept t c matched source k l h =
      elim (Option-cases (learn_source_alias t c matched source).1) [
        | inl nothing ↦ ap (λ u. lookup_endpoint u k) (unlearned t c matched source nothing) ∙ h
        | inr (a, learned) ↦
            let (peer, known, allowed, same, added) = learned_iff t c matched source a learned in
            let free = free_endpoint t c peer source allowed in
            let after = lookup_endpoint-add_alias t c peer source k free in
            ap (λ u. lookup_endpoint u k) added ∙ ground (arith, h, free, after)
      ]

  -- A source alias that is learned is the source of the packet, which resolved to nothing before; it
  -- lies at the address of the other of the dialog's two endpoints under another port, and resolves
  -- to what the dialog registered for that endpoint.
  pub learn_source_alias_learned :
      (t : Tracker F) (c : String) (matched source a : Endpoint)
      → (learn_source_alias t c matched source).1 ≡ some a
      → LearnedAlias t c matched source a
  learn_source_alias_learned t c matched source a h =
      let (peer, known, allowed, same, added) = learned_iff t c matched source a h in
      let free = free_endpoint t c peer source allowed in
      let (unregistered, unlearned, address, port) = free_source t c peer source allowed in
      record {
        is_source = same;
        was_free = free;
        peer = peer;
        is_peer = known;
        at_peer = address;
        other_port = port;
        resolves_as =
            ap (λ u. lookup_endpoint u source) added
            ∙ ground (arith, lookup_endpoint-add_alias t c peer source source free);
      }
