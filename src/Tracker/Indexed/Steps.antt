-- ===== src/Tracker/Indexed/Steps.antt =====
-- Every method keeps the index of SSRCs in step with the streams.
use sip_exporter.Prelude.{
  ℕ, ◌≡◌, refl, String, List, [], ◌∷◌, none, some, is_some, arith, nat_key, Option-cases, inl, inr,
}
use sip_exporter.Prelude.Int.{ℤ}
use sip_exporter.Prelude.Assoc.{lookup, insert, lookup-insert, lookup_list, IsMap}
use sip_exporter.Rtp.{Header, codec_name}
use sip_exporter.Stream.{FloatOps}
use sip_exporter.Tracker.{
  Endpoint, endpoint_key, MediaLabels, StreamKey, stream_key, StreamEntry, Tracker, new_tracker,
}
use sip_exporter.Tracker.Index.{cleanup}
use sip_exporter.Tracker.Media.{
  register, register_rtcp, unregister, replace, displace, remove_call_media,
}
use sip_exporter.Tracker.Alias.{learn_source_alias, add_alias}
use sip_exporter.Tracker.Rtp.{
  Match, observe_packet, observe_on, add_stream, new_entry, observe_entry, lookup_labels,
}
use sip_exporter.Tracker.Rtcp.{
  record_rtcp, snapshot, classify_all, select_stream, first_at, only_one, resolve,
}
use sip_exporter.Tracker.Calls.{
  Call, registers, registers_rtcp, unregisters, replaces, learns, observes, cleans, records,
  snapshots, step, steps,
}
use sip_exporter.Tracker.Indexed.{
  Indexed, drop_streams-Indexed, same-Indexed, update-Indexed, added-Indexed,
}

module _ {F : Type 0} where
  displace-Indexed :
      (key : Endpoint) (l : MediaLabels) (t : Tracker F) → Indexed t → Indexed (displace key l t)
  unfolding displace
  displace-Indexed key l t v = drop_streams-Indexed _ t.streams _ (same-Indexed t _ refl refl v)

  register-Indexed :
      (t : Tracker F) (key : Endpoint) (l : MediaLabels) → Indexed t → Indexed (register t key l).0
  unfolding register
  register-Indexed t key l v = elim (Option-cases (lookup key t.media_aliases)) [
    | inl free ↦ rw (free, register) (same-Indexed t _ refl refl v)
    | inr (a, occupied) ↦
        rw (occupied, register)
          (same-Indexed (displace key a t) _ refl refl (displace-Indexed key a t v))
  ]

  register_rtcp-Indexed :
      (t : Tracker F) (key rtp : Endpoint) (c : String)
      → Indexed t
      → Indexed (register_rtcp t key rtp c).0
  unfolding register_rtcp
  register_rtcp-Indexed t key rtp c v = same-Indexed t _ refl refl v

  remove_call_media-Indexed :
      (t : Tracker F) (c : String) → Indexed t → Indexed (remove_call_media t c)
  unfolding remove_call_media
  remove_call_media-Indexed t c v = drop_streams-Indexed _ _ _ (same-Indexed t _ refl refl v)

  unregister-Indexed : (t : Tracker F) (c : String) → Indexed t → Indexed (unregister t c).0
  unfolding unregister
  unregister-Indexed t c v =
      same-Indexed (remove_call_media t c) _ refl refl (remove_call_media-Indexed t c v)

  replace-Indexed : (t : Tracker F) (c : String) → Indexed t → Indexed (replace t c).0
  unfolding replace
  replace-Indexed t c v = remove_call_media-Indexed t c v

  pub learned_streams :
      (t : Tracker F) (c : String) (m s : Endpoint)
      → (learn_source_alias t c m s).0.streams ≡ t.streams
  unfolding learn_source_alias add_alias
  learned_streams t c m s = ground arith

  learned_index :
      (t : Tracker F) (c : String) (m s : Endpoint)
      → (learn_source_alias t c m s).0.ssrc_index ≡ t.ssrc_index
  unfolding learn_source_alias add_alias
  learned_index t c m s = ground arith

  learn_source_alias-Indexed :
      (t : Tracker F) (c : String) (m s : Endpoint)
      → Indexed t
      → Indexed (learn_source_alias t c m s).0
  learn_source_alias-Indexed t c m s v =
      same-Indexed t _ (learned_streams t c m s) (learned_index t c m s) v

  cleanup-Indexed : (t : Tracker F) (now : ℕ) → Indexed t → Indexed (cleanup t now)
  unfolding cleanup
  cleanup-Indexed t now v = drop_streams-Indexed _ t.streams t v

  is_some-classify_all :
      (k : StreamKey) (xs : List (StreamKey × StreamEntry F))
      → is_some (lookup k (classify_all xs)) ≡ is_some (lookup k xs)
  unfolding lookup
  is_some-classify_all k [] = refl
  is_some-classify_all k ((j, e) ∷ xs) = ground (arith, is_some-classify_all k xs)

  classify_all-IsMap : (xs : List (StreamKey × StreamEntry F)) → IsMap xs → IsMap (classify_all xs)
  classify_all-IsMap [] v = v
  classify_all-IsMap ((j, e) ∷ xs) v =
      (ground (arith, v.0, is_some-classify_all j xs), classify_all-IsMap xs v.1)

  snapshot_counted : ⦃fl : FloatOps F⦄ (t : Tracker F) → Indexed t → Indexed (snapshot t).0
  unfolding snapshot
  snapshot_counted t v = record {
    indexed = λ s k. rw (is_some-classify_all k t.streams) (v.indexed s k);
    keyed = classify_all-IsMap t.streams v.keyed;
  }

  first_at_found :
      (ep : Endpoint) (keys : List StreamKey) (streams : List (StreamKey × StreamEntry F))
      (k : StreamKey) (e : StreamEntry F)
      → first_at ep keys streams ≡ some (k, e)
      → lookup k streams ≡ some e
  unfolding first_at
  first_at_found ep [] streams k e h = absurd (ground arith)
  first_at_found ep (j ∷ keys) streams k e h = ground (arith, first_at_found ep keys streams k e)

  only_one_found :
      (keys : List StreamKey) (streams : List (StreamKey × StreamEntry F)) (k : StreamKey)
      (e : StreamEntry F)
      → only_one keys streams ≡ some (k, e)
      → lookup k streams ≡ some e
  unfolding only_one
  only_one_found [] streams k e h = absurd (ground arith)
  only_one_found (j ∷ []) streams k e h = ground arith
  only_one_found (j ∷ l ∷ keys) streams k e h = absurd (ground arith)

  -- A stream that is selected is in the table.
  pub select_stream_found :
      (t : Tracker F) (ssrc : ℕ) (src dst : Endpoint) (k : StreamKey) (e : StreamEntry F)
      → select_stream t ssrc src dst ≡ some (k, e)
      → lookup k t.streams ≡ some e
  unfolding select_stream
  select_stream_found t ssrc src dst k e h =
      let keys = lookup_list ssrc t.ssrc_index in
      ground (
        arith,
        first_at_found (resolve t.rtcp_media dst) keys t.streams k e,
        first_at_found (resolve t.rtcp_media src) keys t.streams k e,
        only_one_found keys t.streams k e,
      )

  pub record_rtcp-Indexed :
      (t : Tracker F) (now ssrc : ℕ) (cumulative : ℤ) (src dst : Endpoint)
      → Indexed t
      → Indexed (record_rtcp t now ssrc cumulative src dst).0
  unfolding record_rtcp
  record_rtcp-Indexed t now ssrc cumulative src dst v =
      elim (Option-cases (select_stream t ssrc src dst)) [
        | inl none_found ↦ rw (none_found, record_rtcp) v
        | inr ((k, e), found) ↦
            rw (found, record_rtcp)
              (update-Indexed t k e _ (select_stream_found t ssrc src dst k e found) v)
      ]

module _ {F : Type 0} ⦃fl : FloatOps F⦄ where
  observe_on-Indexed :
      (t : Tracker F) (key : StreamKey) (entry : StreamEntry F) (m : Match) (src : Endpoint)
      (h : Header) (arrival : ℕ) (codec : String)
      → lookup key t.streams ≡ some entry
      → Indexed t
      → Indexed (observe_on t key entry m src h arrival codec).0
  unfolding observe_on
  observe_on-Indexed t key entry m src h arrival codec found v =
      let after = observe_entry entry h arrival codec in
      let u : Tracker F = record t { streams = insert key after t.streams } in
      same-Indexed u _ (ground (arith, learned_streams u m.labels.call_id m.endpoint src))
        (ground (arith, learned_index u m.labels.call_id m.endpoint src))
        (update-Indexed t key entry after found v)

  add_stream-Indexed :
      (t : Tracker F) (key : StreamKey) (entry : StreamEntry F)
      → lookup key t.streams ≡ none
      → Indexed t
      → Indexed (add_stream t key entry)
  unfolding add_stream
  add_stream-Indexed t key entry absent v =
      same-Indexed _ _ refl refl (added-Indexed t key entry absent v)

  lookup_added :
      (t : Tracker F) (key : StreamKey) (entry : StreamEntry F)
      → lookup key (add_stream t key entry).streams ≡ some entry
  unfolding add_stream
  lookup_added t key entry = ground (arith, lookup-insert key key entry t.streams)

  observe_packet-Indexed :
      (t : Tracker F) (src dst : Endpoint) (h : Header) (arrival : ℕ)
      → Indexed t
      → Indexed (observe_packet t src dst h arrival).0
  unfolding observe_packet
  observe_packet-Indexed t src dst h arrival v = elim (Option-cases (lookup_labels t src dst)) [
    | inl unmatched ↦ rw (unmatched, observe_packet) v
    | inr (m, matched) ↦
        let codec = codec_name h.payload_type m.labels.sdp_codecs in
        let key : StreamKey = record { endpoint = m.endpoint; ssrc = h.ssrc } in
        elim (Option-cases (lookup key t.streams)) [
          | inl absent ↦
              let entry = new_entry h codec m.labels arrival in
              rw (matched, absent, observe_packet)
                (observe_on-Indexed (add_stream t key entry) key entry m src h arrival codec
                  (lookup_added t key entry) (add_stream-Indexed t key entry absent v))
          | inr (entry, present) ↦
              rw (matched, present, observe_packet)
                (observe_on-Indexed t key entry m src h arrival codec present v)
        ]
  ]

  pub step-Indexed : (t : Tracker F) (x : Call) → Indexed t → Indexed (step t x)
  step-Indexed t (registers key l) v = register-Indexed t key l v
  step-Indexed t (registers_rtcp key rtp c) v = register_rtcp-Indexed t key rtp c v
  step-Indexed t (unregisters c) v = unregister-Indexed t c v
  step-Indexed t (replaces c) v = replace-Indexed t c v
  step-Indexed t (learns c m s) v = learn_source_alias-Indexed t c m s v
  step-Indexed t (observes src dst h arrival) v = observe_packet-Indexed t src dst h arrival v
  step-Indexed t (cleans now) v = cleanup-Indexed t now v
  step-Indexed t (records now ssrc n src dst) v = record_rtcp-Indexed t now ssrc n src dst v
  step-Indexed t snapshots v = snapshot_counted t v

  pub steps-Indexed : (t : Tracker F) (xs : List Call) → Indexed t → Indexed (steps t xs)
  steps-Indexed t [] v = v
  steps-Indexed t (x ∷ xs) v = steps-Indexed (step t x) xs (step-Indexed t x v)

  pub new_tracker-Indexed : (ttl : ℕ) → Indexed {F = F} (new_tracker ttl)
  unfolding lookup
  new_tracker-Indexed ttl = record { indexed = λ s k. ground arith; keyed = tt }
